-- ===== src/Storage/Tokens/Agreeing.antt =====
-- The two indexes of the tokens, and what issuing and revoking do to each.
use event_driven_tests_ai.Common.{
  String, arith, if◌then◌else◌, ◌==◌, string_comparable, ◌≡◌, ◌≢◌, refl, sym, Option, none, some,
  Bool-cases, false, Option-cases, inl, inr, eq_iff,
}
use event_driven_tests_ai.Common.Dict.{lookup, lookup-insert, lookup-remove}
use event_driven_tests_ai.Storage.{Result, ok, err, not_found, Token, MemStore}
use event_driven_tests_ai.Storage.Tokens.{issued, revoked, found, hide}

-- The two indexes name the same tokens.
pub record Agrees {F : Type 0} (s : MemStore F) : Type 0 where
  pub kept :
      (id digest : String) → lookup id s.tokens_by_id ≡ some digest → lookup digest s.tokens ≢ none
  pub by_id :
      (id digest : String) (t : Token)
      → lookup id s.tokens_by_id ≡ some digest
      → lookup digest s.tokens ≡ some t
      → t.id ≡ id
  pub by_digest :
      (digest : String) (t : Token)
      → lookup digest s.tokens ≡ some t
      → lookup t.id s.tokens_by_id ≡ some digest

-- The answer of a lookup when one id is revoked.
abbrev pub without : String → Result Token → Result Token
without id (ok t) = if t.id == id then err not_found else ok t
without id (err e) = err e

pub lookup-issued :
    {F : Type 0} (o : Option Token) (tok : Token) (digest other : String) (s : MemStore F)
    → lookup digest s.tokens ≡ o
    → found (lookup other (issued o tok digest s).1.tokens) ≡ (
        if digest == other
        then ok (hide (issued o tok digest s).0)
        else found (lookup other s.tokens))
lookup-issued none tok digest other s e = ground (arith, lookup-insert digest other tok s.tokens)
lookup-issued (some t) tok digest other s e = elim (Bool-cases (digest == other)) [
  | inl same ↦ rw (same, sym ((eq_iff digest other).0 same), e) refl
  | inr different ↦ rw different refl
]

pub lookup-issued_other :
    {F : Type 0} (o : Option Token) (tok : Token) (digest other : String) (s : MemStore F)
    → (digest == other) ≡ false
    → lookup other (issued o tok digest s).1.tokens ≡ lookup other s.tokens
lookup-issued_other none tok digest other s different =
    ground (arith, lookup-insert digest other tok s.tokens, different)
lookup-issued_other (some t) tok digest other s different = refl

pub lookup-revoked :
    {F : Type 0} (o : Option String) (id digest : String) (s : MemStore F)
    → Agrees s
    → lookup id s.tokens_by_id ≡ o
    → found (lookup digest (revoked o id s).1.tokens) ≡ without id (found (lookup digest s.tokens))
lookup-revoked none id digest s h e = elim (Option-cases (lookup digest s.tokens)) [
  | inl absent ↦ rw absent refl
  | inr (t, present) ↦ rw present ground (arith, h.by_digest digest t present, eq_iff t.id id, e)
]
lookup-revoked (some d) id digest s h e = elim (Option-cases (lookup digest s.tokens)) [
  | inl absent ↦ rw (lookup-remove, absent) (ground arith)
  | inr (t, present) ↦
      rw (lookup-remove, present) ground
        (
          arith,
          h.by_digest digest t present,
          h.by_id id d t e,
          present,
          eq_iff t.id id,
          eq_iff d digest,
          e,
        )
]

pub issued-Agrees :
    {F : Type 0} (o : Option Token) (tok : Token) (digest : String) (s : MemStore F)
    → lookup digest s.tokens ≡ o
    → lookup tok.id s.tokens_by_id ≡ none
    → Agrees s
    → Agrees (issued o tok digest s).1
issued-Agrees (some t) tok digest s e new h = h
issued-Agrees none tok digest s e new h = record {
  kept = λ id d k. ground (
    arith,
    lookup-insert digest d tok s.tokens,
    lookup-insert tok.id id digest s.tokens_by_id,
    h.kept id d,
    k,
    eq_iff digest d,
    eq_iff tok.id id,
  );
  by_id = λ id d t k l. ground (
    arith,
    lookup-insert digest d tok s.tokens,
    lookup-insert tok.id id digest s.tokens_by_id,
    h.kept id d,
    h.by_id id d t,
    k,
    l,
    e,
    eq_iff digest d,
    eq_iff tok.id id,
  );
  by_digest = λ d t l. ground (
    arith,
    lookup-insert digest d tok s.tokens,
    lookup-insert tok.id t.id digest s.tokens_by_id,
    h.by_digest d t,
    l,
    e,
    new,
    eq_iff digest d,
    eq_iff tok.id t.id,
  );
}

pub revoked-Agrees :
    {F : Type 0} (o : Option String) (id : String) (s : MemStore F)
    → lookup id s.tokens_by_id ≡ o
    → Agrees s
    → Agrees (revoked o id s).1
revoked-Agrees none id s e h = h
revoked-Agrees (some digest) id s e h = record {
  kept = λ i d k. elim (Option-cases (lookup d s.tokens)) [
    | inl absent ↦ ground (arith, lookup-remove id i s.tokens_by_id, h.kept i d, k, absent)
    | inr (t, present) ↦ ground (
      arith,
      lookup-remove digest d s.tokens,
      lookup-remove id i s.tokens_by_id,
      h.by_id i d t,
      h.by_id id d t,
      k,
      present,
      e,
      eq_iff digest d,
      eq_iff id i,
    )
  ];
  by_id = λ i d t k l. ground (
    arith,
    lookup-remove digest d s.tokens,
    lookup-remove id i s.tokens_by_id,
    h.by_id i d t,
    k,
    l,
    eq_iff digest d,
    eq_iff id i,
  );
  by_digest = λ d t l. ground (
    arith,
    lookup-remove digest d s.tokens,
    lookup-remove id t.id s.tokens_by_id,
    h.by_digest d t,
    h.by_id id digest,
    l,
    e,
    eq_iff digest d,
    eq_iff id t.id,
  );
}
