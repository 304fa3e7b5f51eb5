-- ===== src/SchemaRegistry/Roundtrip.antt =====
-- A value that was encoded is decoded again by the same codec, without asking the registry.
use mathlib.Core.Path.{subst}
use event_driven_tests_ai.Common.{
  ℕ, ◌+◌, ◌<◌, String, List, ◌++◌, ◌≡◌, refl, sym, ap, ◌∙◌, arith, if◌then◌else◌, ltb, ◌||◌, ◌==◌,
  string_comparable, nat_comparable, nat_beq_iff, Bool, true, false, Option, none, some, Bool-cases,
  inl, inr,
}
use event_driven_tests_ai.Common.Int.{pos}
use event_driven_tests_ai.Common.Dict.{eq_refl, lookup, insert, lookup-insert}
use event_driven_tests_ai.Events.{Time, is_zero}
use event_driven_tests_ai.SchemaRegistry.{encode_header, uint32}
use event_driven_tests_ai.SchemaRegistry.Header.{parse_header-encode_header}
use event_driven_tests_ai.SchemaRegistry.Codec.{
  Answer, found, failed, Schema, Handler, Registry, Entry, Codec, build_handler, keep_latest,
  fetch_latest, from_cache, handler_for_subject, handler_for_id, with_header, encode_by, encode,
  decode_parsed, decode,
}

-- An id stands for one schema: whatever the registry gives as the latest schema of a subject, its
-- handler is the one of its id, and ids fit in the header.
pub record IsImmutable {V : Type 0} (reg : Registry V) (handler : ℕ → Handler V) : Type 0 where
  pub same :
      (subject : String) (s : Schema) (h : Handler V)
      → reg.get_latest_version subject ≡ found s
      → build_handler reg s ≡ found h
      → h ≡ handler s.id
  pub fits :
      (subject : String) (s : Schema) → reg.get_latest_version subject ≡ found s → s.id < 4294967296

-- The caches hold the handlers of the ids, and each subject's handler under its id.
pub record IsCoherent {V : Type 0} (handler : ℕ → Handler V) (c : Codec V) : Type 0 where
  pub by_sub :
      (subject : String) (e : Entry V)
      → lookup subject c.by_sub ≡ some e
      → (lookup e.id c.by_id ≡ some (handler e.id))
        × (e.handler ≡ handler e.id)
        × (e.id < 4294967296)
  pub by_id : (id : ℕ) (h : Handler V) → lookup id c.by_id ≡ some h → h ≡ handler id

module _ {V : Type 0} (reg : Registry V) (handler : ℕ → Handler V) where
  -- The outcome of looking up a subject: the codec stays coherent, and knows the entry by its id.
  abbrev pub IsKnown : Answer (Entry V) × Codec V → Type 0
  IsKnown (failed e, c) = IsCoherent handler c
  IsKnown (found e, c) =
      IsCoherent handler c
      × (lookup e.id c.by_id ≡ some (handler e.id))
      × (e.handler ≡ handler e.id)
      × (e.id < 4294967296)

  kept :
      (i j : ℕ) (g : Handler V) (c : Codec V)
      → g ≡ handler i
      → lookup j c.by_id ≡ some (handler j)
      → lookup j (insert i g c.by_id) ≡ some (handler j)
  kept i j g c owner e = elim (Bool-cases (i == j)) [
    | inl this ↦
        lookup-insert i j g c.by_id
        ∙ rw this (ap some (owner ∙ ap handler ((nat_beq_iff i j).0 this)))
    | inr other ↦ lookup-insert i j g c.by_id ∙ rw other e
  ]

  keep_latest-IsKnown :
      (now : Time) (subject : String) (s : Schema) (o : Answer (Handler V)) (c : Codec V)
      → IsImmutable reg handler
      → reg.get_latest_version subject ≡ found s
      → build_handler reg s ≡ o
      → IsCoherent handler c
      → IsKnown (keep_latest reg now subject s o c)
  keep_latest-IsKnown now subject s (failed e) c im latest built h = h
  keep_latest-IsKnown now subject s (found g) c im latest built h =
      let e : Entry V = record {
        id = s.id;
        handler = g;
        expires = if ltb 0 c.ttl then now + c.ttl else 0;
      } in
      let owner = im.same subject s g latest built in
      let c' : Codec V = record c {
        by_sub = insert subject e c.by_sub;
        by_id = insert s.id g c.by_id;
      } in
      let known : lookup s.id c'.by_id ≡ some (handler s.id) =
        lookup-insert s.id s.id g c.by_id ∙ rw (eq_refl s.id) (ap some owner) in
      (
        record {
          by_sub = λ sub f at. elim (Bool-cases (subject == sub)) [
            | inl this ↦
                let eq : e ≡ f = ground (arith, lookup-insert subject sub e c.by_sub, at, this) in
                subst
                  (λ x.
                    (lookup x.id c'.by_id ≡ some (handler x.id))
                    × (x.handler ≡ handler x.id)
                    × (x.id < 4294967296))
                  eq (known, owner, im.fits subject s latest)
            | inr other ↦
                let k =
                  h.by_sub sub f
                    (ground (arith, lookup-insert subject sub e c.by_sub, at, other)) in
                (kept s.id f.id g c owner k.0, k.1, k.2)
          ];
          by_id = λ id k at. ground (
            arith,
            lookup-insert s.id id g c.by_id,
            at,
            h.by_id id k,
            owner,
            nat_beq_iff s.id id,
          );
        },
        known,
        owner,
        im.fits subject s latest,
      )

  fetch_latest-IsKnown :
      (now : Time) (subject : String) (o : Answer Schema) (c : Codec V)
      → IsImmutable reg handler
      → reg.get_latest_version subject ≡ o
      → IsCoherent handler c
      → IsKnown (fetch_latest reg now subject o c)
  fetch_latest-IsKnown now subject (failed e) c im latest h = h
  fetch_latest-IsKnown now subject (found s) c im latest h =
      keep_latest-IsKnown now subject s (build_handler reg s) c im latest refl h

  if-IsKnown :
      (b : Bool) (x y : Answer (Entry V) × Codec V)
      → IsKnown x
      → IsKnown y
      → IsKnown (if b then x else y)
  if-IsKnown true x y h k = h
  if-IsKnown false x y h k = k

  from_cache-IsKnown :
      (o : Option (Entry V)) (now : Time) (subject : String) (c : Codec V)
      → IsImmutable reg handler
      → lookup subject c.by_sub ≡ o
      → IsCoherent handler c
      → IsKnown (from_cache reg o now subject c)
  from_cache-IsKnown none now subject c im e h =
      fetch_latest-IsKnown now subject (reg.get_latest_version subject) c im refl h
  from_cache-IsKnown (some entry) now subject c im e h =
      let k = h.by_sub subject entry e in
      if-IsKnown (is_zero entry.expires || ltb now entry.expires) _ _ (h, k.0, k.1, k.2)
        (fetch_latest-IsKnown now subject (reg.get_latest_version subject) c im refl h)

  decode-body :
      (id : ℕ) (v : V) (body : List ℕ) (c : Codec V)
      → id < 4294967296
      → lookup id c.by_id ≡ some (handler id)
      → (handler id).decode body ≡ found v
      → decode reg (encode_header (pos id) ++ body) c ≡ (found v, c)
  unfolding decode decode_parsed handler_for_id
  decode-body id v body c small known read =
      let whole : uint32 (pos id) ≡ id = omega (arith, small) in
      rw (parse_header-encode_header, whole, known, read) refl

  decode-with_header :
      (o : Answer (List ℕ)) (e : Entry V) (v : V) (bytes : List ℕ) (c : Codec V)
      → e.id < 4294967296
      → lookup e.id c.by_id ≡ some (handler e.id)
      → ((b : List ℕ) → o ≡ found b → (handler e.id).decode b ≡ found v)
      → with_header reg e.id o ≡ found bytes
      → decode reg bytes c ≡ (found v, c)
  decode-with_header (failed x) e v bytes c small known law enc = ground (arith, enc)
  decode-with_header (found body) e v bytes c small known law enc =
      let eq : encode_header (pos e.id) ++ body ≡ bytes = ground (arith, enc) in
      subst (λ bs. decode reg bs c ≡ (found v, c)) eq
        (decode-body e.id v body c small known (law body refl))

  decode-known :
      (x : Answer (Entry V) × Codec V) (v : V) (bytes : List ℕ)
      → ((id : ℕ) (b : List ℕ) → (handler id).encode v ≡ found b → (handler id).decode b ≡ found v)
      → IsKnown x
      → encode_by reg x.0 v ≡ found bytes
      → decode reg bytes x.1 ≡ (found v, x.1)
  decode-known (failed e, c) v bytes law k enc = ground (arith, enc)
  decode-known (found e, c) v bytes law k enc =
      decode-with_header (e.handler.encode v) e v bytes c k.3 k.1
        (λ b o. law e.id b (ap (λ h. h.encode v) (sym k.2) ∙ o)) enc

  -- A value that the codec encoded for a subject, from the registry or from its cache, is decoded
  -- by it to the same value, and the decoding asks nothing of the registry and changes nothing. An
  -- id must stand for one schema, the caches must hold what they should, and each format must read
  -- back what it wrote.
  pub decode-encode :
      (now : Time) (subject : String) (v : V) (bytes : List ℕ) (c : Codec V)
      → IsImmutable reg handler
      → IsCoherent handler c
      → ((id : ℕ) (b : List ℕ) → (handler id).encode v ≡ found b → (handler id).decode b ≡ found v)
      → (encode reg now subject v c).0 ≡ found bytes
      → decode reg bytes (encode reg now subject v c).1 ≡ (found v, (encode reg now subject v c).1)
  unfolding encode handler_for_subject
  decode-encode now subject v bytes c im h law enc =
      decode-known (from_cache reg (lookup subject c.by_sub) now subject c) v bytes law
        (from_cache-IsKnown (lookup subject c.by_sub) now subject c im refl h) enc
