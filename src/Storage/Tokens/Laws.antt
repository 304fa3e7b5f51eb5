-- ===== src/Storage/Tokens/Laws.antt =====
-- Issuing, looking up and revoking tokens.
use Prim.Native.String.{◌++◌ as str_append}
use event_driven_tests_ai.Common.{
  String, if◌then◌else◌, ◌==◌, string_comparable, ◌≡◌, refl, none, false,
}
use event_driven_tests_ai.Common.Dict.{eq_refl, lookup, lookup-insert}
use event_driven_tests_ai.Events.{Time}
use event_driven_tests_ai.Storage.{ok, Role, MemStore}
use event_driven_tests_ai.Storage.Tokens.{issue_locked, lookup_token, revoke_token, hide}
use event_driven_tests_ai.Storage.Tokens.Agreeing.{
  Agrees, without, lookup-issued, lookup-issued_other, lookup-revoked, issued-Agrees,
  revoked-Agrees,
}

module _ {F : Type 0} (hash_token : String → String) where
  -- Whether or not the plaintext was known before, after issuing it a lookup finds the token that
  -- was returned, without its plaintext; a text with another digest is looked up as before.
  pub lookup_token-issue_locked :
      (fresh : String) (now : Time) (plaintext : String) (role : Role) (note : String)
      (s : MemStore F) (other : String)
      → lookup_token hash_token other (issue_locked hash_token fresh now plaintext role note s).1
        ≡ (if hash_token plaintext == hash_token other
            then ok (hide (issue_locked hash_token fresh now plaintext role note s).0)
            else lookup_token hash_token other s)
  unfolding issue_locked
  lookup_token-issue_locked fresh now plaintext role note s other =
      lookup-issued (lookup (hash_token plaintext) s.tokens) _ (hash_token plaintext)
        (hash_token other) s refl

  -- The token that a lookup finds right after a new plaintext was issued.
  pub lookup_token-issue_locked_new :
      (fresh : String) (now : Time) (plaintext : String) (role : Role) (note : String)
      (s : MemStore F)
      → lookup (hash_token plaintext) s.tokens ≡ none
      → lookup_token hash_token plaintext
          (issue_locked hash_token fresh now plaintext role note s).1
        ≡ ok (record {
          id = str_append "tok_" fresh;
          plaintext = "";
          role = role;
          note = note;
          created_at = now;
        })
  unfolding issue_locked
  lookup_token-issue_locked_new fresh now plaintext role note s new =
      rw new (rw (lookup-insert, eq_refl (hash_token plaintext)) refl)

  pub lookup-issue_locked_other :
      (fresh : String) (now : Time) (plaintext : String) (role : Role) (note : String)
      (s : MemStore F) (other : String)
      → (hash_token plaintext == other) ≡ false
      → lookup other (issue_locked hash_token fresh now plaintext role note s).1.tokens
        ≡ lookup other s.tokens
  unfolding issue_locked
  lookup-issue_locked_other fresh now plaintext role note s other different =
      lookup-issued_other (lookup (hash_token plaintext) s.tokens) _ (hash_token plaintext) other s
        different

  -- Issuing keeps the two indexes in agreement, if the random id is not in use.
  pub issue_locked-Agrees :
      (fresh : String) (now : Time) (plaintext : String) (role : Role) (note : String)
      (s : MemStore F)
      → lookup (str_append "tok_" fresh) s.tokens_by_id ≡ none
      → Agrees s
      → Agrees (issue_locked hash_token fresh now plaintext role note s).1
  unfolding issue_locked
  issue_locked-Agrees fresh now plaintext role note s new h =
      issued-Agrees (lookup (hash_token plaintext) s.tokens) _ (hash_token plaintext) s refl new h

module _ {F : Type 0} where
  pub revoke_token-Agrees : (id : String) (s : MemStore F) → Agrees s → Agrees (revoke_token id s).1
  unfolding revoke_token
  revoke_token-Agrees id s h = revoked-Agrees (lookup id s.tokens_by_id) id s refl h

  -- In a store whose two indexes agree, revoking an id changes the lookup of exactly the token with
  -- that id, which is then not found; revoking an unknown id changes no lookup.
  pub lookup_token-revoke_token :
      (hash_token : String → String) (id : String) (s : MemStore F) (plaintext : String)
      → Agrees s
      → lookup_token hash_token plaintext (revoke_token id s).1
        ≡ without id (lookup_token hash_token plaintext s)
  unfolding revoke_token
  lookup_token-revoke_token hash_token id s plaintext h =
      lookup-revoked (lookup id s.tokens_by_id) id (hash_token plaintext) s h refl
