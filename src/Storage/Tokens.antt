-- ===== src/Storage/Tokens.antt =====
-- The bearer tokens of `MemStore`, indexed by the digest of their plaintext and by their id.
pub mod Agreeing
pub mod Laws
use Prim.Native.String.{◌++◌ as str_append}
use event_driven_tests_ai.Common.{
  String, List, [], ◌∷◌, if◌then◌else◌, ◌==◌, string_comparable, Option, none, some, map,
}
use event_driven_tests_ai.Common.Dict.{lookup, insert, remove}
use event_driven_tests_ai.Common.Sort.{sort, ascending}
use event_driven_tests_ai.Events.{Time}
use event_driven_tests_ai.Storage.{Result, ok, err, not_found, message, Role, Token, MemStore}
use event_driven_tests_ai.Storage.Runs.{values}

-- The two ends of `issueLocked`: the token is known, or a new one is kept.
abbrev pub issued : {F : Type 0} → Option Token → Token → String → MemStore F → Token × MemStore F
issued (some existing) tok digest s = (record existing { plaintext = tok.plaintext }, s)
issued none tok digest s = (
  tok,
  record s {
    tokens = insert digest tok s.tokens;
    tokens_by_id = insert tok.id digest s.tokens_by_id;
  },
)

abbrev pub hide : Token → Token
hide t = record t { plaintext = "" }

abbrev pub found : Option Token → Result Token
found none = err not_found
found (some t) = ok (hide t)

abbrev pub revoked :
    {F : Type 0} → Option String → String → MemStore F → Result (Unit {0}) × MemStore F
revoked none id s = (err not_found, s)
revoked (some digest) id s =
    (ok tt, record s { tokens = remove digest s.tokens; tokens_by_id = remove id s.tokens_by_id })

-- `hashToken` is SHA-256 in hex, a parameter here.
module _ {F : Type 0} (hash_token : String → String) where
  -- `fresh` is what `randID` returns.
  unfoldable pub issue_locked :
      String → Time → String → Role → String → MemStore F → Token × MemStore F
  issue_locked fresh now plaintext role note s =
      let digest = hash_token plaintext in
      let tok : Token = record {
        id = str_append "tok_" fresh;
        plaintext = plaintext;
        role = role;
        note = note;
        created_at = now;
      } in
      issued (lookup digest s.tokens) tok digest s

  -- Three random ids: two make the plaintext, one the token's id.
  unfoldable pub issue_token :
      String → String → String → Time → Role → String → MemStore F → Token × MemStore F
  unfolding issue_locked
  issue_token first second fresh now role note =
      issue_locked fresh now (str_append (str_append "edt_" first) second) role note

  unfoldable pub issue_token_with_plaintext :
      String → Time → String → Role → String → MemStore F → Result Token × MemStore F
  unfolding issue_locked
  issue_token_with_plaintext fresh now plaintext role note s =
      let (tok, s') = issue_locked fresh now plaintext role note s in
      if plaintext == "" then (err (message "storage: empty token plaintext"), s) else (ok tok, s')

  abbrev pub lookup_token : String → MemStore F → Result Token
  lookup_token plaintext s = found (lookup (hash_token plaintext) s.tokens)

abbrev created : Token → Time
created t = t.created_at

module _ {F : Type 0} where
  unfoldable pub list_tokens : MemStore F → List Token
  list_tokens s = sort (ascending created) (map hide (values s.tokens))

  unfoldable pub revoke_token : String → MemStore F → Result (Unit {0}) × MemStore F
  revoke_token id s = revoked (lookup id s.tokens_by_id) id s
