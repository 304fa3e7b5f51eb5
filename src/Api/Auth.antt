-- ===== src/Api/Auth.antt =====
-- pkg/controlplane/api/auth.go: who may call a route.
use Prim.Native.String.{◌++◌ as str_append}
use Prim.Native.String.append.{cons}
use event_driven_tests_ai.Common.{
  false, false, false, false, false, false, false, ℕ, String, ◌≡◌, refl, if◌then◌else◌, ltb, ◌==◌,
  string_comparable, Option, none, some, false, ◌∙◌, ap,
}
use event_driven_tests_ai.Common.Text.{
  trim_space, strip_prefix, strip_prefix-append, cons_not_empty,
}
use event_driven_tests_ai.Storage.{
  Result, ok, err, Role, role_admin, role_editor, role_viewer, role_worker, Token, MemStore,
}
use event_driven_tests_ai.Storage.Interface.{Storage, Environment, mem_storage}
use event_driven_tests_ai.Common.Dict.{lookup, eq_refl}
use event_driven_tests_ai.Storage.Tokens.{issue_locked, lookup_token, revoke_token}
use event_driven_tests_ai.Storage.Tokens.Agreeing.{Agrees}
use event_driven_tests_ai.Storage.Tokens.Laws.{
  lookup_token-issue_locked_new, lookup_token-revoke_token,
}
use event_driven_tests_ai.Api.{Reply, failure, status_unauthorized, status_forbidden}

-- `roleRank[r]`, which is 0 for a role that is not a key.
unfoldable pub role_rank : Role → ℕ
role_rank r =
    if r == role_viewer
    then 1
    else if r == role_worker
    then 2
    else if r == role_editor
    then 3
    else if r == role_admin
    then 4
    else 0

abbrev trimmed : Option String → String
trimmed none = ""
trimmed (some rest) = trim_space rest

-- The argument is the `Authorization` header, empty when there is none.
unfoldable pub bearer_token : String → String
bearer_token h = if h == "" then "" else trimmed (strip_prefix "Bearer " h)

module _ {F S B : Type 0} (storage : Storage F S) where
  abbrev pub admit : Result Token → Role → (Role → S → Reply B × S) → S → Reply B × S
  admit (err e) min next s = (failure status_unauthorized "invalid token", s)
  admit (ok t) min next s =
      if ltb (role_rank t.role) (role_rank min)
      then (
        failure status_forbidden
            (str_append (str_append (str_append "insufficient role: have " t.role) ", need ") min),
        s,
      )
      else next t.role s

  -- `next` takes the role that the context carries.
  unfoldable pub require_role : Role → String → (Role → S → Reply B × S) → S → Reply B × S
  unfolding bearer_token
  require_role min header next s =
      let tok = bearer_token header in
      if tok == ""
      then (failure status_unauthorized "missing bearer token", s)
      else admit (storage.lookup_token tok s) min next s

-- The header that carries a token.
abbrev pub bearer : String → String
bearer tok = str_append "Bearer " tok

bearer_token-bearer : (tok : String) → trim_space tok ≡ tok → bearer_token (bearer tok) ≡ tok
unfolding bearer_token
bearer_token-bearer tok clean =
    let some_text : (bearer tok == "") ≡ false =
      ap (λ t. t == "") (cons "B" "earer " tok) ∙ cons_not_empty "B" (str_append "earer " tok) in
    rw (some_text, strip_prefix-append "Bearer " tok, clean) refl

-- What the middleware does with a token that it finds, and with one that it does not.
pub require_role-bearer :
    {F S B : Type 0} (storage : Storage F S) (min : Role) (tok : String)
    (next : Role → S → Reply B × S) (s : S)
    → trim_space tok ≡ tok
    → (tok == "") ≡ false
    → require_role storage min (bearer tok) next s
      ≡ admit storage (storage.lookup_token tok s) min next s
unfolding require_role
require_role-bearer storage min tok next s clean some_text =
    rw (bearer_token-bearer tok clean, some_text)

module _ {F B : Type 0} (env : Environment F) where
  -- A token that was issued lets a request through to a route, with its role, exactly when its role
  -- ranks at least as high as the one the route asks for, and else the answer is 403 and nothing
  -- changes. The plaintext must be a text that trimming leaves as it is, and be new to the store.
  pub require_role-issue_locked :
      (min role : Role) (tok note : String) (next : Role → MemStore F → Reply B × MemStore F)
      (s : MemStore F)
      → trim_space tok ≡ tok
      → (tok == "") ≡ false
      → lookup (env.hash_token tok) s.tokens ≡ none
      → let s' = (issue_locked env.hash_token env.fresh env.now tok role note s).1 in
        require_role (mem_storage env) min (bearer tok) next s' ≡ (
          if ltb (role_rank role) (role_rank min)
          then (
            failure status_forbidden (
                str_append (str_append (str_append "insufficient role: have " role) ", need ") min),
            s',
          )
          else next role s')
  require_role-issue_locked min role tok note next s clean some_text new =
      let s' = (issue_locked env.hash_token env.fresh env.now tok role note s).1 in
      require_role-bearer (mem_storage env) min tok next s' clean some_text
      ∙ rw (lookup_token-issue_locked_new env.hash_token env.fresh env.now tok role note s new) refl

  -- A request that carries a token whose id was revoked is answered 401 by every route, and the
  -- store stays as the revocation left it.
  pub require_role-revoke_token :
      (min : Role) (id tok : String) (t : Token) (next : Role → MemStore F → Reply B × MemStore F)
      (s : MemStore F)
      → Agrees s
      → trim_space tok ≡ tok
      → (tok == "") ≡ false
      → lookup_token env.hash_token tok s ≡ ok t
      → t.id ≡ id
      → require_role (mem_storage env) min (bearer tok) next (revoke_token id s).1
        ≡ (failure status_unauthorized "invalid token", (revoke_token id s).1)
  require_role-revoke_token min id tok t next s agrees clean some_text found same =
      let s' = (revoke_token id s).1 in
      require_role-bearer (mem_storage env) min tok next s' clean some_text
      ∙ rw (lookup_token-revoke_token env.hash_token id s tok agrees, found, same, eq_refl id) refl
