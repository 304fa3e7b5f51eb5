-- ===== src/Api/Tokens.antt =====
-- pkg/controlplane/api/tokens.go: issuing, listing and revoking tokens.
use event_driven_tests_ai.Common.{
  String, List, map, if◌then◌else◌, ◌==◌, ◌||◌, string_comparable, Bool,
}
use event_driven_tests_ai.Events.{Time}
use event_driven_tests_ai.Storage.{
  Result, ok, err, Role, role_admin, role_editor, role_viewer, role_worker, Token,
}
use event_driven_tests_ai.Storage.Interface.{Storage}
use event_driven_tests_ai.Api.{
  Reply, reply, failure, storage_failure, internal_failure, Decoded, decoded, malformed, status_ok,
  status_created, status_no_content, status_bad_request,
}

unfoldable pub valid_role : Role → Bool
valid_role r = r == role_admin || r == role_editor || r == role_viewer || r == role_worker

pub record IssueRequest : Type 0 where
  pub role : Role
  pub note : String

-- A token as it is shown, with its plaintext only in the answer to its issue.
pub record TokenInfo : Type 0 where
  pub id : String
  pub role : Role
  pub note : String
  pub created_at : Time

abbrev pub token_info : Token → TokenInfo
token_info t = record { id = t.id; role = t.role; note = t.note; created_at = t.created_at }

pub record IssuedToken : Type 0 where
  pub info : TokenInfo
  pub plaintext : String

module _ {F S : Type 0} (storage : Storage F S) where
  abbrev issue_reply : Result Token × S → Reply IssuedToken × S
  issue_reply (err e, s) = (internal_failure e, s)
  issue_reply (ok t, s) =
      (reply status_created (record { info = token_info t; plaintext = t.plaintext }), s)

  unfoldable pub issue_token : Decoded IssueRequest → S → Reply IssuedToken × S
  unfolding valid_role
  issue_token (malformed e) s = (failure status_bad_request e, s)
  issue_token (decoded req) s =
      if valid_role req.role
      then issue_reply (storage.issue_token req.role req.note s)
      else (failure status_bad_request "invalid role; allowed: admin|editor|viewer|worker", s)

  abbrev list_reply : Result (List Token) → Reply (List TokenInfo)
  list_reply (err e) = internal_failure e
  list_reply (ok ts) = reply status_ok (map token_info ts)

  unfoldable pub list_tokens : S → Reply (List TokenInfo)
  list_tokens s = list_reply (storage.list_tokens s)

  abbrev revoke_reply : Result (Unit {0}) × S → Reply (Unit {0}) × S
  revoke_reply (err e, s) = (storage_failure e, s)
  revoke_reply (ok u, s) = (reply status_no_content u, s)

  unfoldable pub revoke_token : String → S → Reply (Unit {0}) × S
  revoke_token id s = revoke_reply (storage.revoke_token id s)
