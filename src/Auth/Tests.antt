-- ===== src/Auth/Tests.antt =====
-- The command key, node tokens and viewer sessions at work.
use obs_instance_manager.Prelude.{
  ◌+◌, ◌≤◌, String, ◌≡◌, refl, ◌≢◌, ◌↔◌, ◌⊎◌, Option, none, some, [], ◌∷◌, arith, if◌then◌else◌,
  ◌==◌, bearer_token, strip_prefix, or_else,
}
use obs_instance_manager.Prelude.Dict
use obs_instance_manager.Effects.{failed, ok, err}
use obs_instance_manager.Limits.{next}
use obs_instance_manager.Auth.Tickets.{Ticket, selkies}
use obs_instance_manager.Auth.CommandKey.{
  CommandKey, Answer, command_auth_middleware, mismatch_refresh_cooldown_ms,
}
use obs_instance_manager.Auth.CommandKey.Laws.{command_auth_iff}
use obs_instance_manager.Auth.NodeToken.{
  Payload, text, valid, invalid, rejected, NodeRow, Jose, node_token_issuer, NodeTokenClaims,
  auth_middleware, is_node_token, verify_node_token, verify_with, claims_of, is_known_scope,
  require_scope,
}
use obs_instance_manager.Auth.NodeToken.Laws.{Proves, authorized_request}
use obs_instance_manager.Auth.Viewer.{ViewerSession, ViewerSessions, start, get}
use obs_instance_manager.Auth.Viewer.Laws.{opens, history, session_bounds}

abbrev held : CommandKey
held = record { hash = some "k"; last_fetch_at = 0 }

abbrev rotated : Answer
rotated = record { row = ok (some "k2"); at = 40000 }

abbrev refused : Answer
refused = record { row = err (failed none "unavailable"); at = 40000 }

command_auth_iff_example :
    ((command_auth_middleware (λ t. t) 40000 rotated (some "Bearer k2") held).0 ≡ next) ↔ (
      (or_else (bearer_token (some "Bearer k2")) "" ≢ "")
      × (or_else (bearer_token (some "Bearer k2")) "" ≢ "")
      × ((held.hash ≡ some (or_else (bearer_token (some "Bearer k2")) ""))
          ⊎ ((0 + mismatch_refresh_cooldown_ms ≤ 40000)
              × (rotated.row ≡ ok (some (or_else (bearer_token (some "Bearer k2")) ""))))))
command_auth_iff_example = command_auth_iff (λ t. t) 40000 rotated (some "Bearer k2") held

abbrev payload : Payload
payload = record { sub = text "u1"; scope = text "files"; role = text "admin"; iid = text "i1" }

abbrev jose : Jose
jose = record {
  issuer_of = λ t. some node_token_issuer;
  jwt_verify = λ t keys audience. if audience == "n1" then valid payload else invalid rejected;
}

abbrev node : NodeRow
node = record { id = "n1"; token_keys = "key" ∷ [] }

authorized_request_example :
    (claims : NodeTokenClaims) × Proves jose
      (valid node)
      (invalid rejected)
      (some "Bearer t")
      claims
    × (claims.scope ≡ "files")
    × ((◌≡◌ {A = Option String} (some "i1") none) ⊎ (claims.instance_id ≡ some "i1"))
unfolding auth_middleware strip_prefix bearer_token is_node_token verify_node_token verify_with
    claims_of is_known_scope require_scope
authorized_request_example =
    authorized_request jose 1000 0 (valid node) (invalid rejected) (some "Bearer t") "files"
      (some "i1") refl

abbrev ticket : Ticket
ticket = record { user_id = "u1"; scope = selkies; instance_id = some "i1"; expires_at = 0 }

abbrev blank : ViewerSession
blank = record {
  ticket = ticket;
  container_name = "";
  created_at = 0;
  open_sockets = 0;
  idle_since = 0;
}

abbrev no_sessions : ViewerSessions
no_sessions = record { sessions = Dict.empty; store = λ r. blank; next = 0 }

abbrev one_session : ViewerSessions
one_session = (start 1000 "t" ticket "obs-instance-i1" no_sessions).1

session_bounds_example : (get 43202000 "t" "i1" (history (opens 0 ∷ []) one_session)).0 ≡ none
session_bounds_example =
    session_bounds "t" "i1" "obs-instance-i1" ticket 1000 43202000 (opens 0 ∷ []) no_sessions
      (tt, tt) (omega arith)
