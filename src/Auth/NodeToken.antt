-- ===== src/Auth/NodeToken.antt =====
-- src/services/auth/node-token.ts and the middleware that uses it: auth.ts, scope.ts and
-- require-admin.ts of src/middleware/. The package `jose` is the parameter Jose; the reads of the
-- node row and the clock are arguments.
pub mod Laws
mod Reads
use obs_instance_manager.Prelude.{
  ℕ, ◌+◌, String, Bool, true, false, not, ◌&&◌, ◌||◌, Option, none, some, List, [], ◌∷◌, ltb, any,
  if◌then◌else◌, ◌==◌, bearer_token,
}
use obs_instance_manager.Auth.Tickets.{same_id}
use obs_instance_manager.Limits.{Verdict, refuse, next}

-- A claim of a payload: left out, a text, or another JSON value.
pub data Claim : Type 0 where
  absent : Claim
  text : String → Claim
  other : Claim

pub record Payload : Type 0 where
  pub sub : Claim
  pub scope : Claim
  pub role : Claim
  pub iid : Claim

pub data TokenError : Type 0 where
  no_matching_key : TokenError
  claim_failed : String → TokenError
  rejected : TokenError

pub data Checked {ℓ} (A : Type ℓ) : Type ℓ where
  valid : A → Checked A
  invalid : TokenError → Checked A

-- What of the node's row is used; a row without keys has the empty list.
pub record NodeRow : Type 0 where
  pub id : String
  pub token_keys : List String

-- `decodeJwt(token).iss`, none if it throws; and `jwtVerify` with these keys and this audience, for
-- the issuer, algorithm, age, tolerance and required claims that the source names.
pub record Jose : Type 0 where
  pub issuer_of : String → Option String
  pub jwt_verify : String → List String → String → Checked Payload

abbrev pub node_token_issuer : String
node_token_issuer = "streamwizard-node-token"

abbrev pub node_token_scopes : List String
node_token_scopes =
    "instances:create" ∷ "instances:read" ∷ "instances:control" ∷ "instances:delete" ∷ "files"
    ∷ "ws-ticket" ∷ "admin:instances" ∷ "admin:ws-ticket" ∷ []

pub data Role : Type 0 where
  user admin : Role

pub record NodeTokenClaims : Type 0 where
  pub user_id : String
  pub scope : String
  pub instance_id : Option String
  pub role : Role

abbrev pub unknown_key_refresh_cooldown_ms : ℕ
unknown_key_refresh_cooldown_ms = 30000

abbrev pub text_of : Claim → Option String
text_of (text s) = some s
text_of _ = none

abbrev pub role_of : Claim → Option Role
role_of (text s) = if s == "user" then some user else if s == "admin" then some admin else none
role_of _ = none

unfoldable pub is_known_scope : String → Bool
is_known_scope scope = any (λ s. s == scope) node_token_scopes

-- The checks on a payload, in the source's order.
unfoldable pub claims_of : Payload → Checked NodeTokenClaims
claims_of payload = elim (text_of payload.sub) [
  | none ↦ invalid (claim_failed "sub")
  | some sub ↦ if sub == "" then invalid (claim_failed "sub") else elim (text_of payload.scope) [
    | none ↦ invalid (claim_failed "scope")
    | some scope ↦
        if not (is_known_scope scope)
        then invalid (claim_failed "scope")
        else elim (role_of payload.role) [
          | none ↦ invalid (claim_failed "role")
          | some role ↦ elim payload.iid [
            | other ↦ invalid (claim_failed "iid")
            | absent ↦
                valid (record { user_id = sub; scope = scope; instance_id = none; role = role })
            | text iid ↦
                valid (record { user_id = sub; scope = scope; instance_id = some iid; role = role })
          ]
        ]
  ]
]

abbrev pub and_check : {A B : Type 0} → Checked A → (A → Checked B) → Checked B
and_check (valid a) f = f a
and_check (invalid e) f = invalid e

-- `err instanceof JWKSNoMatchingKey || !keys?.length`
abbrev pub is_unknown_key : List String → TokenError → Bool
is_unknown_key [] e = true
is_unknown_key (k ∷ ks) no_matching_key = true
is_unknown_key (k ∷ ks) _ = false

module _ (jose : Jose) where
  unfoldable pub is_node_token : String → Bool
  is_node_token token = elim (jose.issuer_of token) [
    | none ↦ false
    | some iss ↦ iss == node_token_issuer
  ]

  unfoldable pub verify_with : String → NodeRow → Checked NodeTokenClaims
  verify_with token node = elim node.token_keys [
    | [] ↦ invalid no_matching_key
    | ◌∷◌ k ks ↦ and_check (jose.jwt_verify token (k ∷ ks) node.id) claims_of
  ]

  abbrev pub retry_with : String → Checked NodeRow → Checked NodeTokenClaims
  retry_with token refreshed = and_check refreshed (verify_with token)

  -- Whether the failure forces a live read of the node's row.
  abbrev pub refreshes : ℕ → ℕ → NodeRow → TokenError → Bool
  refreshes now last_key_refresh_at node e =
      is_unknown_key node.token_keys e
      && not (ltb now (last_key_refresh_at + unknown_key_refresh_cooldown_ms))

  -- With the clock, what the cached and the live read of the node row answer, and the time of the
  -- last live read.
  unfoldable pub verify_node_token :
      ℕ → Checked NodeRow → Checked NodeRow → String → ℕ → Checked NodeTokenClaims × ℕ
  verify_node_token now cached refreshed token last_key_refresh_at = elim cached [
    | invalid e ↦ (invalid e, last_key_refresh_at)
    | valid node ↦ elim (verify_with token node) [
      | valid claims ↦ (valid claims, last_key_refresh_at)
      | invalid e ↦
          if refreshes now last_key_refresh_at node e
          then (retry_with token refreshed, now)
          else (invalid e, last_key_refresh_at)
    ]
  ]

  -- `authMiddleware`: the claims that the next handlers see, or the refusal.
  unfoldable pub auth_middleware :
      ℕ → Checked NodeRow → Checked NodeRow → Option String → ℕ → Option NodeTokenClaims × ℕ
  auth_middleware now cached refreshed header last_key_refresh_at = elim (bearer_token header) [
    | none ↦ (none, last_key_refresh_at)
    | some token ↦
        if token == "" || not (is_node_token token)
        then (none, last_key_refresh_at)
        else (let (checked, last) =
              verify_node_token now cached refreshed token last_key_refresh_at in
            (elim checked [ valid claims ↦ some claims | invalid e ↦ none ], last))
  ]

-- `requireScope` on the token's claims and the route's `:id`, if it has one.
unfoldable pub require_scope : String → Option String → Option NodeTokenClaims → Verdict
require_scope scope param none = refuse 401
require_scope scope none (some claims) = if not (claims.scope == scope) then refuse 403 else next
require_scope scope (some id) (some claims) =
    if not (claims.scope == scope)
    then refuse 403
    else if not (same_id claims.instance_id (some id))
    then refuse 403
    else next

abbrev pub is_admin_role : Role → Bool
is_admin_role admin = true
is_admin_role user = false

-- `requireAdmin`; `is_admin` is what rest-api answers for the token's user.
unfoldable pub require_admin : (String → Bool) → Option NodeTokenClaims → Verdict
require_admin is_admin none = refuse 403
require_admin is_admin (some claims) =
    if not (is_admin_role claims.role)
    then refuse 403
    else if not (is_admin claims.user_id)
    then refuse 403
    else next
