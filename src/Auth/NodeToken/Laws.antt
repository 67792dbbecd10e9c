-- ===== src/Auth/NodeToken/Laws.antt =====
-- Who gets past the middleware.
use obs_instance_manager.Prelude.{
  ℕ, String, ◌≡◌, refl, ◌≢◌, ◌⊎◌, inl, inr, Bool, true, Option, none, some, List, [], ◌∷◌, arith,
  eq_iff, Option-cases, Bool-cases, bearer_token,
}
use obs_instance_manager.Auth.Tickets.Laws.{same_id_iff}
use obs_instance_manager.Limits.{next}
use obs_instance_manager.Auth.NodeToken.{
  Payload, TokenError, Checked, valid, invalid, NodeRow, Jose, node_token_issuer, is_known_scope,
  admin, NodeTokenClaims, text_of, role_of, claims_of, is_node_token, verify_with,
  verify_node_token, auth_middleware, require_scope, is_admin_role, require_admin,
}

pub Checked-cases :
    {A : Type 0} (c : Checked A) → ((a : A) × (c ≡ valid a)) ⊎ ((e : TokenError) × (c ≡ invalid e))
Checked-cases (valid a) = inl (a, refl)
Checked-cases (invalid e) = inr (e, refl)

-- What a payload says when its claims are taken.
abbrev pub Says : Payload → NodeTokenClaims → Type 0
Says payload claims =
    (text_of payload.sub ≡ some claims.user_id)
    × (claims.user_id ≢ "")
    × (text_of payload.scope ≡ some claims.scope)
    × (is_known_scope claims.scope ≡ true)
    × (role_of payload.role ≡ some claims.role)
    × (text_of payload.iid ≡ claims.instance_id)

claims_of-Says :
    (payload : Payload) (claims : NodeTokenClaims)
    → claims_of payload ≡ valid claims
    → Says payload claims
unfolding claims_of
claims_of-Says payload claims h = elim (Option-cases (text_of payload.sub)) [
  | inl e ↦ ground (arith, e)
  | inr (sub, e) ↦ elim (Option-cases (text_of payload.scope)) [
    | inl f ↦ ground (arith, e, f)
    | inr (scope, f) ↦ elim (Bool-cases (is_known_scope scope)) [
      | inr g ↦ ground (arith, e, f, g)
      | inl g ↦ elim (Option-cases (role_of payload.role)) [
        | inl k ↦ ground (arith, e, f, g, k)
        | inr (role, k) ↦ ground (arith, e, f, g, k, eq_iff sub "")
      ]
    ]
  ]
]

module _ (jose : Jose) where
  verify_with-valid :
      (token : String) (node : NodeRow) (claims : NodeTokenClaims)
      → verify_with jose token node ≡ valid claims
      → (payload : Payload) × (node.token_keys ≢ [])
        × (jose.jwt_verify token node.token_keys node.id ≡ valid payload)
        × Says payload claims
  unfolding verify_with
  verify_with-valid token node claims h = go node.token_keys refl
    where
      go :
          (keys : List String)
          → node.token_keys ≡ keys
          → (payload : Payload) × (node.token_keys ≢ [])
            × (jose.jwt_verify token node.token_keys node.id ≡ valid payload)
            × Says payload claims
      go [] e = ground (arith, e, h)
      go (k ∷ ks) e = elim (Checked-cases (jose.jwt_verify token (k ∷ ks) node.id)) [
        | inr (x, q) ↦ ground (arith, e, h, q)
        | inl (payload, q) ↦
            (payload, λ f. cc, rw e q, claims_of-Says payload claims (ground (arith, e, h, q)))
      ]

  verify_node_token-valid :
      (now last : ℕ) (cached refreshed : Checked NodeRow) (token : String)
      (claims : NodeTokenClaims)
      → (verify_node_token jose now cached refreshed token last).0 ≡ valid claims
      → (node : NodeRow) × ((cached ≡ valid node) ⊎ (refreshed ≡ valid node))
        × (verify_with jose token node ≡ valid claims)
  unfolding verify_node_token
  verify_node_token-valid now last (invalid e) refreshed token claims h = ground arith
  verify_node_token-valid now last (valid node) (invalid e) token claims h =
      (node, inl refl, ground arith)
  verify_node_token-valid now last (valid node) (valid fresh) token claims h =
      elim (Checked-cases (verify_with jose token node)) [
        | inl (c, q) ↦ (node, inl refl, ground (arith, q))
        | inr (e, q) ↦ (fresh, inr refl, ground (arith, q))
      ]

require_scope_lem :
    (scope : String) (param : Option String) (found : Option NodeTokenClaims)
    → require_scope scope param found ≡ next
    → (claims : NodeTokenClaims) × (found ≡ some claims)
      × (claims.scope ≡ scope)
      × ((param ≡ none) ⊎ (claims.instance_id ≡ param))
unfolding require_scope
require_scope_lem scope param none h = ground arith
require_scope_lem scope none (some claims) h =
    (claims, refl, ground (arith, eq_iff claims.scope scope), inl refl)
require_scope_lem scope (some id) (some claims) h = (
  claims,
  refl,
  ground (arith, eq_iff claims.scope scope),
  inr (ground (arith, eq_iff claims.scope scope, same_id_iff claims.instance_id (some id))),
)

module _ (jose : Jose) where
  -- How a request may get the claims: its header carries a token that names the issuer, and jose
  -- takes it for this node, as its row stands in the cache or is read live, with a payload that
  -- says these claims.
  abbrev pub Proves : Checked NodeRow → Checked NodeRow → Option String → NodeTokenClaims → Type 0
  Proves cached refreshed header claims =
      (token : String) × (node : NodeRow) × (payload : Payload) × (bearer_token header ≡ some token)
      × (jose.issuer_of token ≡ some node_token_issuer)
      × ((cached ≡ valid node) ⊎ (refreshed ≡ valid node))
      × (node.token_keys ≢ [])
      × (jose.jwt_verify token node.token_keys node.id ≡ valid payload)
      × Says payload claims

  is_node_token-issuer :
      (token : String)
      → is_node_token jose token ≡ true
      → jose.issuer_of token ≡ some node_token_issuer
  unfolding is_node_token
  is_node_token-issuer token h = elim (Option-cases (jose.issuer_of token)) [
    | inl e ↦ ground (arith, e, h)
    | inr (iss, e) ↦ ground (arith, e, h, eq_iff iss node_token_issuer)
  ]

  auth_middleware-Proves :
      (now last : ℕ) (cached refreshed : Checked NodeRow) (header : Option String)
      (claims : NodeTokenClaims)
      → (auth_middleware jose now cached refreshed header last).0 ≡ some claims
      → Proves cached refreshed header claims
  unfolding auth_middleware
  auth_middleware-Proves now last cached refreshed header claims h =
      elim (Option-cases (bearer_token header)) [
        | inl e ↦ ground (arith, e, h)
        | inr (token, e) ↦ elim (Bool-cases (is_node_token jose token)) [
          | inr q ↦ ground (arith, e, q, h)
          | inl q ↦
              let (node, which, v) =
                verify_node_token-valid jose now last cached refreshed token claims
                  (checked token e q) in
              let (payload, keys, p, says) = verify_with-valid jose token node claims v in
              (token, node, payload, e, is_node_token-issuer token q, which, keys, p, says)
        ]
      ]
    where
      checked :
          (token : String)
          → bearer_token header ≡ some token
          → is_node_token jose token ≡ true
          → (verify_node_token jose now cached refreshed token last).0 ≡ valid claims
      checked token e q =
          elim (Checked-cases (verify_node_token jose now cached refreshed token last).0) [
            | inl (c, r) ↦ ground (arith, e, q, r, h)
            | inr (x, r) ↦ ground (arith, e, q, r, h)
          ]

  -- A request reaches a user route only with a token whose verified payload names the route's
  -- scope exactly and, where the route has an instance, that instance.
  pub authorized_request :
      (now last : ℕ) (cached refreshed : Checked NodeRow) (header : Option String) (scope : String)
      (param : Option String)
      → require_scope scope param (auth_middleware jose now cached refreshed header last).0 ≡ next
      → (claims : NodeTokenClaims) × Proves cached refreshed header claims
        × (claims.scope ≡ scope)
        × ((param ≡ none) ⊎ (claims.instance_id ≡ param))
  authorized_request now last cached refreshed header scope param h =
      let (claims, e, s, i) =
        require_scope_lem scope param (auth_middleware jose now cached refreshed header last).0 h in
      (claims, auth_middleware-Proves now last cached refreshed header claims e, s, i)

  -- A request reaches an admin route only with a token whose verified payload says role `admin`,
  -- for a user whom rest-api calls an admin.
  pub authorized_admin :
      (now last : ℕ) (cached refreshed : Checked NodeRow) (header : Option String)
      (is_admin : String → Bool)
      → require_admin is_admin (auth_middleware jose now cached refreshed header last).0 ≡ next
      → (claims : NodeTokenClaims) × Proves cached refreshed header claims
        × (claims.role ≡ admin)
        × (is_admin claims.user_id ≡ true)
  unfolding require_admin
  authorized_admin now last cached refreshed header is_admin h =
      elim (Option-cases (auth_middleware jose now cached refreshed header last).0) [
        | inl e ↦ ground (arith, e, h)
        | inr (claims, e) ↦ (
          claims,
          auth_middleware-Proves now last cached refreshed header claims e,
          role_admin claims (ground (arith, e, h)),
          ground (arith, e, h),
        )
      ]
    where
      role_admin :
          (claims : NodeTokenClaims) → is_admin_role claims.role ≡ true → claims.role ≡ admin
      role_admin claims q = ground arith
