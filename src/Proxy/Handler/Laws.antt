-- ===== src/Proxy/Handler/Laws.antt =====
-- Which requests reach the container.
use obs_instance_manager.Prelude.{
  ℕ, String, Bool, true, false, not, ◌&&◌, ◌≡◌, refl, ap, sym, ◌∙◌, Option, none, some, arith,
  Bool-cases, inl, inr, ◌==◌,
}
use obs_instance_manager.Docker.Names.{container_name_for_instance}
use obs_instance_manager.Proxy.Selkies.{Outcome}
use obs_instance_manager.Proxy.Requests.{is_static_path}
use obs_instance_manager.Proxy.Upstream.{FileResponse}
use obs_instance_manager.Proxy.Handler.{
  ViewerRequest, Answers, Reply, relays, forwards, file, starting_page, split_path, is_websocket,
  token_of, expired, is_ready, file_or_none, static_reply, with_authorization, with_session,
  with_token, reply_for, handle,
}

module _ (a : Answers) (r : ViewerRequest) where
  -- The request holds a token for the session, and the container's password is known.
  abbrev pub Entitled : Bool → ℕ → String → Type 0
  Entitled is_upgrade s authorization =
      (is_websocket (r.header "upgrade") ≡ is_upgrade)
      × ((token : String) × (token_of a r is_upgrade ≡ some token)
          × (a.session token is_upgrade ≡ Outcome.found s))
      × (a.authorization ≡ some authorization)

  -- The request is for a static path, over HTTP.
  abbrev pub IsStatic : Type 0
  IsStatic =
      (is_websocket (r.header "upgrade") ≡ false)
      × (is_static_path a.decode (split_path r.path r.id).1 ≡ true)

  -- What is relayed or forwarded to the container is an entitled request, and over HTTP not one for a
  -- static path; a file is the node's own, and so is the page that waits for the viewer.
  abbrev pub IsGuarded : Reply → Type 0
  IsGuarded (relays s authorization) = Entitled true s authorization
  IsGuarded (forwards s authorization) =
      Entitled false s authorization × (is_static_path a.decode (split_path r.path r.id).1 ≡ false)
  IsGuarded (file f) = IsStatic × (a.client_file (split_path r.path r.id).1 r.method ≡ some f)
  IsGuarded starting_page = IsStatic × (((split_path r.path r.id).1 == "/") ≡ true)
  IsGuarded _ = Unit

  expired-IsGuarded : (b : Bool) → IsGuarded (expired b)
  expired-IsGuarded true = tt
  expired-IsGuarded false = tt

  module _ (is_upgrade : Bool) (token : String)
      (upgrade : is_websocket (r.header "upgrade") ≡ is_upgrade)
      (dynamic : is_upgrade ≡ false → is_static_path a.decode (split_path r.path r.id).1 ≡ false)
      (held : token_of a r is_upgrade ≡ some token) where
    authorization-IsGuarded :
        (s : ℕ) (o : Option String)
        → a.session token is_upgrade ≡ Outcome.found s
        → a.authorization ≡ o
        → IsGuarded (with_authorization a r is_upgrade s o)
    authorization-IsGuarded s none e h = tt
    authorization-IsGuarded s (some x) e h =
        elim is_upgrade as (λ b. is_upgrade ≡ b → IsGuarded (with_authorization a r b s (some x))) [
          | true ↦ λ b. (
            (upgrade ∙ b),
            (token, ap (token_of a r) (sym b) ∙ held, ap (a.session token) (sym b) ∙ e),
            h,
          )
          | false ↦ λ b. (
            (
              (upgrade ∙ b),
              (token, ap (token_of a r) (sym b) ∙ held, ap (a.session token) (sym b) ∙ e),
              h,
            ),
            dynamic b,
          )
        ]
          refl

    session-IsGuarded :
        (o : Outcome) → a.session token is_upgrade ≡ o → IsGuarded (with_session a r is_upgrade o)
    session-IsGuarded (Outcome.found s) e = authorization-IsGuarded s a.authorization e refl
    session-IsGuarded Outcome.refused e = expired-IsGuarded is_upgrade
    session-IsGuarded Outcome.thrown e = tt

  token-IsGuarded :
      (is_upgrade : Bool) (token : Option String)
      → is_websocket (r.header "upgrade") ≡ is_upgrade
      → token_of a r is_upgrade ≡ token
      → (is_upgrade ≡ false → is_static_path a.decode (split_path r.path r.id).1 ≡ false)
      → IsGuarded (with_token a r is_upgrade token)
  token-IsGuarded is_upgrade none u t f = expired-IsGuarded is_upgrade
  token-IsGuarded is_upgrade (some token) u t f =
      session-IsGuarded is_upgrade token u f t (a.session token is_upgrade) refl

  file-IsGuarded :
      (o : Option FileResponse)
      → IsStatic
      → a.client_file (split_path r.path r.id).1 r.method ≡ o
      → IsGuarded (file_or_none a r o)
  file-IsGuarded none h e = tt
  file-IsGuarded (some f) h e = (h, e)

  static-IsGuarded :
      (own : String) → IsStatic → IsGuarded (static_reply a r own (split_path r.path r.id).1)
  unfolding static_reply
  static-IsGuarded own h =
      let rest = (split_path r.path r.id).1 in
      elim (Bool-cases (not (r.method == "GET") && not (r.method == "HEAD"))) [
        | inl bad ↦ rw bad tt
        | inr good ↦
            rw good (elim (Bool-cases (rest == "/" && not (is_ready a r own a.authorization))) [
              | inl early ↦ rw early (h, ground arith)
              | inr late ↦ rw late (file-IsGuarded (a.client_file rest r.method) h refl)
            ])
      ]

  reply-IsGuarded : (o : Option String) → IsGuarded (reply_for a r o (split_path r.path r.id))
  reply-IsGuarded none = tt
  reply-IsGuarded (some own) =
      let rest = (split_path r.path r.id).1 in
      let is_upgrade = is_websocket (r.header "upgrade") in
      elim (Bool-cases (rest == "")) [
        | inl root ↦ rw root tt
        | inr below ↦ rw below (elim (Bool-cases (not is_upgrade && is_static_path a.decode rest)) [
          | inl static ↦ rw static (static-IsGuarded own (ground arith, ground arith))
          | inr dynamic ↦
              rw dynamic
                (token-IsGuarded is_upgrade (token_of a r is_upgrade) refl refl (λ h. ground arith))
        ])
      ]

  -- A request is relayed or forwarded to the container only with a token for which `sessionFor`
  -- answers that session, asked with a new look at the owner where it is a socket, and with the
  -- instance's password; over HTTP it is not one for a static path. The other replies hold nothing of
  -- the container: a file is the node's own for a static path, and the page that waits for the viewer
  -- is for the path / alone. The probe of the container before that page is not stated.
  pub handle-IsGuarded : IsGuarded (handle a r)
  unfolding handle
  handle-IsGuarded = reply-IsGuarded (container_name_for_instance r.id)
