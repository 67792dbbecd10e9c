-- ===== src/Proxy/Handler.antt =====
-- src/services/proxy/selkies-proxy.ts: the handler of a request under the viewer's prefix. What its
-- calls answer is the record `Answers`; `sessionFor` itself is in Proxy/Selkies.antt.
pub mod Laws
use Prim.Native.String
use Prim.Native.String.{len, slice}
use obs_instance_manager.Prelude.{
  ℕ, ◌-◌, String, Bool, true, false, not, ◌&&◌, ◌||◌, Option, none, some, if◌then◌else◌, ◌==◌,
  strip_prefix,
}
use obs_instance_manager.Docker.Names.{container_name_for_instance}
use obs_instance_manager.Media.Types.{codes, same_text, to_lower}
use obs_instance_manager.Proxy.Selkies.{Outcome}
use obs_instance_manager.Proxy.Requests.{
  is_static_path, token_from_protocols, token_from_bearer, token_from_cookie,
}
use obs_instance_manager.Proxy.Upstream.{FileResponse}

pub record ViewerRequest : Type 0 where
  pub id : String
  pub path : String
  pub search : String
  pub method : String
  pub header : String → Option String

pub record Answers : Type 0 where
  pub decode : String → Option String
  pub base64url : String → String
  -- `upstreamAuthorization(id)`: none is an error
  pub authorization : Option String
  -- `upstreamReady`, by the container's name and the authorization
  pub ready : String → String → Bool
  -- `clientFileResponse` on the rest of the path and the method
  pub client_file : String → String → Option FileResponse
  -- `sessionFor` on the token and whether the owner is checked again
  pub session : String → Bool → Outcome

pub data Reply : Type 0 where
  no_instance method_not_allowed starting_page no_file : Reply
  redirect : String → Reply
  file : FileResponse → Reply
  -- 401 as text or as JSON
  expired_text expired_json : Reply
  -- 502
  no_password : Reply
  exception : Reply
  -- the relay of a socket, and a request to the container
  relays forwards : ℕ → String → Reply

-- The path up to the marker's end, and what follows: cut at the first marker.
unfoldable pub cut_marker : String → String → Option (String × String)
cut_marker marker String.[] = elim (strip_prefix marker "") [
  | none ↦ none
  | some rest ↦ some (marker, rest)
]
cut_marker marker (String.◌∷◌ c s) =
    let later = cut_marker marker s in
    elim (strip_prefix marker (String.◌∷◌ c s)) [
      | some rest ↦ some (marker, rest)
      | none ↦ elim later [ none ↦ none | some (base, rest) ↦ some (String.◌∷◌ c base, rest) ]
    ]

-- Without the marker `at` is -1, so that one code unit less than the marker's length is cut off.
abbrev pub or_start : String → String → Option (String × String) → String × String
or_start path marker none =
    let base = slice path 0 (len marker - 1) in (base, slice path (len base) (len path))
or_start path marker (some parts) = parts

unfoldable pub split_path : String → String → String × String
split_path path id =
    let marker = String.◌++◌ "/" (String.◌++◌ id "/selkies") in
    or_start path marker (cut_marker marker path)

abbrev pub is_websocket : Option String → Bool
is_websocket none = false
is_websocket (some h) = same_text (to_lower (codes h)) (codes "websocket")

abbrev pub or_cookie : Option String → Option String → Option String
or_cookie none cookie = cookie
or_cookie (some token) cookie = some token

unfoldable pub token_of : Answers → ViewerRequest → Bool → Option String
token_of a r true = token_from_protocols a.base64url (r.header "sec-websocket-protocol")
token_of a r false =
    or_cookie (token_from_bearer (r.header "authorization"))
      (token_from_cookie a.decode (r.header "cookie"))

abbrev pub expired : Bool → Reply
expired true = expired_text
expired false = expired_json

module _ (a : Answers) (r : ViewerRequest) where
  abbrev pub is_ready : String → Option String → Bool
  is_ready own none = false
  is_ready own (some authorization) = a.ready own authorization

  abbrev pub file_or_none : Option FileResponse → Reply
  file_or_none none = no_file
  file_or_none (some f) = file f

  unfoldable pub static_reply : String → String → Reply
  static_reply own rest =
      if not (r.method == "GET") && not (r.method == "HEAD")
      then method_not_allowed
      else if rest == "/" && not (is_ready own a.authorization)
      then starting_page
      else file_or_none (a.client_file rest r.method)

  abbrev pub with_authorization : Bool → ℕ → Option String → Reply
  with_authorization is_upgrade s none = no_password
  with_authorization true s (some authorization) = relays s authorization
  with_authorization false s (some authorization) = forwards s authorization

  abbrev pub with_session : Bool → Outcome → Reply
  with_session is_upgrade (Outcome.found s) = with_authorization is_upgrade s a.authorization
  with_session is_upgrade Outcome.refused = expired is_upgrade
  with_session is_upgrade Outcome.thrown = exception

  abbrev pub with_token : Bool → Option String → Reply
  with_token is_upgrade none = expired is_upgrade
  with_token is_upgrade (some token) = with_session is_upgrade (a.session token is_upgrade)

  abbrev pub reply_below : String → String → String → Reply
  reply_below own base rest =
      let is_upgrade = is_websocket (r.header "upgrade") in
      if rest == ""
      then redirect (String.◌++◌ base (String.◌++◌ "/" r.search))
      else if not is_upgrade && is_static_path a.decode rest
      then static_reply own rest
      else with_token is_upgrade (token_of a r is_upgrade)

  abbrev pub reply_for : Option String → String × String → Reply
  reply_for none parts = no_instance
  reply_for (some own) (base, rest) = reply_below own base rest

  unfoldable pub handle : Reply
  handle = reply_for (container_name_for_instance r.id) (split_path r.path r.id)
