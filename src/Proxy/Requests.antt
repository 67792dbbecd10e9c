-- ===== src/Proxy/Requests.antt =====
-- src/services/proxy/selkies-request.ts: what the viewer proxy reads from a request.
-- `decodeURIComponent` and the decoding of base64url are arguments; none is an exception.
pub mod Laws
use Prim.Native.Char.{Char, code}
use Prim.Native.String.{String}
use obs_instance_manager.Prelude.{
  ℕ, Bool, true, false, not, ◌&&◌, ◌||◌, Option, none, some, List, [], ◌∷◌, any, eqb, leb, is_some,
  if◌then◌else◌, ◌==◌, strip_prefix, non_empty,
}
use obs_instance_manager.Prelude.Digits.{is_space}
use obs_instance_manager.Docker.Names.{strip_prefix_any_case}

-- `[A-Za-z0-9._~\-/]`
abbrev pub is_path_char : ℕ → Bool
is_path_char c =
    (leb b'A' c && leb c b'Z')
    || ((leb b'a' c && leb c b'z')
        || ((leb b'0' c && leb c b'9')
            || (eqb c b'.' || (eqb c b'_' || (eqb c b'~' || (eqb c b'-' || eqb c b'/'))))))

unfoldable pub all_path_chars : String → Bool
all_path_chars String.[] = true
all_path_chars (String.◌∷◌ c s) = is_path_char (code c) && all_path_chars s

-- `api(?:\/|$)`
abbrev pub ends_or_slash : Option String → Bool
ends_or_slash none = false
ends_or_slash (some String.[]) = true
ends_or_slash (some (String.◌∷◌ c s)) = eqb (code c) b'/'

unfoldable pub is_static_pattern : String → Bool
is_static_pattern String.[] = false
is_static_pattern (String.◌∷◌ c s) =
    eqb (code c) b'/' && (not (ends_or_slash (strip_prefix "api" s)) && all_path_chars s)

abbrev pub onto_text : Char → List String → List String
onto_text c [] = String.◌∷◌ c "" ∷ []
onto_text c (p ∷ ps) = String.◌∷◌ c p ∷ ps

-- `s.split(sep)` at one code unit
unfoldable pub split_text : ℕ → String → List String
split_text sep String.[] = "" ∷ []
split_text sep (String.◌∷◌ c s) =
    let rest = split_text sep s in if eqb (code c) sep then "" ∷ rest else onto_text c rest

unfoldable pub is_static_path : (String → Option String) → String → Bool
is_static_path decode rest = elim (decode rest) [
  | none ↦ false
  | some decoded ↦ is_static_pattern decoded && not (any (λ p. p == "..") (split_text b'/' decoded))
]

unfoldable pub skip_spaces : String → String
skip_spaces String.[] = ""
skip_spaces (String.◌∷◌ c s) = if is_space (code c) then skip_spaces s else String.◌∷◌ c s

unfoldable pub trim_end_text : String → String
trim_end_text String.[] = ""
trim_end_text (String.◌∷◌ c s) = elim (trim_end_text s) [
  | String.[] ↦ if is_space (code c) then "" else String.◌∷◌ c ""
  | String.◌∷◌ d t ↦ String.◌∷◌ c (String.◌∷◌ d t)
]

unfoldable pub trim_text : String → String
trim_text s = trim_end_text (skip_spaces s)

abbrev pub decoded_token : Option String → Option String
decoded_token none = none
decoded_token (some t) = non_empty (some t)

-- The first protocol with the prefix decides.
unfoldable pub first_protocol : (String → String) → List String → Option String
first_protocol base64url [] = none
first_protocol base64url (raw ∷ rest) = elim (strip_prefix "selkies.token." (trim_text raw)) [
  | none ↦ first_protocol base64url rest
  | some encoded ↦ non_empty (some (base64url encoded))
]

unfoldable pub token_from_protocols : (String → String) → Option String → Option String
token_from_protocols base64url none = none
token_from_protocols base64url (some header) = first_protocol base64url (split_text b',' header)

unfoldable pub has_space : String → Bool
has_space String.[] = false
has_space (String.◌∷◌ c s) = is_space (code c) || has_space s

-- `(\S+)$`
abbrev pub word : String → Option String
word t = if t == "" || has_space t then none else some t

-- `\s+(\S+)$`
abbrev pub after_spaces : String → Option String
after_spaces String.[] = none
after_spaces (String.◌∷◌ c s) = if is_space (code c) then word (skip_spaces s) else none

-- `/^Bearer\s+(\S+)$/i` on `header ?? ""`
unfoldable pub token_from_bearer : Option String → Option String
token_from_bearer none = none
token_from_bearer (some header) = elim (strip_prefix_any_case "Bearer" header) [
  | none ↦ none
  | some rest ↦ after_spaces rest
]

-- What stands before the first `=`, and what stands after it: none without one.
unfoldable pub cut_equals : String → String × String
cut_equals String.[] = ("", "")
cut_equals (String.◌∷◌ c s) =
    let (name, value) = cut_equals s in
    if eqb (code c) b'=' then ("", s) else (String.◌∷◌ c name, value)

unfoldable pub first_cookie : (String → Option String) → List String → Option String
first_cookie decode [] = none
first_cookie decode (part ∷ parts) =
    let (name, value) = cut_equals (trim_text part) in
    let rest = first_cookie decode parts in
    if name == "selkies_token" then decoded_token (decode value) else rest

unfoldable pub token_from_cookie : (String → Option String) → Option String → Option String
token_from_cookie decode none = none
token_from_cookie decode (some header) = first_cookie decode (split_text b';' header)
