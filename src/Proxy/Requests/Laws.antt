-- ===== src/Proxy/Requests/Laws.antt =====
-- src/services/proxy/selkies-request.ts: which paths are static, and the tokens that are found.
use Prim.Native.String
use Prim.Native.String.{String}
use obs_instance_manager.Prelude.{false, ◌≡◌, refl, some, arith, non_empty}
use obs_instance_manager.Prelude.Digits.{is_space}
use obs_instance_manager.Docker.Names.{strip_prefix_any_case-append}
use obs_instance_manager.Proxy.Requests.{skip_spaces, has_space, token_from_bearer}

skip_spaces_word : (t : String) → has_space t ≡ false → skip_spaces t ≡ t
unfolding skip_spaces has_space
skip_spaces_word String.[] h = refl
skip_spaces_word (String.◌∷◌ c t) h = ground arith

-- A token without white space is found again in "Bearer", a space and the token; the empty one is
-- not.
pub token_from_bearer_roundtrip :
    (token : String)
    → has_space token ≡ false
    → token_from_bearer (some (String.◌++◌ "Bearer" (String.◌∷◌ " " token)))
      ≡ non_empty (some token)
unfolding token_from_bearer is_space
token_from_bearer_roundtrip token h =
    rw (strip_prefix_any_case-append "Bearer" (String.◌∷◌ " " token), token_from_bearer)
      (rw (skip_spaces_word token h, h) (ground arith))
