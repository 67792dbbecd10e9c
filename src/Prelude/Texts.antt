-- ===== src/Prelude/Texts.antt =====
-- Prefixes of texts, by characters.
use Prim.Native.Char.{code}
use Prim.Native.String.{String}
use mathlib.Core.Option.{Option, none, some}
use obs_instance_manager.Prelude.Tests.{if◌then◌else◌, eqb}

-- What follows the prefix, if the text has it: `s.startsWith(p)` and then `s.slice(p.length)`.
unfoldable pub strip_prefix : String → String → Option String
strip_prefix String.[] s = some s
strip_prefix (String.◌∷◌ c p) String.[] = none
strip_prefix (String.◌∷◌ c p) (String.◌∷◌ d s) =
    if eqb (code c) (code d) then strip_prefix p s else none

-- The token of an `Authorization` header.
unfoldable pub bearer_token : Option String → Option String
bearer_token none = none
bearer_token (some header) = strip_prefix "Bearer " header
