-- ===== src/Docker/Names.antt =====
-- src/utils/container-name.ts. The pattern is case-insensitive in ASCII; its group is a UUID.
use Prim.Native.Char.{Char, code}
use Prim.Native.String
use Prim.Native.String.{String}
use text.Mathlib.TextLemmas.{nil-append, cons-append}
use obs_instance_manager.Prelude.{
  ℕ, zero, suc, ◌+◌, ◌≡◌, refl, ap, Bool, false, ◌&&◌, ◌||◌, Option, none, some, List, [], ◌∷◌,
  arith, leb, eqb, any, is_some, if◌then◌else◌, ◌==◌, strip_prefix,
}
use obs_instance_manager.Instances.Services.{strip_slash}

abbrev lower : ℕ → ℕ
lower c = if leb 65 c && leb c 90 then c + 32 else c

abbrev is_hex : ℕ → Bool
is_hex c = leb b'0' c && leb c b'9' || leb b'a' (lower c) && leb (lower c) b'f'

-- What follows `n` hexadecimal digits.
unfoldable pub hex_run : ℕ → String → Option String
hex_run zero s = some s
hex_run (suc n) String.[] = none
hex_run (suc n) (String.◌∷◌ c s) = if is_hex (code c) then hex_run n s else none

-- Runs of digits of these lengths with a dash between each two, and nothing else.
unfoldable pub are_runs : List ℕ → String → Bool
are_runs [] s = s == ""
are_runs (n ∷ []) s = elim (hex_run n s) [ none ↦ false | some t ↦ t == "" ]
are_runs (n ∷ m ∷ ns) s = elim (hex_run n s) [
  | none ↦ false
  | some t ↦ elim (strip_prefix "-" t) [ none ↦ false | some u ↦ are_runs (m ∷ ns) u ]
]

unfoldable pub is_uuid : String → Bool
is_uuid s = are_runs (8 ∷ 4 ∷ 4 ∷ 4 ∷ 12 ∷ []) s

unfoldable pub strip_prefix_any_case : String → String → Option String
strip_prefix_any_case String.[] s = some s
strip_prefix_any_case (String.◌∷◌ c p) String.[] = none
strip_prefix_any_case (String.◌∷◌ c p) (String.◌∷◌ d s) =
    if eqb (lower (code c)) (lower (code d)) then strip_prefix_any_case p s else none

abbrev uuid_or_none : Option String → Option String
uuid_or_none none = none
uuid_or_none (some s) = if is_uuid s then some s else none

unfoldable pub instance_id_from_container_name : String → Option String
instance_id_from_container_name name =
    uuid_or_none (strip_prefix_any_case "obs-instance-" (strip_slash name))

pub container_name_for_instance : String → Option String
container_name_for_instance id =
    let name = String.◌++◌ "obs-instance-" id in
    elim (instance_id_from_container_name name) [ none ↦ none | some found ↦ some name ]

-- `isInstanceContainer` on the names of an entry of Docker's list.
pub is_instance_container : List String → Bool
is_instance_container names = any (λ n. is_some (instance_id_from_container_name n)) names

pub strip_prefix_any_case-append :
    (p s : String) → strip_prefix_any_case p (String.◌++◌ p s) ≡ some s
unfolding strip_prefix_any_case
strip_prefix_any_case-append String.[] s = ap some (nil-append s)
strip_prefix_any_case-append (String.◌∷◌ c p) s =
    rw (cons-append c p s) (ground (arith, strip_prefix_any_case-append p s))

strip_slash-append :
    (c : Char) (p s : String)
    → strip_slash (String.◌++◌ (String.◌∷◌ c p) s)
      ≡ (if eqb (code c) b'/' then String.◌++◌ p s else String.◌++◌ (String.◌∷◌ c p) s)
unfolding strip_slash
strip_slash-append c p s = rw (cons-append c p s) refl

-- The name of an instance's container, as the manager builds it or with the slash that Docker puts
-- before it, gives the instance's id back, exactly when the id is a UUID; for any other id it is no
-- instance's name.
container_name_roundtrip :
    (id : String)
    → let found = if is_uuid id then some id else none in
      (instance_id_from_container_name (String.◌++◌ "obs-instance-" id) ≡ found)
      × (instance_id_from_container_name (String.◌++◌ "/obs-instance-" id) ≡ found)
      × (container_name_for_instance id
          ≡ (if is_uuid id then some (String.◌++◌ "obs-instance-" id) else none))
unfolding instance_id_from_container_name container_name_for_instance
container_name_roundtrip id = (plain, slashed, ground (arith, plain))
  where
    stripped : strip_slash (String.◌++◌ "obs-instance-" id) ≡ String.◌++◌ "obs-instance-" id
    stripped = strip_slash-append "o" "bs-instance-" id

    unslashed : strip_slash (String.◌++◌ "/obs-instance-" id) ≡ String.◌++◌ "obs-instance-" id
    unslashed = strip_slash-append "/" "obs-instance-" id

    plain :
        uuid_or_none
          (strip_prefix_any_case "obs-instance-" (strip_slash (String.◌++◌ "obs-instance-" id)))
        ≡ (if is_uuid id then some id else none)
    plain = rw (stripped, strip_prefix_any_case-append "obs-instance-" id) refl

    slashed :
        uuid_or_none
          (strip_prefix_any_case "obs-instance-" (strip_slash (String.◌++◌ "/obs-instance-" id)))
        ≡ (if is_uuid id then some id else none)
    slashed = rw (unslashed, strip_prefix_any_case-append "obs-instance-" id) refl
