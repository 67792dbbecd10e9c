-- ===== src/Media/Paths.antt =====
-- src/services/storage/media-paths.ts: a relative path of a request, checked and resolved under the
-- media directory. A path below the directory is the list of its names; what `lstat` finds there is
-- an argument.
pub mod Laws
use obs_instance_manager.Prelude.{
  ℕ, ◌+◌, Bool, true, false, not, ◌&&◌, ◌||◌, Option, none, some, List, [], ◌∷◌, ◌++◌, any, leb,
  eqb, if◌then◌else◌,
}
use obs_instance_manager.Media.Types.{same_text}

-- The error of the media routes, with its status.
pub data MediaError : Type 0 where
  media_error : ℕ → MediaError
  -- an error of the file system or of the stream
  io_error : MediaError

pub data Checked (A : Type 0) : Type 0 where
  fine : A → Checked A
  refused : MediaError → Checked A

pub data Kind : Type 0 where
  is_file is_directory is_symlink : Kind

-- A control character.
abbrev pub is_control : ℕ → Bool
is_control c = leb c 31 || eqb c 127

-- `replace(/\\/g, "/")`
unfoldable pub forward_slashes : List ℕ → List ℕ
forward_slashes [] = []
forward_slashes (c ∷ cs) = (if eqb c 92 then b'/' else c) ∷ forward_slashes cs

-- `replace(/^\/+/, "")`
unfoldable pub without_leading : List ℕ → List ℕ
without_leading [] = []
without_leading (c ∷ cs) = if eqb c b'/' then without_leading cs else c ∷ cs

abbrev pub onto_first : ℕ → List (List ℕ) → List (List ℕ)
onto_first c [] = (c ∷ []) ∷ []
onto_first c (p ∷ ps) = (c ∷ p) ∷ ps

-- `split("/")`
unfoldable pub split_path : List ℕ → List (List ℕ)
split_path [] = [] ∷ []
split_path (c ∷ cs) =
    let rest = split_path cs in if eqb c b'/' then [] ∷ rest else onto_first c rest

-- An empty name, `.` or `..`
unfoldable pub is_bad_part : List ℕ → Bool
is_bad_part p = same_text p [] || (same_text p (b'.' ∷ []) || same_text p (b'.' ∷ b'.' ∷ []))

-- The parts of the cleaned path, which the code joins and splits again.
unfoldable pub lexical_clean : List ℕ → Checked (List (List ℕ))
lexical_clean rel_path =
    if same_text rel_path [] || any is_control rel_path
    then refused (media_error 400)
    else (let parts = split_path (without_leading (forward_slashes rel_path)) in
        if any is_bad_part parts then refused (media_error 400) else fine parts)

module _ (lstat : List (List ℕ) → Option Kind) where
  -- What the walk says of a component: of the last one only that it is no symlink.
  abbrev pub step_error : Bool → Option Kind → Option MediaError
  step_error is_last none = none
  step_error is_last (some is_symlink) = some (media_error 400)
  step_error is_last (some is_directory) = none
  step_error is_last (some is_file) = if is_last then none else some (media_error 400)

  -- The walk over the components, from the path `cur` on.
  unfoldable pub walk_parts : List (List ℕ) → List (List ℕ) → Checked (List (List ℕ))
  walk_parts cur [] = fine cur
  walk_parts cur (p ∷ ps) =
      let rest = walk_parts (cur ++ (p ∷ [])) ps in
      elim (step_error (elim ps [ [] ↦ true | q ∷ qs ↦ false ]) (lstat (cur ++ (p ∷ [])))) [
        | some e ↦ refused e
        | none ↦ rest
      ]

  abbrev pub and_walk : Checked (List (List ℕ)) → Checked (List (List ℕ))
  and_walk (refused e) = refused e
  and_walk (fine parts) = walk_parts [] parts

  unfoldable pub resolve_safe : List ℕ → Checked (List (List ℕ))
  resolve_safe rel_path = and_walk (lexical_clean rel_path)

-- `toRel`: the names joined by slashes.
unfoldable pub to_rel : List (List ℕ) → List ℕ
to_rel [] = []
to_rel (p ∷ []) = p
to_rel (p ∷ q ∷ ps) = p ++ (b'/' ∷ to_rel (q ∷ ps))
