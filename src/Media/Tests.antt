-- ===== src/Media/Tests.antt =====
-- A small picture that is uploaded.
use obs_instance_manager.Prelude.{ℕ, ◌≡◌, refl, ◌≢◌, ◌⊎◌, Option, none, some, List, [], ◌∷◌, All}
use obs_instance_manager.Media.Types.{codes, same_text}
use obs_instance_manager.Media.Paths.{
  Kind, is_file, is_symlink, forward_slashes, without_leading, split_path, is_bad_part,
  lexical_clean, walk_parts, resolve_safe,
}
use obs_instance_manager.Media.Paths.Laws.{IsName, resolved_inside}
use obs_instance_manager.Media.Files.{MediaDir, upload_file}
use obs_instance_manager.Media.Files.Receiving.{Body, ends, chunk}
use obs_instance_manager.Media.Files.Laws.Outcome.{IsOutcome, upload-IsOutcome}

abbrev nothing : List (List ℕ) → Option Kind
nothing path = none

resolved_inside_example :
    All IsName ((97 ∷ []) ∷ (98 ∷ []) ∷ [])
    × (nothing ((97 ∷ []) ∷ []) ≢ some is_symlink)
    × ((◌≡◌ {A = List (List ℕ)} ((98 ∷ []) ∷ []) []) ⊎ (nothing ((97 ∷ []) ∷ []) ≢ some is_file))
unfolding resolve_safe lexical_clean walk_parts split_path without_leading forward_slashes
    is_bad_part same_text
resolved_inside_example =
    resolved_inside nothing (97 ∷ 47 ∷ 98 ∷ []) [] (97 ∷ []) ((98 ∷ []) ∷ []) refl

abbrev picture : Body
picture = chunk (71 ∷ 73 ∷ 70 ∷ 56 ∷ 57 ∷ 97 ∷ []) ends

abbrev media : MediaDir
media = record { entries = []; used_storage_bytes = 0; calls = [] }

upload-IsOutcome_example :
    IsOutcome 1000000 500
      (codes "a.gif")
      picture
      media
      (upload_file 1000000 500 (codes "a.gif") picture (some 6) media)
upload-IsOutcome_example = upload-IsOutcome 1000000 500 (codes "a.gif") picture media (some 6)
