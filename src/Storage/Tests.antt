-- ===== src/Storage/Tests.antt =====
-- A push of two files to an S3 that takes everything, and counts the calls.
use obs_instance_manager.Media.Types.{same_text}
use obs_instance_manager.Media.Paths.{
  Kind, forward_slashes, without_leading, split_path, is_bad_part, lexical_clean, walk_parts,
  resolve_safe, to_rel,
}
use obs_instance_manager.Storage.Push.{persist_and_remove_local_config}
use obs_instance_manager.Storage.Push.Laws.{Ends, persist-Ends}
use obs_instance_manager.Storage.Policy.{is_hidden, is_synced_media_path}
use obs_instance_manager.Storage.Policy.Laws.{accepted_synced}
use obs_instance_manager.Prelude.{
  eqb, not, any, Option, none, List, ◌+◌, if◌then◌else◌, ℕ, ◌+◌, ◌≡◌, refl, true, List, [], ◌∷◌,
  arith, eq_iff,
}
use obs_instance_manager.Prelude.Dict
use obs_instance_manager.Effects.{failed, ok, err, Op}
use obs_instance_manager.Storage.Sync.{
  LocalFile, Storage, SectionOptions, Section, sync_file, sync_files, after_hash,
  upload_unless_same, after_upload,
}
use obs_instance_manager.Storage.Sync.Laws.{second_sync}

abbrev s3 : Storage ℕ
s3 = record {
  hash_file = λ rel n. (ok rel, n + 1);
  upload_file = λ key rel size n. (ok tt, n + 1);
  delete_keys = λ keys n. (ok keys, n + 1);
}

abbrev config : SectionOptions
config = record { prefix = "u1/i1/"; filter = λ rel. true; hash_content = true; deletes = true }

abbrev files : List LocalFile
files =
    record { rel = "a.json"; size = 3; mtime_ms = 10 }
    ∷ record { rel = "b.json"; size = 4; mtime_ms = 11 }
    ∷ []

abbrev blank : Section ℕ
blank = record {
  env = 0;
  entries = Dict.empty;
  uploaded = 0;
  deleted = 0;
  skipped = 0;
  bytes = 0;
  failed = 0;
}

second_sync_example :
    let t = sync_files s3 config files blank in
    sync_files s3 config files t ≡ record t { skipped = t.skipped + 2 }
unfolding sync_files sync_file after_hash upload_unless_same after_upload Dict.get Dict.set
second_sync_example =
    second_sync s3 config files blank
      (((λ e. ground (arith, (eq_iff "a.json" "b.json").1 e)), tt), (tt, tt)) refl

-- The first push fails, the second succeeds.
abbrev flaky : Op ℕ (Unit {0})
flaky n = (if eqb n 0 then err (failed none "unavailable") else ok tt, n + 1)

abbrev removes : Op ℕ (Unit {0})
removes n = (ok tt, n)

persist-Ends_example : Ends flaky removes 0 0 (persist_and_remove_local_config flaky removes 3 0)
persist-Ends_example = persist-Ends flaky removes 0 0

abbrev nothing : List (List ℕ) → Option Kind
nothing path = none

accepted_synced_example :
    is_synced_media_path (to_rel ((46 ∷ 97 ∷ []) ∷ [])) ≡ not (any is_hidden ((46 ∷ 97 ∷ []) ∷ []))
unfolding resolve_safe lexical_clean walk_parts split_path without_leading forward_slashes
    is_bad_part same_text
accepted_synced_example = accepted_synced nothing (46 ∷ 97 ∷ []) (46 ∷ 97 ∷ []) [] refl
