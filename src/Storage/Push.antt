-- ===== src/Storage/Push.antt =====
-- src/services/storage/obs-config/push.ts: `pushObsConfig`, a pass over the two sections of an
-- instance, and `persistAndRemoveLocalConfig`, which tries it again and removes the directory only
-- once it has succeeded. The loop has no bound of its own, so it runs on fuel. The manifest's file
-- and the listings are calls on the state outside.
pub mod Laws
use obs_instance_manager.Prelude.{
  ℕ, zero, suc, ◌+◌, ◌*◌, String, Bool, true, false, Option, none, some, List, [], ◌∷◌, ltb, leb,
  if◌then◌else◌,
}
use obs_instance_manager.Prelude.Dict.{Dict}
use obs_instance_manager.Effects.{Error, failed, Result, ok, err, Op}
use obs_instance_manager.Storage.Sync.{
  ManifestEntry, LocalFile, Storage, SectionOptions, Section, sync_section,
}

abbrev pub push_attempts : ℕ
push_attempts = 3

pub record SyncManifest : Type 0 where
  pub config : Dict ManifestEntry
  pub media : Dict ManifestEntry

-- What a push uses of the disk: whether the instance's directory exists, the manifest, and the
-- listings of the two sections, none for a missing directory.
pub record PushCalls (E : Type 0) : Type 0 where
  pub path_exists : E → Bool
  pub load_manifest : E → SyncManifest
  pub save_manifest : SyncManifest → Op E (Unit {0})
  pub config_files : E → Option (List LocalFile)
  pub media_files : E → Option (List LocalFile)
  pub remove_local_config : Op E (Unit {0})

abbrev pub section_of : {E : Type 0} → Dict ManifestEntry → E → Section E
section_of entries env = record {
  env = env;
  entries = entries;
  uploaded = 0;
  deleted = 0;
  skipped = 0;
  bytes = 0;
  failed = 0;
}

module _ {E : Type 0} (storage : Storage E) (calls : PushCalls E)
    (config media : SectionOptions) where
  abbrev pub failed_files : ℕ → Result (Unit {0}) → Result (Unit {0})
  failed_files n (err e) = err e
  failed_files n (ok u) =
      if ltb 0 n then err (failed none "file(s) failed to sync to S3") else ok tt

  -- Both sections, then the manifest in every case; a file that failed makes the push throw.
  pub push_obs_config : Op E (Unit {0})
  push_obs_config env =
      if calls.path_exists env
      then (let manifest = calls.load_manifest env in
          let c =
            sync_section storage config (calls.config_files env) (section_of manifest.config env) in
          let m =
            sync_section storage media (calls.media_files c.env)
              (section_of manifest.media c.env) in
          let (saved, env') =
            calls.save_manifest (record { config = c.entries; media = m.entries }) m.env in
          (failed_files (c.failed + m.failed) saved, env'))
      else (ok tt, env)

-- The state outside with what the loop did: newest first, the pushes with whether they succeeded,
-- the sleeps in milliseconds and the removals.
pub data PersistStep : Type 0 where
  pushed : Bool → PersistStep
  slept : ℕ → PersistStep
  removed_local : PersistStep

pub record Persisting (E : Type 0) : Type 0 where
  pub env : E
  pub steps : List PersistStep

module _ {E : Type 0} (push remove : Op E (Unit {0})) where
  abbrev pub remove_after : Persisting E → Option Bool × Persisting E
  remove_after s = (some true, record { env = (remove s.env).1; steps = removed_local ∷ s.steps })

  -- The loop from an attempt on; none when the fuel is used up.
  unfoldable pub persist_from : ℕ → ℕ → Persisting E → Option Bool × Persisting E
  persist_from zero attempt s = (none, s)
  persist_from (suc fuel) attempt s = elim (push s.env).0 [
    | ok u ↦ remove_after (record { env = (push s.env).1; steps = pushed true ∷ s.steps })
    | err e ↦ elim (leb push_attempts attempt) [
      | true ↦ (some false, record { env = (push s.env).1; steps = pushed false ∷ s.steps })
      | false ↦
          persist_from fuel (attempt + 1) (record {
            env = (push s.env).1;
            steps = slept (attempt * 1000) ∷ pushed false ∷ s.steps;
          })
    ]
  ]

  abbrev pub persist_and_remove_local_config : ℕ → E → Option Bool × Persisting E
  persist_and_remove_local_config fuel env = persist_from fuel 1 (record { env = env; steps = [] })
