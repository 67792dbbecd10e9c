-- ===== src/Storage/Pull.antt =====
-- src/services/storage/obs-config/pull.ts and `downloadPrefix` of sync.ts: an instance's directory is
-- filled from S3 before its container starts. A directory is a dictionary from the paths of its
-- files to their contents. `resolve` gives a path under the directory, or none for one that leads
-- out of it. The keys are taken one after the other, as in Storage/Sync.antt.
pub mod Layers
pub mod Laws
pub mod Kept
use Prim.Native.String
use obs_instance_manager.Prelude.{
  ℕ, String, Bool, true, false, not, ◌||◌, Option, none, some, List, [], ◌∷◌, ◌++◌, any, select,
  eqb, is_some, if◌then◌else◌, ◌==◌, strip_prefix,
}
use obs_instance_manager.Prelude.Dict
use obs_instance_manager.Prelude.Dict.{Dict}
use obs_instance_manager.Effects.{Error, Result, ok, err, Op}
use obs_instance_manager.Media.Types.{codes}
use obs_instance_manager.Storage.Sync.{
  Source, overlay, template, ManifestEntry, rel_of, split_by_policy,
}
use obs_instance_manager.Storage.Push.{SyncManifest}
use obs_instance_manager.Storage.Policy.{
  is_plugin_path, is_synced_config_path, is_synced_media_path,
}

-- What S3 and the disk answer.
pub record Bucket : Type 0 where
  pub list_keys : String → Result (List String)
  -- `downloadToFile`: the object's body, if it has one
  pub get_object : String → Result (Option String)
  pub resolve : String → Option String
  pub size_of : String → ℕ
  pub mtime_ms : String → ℕ
  pub sha256 : String → String

-- A directory and the entries of the manifest for it.
pub record Layer : Type 0 where
  pub files : Dict String
  pub entries : Dict ManifestEntry

pub record DownloadRecord : Type 0 where
  pub prefix : String
  pub source : Source
  pub hash_content : Bool
  pub filter : String → Bool

abbrev pub has_nul : String → Bool
has_nul rel = any (λ c. eqb c 0) (codes rel)

module _ (b : Bucket) (r : DownloadRecord) where
  abbrev pub recorded : String → String → String → Dict ManifestEntry → Dict ManifestEntry
  recorded rel path body entries =
      if r.filter rel
      then Dict.set entries rel (record {
        size = b.size_of body;
        mtime_ms = b.mtime_ms path;
        hash = if r.hash_content then b.sha256 body else "";
        source = r.source;
      })
      else entries

  abbrev pub stored : String → String → Result (Option String) → Op Layer (Unit {0})
  stored rel path (err e) l = (err e, l)
  stored rel path (ok none) l = (ok tt, l)
  stored rel path (ok (some body)) l = (
    ok tt,
    record { files = Dict.set l.files path body; entries = recorded rel path body l.entries },
  )

  abbrev pub download_to : String → String → Option String → Op Layer (Unit {0})
  download_to key rel none l = (ok tt, l)
  download_to key rel (some path) l = stored rel path (b.get_object key) l

  unfoldable pub download_key : String → Op Layer (Unit {0})
  download_key key l =
      let rel = rel_of r.prefix key in
      if rel == "" || has_nul rel then (ok tt, l) else download_to key rel (b.resolve rel) l

  abbrev pub and_rest : Result (Unit {0}) → Op Layer (Unit {0}) → Op Layer (Unit {0})
  and_rest (err e) rest l = (err e, l)
  and_rest (ok u) rest l = rest l

  unfoldable pub download_prefix : List String → Op Layer (Unit {0})
  download_prefix [] l = (ok tt, l)
  download_prefix (key ∷ keys) l =
      let (answer, l') = download_key key l in and_rest answer (download_prefix keys) l'

pub record Local : Type 0 where
  pub exists : Bool
  pub config : Dict String
  pub media : Dict String
  pub manifest : Option SyncManifest

abbrev pub no_dir : Local
no_dir = record { exists = false; config = Dict.empty; media = Dict.empty; manifest = none }

pub record Prefixes : Type 0 where
  pub template_prefix : String
  pub config_prefix : String
  pub media_prefix : String

-- The directory, with the keys that were pruned from S3, the last first.
pub record PullState : Type 0 where
  pub local : Local
  pub manifest : SyncManifest
  pub pruned : List String

-- `pushObsConfig` and `removeLocalConfig` on the directory that is left over.
pub record Leftover : Type 0 where
  pub push : Local → Result (Unit {0}) × Local
  pub remove : Local → Result (Unit {0}) × Local

abbrev pub config_filter : String → Bool
config_filter rel = is_synced_config_path (codes rel)

abbrev pub media_filter : String → Bool
media_filter rel = is_synced_media_path (codes rel)

abbrev pub is_plugin : String → Bool
is_plugin rel = is_plugin_path (codes rel)

-- `rm(join(localBase, "basic", "profiles"), { recursive: true, force: true })`
abbrev pub is_profile : String → Bool
is_profile path = is_some (strip_prefix "basic/profiles/" path)

unfoldable pub without_profiles : Dict String → Dict String
without_profiles [] = []
without_profiles ((path, body) ∷ files) =
    if is_profile path then without_profiles files else (path, body) ∷ without_profiles files

infixl 5 ◌>>=◌
abbrev pub and_then : {A B : Type 0} → Result A → (A → Op PullState B) → Op PullState B
and_then (err e) f s = (err e, s)
and_then (ok a) f s = f a s

abbrev pub ◌>>=◌ : {A B : Type 0} → Op PullState A → (A → Op PullState B) → Op PullState B
◌>>=◌ m f s = let (a, s') = m s in and_then a f s'

module _ (b : Bucket) (p : Prefixes) where
  abbrev pub listing : String → Op PullState (List String)
  listing prefix s = (b.list_keys prefix, s)

  -- `downloadPrefix` into the config directory, with the manifest's entries for it
  abbrev pub to_config : DownloadRecord → List String → Op PullState (Unit {0})
  to_config r keys s =
      let (answer, l) =
        download_prefix b r keys (record { files = s.local.config; entries = s.manifest.config }) in
      (
        answer,
        record s {
          local = record s.local { config = l.files };
          manifest = record s.manifest { config = l.entries };
        },
      )

  abbrev pub to_media : DownloadRecord → List String → Op PullState (Unit {0})
  to_media r keys s =
      let (answer, l) =
        download_prefix b r keys (record { files = s.local.media; entries = s.manifest.media }) in
      (
        answer,
        record s {
          local = record s.local { media = l.files };
          manifest = record s.manifest { media = l.entries };
        },
      )

  -- `pruneKeys`: best effort
  abbrev pub prune : List String → Op PullState (Unit {0})
  prune keys s = (ok tt, record s { pruned = keys ++ s.pruned })

  abbrev pub save_manifest : Op PullState (Unit {0})
  save_manifest s = (ok tt, record s { local = record s.local { manifest = some s.manifest } })

  abbrev pub template_record : DownloadRecord
  template_record = record {
    prefix = p.template_prefix;
    source = template;
    hash_content = true;
    filter = config_filter;
  }

  abbrev pub overlay_record : DownloadRecord
  overlay_record = record {
    prefix = p.config_prefix;
    source = overlay;
    hash_content = true;
    filter = config_filter;
  }

  abbrev pub media_record : DownloadRecord
  media_record = record {
    prefix = p.media_prefix;
    source = overlay;
    hash_content = false;
    filter = media_filter;
  }

  unfoldable pub pull_obs_media : Op PullState (Unit {0})
  pull_obs_media = do
    keys ← listing p.media_prefix
    let (keep, junk) = split_by_policy keys p.media_prefix media_filter
    _ ← to_media media_record keep
    prune junk

  -- A pull into a directory that does not exist yet.
  unfoldable pub pull_fresh : Op PullState (Unit {0})
  pull_fresh = do
    all ← listing p.template_prefix
    let template_keys = select (λ key. not (is_plugin (rel_of p.template_prefix key))) all
    _ ← to_config template_record template_keys
    keys ← listing p.config_prefix
    let (keep, junk) = split_by_policy keys p.config_prefix config_filter
    _ ← to_config overlay_record keep
    _ ← prune junk
    _ ← pull_obs_media
    save_manifest

  abbrev pub profile_record : DownloadRecord
  profile_record = record {
    prefix = p.template_prefix;
    source = template;
    hash_content = false;
    filter = λ rel. false;
  }

  -- The config directory after the profile was replaced by the template's; its errors are caught.
  abbrev pub profiled : Result (List String) → Dict String → Dict String
  profiled (err e) files = files
  profiled (ok keys) files =
      (download_prefix b profile_record keys
        (record { files = files; entries = Dict.empty })).1.files

  unfoldable pub apply_template_profile : Local → Local
  apply_template_profile l = record l {
    config =
        profiled (b.list_keys (String.◌++◌ p.template_prefix "basic/profiles/"))
          (without_profiles l.config);
  }

  abbrev pub empty_manifest : SyncManifest
  empty_manifest = record { config = Dict.empty; media = Dict.empty }

  abbrev pub fresh : Local → Result (Unit {0}) × Local
  fresh l =
      let (answer, s) =
        pull_fresh
          (record { local = record l { exists = true }; manifest = empty_manifest; pruned = [] }) in
      (answer, s.local)

  abbrev pub after_remove : Result (Unit {0}) × Local → Result (Unit {0}) × Local
  after_remove (ok u, l) = fresh l
  after_remove (err e, l) = (ok tt, apply_template_profile l)

  abbrev pub after_push : Leftover → Result (Unit {0}) × Local → Result (Unit {0}) × Local
  after_push left (err e, l) = (ok tt, apply_template_profile l)
  after_push left (ok u, l) = after_remove (left.remove l)

  unfoldable pub pull_obs_config : Leftover → Local → Result (Unit {0}) × Local
  pull_obs_config left l = if l.exists then after_push left (left.push l) else fresh l
