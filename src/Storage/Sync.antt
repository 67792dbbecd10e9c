-- ===== src/Storage/Sync.antt =====
-- src/services/storage/obs-config/sync.ts: `syncSection`, which mirrors a directory to a prefix by
-- the manifest of what S3 holds. The listing of the directory is an argument; hashing, S3 and what
-- they change are calls on a state. The files are taken one after the other: the source runs
-- several at a time, and each changes the entry of its own path and the counters only.
pub mod Laws
use Prim.Native.String
use Prim.Native.String.{len, slice}
use obs_instance_manager.Prelude.{
  ℕ, ◌+◌, ◌-◌, String, Bool, true, false, Option, none, some, List, [], ◌∷◌, ◌&&◌, not, ltb, eqb,
  any, select, length, map, if◌then◌else◌, ◌==◌,
}
use obs_instance_manager.Prelude.Dict
use obs_instance_manager.Prelude.Dict.{Dict}
use obs_instance_manager.Effects.{Error, Result, ok, err, Op}

pub data Source : Type 0 where
  overlay template : Source

pub record ManifestEntry : Type 0 where
  pub size : ℕ
  pub mtime_ms : ℕ
  pub hash : String
  pub source : Source

pub record LocalFile : Type 0 where
  pub rel : String
  pub size : ℕ
  pub mtime_ms : ℕ

-- The calls out of the engine: `hashFile` and `uploadFile` on a path of the directory, and
-- `deleteKeys`, which answers the keys that it deleted.
pub record Storage (E : Type 0) : Type 0 where
  pub hash_file : String → Op E String
  pub upload_file : String → String → ℕ → Op E (Unit {0})
  pub delete_keys : List String → Op E (List String)

pub record SectionOptions : Type 0 where
  pub prefix : String
  pub filter : String → Bool
  pub hash_content : Bool
  pub deletes : Bool

-- The manifest's entries and the statistics, as a section's run changes them.
pub record Section (E : Type 0) : Type 0 where
  pub env : E
  pub entries : Dict ManifestEntry
  pub uploaded : ℕ
  pub deleted : ℕ
  pub skipped : ℕ
  pub bytes : ℕ
  pub failed : ℕ

abbrev pub max_key_bytes : ℕ
max_key_bytes = 1024

-- The same size and time as the entry's.
abbrev pub is_unchanged : Option ManifestEntry → LocalFile → Bool
is_unchanged none f = false
is_unchanged (some prev) f = eqb prev.size f.size && eqb prev.mtime_ms f.mtime_ms

-- `prev && hash && prev.hash === hash`: the entry whose content is this.
abbrev pub same_content : Option ManifestEntry → String → Option ManifestEntry
same_content none hash = none
same_content (some prev) hash =
    if hash == "" then none else if prev.hash == hash then some prev else none

abbrev pub is_template : Source → Bool
is_template template = true
is_template overlay = false

module _ {E : Type 0} (storage : Storage E) (opts : SectionOptions) where
  abbrev pub wanted : List LocalFile → List LocalFile
  wanted files =
      select
        (λ f. opts.filter f.rel && not (ltb max_key_bytes (len (String.◌++◌ opts.prefix f.rel))))
        files

  abbrev pub count_skip : Section E → Section E
  count_skip s = record s { skipped = s.skipped + 1 }

  abbrev pub count_failure : Section E → Section E
  count_failure s = record s { failed = s.failed + 1 }

  unfoldable pub after_upload : LocalFile → String → Result (Unit {0}) → Section E → Section E
  after_upload f hash (err e) s = count_failure s
  after_upload f hash (ok u) s = record s {
    entries =
        Dict.set s.entries f.rel
          (record { size = f.size; mtime_ms = f.mtime_ms; hash = hash; source = overlay });
    uploaded = s.uploaded + 1;
    bytes = s.bytes + f.size;
  }

  abbrev pub upload : LocalFile → String → Section E → Section E
  upload f hash s =
      let (answer, env) = storage.upload_file (String.◌++◌ opts.prefix f.rel) f.rel f.size s.env in
      after_upload f hash answer (record s { env = env })

  -- With the entry whose content the file still has, if any.
  unfoldable pub upload_unless_same :
      LocalFile → String → Option ManifestEntry → Section E → Section E
  upload_unless_same f hash none s = upload f hash s
  upload_unless_same f hash (some prev) s = count_skip (record s {
    entries = Dict.set s.entries f.rel (record prev { size = f.size; mtime_ms = f.mtime_ms });
  })

  unfoldable pub after_hash : LocalFile → Result String → Section E → Section E
  after_hash f (err e) s = count_failure s
  after_hash f (ok hash) s =
      upload_unless_same f hash (same_content (Dict.get s.entries f.rel) hash) s

  abbrev pub content_hash : LocalFile → Op E String
  content_hash f env = if opts.hash_content then storage.hash_file f.rel env else (ok "", env)

  unfoldable pub sync_file : LocalFile → Section E → Section E
  sync_file f s =
      if is_unchanged (Dict.get s.entries f.rel) f
      then count_skip s
      else (let (hash, env) = content_hash f s.env in after_hash f hash (record s { env = env }))

  unfoldable pub sync_files : List LocalFile → Section E → Section E
  sync_files [] s = s
  sync_files (f ∷ fs) s = sync_files fs (sync_file f s)

  abbrev pub is_present : List LocalFile → String → Bool
  is_present files rel = any (λ f. f.rel == rel) files

  abbrev pub gone : List LocalFile → Dict ManifestEntry → List String
  gone files entries = select (λ rel. not (is_present files rel)) (Dict.keys entries)

  abbrev pub is_template_entry : Option ManifestEntry → Bool
  is_template_entry none = false
  is_template_entry (some entry) = is_template entry.source

  -- Entries of the template are dropped; for the others the keys are to be deleted.
  pub drop_templates : List String → Dict ManifestEntry → Dict ManifestEntry
  drop_templates [] entries = entries
  drop_templates (rel ∷ rels) entries =
      if is_template_entry (Dict.get entries rel)
      then drop_templates rels (Dict.remove entries rel)
      else drop_templates rels entries

  pub gone_keys : List String → Dict ManifestEntry → List String
  gone_keys [] entries = []
  gone_keys (rel ∷ rels) entries =
      if is_template_entry (Dict.get entries rel)
      then gone_keys rels entries
      else String.◌++◌ opts.prefix rel ∷ gone_keys rels entries

  -- `delete entries[key.slice(prefix.length)]` for each key
  pub forget_keys : List String → Dict ManifestEntry → Dict ManifestEntry
  forget_keys [] entries = entries
  forget_keys (key ∷ keys) entries =
      forget_keys keys (Dict.remove entries (slice key (len opts.prefix) (len key)))

  abbrev pub after_delete : List String → Result (List String) → Section E → Section E
  after_delete keys (err e) s = record s { failed = s.failed + length keys }
  after_delete keys (ok done) s = record s {
    entries = forget_keys done s.entries;
    deleted = s.deleted + length done;
    failed = s.failed + (length keys - length done);
  }

  abbrev pub delete_gone : List String → Section E → Section E
  delete_gone [] s = s
  delete_gone (key ∷ keys) s =
      let (answer, env) = storage.delete_keys (key ∷ keys) s.env in
      after_delete (key ∷ keys) answer (record s { env = env })

  -- With the listing of the directory, none if it does not exist.
  pub sync_section : Option (List LocalFile) → Section E → Section E
  sync_section none s = s
  sync_section (some files) s =
      let s' = sync_files (wanted files) s in
      let rels = gone (wanted files) s'.entries in
      if not opts.deletes
      then s'
      else delete_gone (gone_keys rels s'.entries)
          (record s' { entries = drop_templates rels s'.entries })

-- `key.slice(prefix.length)`
abbrev pub rel_of : String → String → String
rel_of prefix key = slice key (len prefix) (len key)

-- The keys that the policy keeps, and the others.
unfoldable pub split_by_policy : List String → String → (String → Bool) → List String × List String
split_by_policy keys prefix filter = (
  select (λ key. filter (rel_of prefix key)) keys,
  select (λ key. not (filter (rel_of prefix key))) keys,
)

module _ {E : Type 0} (storage : Storage E) where
  -- Best effort: an error is only logged.
  pub prune_keys : List String → E → E
  prune_keys [] env = env
  prune_keys (key ∷ keys) env = (storage.delete_keys (key ∷ keys) env).1
