-- ===== src/Media/Files.antt =====
-- src/services/storage/media.ts: what the media routes do to the files below the media directory.
-- The state is the entries of the directory by path, the usage last stored and the calls to S3,
-- newest first. The temporary file of an upload lives only within the call and is left out: the
-- upload ends by a rename of it or removes it. `chown` and log lines are left out.
pub mod Receiving
pub mod Laws
use obs_instance_manager.Prelude.{
  ℕ, ◌+◌, ◌*◌, min, Bool, true, false, not, ◌&&◌, ◌||◌, Option, none, some, List, [], ◌∷◌, ◌++◌,
  length, take, select, ltb, leb, is_some, if◌then◌else◌,
}
use obs_instance_manager.Media.Types.{extension_of, is_allowed_extension, same_text}
use obs_instance_manager.Media.Paths.{
  MediaError, media_error, io_error, Checked, fine, refused, Kind, is_file, is_directory,
  is_symlink, resolve_safe, to_rel,
}
use obs_instance_manager.Storage.Policy.{is_synced_media_path}
use obs_instance_manager.Media.Files.Receiving.{Body, Sink, empty_sink, receive}

abbrev pub MediaPath : Type 0
MediaPath = List (List ℕ)

pub data Node : Type 0 where
  file : List ℕ → Node
  directory symlink : Node

pub data S3Call : Type 0 where
  pushed removed : MediaPath → S3Call
  moved : MediaPath → MediaPath → S3Call

pub record MediaDir : Type 0 where
  pub entries : List (MediaPath × Node)
  pub used_storage_bytes : ℕ
  pub calls : List S3Call

pub record MediaListing : Type 0 where
  pub files : List (MediaPath × ℕ)
  pub used_bytes : ℕ
  pub quota_bytes : ℕ

unfoldable pub same_path : MediaPath → MediaPath → Bool
same_path [] [] = true
same_path (p ∷ ps) (q ∷ qs) = same_text p q && same_path ps qs
same_path _ _ = false

abbrev pub kind_of : Node → Kind
kind_of (file bytes) = is_file
kind_of directory = is_directory
kind_of symlink = is_symlink

unfoldable pub lstat : List (MediaPath × Node) → MediaPath → Option Kind
lstat [] path = none
lstat ((p, n) ∷ es) path = if same_path p path then some (kind_of n) else lstat es path

unfoldable pub without : MediaPath → List (MediaPath × Node) → List (MediaPath × Node)
without path [] = []
without path ((p, n) ∷ es) = if same_path p path then without path es else (p, n) ∷ without path es

unfoldable pub read : List (MediaPath × Node) → MediaPath → Option Node
read [] path = none
read ((p, n) ∷ es) path = if same_path p path then some n else read es path

-- `walk` from the root: real files only. A container's symbolic link is no file.
unfoldable pub list_files : List (MediaPath × Node) → List (MediaPath × ℕ)
list_files [] = []
list_files ((p, file bytes) ∷ es) = (p, length bytes) ∷ list_files es
list_files ((p, directory) ∷ es) = list_files es
list_files ((p, symlink) ∷ es) = list_files es

unfoldable pub total : List (MediaPath × ℕ) → ℕ
total [] = 0
total ((p, size) ∷ fs) = size + total fs

-- The bytes of the files other than the target.
unfoldable pub used_excluding : MediaPath → List (MediaPath × ℕ) → ℕ
used_excluding target fs = total (select (λ f. not (same_path f.0 target)) fs)

abbrev pub quota_bytes_of : ℕ → ℕ
quota_bytes_of storage_quota_mb = storage_quota_mb * 1024 * 1024

-- `getListing`, which stores the usage too.
unfoldable pub get_listing : ℕ → MediaDir → MediaListing × MediaDir
get_listing storage_quota_mb s =
    let files = list_files s.entries in
    (
      record {
        files = files;
        used_bytes = total files;
        quota_bytes = quota_bytes_of storage_quota_mb;
      },
      record s { used_storage_bytes = total files },
    )

-- `mkdir(dirname(path), { recursive: true })`, from the path `cur` on: a parent that is there stays.
unfoldable pub make_parents :
    MediaPath → MediaPath → List (MediaPath × Node) → List (MediaPath × Node)
make_parents cur [] es = es
make_parents cur (p ∷ []) es = es
make_parents cur (p ∷ q ∷ ps) es =
    let dir = cur ++ (p ∷ []) in
    make_parents dir (q ∷ ps) (if is_some (lstat es dir) then es else (dir, directory) ∷ es)

-- `pushObsMediaFile`: a file that the policy leaves out is not uploaded.
abbrev pub push_media_file : MediaPath → List S3Call → List S3Call
push_media_file path calls =
    if is_synced_media_path (to_rel path) then pushed path ∷ calls else calls

-- The rename of the temporary file onto the path: it replaces a file or a link, and no directory.
abbrev pub commit :
    ℕ → MediaPath → List ℕ → Option Kind → MediaDir → Checked MediaListing × MediaDir
commit storage_quota_mb path bytes (some is_directory) s = (refused io_error, s)
commit storage_quota_mb path bytes _ s =
    let (listing, s') = get_listing storage_quota_mb (record s {
      entries = (path, file bytes) ∷ without path s.entries;
      calls = push_media_file path s.calls;
    }) in
    (fine listing, s')

abbrev pub after_receive : ℕ → MediaPath → Checked Sink → MediaDir → Checked MediaListing × MediaDir
after_receive storage_quota_mb path (refused e) s = (refused e, s)
after_receive storage_quota_mb path (fine sink) s =
    commit storage_quota_mb path sink.bytes (lstat s.entries path) s

-- `OBS_MEDIA_MAX_FILE_BYTES`, which the environment may set
module _ (max_bytes : ℕ) where
  abbrev pub is_over : ℕ → ℕ → Option ℕ → Bool
  is_over used quota none = false
  is_over used quota (some size) = ltb max_bytes size || ltb quota (used + size)

  abbrev pub upload_to :
      ℕ → List ℕ → Body → Option ℕ → Checked MediaPath → MediaDir → Checked MediaListing × MediaDir
  upload_to storage_quota_mb rel_path body declared_size (refused e) s = (refused e, s)
  upload_to storage_quota_mb rel_path body declared_size (fine path) s =
      let used = used_excluding path (list_files s.entries) in
      let quota = quota_bytes_of storage_quota_mb in
      if is_over used quota declared_size
      then (refused (media_error 413), s)
      else after_receive storage_quota_mb path
          (receive max_bytes used quota (extension_of rel_path) body empty_sink)
          (record s { entries = make_parents [] path s.entries })

  pub upload_file : ℕ → List ℕ → Body → Option ℕ → MediaDir → Checked MediaListing × MediaDir
  upload_file storage_quota_mb rel_path body declared_size s =
      if is_allowed_extension (extension_of rel_path)
      then upload_to storage_quota_mb rel_path body declared_size
          (resolve_safe (lstat s.entries) rel_path) s
      else (refused (media_error 400), s)

abbrev pub delete_at : ℕ → Checked MediaPath → MediaDir → Checked MediaListing × MediaDir
delete_at storage_quota_mb (refused e) s = (refused e, s)
delete_at storage_quota_mb (fine path) s = elim (lstat s.entries path) [
  | some is_file ↦
      let (listing, s') =
        get_listing storage_quota_mb
          (record s { entries = without path s.entries; calls = removed path ∷ s.calls }) in
      (fine listing, s')
  | _ ↦ (refused (media_error 404), s)
]

pub delete_file : ℕ → List ℕ → MediaDir → Checked MediaListing × MediaDir
delete_file storage_quota_mb rel_path s =
    delete_at storage_quota_mb (resolve_safe (lstat s.entries) rel_path) s

-- The move of a file to a path where nothing stands.
abbrev pub move :
    MediaPath → MediaPath → Option Node → Option Kind → MediaDir → Checked Bool × MediaDir
move from to (some (file bytes)) none s = (
  fine true,
  record s {
    entries = (to, file bytes) ∷ without from (make_parents [] to s.entries);
    calls = moved from to ∷ s.calls;
  },
)
move from to (some (file bytes)) (some k) s = (refused (media_error 409), s)
move from to (some directory) target s = (refused (media_error 404), s)
move from to (some symlink) target s = (refused (media_error 404), s)
move from to none target s = (refused (media_error 404), s)

abbrev pub rename_resolved :
    Checked MediaPath → Checked MediaPath → MediaDir → Checked Bool × MediaDir
rename_resolved (refused e) to s = (refused e, s)
rename_resolved (fine from) (refused e) s = (refused e, s)
rename_resolved (fine from) (fine to) s = move from to (read s.entries from) (lstat s.entries to) s

-- The answer is `scene_reference_warning`.
pub rename_file : List ℕ → List ℕ → MediaDir → Checked Bool × MediaDir
rename_file from_path to_path s =
    if is_allowed_extension (extension_of to_path)
    then rename_resolved (resolve_safe (lstat s.entries) from_path)
        (resolve_safe (lstat s.entries) to_path) s
    else (refused (media_error 400), s)

abbrev pub download_at : Checked MediaPath → MediaDir → Checked (MediaPath × ℕ)
download_at (refused e) s = refused e
download_at (fine path) s = elim (read s.entries path) [
  | some (file bytes) ↦ fine (path, length bytes)
  | _ ↦ refused (media_error 404)
]

pub resolve_download : List ℕ → MediaDir → Checked (MediaPath × ℕ)
resolve_download rel_path s = download_at (resolve_safe (lstat s.entries) rel_path) s
