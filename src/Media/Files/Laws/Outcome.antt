-- ===== src/Media/Files/Laws/Outcome.antt =====
-- An upload does all of its work, or changes no file.
use obs_instance_manager.Prelude.{
  ℕ, ◌+◌, ◌≡◌, refl, sym, ap, ◌∙◌, subst, ◌⊎◌, inl, inr, Option, none, some, List, [], ◌∷◌, ◌++◌,
  arith, length, is_some, if_cases, if◌then◌else◌,
}
use obs_instance_manager.Media.Types.{extension_of, is_allowed_extension}
use obs_instance_manager.Media.Paths.{
  MediaError, media_error, Checked, fine, refused, Kind, is_file, is_directory, is_symlink,
  resolve_safe, to_rel,
}
use obs_instance_manager.Storage.Policy.{is_synced_media_path}
use obs_instance_manager.Media.Files.{
  MediaPath, Node, file, directory, symlink, pushed, MediaDir, MediaListing, lstat, without,
  list_files, total, used_excluding, quota_bytes_of, get_listing, make_parents, is_over, commit,
  after_receive, upload_to, upload_file,
}
use obs_instance_manager.Media.Files.Receiving.{Body, Sink, empty_sink, receive}
use obs_instance_manager.Media.Files.Laws.Received.{all_bytes, IsWhole, IsChecked, received}

files-make_parents :
    (cur path : MediaPath) (es : List (MediaPath × Node))
    → list_files (make_parents cur path es) ≡ list_files es
unfolding make_parents list_files
files-make_parents cur [] es = refl
files-make_parents cur (p ∷ []) es = refl
files-make_parents cur (p ∷ q ∷ ps) es =
    let dir = cur ++ (p ∷ []) in
    if_cases
      (λ (fs : List (MediaPath × Node)). list_files (make_parents dir (q ∷ ps) fs) ≡ list_files es)
      (is_some (lstat es dir)) (λ e. files-make_parents dir (q ∷ ps) es)
      (λ e. files-make_parents dir (q ∷ ps) ((dir, directory) ∷ es))

total-without :
    (path : MediaPath) (es : List (MediaPath × Node))
    → total (list_files (without path es)) ≡ used_excluding path (list_files es)
unfolding without list_files used_excluding total
total-without path [] = refl
total-without path ((p, file bytes) ∷ es) = ground (arith, total-without path es)
total-without path ((p, directory) ∷ es) = ground (arith, total-without path es)
total-without path ((p, symlink) ∷ es) = ground (arith, total-without path es)

module _ (max_bytes storage_quota_mb : ℕ) (rel_path : List ℕ) (body : Body) (s : MediaDir) where
  -- The upload is refused, and no file, no call to S3 and no stored usage has changed.
  abbrev pub IsRefused : Checked MediaListing × MediaDir → Type 0
  IsRefused (r, s') =
      ((e : MediaError) × (r ≡ refused e))
      × (list_files s'.entries ≡ list_files s.entries)
      × (s'.calls ≡ s.calls)
      × (s'.used_storage_bytes ≡ s.used_storage_bytes)

  -- The upload stands at the path, and its upload to S3 was asked for if the policy syncs the path.
  abbrev pub IsStored : MediaPath → Checked MediaListing × MediaDir → Type 0
  IsStored path (r, s') =
      let used = used_excluding path (list_files s.entries) in
      let bytes = all_bytes body in
      (resolve_safe (lstat s.entries) rel_path ≡ fine path)
      × IsWhole body
      × IsChecked max_bytes used (quota_bytes_of storage_quota_mb) (extension_of rel_path) bytes
      × (s'.entries ≡ (path, file bytes) ∷ without path (make_parents [] path s.entries))
      × (s'.calls ≡ (if is_synced_media_path (to_rel path) then pushed path ∷ s.calls else s.calls))
      × (s'.used_storage_bytes ≡ length bytes + used)
      × ((listing : MediaListing) × (r ≡ fine listing) × (listing.used_bytes ≡ length bytes + used))

  abbrev pub IsOutcome : Checked MediaListing × MediaDir → Type 0
  IsOutcome o = IsRefused o ⊎ ((path : MediaPath) × IsStored path o)

  refused_same : (e : MediaError) → IsOutcome (refused e, s)
  refused_same e = inl ((e, refl), refl, refl, refl)

  used-stored :
      (path : MediaPath)
      → total (list_files (without path (make_parents [] path s.entries)))
        ≡ used_excluding path (list_files s.entries)
  used-stored path =
      total-without path (make_parents [] path s.entries)
      ∙ ap (used_excluding path) (files-make_parents [] path s.entries)

  used_size :
      (path : MediaPath)
      → length (all_bytes body) + total (list_files (without path (make_parents [] path s.entries)))
        ≡ length (all_bytes body) + used_excluding path (list_files s.entries)
  used_size path = ap (λ n. length (all_bytes body) + n) (used-stored path)

  -- The directories above the path have been made.
  abbrev parented : MediaPath → MediaDir
  parented path = record s { entries = make_parents [] path s.entries }

  stored :
      (path : MediaPath)
      → resolve_safe (lstat s.entries) rel_path ≡ fine path
      → IsWhole body
      → IsChecked max_bytes
          (used_excluding path (list_files s.entries))
          (quota_bytes_of storage_quota_mb)
          (extension_of rel_path)
          (all_bytes body)
      → (k : Option Kind)
      → IsOutcome (commit storage_quota_mb path (all_bytes body) k (parented path))
  unfolding get_listing list_files total
  stored path e w c (some is_directory) =
      inl ((_, refl), files-make_parents [] path s.entries, refl, refl)
  stored path e w c (some is_file) =
      inr (path, (e, w, c, refl, refl, used_size path, (_, refl, used_size path)))
  stored path e w c (some is_symlink) =
      inr (path, (e, w, c, refl, refl, used_size path, (_, refl, used_size path)))
  stored path e w c none =
      inr (path, (e, w, c, refl, refl, used_size path, (_, refl, used_size path)))

  received-IsOutcome :
      (path : MediaPath) (c : Checked Sink)
      → resolve_safe (lstat s.entries) rel_path ≡ fine path
      → receive max_bytes
          (used_excluding path (list_files s.entries))
          (quota_bytes_of storage_quota_mb)
          (extension_of rel_path)
          body
          empty_sink
        ≡ c
      → IsOutcome (after_receive storage_quota_mb path c (parented path))
  received-IsOutcome path (refused x) e r =
      inl ((x, refl), files-make_parents [] path s.entries, refl, refl)
  received-IsOutcome path (fine sink) e r =
      let (w, b, c) =
        received max_bytes (used_excluding path (list_files s.entries))
          (quota_bytes_of storage_quota_mb) (extension_of rel_path) body sink r in
      subst
        (λ bytes. IsOutcome (
          commit storage_quota_mb path bytes (lstat (make_parents [] path s.entries) path)
            (parented path)))
        (sym b)
        (stored path e w
          (subst
            (IsChecked max_bytes (used_excluding path (list_files s.entries))
              (quota_bytes_of storage_quota_mb) (extension_of rel_path))
            b c)
          (lstat (make_parents [] path s.entries) path))

  resolved-IsOutcome :
      (declared_size : Option ℕ) (c : Checked MediaPath)
      → resolve_safe (lstat s.entries) rel_path ≡ c
      → IsOutcome (upload_to max_bytes storage_quota_mb rel_path body declared_size c s)
  resolved-IsOutcome declared_size (refused x) e = refused_same x
  resolved-IsOutcome declared_size (fine path) e =
      if_cases IsOutcome
        (is_over max_bytes (used_excluding path (list_files s.entries))
          (quota_bytes_of storage_quota_mb) declared_size)
        (λ o. refused_same (media_error 413)) (λ o. received-IsOutcome path _ e refl)

  -- An upload is refused, and then no file, no call to S3 and no stored usage has changed; or it
  -- stands, whole, at the path that its name resolves to, S3 was asked to take it exactly if the sync
  -- policy keeps the path, its size is at most the largest one allowed, with the other files it is
  -- within the quota unless it is empty, its leading bytes fit its extension, and the usage answered
  -- and stored is that of all files.
  pub upload-IsOutcome :
      (declared_size : Option ℕ)
      → IsOutcome (upload_file max_bytes storage_quota_mb rel_path body declared_size s)
  unfolding upload_file
  upload-IsOutcome declared_size =
      if_cases IsOutcome (is_allowed_extension (extension_of rel_path))
        (λ e. resolved-IsOutcome declared_size (resolve_safe (lstat s.entries) rel_path) refl)
        (λ e. refused_same (media_error 400))
