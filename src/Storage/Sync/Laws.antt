-- ===== src/Storage/Sync/Laws.antt =====
-- The statistics add up, and a push that succeeded is not repeated.
use Prim.Native.String
use obs_instance_manager.Prelude.{
  ℕ, ◌+◌, ◌≤◌, String, ◌≡◌, refl, sym, ap, ◌∙◌, subst, ◌≢◌, ◌⊎◌, inl, inr, true, Option, none, some,
  List, [], ◌∷◌, arith, All, length, eq_iff, eq_refl, Bool-cases,
}
use obs_instance_manager.Prelude.Dict
use obs_instance_manager.Prelude.Dict.{get-set}
use obs_instance_manager.Effects.{Result, ok, err}
use obs_instance_manager.Storage.Sync.{
  ManifestEntry, LocalFile, Storage, SectionOptions, Section, is_unchanged, same_content,
  after_upload, upload_unless_same, after_hash, content_hash, sync_file, sync_files,
}

module _ {E : Type 0} (storage : Storage E) (opts : SectionOptions) where
  -- The ways in which one file is dealt with: nothing is done, the entry now has the file's size and
  -- time, or a failure is counted and the entries stay.
  Outcome : LocalFile → Section E → Section E → Type 0
  Outcome f s t =
      ((t.failed ≡ s.failed)
        × (t.uploaded + t.skipped ≡ s.uploaded + s.skipped + 1)
        × (is_unchanged (Dict.get t.entries f.rel) f ≡ true)
        × ((rel : String) → rel ≢ f.rel → Dict.get t.entries rel ≡ Dict.get s.entries rel))
      ⊎ ((t.failed ≡ s.failed + 1)
          × (t.uploaded + t.skipped ≡ s.uploaded + s.skipped)
          × (t.entries ≡ s.entries))

  set-Outcome :
      (f : LocalFile) (s t : Section E) (entry : ManifestEntry)
      → t.entries ≡ Dict.set s.entries f.rel entry
      → entry.size ≡ f.size
      → entry.mtime_ms ≡ f.mtime_ms
      → t.failed ≡ s.failed
      → t.uploaded + t.skipped ≡ s.uploaded + s.skipped + 1
      → Outcome f s t
  unfolding Outcome
  set-Outcome f s t entry e a b c d = inl (
    c,
    d,
    rw (e, get-set s.entries f.rel f.rel entry, eq_refl f.rel) (ground arith),
    λ rel n. rw (e, get-set s.entries f.rel rel entry) (ground (arith, eq_iff f.rel rel)),
  )

  same_start :
      (f : LocalFile) (s : Section E) (env : E) (t : Section E)
      → Outcome f (record s { env = env }) t ≡ Outcome f s t
  unfolding Outcome
  same_start f s env t = refl

  after_upload-Outcome :
      (f : LocalFile) (hash : String) (answer : Result (Unit {0})) (s : Section E)
      → Outcome f s (after_upload storage opts f hash answer s)
  unfolding after_upload
  after_upload-Outcome f hash (err e) s = unfold Outcome in inr (refl, refl, refl)
  after_upload-Outcome f hash (ok u) s = set-Outcome f s _ _ refl refl refl refl (omega arith)

  same-Outcome :
      (f : LocalFile) (hash : String) (prev : Option ManifestEntry) (s : Section E)
      → Outcome f s (upload_unless_same storage opts f hash prev s)
  unfolding upload_unless_same
  same-Outcome f hash (some prev) s = set-Outcome f s _ _ refl refl refl refl (omega arith)
  same-Outcome f hash none s =
      let answered = storage.upload_file (String.◌++◌ opts.prefix f.rel) f.rel f.size s.env in
      subst (λ o. o)
        (same_start f s answered.1
          (after_upload storage opts f hash answered.0 (record s { env = answered.1 })))
        (after_upload-Outcome f hash answered.0 (record s { env = answered.1 }))

  after_hash-Outcome :
      (f : LocalFile) (hash : Result String) (s : Section E)
      → Outcome f s (after_hash storage opts f hash s)
  unfolding after_hash
  after_hash-Outcome f (err e) s = unfold Outcome in inr (refl, refl, refl)
  after_hash-Outcome f (ok hash) s =
      same-Outcome f hash (same_content (Dict.get s.entries f.rel) hash) s

  sync_file-Outcome : (f : LocalFile) (s : Section E) → Outcome f s (sync_file storage opts f s)
  unfolding sync_file
  sync_file-Outcome f s = elim (Bool-cases (is_unchanged (Dict.get s.entries f.rel) f)) [
    | inl e ↦ rw e (unfold Outcome in inl (refl, omega arith, e, λ rel n. refl))
    | inr e ↦
        let hashed = content_hash storage opts f s.env in
        rw e (
          subst (λ o. o)
            (same_start f s hashed.1
              (after_hash storage opts f hashed.0 (record s { env = hashed.1 })))
            (after_hash-Outcome f hashed.0 (record s { env = hashed.1 })))
  ]

  -- Every file of a pass is counted exactly once: as uploaded, skipped or failed.
  sync_files_counts :
      (fs : List LocalFile) (s : Section E)
      → let t = sync_files storage opts fs s in
        t.uploaded + t.skipped + t.failed ≡ s.uploaded + s.skipped + s.failed + length fs
  unfolding sync_files Outcome
  sync_files_counts [] s = omega arith
  sync_files_counts (f ∷ fs) s = elim (sync_file-Outcome f s) [
    | inl (a, b, c, d) ↦ omega (arith, a, b, sync_files_counts fs (sync_file storage opts f s))
    | inr (a, b, c) ↦ omega (arith, a, b, sync_files_counts fs (sync_file storage opts f s))
  ]

  failed-le :
      (fs : List LocalFile) (s : Section E) → s.failed ≤ (sync_files storage opts fs s).failed
  unfolding sync_files Outcome
  failed-le [] s = omega arith
  failed-le (f ∷ fs) s = elim (sync_file-Outcome f s) [
    | inl (a, b, c, d) ↦ omega (arith, a, failed-le fs (sync_file storage opts f s))
    | inr (a, b, c) ↦ omega (arith, a, failed-le fs (sync_file storage opts f s))
  ]

  -- Each file's entry has its size and time.
  abbrev Recorded : List LocalFile → Section E → Type 0
  Recorded fs s = All (λ f. is_unchanged (Dict.get s.entries f.rel) f ≡ true) fs

  -- The files of a listing have paths of their own.
  abbrev pub Distinct : List LocalFile → Type 0
  Distinct [] = Unit
  Distinct (f ∷ fs) = All (λ g. f.rel ≢ g.rel) fs × Distinct fs

  sync_files-keeps :
      (fs : List LocalFile) (s : Section E) (rel : String)
      → All (λ g. rel ≢ g.rel) fs
      → (sync_files storage opts fs s).failed ≡ s.failed
      → Dict.get (sync_files storage opts fs s).entries rel ≡ Dict.get s.entries rel
  unfolding sync_files Outcome
  sync_files-keeps [] s rel n h = refl
  sync_files-keeps (f ∷ fs) s rel (n, ns) h =
      let s1 = sync_file storage opts f s in
      elim (sync_file-Outcome f s) [
        | inl (a, b, c, d) ↦ sync_files-keeps fs s1 rel ns (h ∙ sym a) ∙ d rel n
        | inr (a, b, c) ↦ absurd (omega (arith, a, h, failed-le fs s1))
      ]

  sync_files-Recorded :
      (fs : List LocalFile) (s : Section E)
      → Distinct fs
      → (sync_files storage opts fs s).failed ≡ s.failed
      → Recorded fs (sync_files storage opts fs s)
  unfolding sync_files Outcome
  sync_files-Recorded [] s n h = tt
  sync_files-Recorded (f ∷ fs) s (n, ns) h =
      let s1 = sync_file storage opts f s in
      elim (sync_file-Outcome f s) [
        | inl (a, b, c, d) ↦ (
          rw (sync_files-keeps fs s1 f.rel n (h ∙ sym a)) c,
          sync_files-Recorded fs s1 ns (h ∙ sym a),
        )
        | inr (a, b, c) ↦ absurd (omega (arith, a, h, failed-le fs s1))
      ]

  -- A pass over recorded files skips them all.
  Recorded-skipped :
      (fs : List LocalFile) (s : Section E)
      → Recorded fs s
      → sync_files storage opts fs s ≡ record s { skipped = s.skipped + length fs }
  unfolding sync_files sync_file
  Recorded-skipped [] s h = ap (λ (n : ℕ). record s { skipped = n }) (omega arith)
  Recorded-skipped (f ∷ fs) s (h, hs) = rw h (
      Recorded-skipped fs (record s { skipped = s.skipped + 1 }) hs
      ∙ ap (λ (n : ℕ). record s { skipped = n }) (omega arith))

  -- A pass without failures over files with paths of their own is not repeated: a second pass over
  -- the same files hashes nothing, uploads nothing, changes no entry, and counts them all as skipped.
  pub second_sync :
      (fs : List LocalFile) (s : Section E)
      → Distinct fs
      → (sync_files storage opts fs s).failed ≡ s.failed
      → let t = sync_files storage opts fs s in
        sync_files storage opts fs t ≡ record t { skipped = t.skipped + length fs }
  second_sync fs s n h =
      Recorded-skipped fs (sync_files storage opts fs s) (sync_files-Recorded fs s n h)
