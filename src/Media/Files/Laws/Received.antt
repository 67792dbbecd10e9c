-- ===== src/Media/Files/Laws/Received.antt =====
-- What the loop over an upload has checked when it ends.
use obs_instance_manager.Prelude.{
  ℕ, zero, suc, ◌+◌, ◌≤◌, min, ◌≡◌, refl, sym, ap, ◌∙◌, subst, ◌⊎◌, inl, inr, true, false, Option,
  List, [], ◌∷◌, ◌++◌, arith, length, take, ltb, leb, length-append, Bool-cases, if◌then◌else◌,
}
use mathlib.Core.List.{append_assoc, append-nil}
use obs_instance_manager.Media.Types.{media_sniff_bytes, content_matches_extension}
use obs_instance_manager.Media.Paths.{Checked, fine, refused}
use obs_instance_manager.Media.Files.Receiving.{
  Body, ends, breaks, chunk, Sink, empty_sink, verify_head, keep_head, sniff, write, accept_chunk,
  receive,
}

-- The bytes of the stream.
abbrev pub all_bytes : Body → List ℕ
all_bytes ends = []
all_bytes breaks = []
all_bytes (chunk value body) = value ++ all_bytes body

-- The stream ends without an error.
abbrev pub IsWhole : Body → Type 0
IsWhole ends = Unit
IsWhole breaks = ⊥
IsWhole (chunk value body) = IsWhole body

take-append-left : (n : ℕ) (xs ys : List ℕ) → n ≤ length xs → take n (xs ++ ys) ≡ take n xs
take-append-left zero xs ys h = refl
take-append-left (suc n) [] ys h = absurd (omega arith)
take-append-left (suc n) (x ∷ xs) ys h = ap (λ l. x ∷ l) (take-append-left n xs ys (omega arith))

take-min : (n : ℕ) (xs : List ℕ) → take (min (length xs) n) xs ≡ take n xs
take-min zero xs = let e : min (length xs) 0 ≡ 0 = omega arith in rw e refl
take-min (suc n) [] = let e : min 0 (suc n) ≡ 0 = omega arith in rw e refl
take-min (suc n) (x ∷ xs) =
    let e : min (suc (length xs)) (suc n) ≡ suc (min (length xs) n) = omega arith in
    rw e (ap (λ l. x ∷ l) (take-min n xs))

module _ (max_bytes used quota : ℕ) (ext : Option (List ℕ)) where
  -- What holds of the sink between two turns.
  record Good (s : Sink) : Type 0 where
    size : s.written ≡ length s.bytes
    below_max : s.written ≤ max_bytes
    below_quota : (s.written ≡ 0) ⊎ (used + s.written ≤ quota)
    kept : s.sniffed ≡ false → (s.head ≡ s.bytes) × (s.head_len ≡ length s.bytes)
    checked :
        s.sniffed ≡ true
        → (content_matches_extension ext (take media_sniff_bytes s.bytes) ≡ true)
          × (media_sniff_bytes ≤ length s.bytes)

  empty_sink-Good : Good empty_sink
  empty_sink-Good = record {
    size = refl;
    below_max = omega arith;
    below_quota = inl refl;
    kept = λ e. (refl, refl);
    checked = λ e. absurd (ground arith);
  }

  verified :
      (s t : Sink)
      → verify_head ext s ≡ fine t
      → (content_matches_extension ext (take (min s.head_len media_sniff_bytes) s.head) ≡ true)
        × (record s { sniffed = true } ≡ t)
  verified s t e =
      elim (Bool-cases
        (content_matches_extension ext (take (min s.head_len media_sniff_bytes) s.head))) [
          | inl f ↦ (f, ground (arith, e, f))
          | inr f ↦ absurd (ground (arith, e, f))
        ]

  -- The head of a sink that has kept all its bytes is that of the file.
  kept-head :
      (s : Sink) (all : List ℕ)
      → s.head ≡ all
      → s.head_len ≡ length all
      → take (min s.head_len media_sniff_bytes) s.head ≡ take media_sniff_bytes all
  kept-head s all h l = rw (h, l) (take-min media_sniff_bytes all)

  sniffed-Good :
      (value : List ℕ) (s t : Sink)
      → Good s
      → s.written + length value ≤ max_bytes
      → used + (s.written + length value) ≤ quota
      → sniff ext value (record s { written = s.written + length value }) ≡ fine t
      → (t.bytes ≡ s.bytes) × Good (record t { bytes = s.bytes ++ value })
  sniffed-Good value s t g m q e = elim (Bool-cases s.sniffed) [
    | inl f ↦
        let same : record s { written = s.written + length value } ≡ t = ground (arith, e, f) in
        let (c, l) = g.checked f in
        (
          ap (λ (u : Sink). u.bytes) (sym same),
          subst (λ (u : Sink). Good (record u { bytes = s.bytes ++ value })) same
              (record {
                size = omega (arith, g.size, length-append s.bytes value);
                below_max = m;
                below_quota = inr q;
                kept = λ h. absurd (ground (arith, f, h));
                checked = λ h. (
                  rw (take-append-left media_sniff_bytes s.bytes value l) c,
                  omega (arith, l, length-append s.bytes value),
                );
              }),
        )
    | inr f ↦
        let (h, l) = g.kept f in
        let s' : Sink = keep_head value (record s { written = s.written + length value }) in
        let head : s'.head ≡ s.bytes ++ value = ap (λ k. k ++ value) h in
        let size : s'.head_len ≡ length (s.bytes ++ value) =
          omega (arith, l, length-append s.bytes value) in
        elim (Bool-cases (leb media_sniff_bytes s'.head_len)) [
          | inl d ↦
              let (c, same) = verified s' t (ground (arith, e, f, d)) in
              let whole : content_matches_extension ext (take media_sniff_bytes (s.bytes ++ value))
                  ≡ true =
                subst (λ k. content_matches_extension ext k ≡ true)
                  (kept-head s' (s.bytes ++ value) head size) c in
              (
                ap (λ (u : Sink). u.bytes) (sym same),
                subst (λ (u : Sink). Good (record u { bytes = s.bytes ++ value })) same
                    (record {
                      size = omega (arith, g.size, length-append s.bytes value);
                      below_max = m;
                      below_quota = inr q;
                      kept = λ i. absurd (ground (arith, i));
                      checked = λ i. (whole, ground (arith, d, size));
                    }),
              )
          | inr d ↦
              let same : s' ≡ t = ground (arith, e, f, d) in
              (
                ap (λ (u : Sink). u.bytes) (sym same),
                subst (λ (u : Sink). Good (record u { bytes = s.bytes ++ value })) same
                    (record {
                      size = omega (arith, g.size, length-append s.bytes value);
                      below_max = m;
                      below_quota = inr q;
                      kept = λ i. (head, size);
                      checked = λ i. absurd (ground (arith, f, i));
                    }),
              )
        ]
  ]

  written :
      (value : List ℕ) (c : Checked Sink) (t : Sink)
      → write value c ≡ fine t
      → (u : Sink) × (c ≡ fine u) × (t ≡ record u { bytes = u.bytes ++ value })
  written value (refused x) t e = absurd (ground (arith, e))
  written value (fine u) t e = (u, refl, ground (arith, e))

  accepted :
      (value : List ℕ) (s t : Sink)
      → Good s
      → accept_chunk max_bytes used quota ext value s ≡ fine t
      → (t.bytes ≡ s.bytes ++ value) × Good t
  unfolding accept_chunk
  accepted value s t g e = elim (Bool-cases (ltb max_bytes (s.written + length value))) [
    | inl a ↦ absurd (ground (arith, e, a))
    | inr a ↦ elim (Bool-cases (ltb quota (used + (s.written + length value)))) [
      | inl b ↦ absurd (ground (arith, e, a, b))
      | inr b ↦
          let r : Sink = record s { written = s.written + length value } in
          let (u, f, same) = written value (sniff ext value r) t (ground (arith, e, a, b)) in
          let (bytes, good) = sniffed-Good value s u g (ground (arith, a)) (ground (arith, b)) f in
          let grown : record u { bytes = s.bytes ++ value } ≡ t =
            ap (λ k. record u { bytes = k ++ value }) (sym bytes) ∙ sym same in
          (ap (λ (w : Sink). w.bytes) (sym grown), subst Good grown good)
    ]
  ]

  -- What has been checked of the bytes of an upload that the loop lets through.
  abbrev pub IsChecked : List ℕ → Type 0
  IsChecked bytes =
      (length bytes ≤ max_bytes)
      × ((length bytes ≡ 0) ⊎ (used + length bytes ≤ quota))
      × (content_matches_extension ext (take media_sniff_bytes bytes) ≡ true)

  bounds :
      (s : Sink)
      → Good s
      → (length s.bytes ≤ max_bytes) × ((length s.bytes ≡ 0) ⊎ (used + length s.bytes ≤ quota))
  bounds s g = ground (arith, g.size, g.below_max, g.below_quota)

  ended :
      (s t : Sink)
      → Good s
      → (if s.sniffed then fine s else verify_head ext s) ≡ fine t
      → (t.bytes ≡ s.bytes) × IsChecked t.bytes
  ended s t g e = elim (Bool-cases s.sniffed) [
    | inl f ↦
        let same : s ≡ t = ground (arith, e, f) in
        subst (λ (u : Sink). (u.bytes ≡ s.bytes) × IsChecked u.bytes) same
          (refl, ((bounds s g).0, (bounds s g).1, (g.checked f).0))
    | inr f ↦
        let (c, same) = verified s t (ground (arith, e, f)) in
        let (h, l) = g.kept f in
        subst (λ (u : Sink). (u.bytes ≡ s.bytes) × IsChecked u.bytes) same
          (
            refl,
            (
              (bounds s g).0,
              (bounds s g).1,
              subst (λ k. content_matches_extension ext k ≡ true) (kept-head s s.bytes h l) c,
            ),
          )
  ]

  received_from :
      (body : Body) (s t : Sink)
      → Good s
      → receive max_bytes used quota ext body s ≡ fine t
      → IsWhole body × (t.bytes ≡ s.bytes ++ all_bytes body) × IsChecked t.bytes
  unfolding receive
  received_from ends s t g e =
      let (same, c) = ended s t g e in (tt, same ∙ sym (append-nil s.bytes), c)
  received_from breaks s t g e = absurd (ground (arith, e))
  received_from (chunk value body) s t g e =
      by_chunk (accept_chunk max_bytes used quota ext value s)
        (λ u good h. received_from body u t good h) refl e
    where
      by_chunk :
          (c : Checked Sink)
          → ((u : Sink)
              → Good u
              → receive max_bytes used quota ext body u ≡ fine t
              → IsWhole body × (t.bytes ≡ u.bytes ++ all_bytes body) × IsChecked t.bytes)
          → accept_chunk max_bytes used quota ext value s ≡ c
          → (elim c [ refused x ↦ refused x | fine s' ↦ receive max_bytes used quota ext body s' ])
            ≡ fine t
          → IsWhole body × (t.bytes ≡ s.bytes ++ (value ++ all_bytes body)) × IsChecked t.bytes
      by_chunk (refused x) next f h = absurd (ground (arith, h))
      by_chunk (fine u) next f h =
          let (grown, good) = accepted value s u g f in
          let (whole, same, c) = next u good h in
          (
            whole,
            same
                ∙ (ap (λ k. k ++ all_bytes body) grown
                    ∙ append_assoc s.bytes value (all_bytes body)),
            c,
          )

  -- An upload that the loop lets through has ended without an error; its bytes are those of the
  -- stream, and they are checked.
  pub received :
      (body : Body) (t : Sink)
      → receive max_bytes used quota ext body empty_sink ≡ fine t
      → IsWhole body × (t.bytes ≡ all_bytes body) × IsChecked t.bytes
  received body t e = received_from body empty_sink t empty_sink-Good e
