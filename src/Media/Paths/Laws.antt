-- ===== src/Media/Paths/Laws.antt =====
-- A resolved path stays under the media directory.
use mathlib.Core.List.{append_assoc, append-nil}
use obs_instance_manager.Prelude.{
  ℕ, ◌≡◌, refl, sym, ◌∙◌, subst, ◌≢◌, ◌⊎◌, inl, inr, true, false, Option, none, some, List, [], ◌∷◌,
  ◌++◌, arith, All, any, eqb, Bool-cases, Option-cases,
}
use obs_instance_manager.Media.Types.{same_text}
use obs_instance_manager.Media.Paths.{
  Checked, fine, refused, Kind, is_file, is_directory, is_symlink, is_control, forward_slashes,
  without_leading, onto_first, split_path, is_bad_part, lexical_clean, step_error, walk_parts,
  and_walk, resolve_safe,
}

-- A unit that a name may hold, and a name that stands for an entry of its directory.
abbrev IsPlain : ℕ → Type 0
IsPlain c = is_control c ≡ false

abbrev pub IsName : List ℕ → Type 0
IsName p =
    (p ≢ [])
    × (p ≢ b'.' ∷ [])
    × (p ≢ b'.' ∷ b'.' ∷ [])
    × All (λ c. (c ≢ b'/') × (is_control c ≡ false)) p

any-IsPlain : (cs : List ℕ) → any is_control cs ≡ false → All IsPlain cs
any-IsPlain [] h = tt
any-IsPlain (c ∷ cs) h = (ground arith, any-IsPlain cs (ground arith))

forward-IsPlain : (cs : List ℕ) → All IsPlain cs → All IsPlain (forward_slashes cs)
unfolding forward_slashes
forward-IsPlain [] h = tt
forward-IsPlain (c ∷ cs) (h, hs) = (ground arith, forward-IsPlain cs hs)

without_leading-IsPlain : (cs : List ℕ) → All IsPlain cs → All IsPlain (without_leading cs)
unfolding without_leading
without_leading-IsPlain [] h = tt
without_leading-IsPlain (c ∷ cs) (h, hs) = elim (Bool-cases (eqb c b'/')) [
  | inl e ↦ rw e (without_leading-IsPlain cs hs)
  | inr e ↦ rw e (h, hs)
]

-- Names that hold no slash and no control character.
abbrev AllPlain : List (List ℕ) → Type 0
AllPlain ps = All (λ p. All (λ c. (c ≢ b'/') × (is_control c ≡ false)) p) ps

onto_first-plain :
    (c : ℕ) (ps : List (List ℕ))
    → c ≢ b'/'
    → is_control c ≡ false
    → AllPlain ps
    → AllPlain (onto_first c ps)
onto_first-plain c [] n h hs = (((n, h), tt), tt)
onto_first-plain c (p ∷ ps) n h (q, qs) = (((n, h), q), qs)

split_path-plain : (cs : List ℕ) → All IsPlain cs → AllPlain (split_path cs)
unfolding split_path
split_path-plain [] h = (tt, tt)
split_path-plain (c ∷ cs) (h, hs) = elim (Bool-cases (eqb c b'/')) [
  | inl e ↦ rw e (tt, split_path-plain cs hs)
  | inr e ↦ rw e (onto_first-plain c (split_path cs) (λ f. ground arith) h (split_path-plain cs hs))
]

names-split : (ps : List (List ℕ)) → AllPlain ps → any is_bad_part ps ≡ false → All IsName ps
unfolding is_bad_part same_text
names-split [] h b = tt
names-split (p ∷ ps) (h, hs) b = (
  (λ e. ground (arith, e), λ e. ground (arith, e), λ e. ground (arith, e), h),
  names-split ps hs (ground arith),
)

names-clean :
    (rel_path : List ℕ) (parts : List (List ℕ))
    → lexical_clean rel_path ≡ fine parts
    → All IsName parts
unfolding lexical_clean
names-clean rel_path parts e =
    let split = split_path (without_leading (forward_slashes rel_path)) in
    let same : split ≡ parts = ground (arith, e) in
    subst (All IsName) same (
      names-split split
        (split_path-plain _ (
          without_leading-IsPlain _
            (forward-IsPlain rel_path (any-IsPlain rel_path (ground (arith, e))))))
        (ground (arith, e)))

module _ (lstat : List (List ℕ) → Option Kind) where
  -- A component that the walk has passed, with the rest of the path behind it.
  abbrev pub IsPassed : Option Kind → List (List ℕ) → Type 0
  IsPassed k rest = (k ≢ some is_symlink) × ((rest ≡ []) ⊎ (k ≢ some is_file))

  step-IsPassed :
      (k : Option Kind) (rest : List (List ℕ))
      → step_error lstat (elim rest [ [] ↦ true | q ∷ qs ↦ false ]) k ≡ none
      → IsPassed k rest
  step-IsPassed none rest e = (λ f. ground arith, inr (λ f. ground arith))
  step-IsPassed (some is_symlink) rest e = absurd (ground (arith, e))
  step-IsPassed (some is_directory) rest e = (λ f. ground arith, inr (λ f. ground arith))
  step-IsPassed (some is_file) [] e = (λ f. ground arith, inl refl)
  step-IsPassed (some is_file) (q ∷ qs) e = absurd (ground (arith, e))

  walk-step :
      (cur : List (List ℕ)) (p : List ℕ) (ps out : List (List ℕ))
      → walk_parts lstat cur (p ∷ ps) ≡ fine out
      → IsPassed (lstat (cur ++ (p ∷ []))) ps × (walk_parts lstat (cur ++ (p ∷ [])) ps ≡ fine out)
  unfolding walk_parts
  walk-step cur p ps out e =
      let k = lstat (cur ++ (p ∷ [])) in
      elim (Option-cases (step_error lstat (elim ps [ [] ↦ true | q ∷ qs ↦ false ]) k)) [
        | inl f ↦ (step-IsPassed k ps f, ground (arith, e, f))
        | inr (x, f) ↦ absurd (ground (arith, e, f))
      ]

  walk-out : (cur ps out : List (List ℕ)) → walk_parts lstat cur ps ≡ fine out → cur ++ ps ≡ out
  unfolding walk_parts
  walk-out cur [] out e = rw append-nil (ground (arith, e))
  walk-out cur (p ∷ ps) out e =
      sym (append_assoc (cur) (p ∷ []) (ps))
      ∙ walk-out (cur ++ (p ∷ [])) ps out (walk-step cur p ps out e).1

  walk-IsPassed :
      (cur xs : List (List ℕ)) (p : List ℕ) (ys out : List (List ℕ))
      → walk_parts lstat cur (xs ++ (p ∷ ys)) ≡ fine out
      → IsPassed (lstat ((cur ++ xs) ++ (p ∷ []))) ys
  walk-IsPassed cur [] p ys out e = rw append-nil (walk-step cur p ys out e).0
  walk-IsPassed cur (x ∷ xs) p ys out e =
      let rest =
        walk-IsPassed (cur ++ (x ∷ [])) xs p ys out (walk-step cur x (xs ++ (p ∷ ys)) out e).1 in
      subst (λ l. IsPassed (lstat (l ++ (p ∷ []))) ys) (append_assoc (cur) (x ∷ []) (xs)) rest

  -- A path that is resolved, cut behind any of its components: all its names are names of entries
  -- (not empty, not `.` or `..`, without a slash or a control character), so it does not lead out
  -- of the directory; and what `lstat` finds at that component is no symbolic link, nor a file if
  -- more components follow.
  pub resolved_inside :
      (rel_path : List ℕ) (xs : List (List ℕ)) (p : List ℕ) (ys : List (List ℕ))
      → resolve_safe lstat rel_path ≡ fine (xs ++ (p ∷ ys))
      → All IsName (xs ++ (p ∷ ys))
        × (lstat (xs ++ (p ∷ [])) ≢ some is_symlink)
        × ((ys ≡ []) ⊎ (lstat (xs ++ (p ∷ [])) ≢ some is_file))
  unfolding resolve_safe
  resolved_inside rel_path xs p ys e = by_clean (lexical_clean rel_path) refl e
    where
      by_clean :
          (c : Checked (List (List ℕ)))
          → lexical_clean rel_path ≡ c
          → and_walk lstat c ≡ fine (xs ++ (p ∷ ys))
          → All IsName (xs ++ (p ∷ ys))
            × (lstat (xs ++ (p ∷ [])) ≢ some is_symlink)
            × ((ys ≡ []) ⊎ (lstat (xs ++ (p ∷ [])) ≢ some is_file))
      by_clean (refused x) f g = absurd (ground (arith, g))
      by_clean (fine parts) f g =
          let same = walk-out [] parts (xs ++ (p ∷ ys)) g in
          let g' = subst (λ l. walk_parts lstat [] l ≡ fine (xs ++ (p ∷ ys))) same g in
          let (a, b) = walk-IsPassed [] xs p ys (xs ++ (p ∷ ys)) g' in
          (subst (All IsName) same (names-clean rel_path parts f), a, b)
