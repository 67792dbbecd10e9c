-- ===== src/Storage/Policy/Laws.antt =====
-- What the policy says of the paths that an upload accepts.
use obs_instance_manager.Prelude.{
  ℕ, ◌≡◌, refl, ap, ◌∙◌, ◌≢◌, Bool, false, not, ◌||◌, Option, List, [], ◌∷◌, ◌++◌, arith, All, any,
  eqb,
}
use obs_instance_manager.Media.Types.{same_text}
use obs_instance_manager.Media.Paths.{Kind, is_control, fine, to_rel, split_path, resolve_safe}
use obs_instance_manager.Media.Paths.Laws.{IsName, resolved_inside}
use obs_instance_manager.Storage.Policy.{is_dots, is_hidden, is_synced_media_path}

abbrev NoSlash : List ℕ → Type 0
NoSlash p = All (λ c. c ≢ b'/') p

split-name : (p : List ℕ) → NoSlash p → split_path p ≡ p ∷ []
unfolding split_path
split-name [] h = refl
split-name (c ∷ cs) (n, h) = rw (split-name cs h) (ground (arith, n))

split-append : (p rest : List ℕ) → NoSlash p → split_path (p ++ (b'/' ∷ rest)) ≡ p ∷ split_path rest
unfolding split_path
split-append [] rest h = refl
split-append (c ∷ cs) rest (n, h) = rw (split-append cs rest h) (ground (arith, n))

split-join :
    (p : List ℕ) (ps : List (List ℕ)) → All NoSlash (p ∷ ps) → split_path (to_rel (p ∷ ps)) ≡ p ∷ ps
unfolding to_rel
split-join p [] (h, hs) = split-name p h
split-join p (q ∷ ps) (h, hs) =
    split-append p (to_rel (q ∷ ps)) h ∙ ap (λ l. p ∷ l) (split-join q ps hs)

any-append : (f : ℕ → Bool) (xs ys : List ℕ) → any f (xs ++ ys) ≡ (any f xs || any f ys)
any-append f [] ys = refl
any-append f (x ∷ xs) ys = ground (arith, any-append f xs ys)

name-NoSlash : (p : List ℕ) → All (λ c. (c ≢ b'/') × (is_control c ≡ false)) p → NoSlash p
name-NoSlash [] h = tt
name-NoSlash (c ∷ cs) ((n, k), hs) = (n, name-NoSlash cs hs)

names-NoSlash : (ps : List (List ℕ)) → All IsName ps → All NoSlash ps
names-NoSlash [] h = tt
names-NoSlash (p ∷ ps) (h, hs) = (name-NoSlash p h.3, names-NoSlash ps hs)

name-no_nul :
    (p : List ℕ) → All (λ c. (c ≢ b'/') × (is_control c ≡ false)) p → any (λ c. eqb c 0) p ≡ false
name-no_nul [] h = refl
name-no_nul (c ∷ cs) ((n, k), hs) = ground (arith, name-no_nul cs hs, k)

join-no_nul :
    (p : List ℕ) (ps : List (List ℕ))
    → All IsName (p ∷ ps)
    → any (λ c. eqb c 0) (to_rel (p ∷ ps)) ≡ false
unfolding to_rel
join-no_nul p [] (h, hs) = name-no_nul p h.3
join-no_nul p (q ∷ ps) (h, hs) =
    any-append (λ c. eqb c 0) p (b'/' ∷ to_rel (q ∷ ps))
    ∙ ground (arith, name-no_nul p h.3, join-no_nul q ps hs)

join-non_empty : (p : List ℕ) (ps : List (List ℕ)) → p ≢ [] → same_text (to_rel (p ∷ ps)) [] ≡ false
unfolding to_rel same_text
join-non_empty [] ps h = absurd (h refl)
join-non_empty (c ∷ p) [] h = refl
join-non_empty (c ∷ p) (q ∷ ps) h = refl

dots-hidden : (p : List ℕ) → (is_dots p || is_hidden p) ≡ is_hidden p
unfolding is_dots same_text
dots-hidden [] = refl
dots-hidden (c ∷ p) = ground arith

any_dots-hidden : (ps : List (List ℕ)) → any (λ p. is_dots p || is_hidden p) ps ≡ any is_hidden ps
any_dots-hidden [] = refl
any_dots-hidden (p ∷ ps) = ground (arith, dots-hidden p, any_dots-hidden ps)

-- The predicate of the sync policy holds of a path that the media routes accept exactly when none of
-- its names begins with a dot: whatever the path of the request and the files that are there.
pub accepted_synced :
    (lstat : List (List ℕ) → Option Kind) (rel_path p : List ℕ) (ps : List (List ℕ))
    → resolve_safe lstat rel_path ≡ fine (p ∷ ps)
    → is_synced_media_path (to_rel (p ∷ ps)) ≡ not (any is_hidden (p ∷ ps))
unfolding is_synced_media_path
accepted_synced lstat rel_path p ps e =
    let (h, hs) = (resolved_inside lstat rel_path [] p ps e).0 in
    rw
      (
        join-non_empty p ps h.0,
        join-no_nul p ps (h, hs),
        split-join p ps (names-NoSlash (p ∷ ps) (h, hs)),
      )
      (ap not (any_dots-hidden (p ∷ ps)))
