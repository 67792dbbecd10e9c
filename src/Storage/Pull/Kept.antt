-- ===== src/Storage/Pull/Kept.antt =====
-- What stands in a directory that is left over and that S3 did not take.
use Prim.Native.String
use obs_instance_manager.Prelude.{
  String, true, ◌≡◌, ap, ◌∙◌, none, some, List, [], ◌∷◌, All, arith, eq_iff, if◌then◌else◌, inl,
  inr, ◌⊎◌,
}
use obs_instance_manager.Prelude.Dict
use obs_instance_manager.Prelude.Dict.{Dict}
use obs_instance_manager.Effects.{Error, Result, ok, err}
use obs_instance_manager.Storage.Pull.{
  Bucket, Prefixes, Local, Leftover, is_profile, without_profiles, apply_template_profile,
  profile_record, profiled, after_push, after_remove, fresh, pull_obs_config,
}
use obs_instance_manager.Storage.Pull.Layers.{has, under, IsPlain, download_lem}

get-without_profiles :
    (files : Dict String) (path : String)
    → Dict.get (without_profiles files) path
      ≡ (if is_profile path then none else Dict.get files path)
unfolding without_profiles Dict.get
get-without_profiles [] path = ground arith
get-without_profiles ((rel, body) ∷ files) path =
    ground
      (arith, eq_iff rel path, get-without_profiles files path, ap is_profile {x = rel} {y = path})

module _ (b : Bucket) (body : String → String) (p : Prefixes) (rels : List String) where
  profile_lem :
      (l : Local) (path : String)
      → b.list_keys (String.◌++◌ p.template_prefix "basic/profiles/")
        ≡ ok (under p.template_prefix rels)
      → All (IsPlain b body p.template_prefix) rels
      → Dict.get (apply_template_profile b p l).config path ≡ (
          if has path rels
          then some (body (String.◌++◌ p.template_prefix path))
          else if is_profile path
          then none
          else Dict.get l.config path)
  unfolding apply_template_profile
  profile_lem l path listed plain =
      ap (λ a. Dict.get (profiled b p a (without_profiles l.config)) path) listed
      ∙ (download_lem b body (profile_record b p) rels
            (record { files = without_profiles l.config; entries = Dict.empty }) plain).1
          path
      ∙ ap (λ o. if has path rels then some (body (String.◌++◌ p.template_prefix path)) else o)
          (get-without_profiles l.config path)

  falls_back :
      (left : Leftover) (l l' : Local) (e : Error)
      → l.exists ≡ true
      → (left.push l ≡ (err e, l'))
        ⊎ (((left.push l).0 ≡ ok tt) × (left.remove (left.push l).1 ≡ (err e, l')))
      → pull_obs_config b p left l ≡ (ok tt, apply_template_profile b p l')
  unfolding pull_obs_config
  falls_back left l l' e there (inl failed) =
      ap (λ c. if c then after_push b p left (left.push l) else fresh b p l) there
      ∙ (ap (after_push b p left) failed)
  falls_back left l l' e there (inr (pushed, failed)) =
      ap (λ c. if c then after_push b p left (left.push l) else fresh b p l) there
      ∙ ap (λ a. after_push b p left (a, (left.push l).1)) pushed
      ∙ ap (after_remove b p) failed

  -- For every directory that is left over, every error of the push or, after a push, of the removal,
  -- and every bucket that lists the template's profile with plain paths: the pull succeeds and leaves
  -- the media, the manifest and each config file outside basic/profiles/ and the template's profile as
  -- the failed call left them; the files of the profile are the template's and no others.
  pub leftover_kept :
      (left : Leftover) (l l' : Local) (e : Error) (path : String)
      → l.exists ≡ true
      → (left.push l ≡ (err e, l'))
        ⊎ (((left.push l).0 ≡ ok tt) × (left.remove (left.push l).1 ≡ (err e, l')))
      → b.list_keys (String.◌++◌ p.template_prefix "basic/profiles/")
        ≡ ok (under p.template_prefix rels)
      → All (IsPlain b body p.template_prefix) rels
      → ((pull_obs_config b p left l).0 ≡ ok tt)
        × ((pull_obs_config b p left l).1.media ≡ l'.media)
        × ((pull_obs_config b p left l).1.manifest ≡ l'.manifest)
        × (Dict.get (pull_obs_config b p left l).1.config path ≡ (
            if has path rels
            then some (body (String.◌++◌ p.template_prefix path))
            else if is_profile path
            then none
            else Dict.get l'.config path))
  unfolding apply_template_profile
  leftover_kept left l l' e path there failed listed plain =
      let same = falls_back left l l' e there failed in
      (
        ap (λ (x : Result (Unit {0}) × Local). x.0) same,
        ap (λ (x : Result (Unit {0}) × Local). x.1.media) same,
        ap (λ (x : Result (Unit {0}) × Local). x.1.manifest) same,
        ap (λ (x : Result (Unit {0}) × Local). Dict.get x.1.config path) same
            ∙ profile_lem l' path listed plain,
      )
