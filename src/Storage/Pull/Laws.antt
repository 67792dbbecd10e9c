-- ===== src/Storage/Pull/Laws.antt =====
-- What stands in an instance's directory after a pull.
use Prim.Native.String
use obs_instance_manager.Prelude.{
  String, Bool, true, false, not, ◌≡◌, refl, sym, ap, ◌∙◌, none, some, List, [], select, All, subst,
  if◌then◌else◌,
}
use obs_instance_manager.Prelude.Dict
use obs_instance_manager.Prelude.Dict.{Dict}
use obs_instance_manager.Effects.{Result, ok, Op}
use obs_instance_manager.Storage.Sync.{split_by_policy}
use obs_instance_manager.Storage.Pull.{
  Bucket, Layer, Local, no_dir, Prefixes, PullState, Leftover, config_filter, media_filter,
  is_plugin, and_then, ◌>>=◌, listing, to_config, to_media, prune, save_manifest, template_record,
  overlay_record, media_record, pull_obs_media, pull_fresh, empty_manifest, fresh, after_remove,
  after_push, pull_obs_config,
}
use obs_instance_manager.Storage.Pull.Layers.{has, under, IsPlain, download_lem, select-under}

bind_ok :
    {A B : Type 0} (m : Op PullState A) (f : A → Op PullState B) {a : A} {s t : PullState}
    → m s ≡ (ok a, t)
    → (m >>= f) s ≡ f a t
bind_ok m f e = ap (λ (x : Result _ × PullState). and_then x.0 f x.1) e

module _ (b : Bucket) (body : String → String) (p : Prefixes)
    (trels orels mrels : List String) where
  -- The files of the template, of the user's config and of the user's media that are pulled.
  abbrev pub template_files : List String
  template_files = select (λ rel. not (is_plugin rel)) trels

  abbrev pub config_files : List String
  config_files = select config_filter orels

  abbrev pub media_files : List String
  media_files = select media_filter mrels

  -- S3 answers, and all of these files have plain paths.
  pub record Serves : Type 0 where
    pub template_list : b.list_keys p.template_prefix ≡ ok (under p.template_prefix trels)
    pub config_list : b.list_keys p.config_prefix ≡ ok (under p.config_prefix orels)
    pub media_list : b.list_keys p.media_prefix ≡ ok (under p.media_prefix mrels)
    pub template_plain : All (IsPlain b body p.template_prefix) template_files
    pub config_plain : All (IsPlain b body p.config_prefix) config_files
    pub media_plain : All (IsPlain b body p.media_prefix) media_files

  module _ (h : Serves) (s : PullState) where
    abbrev s1 : PullState
    s1 = (to_config b p (template_record b p) (under p.template_prefix template_files) s).1

    abbrev s2 : PullState
    s2 = (to_config b p (overlay_record b p) (under p.config_prefix config_files) s1).1

    abbrev s3 : PullState
    s3 =
        (prune b p (split_by_policy (under p.config_prefix orels) p.config_prefix config_filter).1
          s2).1

    abbrev s4 : PullState
    s4 = (to_media b p (media_record b p) (under p.media_prefix media_files) s3).1

    abbrev s5 : PullState
    s5 =
        (prune b p (split_by_policy (under p.media_prefix mrels) p.media_prefix media_filter).1
          s4).1

    abbrev s6 : PullState
    s6 = (save_manifest b p s5).1

    layer_of : PullState → Layer
    layer_of t = record { files = t.local.config; entries = t.manifest.config }

    media_of : PullState → Layer
    media_of t = record { files = t.local.media; entries = t.manifest.media }

    media_ok : pull_obs_media b p s3 ≡ (ok tt, s5)
    unfolding pull_obs_media split_by_policy media_of
    media_ok =
        bind_ok (listing b p p.media_prefix) _ (ap (λ k. (k, s3)) h.media_list)
        ∙ bind_ok (to_media b p (media_record b p) _) _ (
            ap (λ k. to_media b p (media_record b p) k s3)
              (select-under p.media_prefix media_filter mrels)
            ∙ ap (λ (a : Result (Unit {0})). (a, s4))
                (download_lem b body (media_record b p) media_files (media_of s3) h.media_plain).0)

    fresh_ok : pull_fresh b p s ≡ (ok tt, s6)
    unfolding pull_fresh split_by_policy layer_of
    fresh_ok =
        bind_ok (listing b p p.template_prefix) _ (ap (λ k. (k, s)) h.template_list)
        ∙ bind_ok (to_config b p (template_record b p) _) _ (
            ap (λ k. to_config b p (template_record b p) k s)
              (select-under p.template_prefix (λ rel. not (is_plugin rel)) trels)
            ∙ ap (λ (a : Result (Unit {0})). (a, s1))
                (download_lem b body (template_record b p) template_files (layer_of s)
                  h.template_plain).0)
        ∙ bind_ok (listing b p p.config_prefix) _ (ap (λ k. (k, s1)) h.config_list)
        ∙ bind_ok (to_config b p (overlay_record b p) _) _ (
            ap (λ k. to_config b p (overlay_record b p) k s1)
              (select-under p.config_prefix config_filter orels)
            ∙ ap (λ (a : Result (Unit {0})). (a, s2))
                (download_lem b body (overlay_record b p) config_files (layer_of s1)
                  h.config_plain).0)
        ∙ bind_ok (pull_obs_media b p) _ media_ok

    config_lem :
        (path : String)
        → Dict.get s6.local.config path ≡ (
            if has path config_files
            then some (body (String.◌++◌ p.config_prefix path))
            else if has path template_files
            then some (body (String.◌++◌ p.template_prefix path))
            else Dict.get s.local.config path)
    unfolding layer_of
    config_lem path =
        (download_lem b body (overlay_record b p) config_files (layer_of s1) h.config_plain).1 path
        ∙ ap
            (λ o.
              if has path config_files then some (body (String.◌++◌ p.config_prefix path)) else o)
            ((download_lem b body (template_record b p) template_files (layer_of s)
                h.template_plain).1
              path)

    media_lem :
        (path : String)
        → Dict.get s6.local.media path ≡ (
            if has path media_files
            then some (body (String.◌++◌ p.media_prefix path))
            else Dict.get s.local.media path)
    unfolding media_of
    media_lem path =
        (download_lem b body (media_record b p) media_files (media_of s3) h.media_plain).1 path

  -- The user's own file stands over the template's, and nothing else is in the directory.
  pub record IsPulled (answer : Result (Unit {0})) (l : Local) : Type 0 where
    answered : answer ≡ ok tt
    config_of :
        (path : String)
        → Dict.get l.config path ≡ (
            if has path config_files
            then some (body (String.◌++◌ p.config_prefix path))
            else if has path template_files
            then some (body (String.◌++◌ p.template_prefix path))
            else none)
    media_at :
        (path : String)
        → Dict.get l.media path
          ≡ (if has path media_files then some (body (String.◌++◌ p.media_prefix path)) else none)

  fresh-IsPulled : Serves → IsPulled (fresh b p no_dir).0 (fresh b p no_dir).1
  unfolding Dict.get
  fresh-IsPulled h =
      let start : PullState = record {
        local = record no_dir { exists = true };
        manifest = empty_manifest b p;
        pruned = [];
      } in
      subst (λ x. IsPulled x.0 x.1.local) (sym (fresh_ok h start))
        (record { answered = refl; config_of = config_lem h start; media_at = media_lem h start })

  -- What the pull comes to where a directory that is left over was pushed and removed.
  pushed_lem :
      (left : Leftover) (l : Local) (there : Bool)
      → (there ≡ true → (left.push l).0 ≡ ok tt)
      → (there ≡ true → left.remove (left.push l).1 ≡ (ok tt, no_dir))
      → (there ≡ false → l ≡ no_dir)
      → (if there then after_push b p left (left.push l) else fresh b p l) ≡ fresh b p no_dir
  pushed_lem left l false pushed removed empty = ap (fresh b p) (empty refl)
  pushed_lem left l true pushed removed empty =
      ap (λ a. after_push b p left (a, (left.push l).1)) (pushed refl)
      ∙ ap (after_remove b p) (removed refl)

  -- For every bucket that answers and whose files to pull have plain paths, and every directory: where
  -- a directory that is left over is pushed and removed and one that is not there is empty, the pull
  -- succeeds. The config directory then has each file of the user's config that the policy syncs, the
  -- template's files but its plugins at the other paths, and nothing else; the media directory has
  -- the user's media that the policy syncs and nothing else.
  pub pulled :
      (left : Leftover) (l : Local)
      → Serves
      → (l.exists ≡ true → (left.push l).0 ≡ ok tt)
      → (l.exists ≡ true → left.remove (left.push l).1 ≡ (ok tt, no_dir))
      → (l.exists ≡ false → l ≡ no_dir)
      → IsPulled (pull_obs_config b p left l).0 (pull_obs_config b p left l).1
  unfolding pull_obs_config
  pulled left l h pushed removed empty =
      subst (λ x. IsPulled x.0 x.1) (sym (pushed_lem left l l.exists pushed removed empty))
        (fresh-IsPulled h)
