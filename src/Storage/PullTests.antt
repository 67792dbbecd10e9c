-- ===== src/Storage/PullTests.antt =====
-- A pull over a directory that is left over: one file of the template is replaced by the user's.
use Prim.Native.String
use obs_instance_manager.Prelude.{
  String, true, ◌≡◌, refl, some, none, List, [], ◌∷◌, arith, inl, ◌==◌, if◌then◌else◌,
}
use obs_instance_manager.Prelude.Dict
use obs_instance_manager.Effects.{failed, ok, err}
use obs_instance_manager.Media.Types.{same_text, codes, begins}
use obs_instance_manager.Media.Paths.{split_path}
use obs_instance_manager.Storage.Policy.{
  is_plugin_path, is_synced_config_path, is_synced_media_path, starts_with, ends_in, is_text,
  is_dots, last_part, basename, cut_slash,
}
use obs_instance_manager.Storage.Pull.{
  Bucket, Prefixes, Local, Leftover, no_dir, is_profile, pull_obs_config,
}
use obs_instance_manager.Storage.Pull.Layers.{has, under}
use obs_instance_manager.Storage.Pull.Kept.{leftover_kept}
use obs_instance_manager.Storage.Pull.Laws.{IsPulled, pulled}

abbrev prefixes : Prefixes
prefixes = record { template_prefix = "t/"; config_prefix = "u/i/"; media_prefix = "m/i/" }

abbrev trels : List String
trels = "global.ini" ∷ "basic/scenes/a.json" ∷ []

abbrev orels : List String
orels = "basic/scenes/a.json" ∷ "logs/today.txt" ∷ []

abbrev mrels : List String
mrels = "a.png" ∷ []

abbrev content : String → String
content key = key

abbrev bucket : Bucket
bucket = record {
  list_keys = λ prefix.
      ok (
        under prefix (if prefix == "t/" then trels else if prefix == "u/i/" then orels else mrels));
  get_object = λ key. ok (some key);
  resolve = λ rel. some rel;
  size_of = λ body. 1;
  mtime_ms = λ path. 1;
  sha256 = λ body. body;
}

abbrev crashed : Local
crashed = record {
  exists = true;
  config = Dict.set Dict.empty "global.ini" "edited";
  media = Dict.empty;
  manifest = none;
}

abbrev left : Leftover
left = record { push = λ l. (ok tt, l); remove = λ l. (ok tt, no_dir) }

pulled_example :
    IsPulled bucket content prefixes trels orels mrels
      (pull_obs_config bucket prefixes left crashed).0
      (pull_obs_config bucket prefixes left crashed).1
unfolding is_plugin_path is_synced_config_path is_synced_media_path starts_with ends_in is_text
    is_dots last_part basename cut_slash same_text split_path codes begins
pulled_example =
    pulled bucket content prefixes trels orels mrels left crashed
      (record {
        template_list = refl;
        config_list = refl;
        media_list = refl;
        template_plain = ((refl, refl, refl), ((refl, refl, refl), tt));
        config_plain = ((refl, refl, refl), tt);
        media_plain = ((refl, refl, refl), tt);
      })
      (λ e. refl) (λ e. refl) (λ e. ground arith)

abbrev profile : List String
profile = "basic/profiles/Main/basic.ini" ∷ []

abbrev with_profile : Bucket
with_profile = record bucket { list_keys = λ prefix. ok (under "t/" profile) }

abbrev unreachable : Leftover
unreachable = record {
  push = λ l. (err (failed none "S3 is down"), l);
  remove = λ l. (ok tt, no_dir);
}

leftover_kept_example :
    ((pull_obs_config with_profile prefixes unreachable crashed).0 ≡ ok tt)
    × ((pull_obs_config with_profile prefixes unreachable crashed).1.media ≡ crashed.media)
    × ((pull_obs_config with_profile prefixes unreachable crashed).1.manifest ≡ crashed.manifest)
    × (Dict.get (pull_obs_config with_profile prefixes unreachable crashed).1.config "global.ini"
        ≡ (if has "global.ini" profile
            then some (content (String.◌++◌ "t/" "global.ini"))
            else if is_profile "global.ini"
            then none
            else Dict.get crashed.config "global.ini"))
unfolding codes
leftover_kept_example =
    leftover_kept with_profile content prefixes profile unreachable crashed crashed
      (failed none "S3 is down") "global.ini" refl (inl refl) refl ((refl, refl, refl), tt)
