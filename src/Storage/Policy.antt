-- ===== src/Storage/Policy.antt =====
-- src/services/storage/obs-sync-policy.ts: which files of the config and of the media directory are
-- kept in S3. A text is the list of its code units.
pub mod Laws
use obs_instance_manager.Prelude.{
  ℕ, String, Bool, true, false, not, ◌&&◌, ◌||◌, Option, none, some, List, [], ◌∷◌, any, drop,
  length, eqb, if◌then◌else◌,
}
use obs_instance_manager.Media.Types.{codes, begins, same_text}
use obs_instance_manager.Media.Paths.{split_path}

unfoldable pub starts_with : List ℕ → String → Bool
starts_with rel prefix = begins (codes prefix) rel

unfoldable pub ends_in : List ℕ → List ℕ → Bool
ends_in [] suffix = same_text [] suffix
ends_in (c ∷ cs) suffix = same_text (c ∷ cs) suffix || ends_in cs suffix

unfoldable pub is_text : List ℕ → String → Bool
is_text rel text = same_text rel (codes text)

unfoldable pub is_plugin_path : List ℕ → Bool
is_plugin_path rel = starts_with rel "plugins/"

unfoldable pub is_dots : List ℕ → Bool
is_dots part = same_text part (b'.' ∷ b'.' ∷ [])

-- What follows the last slash, or the whole text.
unfoldable pub last_part : List ℕ → Option (List ℕ)
last_part [] = none
last_part (c ∷ cs) = elim (last_part cs) [
  | some rest ↦ some rest
  | none ↦ if eqb c b'/' then some cs else none
]

unfoldable pub basename : List ℕ → List ℕ
basename rel = elim (last_part rel) [ none ↦ rel | some rest ↦ rest ]

unfoldable pub is_leveldb_transient : List ℕ → Bool
is_leveldb_transient name = is_text name "LOCK" || (is_text name "LOG" || is_text name "LOG.old")

unfoldable pub is_browser_path_synced : List ℕ → Bool
is_browser_path_synced rel =
    if is_text rel "Cookies"
    then true
    else if not (starts_with rel "Local Storage/" || starts_with rel "IndexedDB/")
    then false
    else not (is_leveldb_transient (basename rel))

-- The text before the first slash and the text after it.
unfoldable pub cut_slash : List ℕ → Option (List ℕ × List ℕ)
cut_slash [] = none
cut_slash (c ∷ cs) =
    if eqb c b'/'
    then some ([], cs)
    else elim (cut_slash cs) [ none ↦ none | some (a, b) ↦ some (c ∷ a, b) ]

abbrev pub is_regenerated : List ℕ → Bool
is_regenerated plugin = is_text plugin "obs-websocket" || is_text plugin "rtmp-services"

abbrev pub is_plugin_config_synced : Option (List ℕ × List ℕ) → Bool
is_plugin_config_synced none = false
is_plugin_config_synced (some ([], inner)) = false
is_plugin_config_synced (some (c ∷ plugin, inner)) =
    if is_regenerated (c ∷ plugin)
    then false
    else if is_text (c ∷ plugin) "obs-browser"
    then is_browser_path_synced inner
    else true

-- Empty, with a NUL, or with a component `..`
abbrev pub is_malformed : List ℕ → Bool
is_malformed rel = same_text rel [] || (any (λ c. eqb c 0) rel || any is_dots (split_path rel))

unfoldable pub is_synced_config_path : List ℕ → Bool
is_synced_config_path rel =
    if is_malformed rel
    then false
    else if ends_in rel (codes "-journal")
    then false
    else if is_text rel "global.ini" || is_text rel "user.ini"
    then true
    else if starts_with rel "plugin_manager/"
    then true
    else if starts_with rel "basic/scenes/"
    then not (ends_in rel (codes ".bak")) && not (ends_in rel (codes ".tmp"))
    else if starts_with rel "plugin_config/"
    then is_plugin_config_synced (cut_slash (drop (length (codes "plugin_config/")) rel))
    else false

abbrev pub is_hidden : List ℕ → Bool
is_hidden [] = false
is_hidden (c ∷ cs) = eqb c b'.'

-- A component `..` begins with a dot too.
unfoldable pub is_synced_media_path : List ℕ → Bool
is_synced_media_path rel =
    if same_text rel [] || any (λ c. eqb c 0) rel
    then false
    else not (any (λ p. is_dots p || is_hidden p) (split_path rel))
