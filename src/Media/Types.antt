-- ===== src/Media/Types.antt =====
-- src/utils/media-types.ts: the extensions that media files may have, and the leading bytes that
-- each one asks for. A text is the list of its code units, and bytes are numbers below 256.
use Prim.Native.Char.{code}
use Prim.Native.String.{String}
use obs_instance_manager.Prelude.{
  ℕ, ◌+◌, ◌%◌, ◌/◌, Bool, true, false, ◌&&◌, ◌||◌, Option, none, some, List, [], ◌∷◌, drop, eqb,
  leb, if◌then◌else◌,
}

unfoldable pub codes : String → List ℕ
codes String.[] = []
codes (String.◌∷◌ c s) = code c ∷ codes s

abbrev pub media_sniff_bytes : ℕ
media_sniff_bytes = 16

-- The list begins with the signature.
unfoldable pub begins : List ℕ → List ℕ → Bool
begins [] head = true
begins (b ∷ sig) [] = false
begins (b ∷ sig) (c ∷ head) = eqb b c && begins sig head

unfoldable pub bytes_at : List ℕ → ℕ → List ℕ → Bool
bytes_at head offset sig = begins sig (drop offset head)

unfoldable pub ascii_at : List ℕ → ℕ → String → Bool
ascii_at head offset text = bytes_at head offset (codes text)

pub data Format : Type 0 where
  png jpg gif webp bmp iso_bmff matroska wav ogg flac mp3 aac ttf otf woff woff2 : Format

-- A frame's first two bytes: the first is 0xff, and of the second the bits above are set. The masks
-- 0xe0 and 0xf6 with the values 0xe0 and 0xf0 are written by division.
abbrev pub is_frame : (ℕ → Bool) → List ℕ → Bool
is_frame second (a ∷ b ∷ bs) = eqb a 255 && second b
is_frame second _ = false

unfoldable pub is_format : Format → List ℕ → Bool
is_format png h = bytes_at h 0 (137 ∷ 80 ∷ 78 ∷ 71 ∷ 13 ∷ 10 ∷ 26 ∷ 10 ∷ [])
is_format jpg h = bytes_at h 0 (255 ∷ 216 ∷ 255 ∷ [])
is_format gif h = ascii_at h 0 "GIF8"
is_format webp h = ascii_at h 0 "RIFF" && ascii_at h 8 "WEBP"
is_format bmp h = ascii_at h 0 "BM"
is_format iso_bmff h = ascii_at h 4 "ftyp"
is_format matroska h = bytes_at h 0 (26 ∷ 69 ∷ 223 ∷ 163 ∷ [])
is_format wav h = ascii_at h 0 "RIFF" && ascii_at h 8 "WAVE"
is_format ogg h = ascii_at h 0 "OggS"
is_format flac h = ascii_at h 0 "fLaC"
is_format mp3 h = ascii_at h 0 "ID3" || is_frame (λ b. eqb (b / 32) 7) h
is_format aac h = is_frame (λ b. eqb (b / 16) 15 && eqb ((b / 2) % 4) 0) h
is_format ttf h = bytes_at h 0 (0 ∷ 1 ∷ 0 ∷ 0 ∷ [])
is_format otf h = ascii_at h 0 "OTTO"
is_format woff h = ascii_at h 0 "wOFF"
is_format woff2 h = ascii_at h 0 "wOF2"

abbrev pub extension_matchers : List (String × Format)
extension_matchers =
    ("png", png)
    ∷ ("jpg", jpg)
    ∷ ("jpeg", jpg)
    ∷ ("gif", gif)
    ∷ ("webp", webp)
    ∷ ("bmp", bmp)
    ∷ ("mp4", iso_bmff)
    ∷ ("m4v", iso_bmff)
    ∷ ("mov", iso_bmff)
    ∷ ("webm", matroska)
    ∷ ("mkv", matroska)
    ∷ ("m4a", iso_bmff)
    ∷ ("mp3", mp3)
    ∷ ("aac", aac)
    ∷ ("wav", wav)
    ∷ ("ogg", ogg)
    ∷ ("oga", ogg)
    ∷ ("ogv", ogg)
    ∷ ("flac", flac)
    ∷ ("ttf", ttf)
    ∷ ("otf", otf)
    ∷ ("woff", woff)
    ∷ ("woff2", woff2)
    ∷ []

unfoldable pub same_text : List ℕ → List ℕ → Bool
same_text [] [] = true
same_text (a ∷ s) (b ∷ t) = eqb a b && same_text s t
same_text _ _ = false

unfoldable pub find_format : List ℕ → List (String × Format) → Option Format
find_format ext [] = none
find_format ext ((name, format) ∷ table) =
    if same_text ext (codes name) then some format else find_format ext table

-- The format that an allowed extension denotes.
unfoldable pub format_of : List ℕ → Option Format
format_of ext = find_format ext extension_matchers

-- `toLowerCase` on one unit: the letters of ASCII, and the Kelvin sign, whose lower case is `k`. No
-- other unit has one in ASCII, and all extensions are in ASCII.
abbrev pub lower : ℕ → ℕ
lower c = if leb 65 c && leb c 90 then c + 32 else if eqb c 8490 then 107 else c

unfoldable pub to_lower : List ℕ → List ℕ
to_lower [] = []
to_lower (c ∷ cs) = lower c ∷ to_lower cs

-- What follows the last dot.
unfoldable pub after_last_dot : List ℕ → Option (List ℕ)
after_last_dot [] = none
after_last_dot (c ∷ cs) = elim (after_last_dot cs) [
  | some ext ↦ some ext
  | none ↦ if eqb c b'.' then some cs else none
]

abbrev pub lowered : Option (List ℕ) → Option (List ℕ)
lowered none = none
lowered (some []) = none
lowered (some (c ∷ cs)) = some (to_lower (c ∷ cs))

-- None for a name without a dot, with its last dot in front, or with nothing after it.
unfoldable pub extension_of : List ℕ → Option (List ℕ)
extension_of [] = none
extension_of (c ∷ cs) = lowered (after_last_dot cs)

abbrev pub format_of_extension : Option (List ℕ) → Option Format
format_of_extension none = none
format_of_extension (some ext) = format_of ext

unfoldable pub is_allowed_extension : Option (List ℕ) → Bool
is_allowed_extension ext = elim (format_of_extension ext) [ none ↦ false | some f ↦ true ]

unfoldable pub content_matches_extension : Option (List ℕ) → List ℕ → Bool
content_matches_extension ext head = elim (format_of_extension ext) [
  | none ↦ false
  | some f ↦ is_format f head
]
