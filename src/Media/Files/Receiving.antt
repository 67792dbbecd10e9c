-- ===== src/Media/Files/Receiving.antt =====
-- The loop of `uploadFile` over the chunks of the stream, in src/services/storage/media.ts.
use obs_instance_manager.Prelude.{
  ℕ, ◌+◌, min, Bool, true, false, Option, List, [], ◌++◌, length, take, ltb, leb, if◌then◌else◌,
}
use obs_instance_manager.Media.Types.{media_sniff_bytes, content_matches_extension}
use obs_instance_manager.Media.Paths.{media_error, io_error, Checked, fine, refused}

-- The chunks of a stream that ends, or that breaks off with an error.
pub data Body : Type 0 where
  ends breaks : Body
  chunk : List ℕ → Body → Body

-- What has arrived: the bytes written, their number, and the chunks kept until the check of the
-- leading bytes, joined, with their length.
pub record Sink : Type 0 where
  pub bytes : List ℕ
  pub written : ℕ
  pub sniffed : Bool
  pub head : List ℕ
  pub head_len : ℕ

abbrev pub empty_sink : Sink
empty_sink = record { bytes = []; written = 0; sniffed = false; head = []; head_len = 0 }

abbrev pub verify_head : Option (List ℕ) → Sink → Checked Sink
verify_head ext s =
    if content_matches_extension ext (take (min s.head_len media_sniff_bytes) s.head)
    then fine (record s { sniffed = true })
    else refused (media_error 400)

abbrev pub keep_head : List ℕ → Sink → Sink
keep_head value s = record s { head = s.head ++ value; head_len = s.head_len + length value }

abbrev pub sniff : Option (List ℕ) → List ℕ → Sink → Checked Sink
sniff ext value s =
    if s.sniffed
    then fine s
    else (let s' = keep_head value s in
        if leb media_sniff_bytes s'.head_len then verify_head ext s' else fine s')

abbrev pub write : List ℕ → Checked Sink → Checked Sink
write value (refused e) = refused e
write value (fine s) = fine (record s { bytes = s.bytes ++ value })

-- `OBS_MEDIA_MAX_FILE_BYTES`, which the environment may set
module _ (max_bytes : ℕ) where
  -- One turn of the loop.
  unfoldable pub accept_chunk : ℕ → ℕ → Option (List ℕ) → List ℕ → Sink → Checked Sink
  accept_chunk used quota ext value s =
      let written = s.written + length value in
      if ltb max_bytes written
      then refused (media_error 413)
      else if ltb quota (used + written)
      then refused (media_error 413)
      else write value (sniff ext value (record s { written = written }))

  unfoldable pub receive : ℕ → ℕ → Option (List ℕ) → Body → Sink → Checked Sink
  receive used quota ext ends s = if s.sniffed then fine s else verify_head ext s
  receive used quota ext breaks s = refused io_error
  receive used quota ext (chunk value body) s = elim (accept_chunk used quota ext value s) [
    | refused e ↦ refused e
    | fine s' ↦ receive used quota ext body s'
  ]
