-- ===== src/Obs/Stats.antt =====
-- src/services/obs/output-stats.ts: the events of the statistics plugin, folded into one point for
-- each window of ten seconds. The numbers of JavaScript are a parameter with the operations that the
-- code uses. An optional field is none where it is undefined; the clock is an argument; a call
-- answers the point that it writes, if any.
pub mod Laws
mod Tests
use obs_instance_manager.Prelude.{
  ℕ, ◌+◌, String, Bool, true, false, not, ◌&&◌, ◌||◌, Option, none, some, List, [], ◌∷◌, ◌++◌, ltb,
  leb, is_some, or_else, if◌then◌else◌,
}

abbrev pub output_stats_write_interval_ms : ℕ
output_stats_write_interval_ms = 10000

pub record Numbers (N : Type 0) : Type 0 where
  pub is_finite : N → Bool
  pub is_truthy : N → Bool
  pub trunc : N → N
  pub larger : N → N → N
  pub smaller : N → N → N

-- A value of the event: a number, a Boolean, or any other with its truth value.
pub data Json (N : Type 0) : Type 0 where
  number : N → Json N
  boolean : Bool → Json N
  other : Bool → Json N

pub record Streaming (N : Type 0) : Type 0 where
  pub active : Option (Json N)
  pub reconnecting : Option (Json N)
  pub kbps : Option (Json N)
  pub total_bytes : Option (Json N)
  pub dropped_frames : Option (Json N)
  pub total_frames : Option (Json N)
  pub drop_percent : Option (Json N)
  pub congestion : Option (Json N)
  pub encode_skipped_frames : Option (Json N)
  pub encode_total_frames : Option (Json N)
  pub encode_lag_percent : Option (Json N)
  -- the field `bitrate` of the block
  pub video_encoder : Option (Option (Json N))

pub record Render (N : Type 0) : Type 0 where
  pub active_fps : Option (Json N)
  pub target_fps : Option (Json N)
  pub avg_frame_render_ms : Option (Json N)
  pub total_frames : Option (Json N)
  pub lagged_frames : Option (Json N)
  pub render_lag_percent : Option (Json N)

pub record System (N : Type 0) : Type 0 where
  pub cpu_percent : Option (Json N)
  pub memory_rss_bytes : Option (Json N)

pub record OutputStatsEvent (N : Type 0) : Type 0 where
  pub streaming : Option (Streaming N)
  -- the field `active` of the block
  pub recording : Option (Option (Json N))
  pub render : Option (Render N)
  pub system : Option (System N)

pub record OutputStatsTarget : Type 0 where
  pub node_id : String
  pub instance_id : String
  pub user_id : String

pub record OutputStatsWindow (N : Type 0) : Type 0 where
  pub latest : OutputStatsEvent N
  pub congestion_max : Option N
  pub kbps_min : Option N
  pub reconnects : ℕ

-- A field of a point. A count of the code's own is an integer field with a natural number.
pub data Field (N : Type 0) : Type 0 where
  float_field : String → N → Field N
  int_field : String → N → Field N
  count_field : String → ℕ → Field N
  bool_field : String → Bool → Field N

pub record Point (N : Type 0) : Type 0 where
  pub tags : OutputStatsTarget
  pub fields : List (Field N)

-- `o?.f`
abbrev pub chain : {A B : Type 0} → Option A → (A → Option B) → Option B
chain none f = none
chain (some a) f = f a

module _ {N : Type 0} (num : Numbers N) where
  abbrev pub as_number : Option (Json N) → Option N
  as_number (some (number n)) = if num.is_finite n then some n else none
  as_number _ = none

  abbrev pub holds : Option (Json N) → Bool
  holds none = false
  holds (some (number n)) = num.is_truthy n
  holds (some (boolean b)) = b
  holds (some (other b)) = b

  abbrev pub float_of : String → Option N → List (Field N)
  float_of name none = []
  float_of name (some n) = float_field name n ∷ []

  abbrev pub int_of : String → Option N → List (Field N)
  int_of name none = []
  int_of name (some n) = int_field name (num.trunc n) ∷ []

  unfoldable pub float : String → Option (Json N) → List (Field N)
  float name v = float_of name (as_number v)

  unfoldable pub int : String → Option (Json N) → List (Field N)
  int name v = int_of name (as_number v)

  -- `kbpsMin` and `congestionMax`, which only ever hold finite numbers
  unfoldable pub extreme : String → Option N → List (Field N)
  extreme name v = float_of name v

  unfoldable pub bool : String → Option (Json N) → List (Field N)
  bool name (some (boolean b)) = bool_field name b ∷ []
  bool name _ = []

  unfoldable pub active_fields : OutputStatsWindow N → Streaming N → List (Field N)
  active_fields w s =
      bool "reconnecting" s.reconnecting
      ++ (float "kbps" s.kbps
          ++ (extreme "kbps_min" w.kbps_min
              ++ (int "total_bytes" s.total_bytes
                  ++ (int "dropped_frames" s.dropped_frames
                      ++ (int "total_frames" s.total_frames
                          ++ (float "drop_pct" s.drop_percent
                              ++ (float "congestion" s.congestion
                                  ++ (extreme "congestion_max" w.congestion_max
                                      ++ (int "encode_skipped_frames" s.encode_skipped_frames
                                          ++ (int "encode_total_frames" s.encode_total_frames
                                              ++ (float "encode_lag_pct" s.encode_lag_percent
                                                  ++ int "video_bitrate_target_kbps"
                                                      (chain s.video_encoder (λ b. b)))))))))))))

  unfoldable pub streaming_fields : OutputStatsWindow N → Option (Streaming N) → List (Field N)
  streaming_fields w none = []
  streaming_fields w (some s) =
      bool "streaming_active" s.active ++ (if holds s.active then active_fields w s else [])

  unfoldable pub reconnect_fields : OutputStatsWindow N → List (Field N)
  reconnect_fields w =
      if is_some w.latest.streaming || ltb 0 w.reconnects
      then count_field "reconnects" w.reconnects ∷ []
      else []

  unfoldable pub render_fields : Option (Render N) → List (Field N)
  render_fields none = []
  render_fields (some r) =
      float "render_active_fps" r.active_fps
      ++ (float "render_target_fps" r.target_fps
          ++ (float "render_avg_frame_ms" r.avg_frame_render_ms
              ++ (int "render_total_frames" r.total_frames
                  ++ (int "render_lagged_frames" r.lagged_frames
                      ++ float "render_lag_pct" r.render_lag_percent))))

  unfoldable pub point_fields : OutputStatsWindow N → List (Field N)
  point_fields w =
      streaming_fields w w.latest.streaming
      ++ (reconnect_fields w
          ++ (bool "recording_active" (chain w.latest.recording (λ a. a))
              ++ (render_fields w.latest.render
                  ++ (float "obs_cpu_pct" (chain w.latest.system (λ s. s.cpu_percent))
                      ++ int "obs_memory_rss_bytes"
                          (chain w.latest.system (λ s. s.memory_rss_bytes))))))

  abbrev pub point_of : OutputStatsTarget → List (Field N) → Option (Point N)
  point_of target [] = none
  point_of target (f ∷ fs) = some (record { tags = target; fields = f ∷ fs })

  pub output_stats_to_point : OutputStatsTarget → OutputStatsWindow N → Option (Point N)
  output_stats_to_point target w = point_of target (point_fields w)

pub record OutputStatsRecorder (N : Type 0) : Type 0 where
  pub target : OutputStatsTarget
  pub window : Option (OutputStatsWindow N)
  pub window_start : ℕ
  pub was_reconnecting : Bool

abbrev pub new_recorder : {N : Type 0} → OutputStatsTarget → OutputStatsRecorder N
new_recorder target = record {
  target = target;
  window = none;
  window_start = 0;
  was_reconnecting = false;
}

module _ {N : Type 0} (num : Numbers N) where
  pub flush : OutputStatsRecorder N → Option (Point N) × OutputStatsRecorder N
  flush r = elim r.window [
    | none ↦ (none, r)
    | some w ↦ (output_stats_to_point num r.target w, record r { window = none })
  ]

  -- The recorder with an open window.
  abbrev pub opened : OutputStatsEvent N → ℕ → OutputStatsRecorder N → OutputStatsRecorder N
  opened event t r = elim r.window [
    | some w ↦ r
    | none ↦ record r {
      window =
          some (record { latest = event; congestion_max = none; kbps_min = none; reconnects = 0 });
      window_start = t;
    }
  ]

  abbrev pub is_true : Option (Json N) → Bool
  is_true (some (boolean b)) = b
  is_true _ = false

  abbrev pub is_reconnecting : Option (Streaming N) → Bool
  is_reconnecting none = false
  is_reconnecting (some s) = is_true s.active && is_true s.reconnecting

  abbrev pub folded : (N → N → N) → Option N → Option N → Option N
  folded f seen none = seen
  folded f seen (some n) = some (f (or_else seen n) n)

  abbrev pub with_extremes : Option (Streaming N) → OutputStatsWindow N → OutputStatsWindow N
  with_extremes none w = w
  with_extremes (some s) w =
      if holds num s.active
      then record w {
        congestion_max = folded num.larger w.congestion_max (as_number num s.congestion);
        kbps_min = folded num.smaller w.kbps_min (as_number num s.kbps);
      }
      else w

  -- The window with one more event.
  abbrev pub fold_event : OutputStatsEvent N → Bool → OutputStatsWindow N → OutputStatsWindow N
  fold_event event was w = with_extremes event.streaming (record w {
    latest = event;
    reconnects =
        if is_reconnecting event.streaming && not was then w.reconnects + 1 else w.reconnects;
  })

  abbrev pub fold_into : OutputStatsEvent N → OutputStatsRecorder N → OutputStatsRecorder N
  fold_into event r = record r {
    window = elim r.window [ none ↦ none | some w ↦ some (fold_event event r.was_reconnecting w) ];
    was_reconnecting = is_reconnecting event.streaming;
  }

  -- `record(raw)`, where none stands for a value that is no object.
  pub record_event :
      ℕ
      → ℕ
      → Option (OutputStatsEvent N)
      → OutputStatsRecorder N
      → Option (Point N) × OutputStatsRecorder N
  record_event interval_ms t none r = (none, r)
  record_event interval_ms t (some event) r =
      let r' = fold_into event (opened event t r) in
      if leb (r'.window_start + interval_ms) t then flush r' else (none, r')
