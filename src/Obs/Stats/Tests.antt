-- ===== src/Obs/Stats/Tests.antt =====
-- A stream that reconnects once, over two events.
use obs_instance_manager.Prelude.{
  ℕ, ◌≡◌, true, false, not, none, some, List, [], ◌∷◌, max, min, eqb,
}
use obs_instance_manager.Obs.Stats.{
  Numbers, boolean, OutputStatsEvent, OutputStatsTarget, new_recorder,
}
use obs_instance_manager.Obs.Stats.Laws.{Call, records, flushes, total, rises, reconnects_reported}

abbrev naturals : Numbers ℕ
naturals = record {
  is_finite = λ n. true;
  is_truthy = λ n. not (eqb n 0);
  trunc = λ n. n;
  larger = λ a b. max a b;
  smaller = λ a b. min a b;
}

abbrev target : OutputStatsTarget
target = record { node_id = "n1"; instance_id = "i1"; user_id = "u1" }

abbrev event : OutputStatsEvent ℕ
event = record {
  streaming = some (record {
    active = some (boolean true);
    reconnecting = some (boolean true);
    kbps = none;
    total_bytes = none;
    dropped_frames = none;
    total_frames = none;
    drop_percent = none;
    congestion = none;
    encode_skipped_frames = none;
    encode_total_frames = none;
    encode_lag_percent = none;
    video_encoder = none;
  });
  recording = none;
  render = none;
  system = none;
}

abbrev calls : List (Call ℕ)
calls = records 0 (some event) ∷ records 1000 (some event) ∷ flushes ∷ []

reconnects_reported_example :
    total naturals 10000 calls (new_recorder target) ≡ rises naturals 10000 false calls
reconnects_reported_example = reconnects_reported naturals 10000 target calls
