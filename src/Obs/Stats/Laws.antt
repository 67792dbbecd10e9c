-- ===== src/Obs/Stats/Laws.antt =====
-- What the points report of the stream, over every history of a recorder.
use obs_instance_manager.Prelude.{
  ℕ, ◌+◌, String, ◌≡◌, refl, ap, Bool, false, not, ◌&&◌, Option, none, some, List, [], ◌∷◌, ◌++◌,
  arith, inl, inr, Option-cases, if◌then◌else◌,
}
use obs_instance_manager.Obs.Stats.{
  Numbers, Json, Streaming, Render, OutputStatsEvent, OutputStatsTarget, OutputStatsWindow, Field,
  float_field, int_field, count_field, bool_field, Point, float, int, extreme, bool, as_number,
  active_fields, streaming_fields, reconnect_fields, render_fields, point_fields, point_of,
  output_stats_to_point, OutputStatsRecorder, new_recorder, flush, is_reconnecting, with_extremes,
  fold_event, fold_into, opened, record_event,
}

module _ {N : Type 0} where
  -- The reconnects that a list of fields, a point and a window report.
  unfoldable pub counted : List (Field N) → ℕ
  counted [] = 0
  counted (count_field name n ∷ fs) = n + counted fs
  counted (f ∷ fs) = counted fs

  unfoldable pub reported : Option (Point N) → ℕ
  reported none = 0
  reported (some p) = counted p.fields

  unfoldable pub pending : Option (OutputStatsWindow N) → ℕ
  pending none = 0
  pending (some w) = w.reconnects

  counted-append : (fs gs : List (Field N)) → counted (fs ++ gs) ≡ counted fs + counted gs
  unfolding counted
  counted-append [] gs = omega arith
  counted-append (float_field name n ∷ fs) gs = counted-append fs gs
  counted-append (int_field name n ∷ fs) gs = counted-append fs gs
  counted-append (count_field name n ∷ fs) gs = omega (arith, counted-append fs gs)
  counted-append (bool_field name n ∷ fs) gs = counted-append fs gs

module _ {N : Type 0} (num : Numbers N) where
  counted-float : (name : String) (v : Option (Json N)) → counted (float num name v) ≡ 0
  unfolding float counted
  counted-float name v = elim (Option-cases (as_number num v)) [
    | inl e ↦ rw e refl
    | inr (n, e) ↦ rw e refl
  ]

  counted-int : (name : String) (v : Option (Json N)) → counted (int num name v) ≡ 0
  unfolding int counted
  counted-int name v = elim (Option-cases (as_number num v)) [
    | inl e ↦ rw e refl
    | inr (n, e) ↦ rw e refl
  ]

  counted-extreme : (name : String) (v : Option N) → counted (extreme num name v) ≡ 0
  unfolding extreme counted
  counted-extreme name none = refl
  counted-extreme name (some n) = refl

  counted-bool : (name : String) (v : Option (Json N)) → counted (bool num name v) ≡ 0
  unfolding bool counted
  counted-bool name none = refl
  counted-bool name (some (Json.number n)) = refl
  counted-bool name (some (Json.boolean n)) = refl
  counted-bool name (some (Json.other n)) = refl

  ruleset no_count = (counted-append, counted-float, counted-int, counted-extreme, counted-bool)

  counted-active : (w : OutputStatsWindow N) (s : Streaming N) → counted (active_fields num w s) ≡ 0
  unfolding active_fields
  counted-active w s = simp no_count refl

  counted-streaming :
      (w : OutputStatsWindow N) (s : Option (Streaming N)) → counted (streaming_fields num w s) ≡ 0
  unfolding streaming_fields counted
  counted-streaming w none = refl
  counted-streaming w (some s) =
      rw (counted-append, counted-bool) (ground (arith, counted-active w s))

  counted-render : (r : Option (Render N)) → counted (render_fields num r) ≡ 0
  unfolding render_fields counted
  counted-render none = refl
  counted-render (some r) = simp no_count refl

  counted-reconnect : (w : OutputStatsWindow N) → counted (reconnect_fields num w) ≡ w.reconnects
  unfolding reconnect_fields counted
  counted-reconnect w = ground arith

  counted-point_fields : (w : OutputStatsWindow N) → counted (point_fields num w) ≡ w.reconnects
  unfolding point_fields
  counted-point_fields w =
      simp (no_count, counted-streaming, counted-render, counted-reconnect) (omega arith)

  reported-point :
      (target : OutputStatsTarget) (fs : List (Field N))
      → reported (point_of num target fs) ≡ counted fs
  unfolding reported counted
  reported-point target [] = refl
  reported-point target (f ∷ fs) = refl

  reported-flush :
      (r : OutputStatsRecorder N)
      → reported (flush num r).0 + pending (flush num r).1.window ≡ pending r.window
  unfolding flush output_stats_to_point pending reported
  reported-flush r = elim (Option-cases r.window) [
    | inl e ↦ rw (e, flush) (rw e (omega arith))
    | inr (w, e) ↦
        rw (e, flush)
          (omega (arith, reported-point r.target (point_fields num w), counted-point_fields w))
  ]

  -- Whether an event, if the value is one, starts a reconnect, and whether it stands in one.
  unfoldable pub rise : Bool → Option (OutputStatsEvent N) → ℕ
  rise was none = 0
  rise was (some event) = if is_reconnecting num event.streaming && not was then 1 else 0

  unfoldable pub stands : Bool → Option (OutputStatsEvent N) → Bool
  stands was none = was
  stands was (some event) = is_reconnecting num event.streaming

  reconnects-extremes :
      (s : Option (Streaming N)) (w : OutputStatsWindow N)
      → (with_extremes num s w).reconnects ≡ w.reconnects
  reconnects-extremes none w = refl
  reconnects-extremes (some s) w = ground arith

  pending-fold :
      (event : OutputStatsEvent N) (was : Bool) (w : OutputStatsWindow N)
      → (fold_event num event was w).reconnects ≡ w.reconnects + rise was (some event)
  unfolding rise
  pending-fold event was w = rw reconnects-extremes (ground arith)

  pending-folded_from :
      (event : OutputStatsEvent N) (t : ℕ) (target : OutputStatsTarget) (start : ℕ) (was : Bool)
      (o : Option (OutputStatsWindow N))
      → let r : OutputStatsRecorder N = record {
        target = target;
        window = o;
        window_start = start;
        was_reconnecting = was;
      } in
        pending (fold_into num event (opened num event t r)).window
        ≡ pending o + rise was (some event)
  unfolding pending
  pending-folded_from event t target start was none =
      pending-fold event was
        (record { latest = event; congestion_max = none; kbps_min = none; reconnects = 0 })
  pending-folded_from event t target start was (some w) = pending-fold event was w

  pending-folded :
      (event : OutputStatsEvent N) (t : ℕ) (r : OutputStatsRecorder N)
      → pending (fold_into num event (opened num event t r)).window
        ≡ pending r.window + rise r.was_reconnecting (some event)
  pending-folded event t r =
      pending-folded_from event t r.target r.window_start r.was_reconnecting r.window

  reported-record :
      (interval_ms t : ℕ) (v : Option (OutputStatsEvent N)) (r : OutputStatsRecorder N)
      → reported (record_event num interval_ms t v r).0
          + pending (record_event num interval_ms t v r).1.window
        ≡ pending r.window + rise r.was_reconnecting v
  unfolding record_event rise reported
  reported-record interval_ms t none r = omega arith
  reported-record interval_ms t (some event) r =
      ground (
        arith,
        pending-folded event t r,
        reported-flush (fold_into num event (opened num event t r)),
      )

  was-folded :
      (event : OutputStatsEvent N) (t : ℕ) (r : OutputStatsRecorder N)
      → (fold_into num event (opened num event t r)).was_reconnecting
        ≡ is_reconnecting num event.streaming
  was-folded event t r = refl

  was-flush : (r : OutputStatsRecorder N) → (flush num r).1.was_reconnecting ≡ r.was_reconnecting
  unfolding flush
  was-flush r = ground arith

  was-record :
      (interval_ms t : ℕ) (v : Option (OutputStatsEvent N)) (r : OutputStatsRecorder N)
      → (record_event num interval_ms t v r).1.was_reconnecting ≡ stands r.was_reconnecting v
  unfolding record_event stands
  was-record interval_ms t none r = refl
  was-record interval_ms t (some event) r =
      ground (arith, was-flush (fold_into num event (opened num event t r)))

-- A call of the recorder: an event at a time, or the flush when the session goes.
pub data Call (N : Type 0) : Type 0 where
  records : ℕ → Option (OutputStatsEvent N) → Call N
  flushes : Call N

module _ {N : Type 0} (num : Numbers N) (interval_ms : ℕ) where
  unfoldable pub after : Call N → OutputStatsRecorder N → Option (Point N) × OutputStatsRecorder N
  after (records t v) r = record_event num interval_ms t v r
  after flushes r = flush num r

  -- The reconnects in the points that a history writes and in the window that it leaves open.
  unfoldable pub total : List (Call N) → OutputStatsRecorder N → ℕ
  total [] r = pending r.window
  total (c ∷ cs) r = let (p, r') = after c r in reported p + total cs r'

  -- How often the events of the history go from not reconnecting to reconnecting.
  unfoldable pub rises : Bool → List (Call N) → ℕ
  rises was [] = 0
  rises was (records t v ∷ cs) = rise num was v + rises (stands num was v) cs
  rises was (flushes ∷ cs) = rises was cs

  total-rises :
      (cs : List (Call N)) (r : OutputStatsRecorder N)
      → total cs r ≡ pending r.window + rises r.was_reconnecting cs
  unfolding total rises after
  total-rises [] r = omega arith
  total-rises (records t v ∷ cs) r = omega (
    arith,
    ap (λ b. rises b cs) (was-record num interval_ms t v r),
    reported-record num interval_ms t v r,
    total-rises cs (record_event num interval_ms t v r).1,
  )
  total-rises (flushes ∷ cs) r = omega (
    arith,
    ap (λ b. rises b cs) (was-flush num r),
    reported-flush num r,
    total-rises cs (flush num r).1,
  )

  -- In every history of a session's recorder, the points written and the window still open report
  -- together exactly as many reconnects as the events show transitions from not reconnecting to
  -- reconnecting: the windows lose none and count none twice.
  pub reconnects_reported :
      (target : OutputStatsTarget) (cs : List (Call N))
      → total cs (new_recorder target) ≡ rises false cs
  unfolding pending
  reconnects_reported target cs = omega (arith, total-rises cs (new_recorder target))
