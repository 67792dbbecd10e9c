-- ===== src/Cache/Single/Laws.antt =====
-- What readers of a cached value get, and how many requests they cause.
use obs_instance_manager.Prelude.{
  ℕ, ◌+◌, ◌≤◌, ◌<◌, ◌≡◌, ◌≢◌, ◌↔◌, ◌⊎◌, inl, inr, none, some, List, [], ◌∷◌, arith, ◌||◌,
  if◌then◌else◌, Option-cases, Bool-cases, is_some,
}
use obs_instance_manager.Cache.Single.{
  Single, served, cold, fetch, is_fresh, backs_off, get_cached, resolve, reject, caught, invalidate,
}

-- The event loop on one cache: reads, forced reads, answers and failures of the request that is on
-- its way, the catch blocks of its readers, and invalidations.
pub data Event (V : Type 0) : Type 0 where
  reads : ℕ → Event V
  refreshes : Event V
  resolves : ℕ → V → Event V
  rejects : Event V
  catches : ℕ → Event V
  invalidates : Event V

module _ {V : Type 0} where
  -- A read is served from memory exactly when a value is held that is younger than its time to
  -- live, or a refresh failed less than the backoff ago; then nothing changes and no request is sent.
  pub get_cached_iff :
      (ttl_ms backoff_ms now : ℕ) (s : Single V) (v : V)
      → ((get_cached ttl_ms backoff_ms now s).0 ≡ served v) ↔ (
          (s.cached ≡ some v)
          × ((now < s.cached_at + ttl_ms) ⊎ ((s.failed_at ≢ 0) × (now < s.failed_at + backoff_ms))))
  unfolding get_cached
  get_cached_iff ttl_ms backoff_ms now s v = elim (Option-cases s.cached) [
    | inl e ↦ rw (e, get_cached) (ground arith)
    | inr (w, e) ↦ rw (e, get_cached) (ground arith)
  ]

  unfoldable pub after : ℕ → ℕ → Event V → Single V → Single V
  after ttl_ms backoff_ms (reads now) s = (get_cached ttl_ms backoff_ms now s).1
  after ttl_ms backoff_ms refreshes s = (fetch s).1
  after ttl_ms backoff_ms (resolves now v) s = if is_some s.in_flight then resolve now v s else s
  after ttl_ms backoff_ms rejects s = if is_some s.in_flight then reject s else s
  after ttl_ms backoff_ms (catches now) s = (caught now s).1
  after ttl_ms backoff_ms invalidates s = invalidate s

  -- How many requests are answered in a history.
  abbrev pub ends_one : Event V → Single V → ℕ
  ends_one (resolves now v) s = if is_some s.in_flight then 1 else 0
  ends_one rejects s = if is_some s.in_flight then 1 else 0
  ends_one _ s = 0

  unfoldable pub history : ℕ → ℕ → List (Event V) → Single V → Single V × ℕ
  history ttl_ms backoff_ms [] s = (s, 0)
  history ttl_ms backoff_ms (e ∷ es) s =
      let (t, n) = history ttl_ms backoff_ms es (after ttl_ms backoff_ms e s) in
      (t, n + ends_one e s)

  abbrev pub pending : Single V → ℕ
  pending s = if is_some s.in_flight then 1 else 0

  after-pending :
      (ttl_ms backoff_ms : ℕ) (e : Event V) (s : Single V)
      → (after ttl_ms backoff_ms e s).sent + pending s
        ≡ s.sent + pending (after ttl_ms backoff_ms e s) + ends_one e s
  unfolding after get_cached fetch resolve reject caught invalidate
  after-pending ttl_ms backoff_ms (reads now) s = ground arith
  after-pending ttl_ms backoff_ms refreshes s = ground arith
  after-pending ttl_ms backoff_ms (resolves now v) s = ground arith
  after-pending ttl_ms backoff_ms rejects s = ground arith
  after-pending ttl_ms backoff_ms (catches now) s = ground arith
  after-pending ttl_ms backoff_ms invalidates s = ground arith

  history-pending :
      (ttl_ms backoff_ms : ℕ) (es : List (Event V)) (s : Single V)
      → let (t, n) = history ttl_ms backoff_ms es s in t.sent + pending s ≡ s.sent + pending t + n
  unfolding history
  history-pending ttl_ms backoff_ms [] s = omega arith
  history-pending ttl_ms backoff_ms (e ∷ es) s = omega (
    arith,
    after-pending ttl_ms backoff_ms e s,
    history-pending ttl_ms backoff_ms es (after ttl_ms backoff_ms e s),
  )

  -- However many readers meet a cold or expired cache, in whatever order with answers, failures and
  -- invalidations, never is more than one request on its way.
  single_flight :
      (ttl_ms backoff_ms : ℕ) (es : List (Event V))
      → let (s, answered) = history ttl_ms backoff_ms es cold in
        (answered ≤ s.sent) × (s.sent ≤ answered + 1)
  single_flight ttl_ms backoff_ms es = ground (arith, history-pending ttl_ms backoff_ms es cold)

  -- The gap in the invalidation: an answer that was on its way when the list was invalidated is
  -- kept, and all reads within the time to live are served with it.
  stale_after_invalidate :
      (ttl_ms backoff_ms now later : ℕ) (v : V) (s : Single V)
      → later < now + ttl_ms
      → (get_cached ttl_ms backoff_ms later (resolve now v (invalidate s))).0 ≡ served v
  unfolding get_cached resolve invalidate
  stale_after_invalidate ttl_ms backoff_ms now later v s h = ground arith

  -- Once a value is held, readers get a value whatever rest-api does, until an invalidation: a read
  -- is served from memory, or the catch of its failed request serves.
  fails_open :
      (ttl_ms backoff_ms now later : ℕ) (s : Single V)
      → s.cached ≢ none
      → let (r, s') = get_cached ttl_ms backoff_ms now s in
        ((v : V) × (r ≡ served v)) ⊎ ((v : V) × ((caught later (reject s')).0 ≡ some v))
  unfolding get_cached fetch reject caught
  fails_open ttl_ms backoff_ms now later s h = elim (Option-cases s.cached) [
    | inl e ↦ absurd (h e)
    | inr (v, e) ↦ elim (Bool-cases (is_fresh ttl_ms now s || backs_off backoff_ms now s)) [
      | inl q ↦ inl (v, ground (arith, e, q))
      | inr q ↦ inr (v, ground (arith, e, q))
    ]
  ]
