-- ===== src/Proxy/Relay/Laws.antt =====
-- The relay is a queue, and it dials only for a good ticket.
use obs_instance_manager.Prelude.{
  ℕ, String, ◌≡◌, refl, sym, ap, ◌∙◌, Bool, true, false, Option, none, some, List, [], ◌∷◌, ◌++◌,
  ◌≢◌, arith,
}
use mathlib.Core.List.{append_assoc, append-nil}
use obs_instance_manager.Limits.{MessageRateLimiter, fresh_limiter, allow_message}
use obs_instance_manager.Auth.Tickets.{Ticket}
use obs_instance_manager.Proxy.Relay.{
  Access, Upstream, no_upstream, dialing, is_open, is_closed, Relay, new_relay, open_found,
  open_with, on_open, upstream_opened, upstream_message, upstream_closed, upstream_error,
  connect_timeout, pass_up, admit, on_message, shut, on_close, Event, opens, upstream_opens,
  upstream_closes, upstream_fails, times_out, closes, upstream_sends, sends, opened_if, handle,
  history,
}

-- The queue that a relay promises to be: the messages that it has taken, in order. It takes those
-- that the rate limit admits.
pub record Queue (D : Type 0) : Type 0 where
  pub taken : List D
  pub limiter : MessageRateLimiter

abbrev pub take_if : {D : Type 0} → Bool → D → List D → List D
take_if true d taken = taken ++ (d ∷ [])
take_if false d taken = taken

module _ {D : Type 0} (messages_per_window window_ms : ℕ) where
  abbrev pub offer : ℕ → D → Queue D → Queue D
  offer now d q =
      let (allowed, limiter) = allow_message messages_per_window window_ms now q.limiter in
      record { taken = take_if allowed d q.taken; limiter = limiter }

module _ {D : Type 0} (messages_per_window window_ms : ℕ) where
  -- The events other than the client's messages do nothing to the queue.
  abbrev pub queue_step : Event D → Queue D → Queue D
  queue_step (sends now d) q = offer messages_per_window window_ms now d q
  queue_step _ q = q

  abbrev pub queue_history : List (Event D) → Queue D → Queue D
  queue_history [] q = q
  queue_history (e ∷ es) q = queue_history es (queue_step e q)

module _ {D : Type 0} where
  abbrev pub contents : Relay D → Queue D
  contents r = record { taken = r.sent_up ++ r.queued; limiter = r.limiter }

  -- While the upstream socket is open nothing waits.
  abbrev pub IsFlushed : Relay D → Type 0
  IsFlushed r = r.upstream ≡ is_open → r.queued ≡ []

shut-closes : (u : Upstream) → shut u ≢ is_open
shut-closes no_upstream = λ e. ground arith
shut-closes dialing = λ e. ground arith
shut-closes is_open = λ e. ground arith
shut-closes is_closed = λ e. ground arith

module _ {D : Type 0} where
  -- What waits to be sent: nothing, if the socket is open.
  abbrev pub unsent : Upstream → List D → List D
  unsent is_open queued = []
  unsent _ queued = queued

  unsent-queued :
      (u : Upstream) (queued : List D) → (u ≡ is_open → queued ≡ []) → unsent u queued ≡ queued
  unsent-queued is_open queued h = sym (h refl)
  unsent-queued no_upstream queued h = refl
  unsent-queued dialing queued h = refl
  unsent-queued is_closed queued h = refl

module _ {D : Type 0} (messages_per_window window_ms : ℕ) where
  contents-pass_up :
      (u : Upstream) (d : D) (r : Relay D)
      → (u ≡ is_open → r.queued ≡ [])
      → contents (pass_up u d r)
        ≡ record { taken = (r.sent_up ++ r.queued) ++ (d ∷ []); limiter = r.limiter }
  contents-pass_up is_open d r h = rw (h refl) (rw append-nil (rw append-nil refl))
  contents-pass_up no_upstream d r h = rw append_assoc refl
  contents-pass_up dialing d r h = rw append_assoc refl
  contents-pass_up is_closed d r h = rw append_assoc refl

  pass_up-IsFlushed :
      (u : Upstream) (d : D) (r : Relay D)
      → r.upstream ≡ u
      → IsFlushed r
      → IsFlushed (pass_up u d r)
  pass_up-IsFlushed is_open d r e h = h
  pass_up-IsFlushed no_upstream d r e h = λ f. ground arith
  pass_up-IsFlushed dialing d r e h = λ f. ground arith
  pass_up-IsFlushed is_closed d r e h = λ f. ground arith

  contents-admit :
      (b : Bool) (d : D) (r : Relay D)
      → IsFlushed r
      → contents (admit b d r)
        ≡ record { taken = take_if b d (r.sent_up ++ r.queued); limiter = r.limiter }
  contents-admit false d r h = refl
  contents-admit true d r h = contents-pass_up r.upstream d r h

  admit-IsFlushed : (b : Bool) (d : D) (r : Relay D) → IsFlushed r → IsFlushed (admit b d r)
  admit-IsFlushed false d r h = h
  admit-IsFlushed true d r h = pass_up-IsFlushed r.upstream d r refl h

  contents-opened_if : (u : Upstream) (r : Relay D) → contents (opened_if u r) ≡ contents r
  unfolding upstream_opened
  contents-opened_if dialing r = rw append-nil refl
  contents-opened_if no_upstream r = refl
  contents-opened_if is_open r = refl
  contents-opened_if is_closed r = refl

  opened-IsFlushed : (u : Upstream) (r : Relay D) → IsFlushed r → IsFlushed (opened_if u r)
  unfolding upstream_opened
  opened-IsFlushed dialing r h = λ e. refl
  opened-IsFlushed no_upstream r h = h
  opened-IsFlushed is_open r h = h
  opened-IsFlushed is_closed r h = h

  contents-open_found :
      (c : Option String) (r : Relay D)
      → (contents (open_found c r) ≡ contents r) × (IsFlushed r → IsFlushed (open_found c r))
  contents-open_found none r = (refl, λ h. h)
  contents-open_found (some name) r = (refl, λ h e. ground arith)

  contents-on_open :
      (access : Access) (r : Relay D)
      → (contents (on_open access r) ≡ contents r) × (IsFlushed r → IsFlushed (on_open access r))
  unfolding on_open
  contents-on_open access r = by_ticket access.ticket access.container_name
    where
      by_ticket :
          (t : Option Ticket) (c : Option String)
          → (contents (open_with t c r) ≡ contents r) × (IsFlushed r → IsFlushed (open_with t c r))
      by_ticket none c = (refl, λ h. h)
      by_ticket (some t) c = contents-open_found c r

  -- One event does to the relay what it does to the queue.
  handle_refines :
      (e : Event D) (r : Relay D)
      → IsFlushed r
      → (contents (handle messages_per_window window_ms e r)
          ≡ queue_step messages_per_window window_ms e (contents r))
        × IsFlushed (handle messages_per_window window_ms e r)
  unfolding handle upstream_message upstream_closed upstream_error connect_timeout on_close
      on_message
  handle_refines (opens access) r h = let (e, f) = contents-on_open access r in (e, f h)
  handle_refines upstream_opens r h =
      (contents-opened_if r.upstream r, opened-IsFlushed r.upstream r h)
  handle_refines upstream_closes r h = (refl, λ e. ground arith)
  handle_refines upstream_fails r h = (refl, h)
  handle_refines times_out r h = (ground arith, λ e. ground (arith, h))
  handle_refines closes r h = (refl, λ e. absurd (shut-closes r.upstream e))
  handle_refines (upstream_sends d) r h = (refl, h)
  handle_refines (sends now d) r h =
      let (allowed, limiter) = allow_message messages_per_window window_ms now r.limiter in
      let r' : Relay D = record r { limiter = limiter } in
      (contents-admit allowed d r' h, admit-IsFlushed allowed d r' h)

  history_refines :
      (es : List (Event D)) (r : Relay D)
      → IsFlushed r
      → let r' = history messages_per_window window_ms es r in
        (contents r' ≡ queue_history messages_per_window window_ms es (contents r)) × IsFlushed r'
  unfolding history
  history_refines [] r h = (refl, h)
  history_refines (e ∷ es) r h =
      let (step, flushed) = handle_refines e r h in
      let (rest, end) = history_refines es (handle messages_per_window window_ms e r) flushed in
      (rest ∙ ap (queue_history messages_per_window window_ms es) step, end)

  -- A relay is the queue of the messages that the rate limit admits: in every history, what it has
  -- sent to the container followed by what waits are exactly those messages, in the order in which
  -- the client sent them, and nothing waits while the container's socket is open. None is lost
  -- while the socket is dialed, and none overtakes another.
  pub relay_refines :
      (es : List (Event D))
      → let r = history messages_per_window window_ms es new_relay in
        (r.sent_up ++ unsent r.upstream r.queued)
        ≡ (queue_history messages_per_window window_ms es
            (record { taken = []; limiter = fresh_limiter })).taken
  relay_refines es =
      let (e, h) = history_refines es new_relay (λ f. refl) in
      let r = history messages_per_window window_ms es new_relay in
      rw (unsent-queued r.upstream r.queued h) (ap (λ (q : Queue D). q.taken) e)
