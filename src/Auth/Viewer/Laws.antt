-- ===== src/Auth/Viewer/Laws.antt =====
-- When a viewer token is good, and for how long, in every history of the sessions.
use obs_instance_manager.Prelude.{
  ℕ, ◌+◌, ◌≤◌, ◌<◌, String, ◌≡◌, refl, sym, subst, ◌≢◌, ◌↔◌, ◌⊎◌, inl, inr, none, some, List, [],
  ◌∷◌, arith, eq_iff, eq_refl, Option-cases,
}
use obs_instance_manager.Prelude.Dict
use obs_instance_manager.Prelude.Dict.{Dict, get-set, get-remove, get-keep}
use obs_instance_manager.Auth.Tickets.{Ticket}
use obs_instance_manager.Auth.Tickets.Laws.{same_id_iff}
use obs_instance_manager.Auth.Viewer.{
  ViewerSessions, is_live, reconnect_grace_ms, session_max_ms, start, get, end, socket_opened,
  socket_closed, sweep_sessions,
}

-- A token is good exactly when the map holds a session for it that is for this instance, not older
-- than the cap, and has an open socket or lost its last one no longer than the grace ago.
pub get_session_iff :
    (at : ℕ) (token instance_id : String) (s : ViewerSessions) (r : ℕ)
    → ((get at token instance_id s).0 ≡ some r) ↔ (
        (Dict.get s.sessions token ≡ some r)
        × (at ≤ (s.store r).created_at + session_max_ms)
        × ((0 < (s.store r).open_sockets) ⊎ (at ≤ (s.store r).idle_since + reconnect_grace_ms))
        × ((s.store r).ticket.instance_id ≡ some instance_id))
unfolding get
get_session_iff at token instance_id s r = elim (Option-cases (Dict.get s.sessions token)) [
  | inl e ↦ rw (e, get) (ground arith)
  | inr (q, e) ↦
      rw (e, get) (ground (arith, same_id_iff (s.store q).ticket.instance_id (some instance_id)))
]

-- A lookup changes nothing, or drops the token.
pub get_session-left :
    (at : ℕ) (token id : String) (s : ViewerSessions)
    → ((get at token id s).1 ≡ s)
      ⊎ ((get at token id s).1 ≡ record s { sessions = Dict.remove s.sessions token })
unfolding get
get_session-left at token id s = elim (Option-cases (Dict.get s.sessions token)) [
  | inl e ↦ rw (e, get) (inl refl)
  | inr (q, e) ↦ rw (e, get) (ground arith)
]

pub data Call : Type 0 where
  starts : ℕ → String → Ticket → String → Call
  gets : ℕ → String → String → Call
  ends : String → Call
  opens : ℕ → Call
  closes : ℕ → ℕ → Call
  sweeps : ℕ → Call

unfoldable pub after : Call → ViewerSessions → ViewerSessions
after (starts at token ticket name) s = (start at token ticket name s).1
after (gets at token id) s = (get at token id s).1
after (ends token) s = end token s
after (opens r) s = socket_opened r s
after (closes at r) s = socket_closed at r s
after (sweeps at) s = sweep_sessions at s

unfoldable pub history : List Call → ViewerSessions → ViewerSessions
history [] s = s
history (c ∷ cs) s = history cs (after c s)

-- The call starts no session under the token.
abbrev pub NotStart : String → Call → Type 0
NotStart token (starts at t ticket name) = t ≢ token
NotStart token _ = Unit

abbrev pub NoStart : String → List Call → Type 0
NoStart token [] = Unit
NoStart token (c ∷ cs) = NotStart token c × NoStart token cs

-- Whatever session the map holds for the token is old: the store has its place and it was created
-- by the given time.
abbrev Old : String → ℕ → ViewerSessions → Type 0
Old token at s =
    (r : ℕ) → Dict.get s.sessions token ≡ some r → (r < s.next) × ((s.store r).created_at ≤ at)

remove-Old :
    (token other : String) (at : ℕ) (s : ViewerSessions)
    → Old token at s
    → Old token at (record s { sessions = Dict.remove s.sessions other })
remove-Old token other at s h r e = h r (ground (arith, get-remove s.sessions other token))

after-Old :
    (token : String) (at : ℕ) (c : Call) (s : ViewerSessions)
    → NotStart token c
    → Old token at s
    → Old token at (after c s)
unfolding after start get end socket_opened socket_closed sweep_sessions
after-Old token at (starts now t ticket name) s n h =
    λ r e. ground (arith, get-set s.sessions t token s.next, eq_iff t token, h r)
after-Old token at (gets now t id) s n h = elim (get_session-left now t id s) [
  | inl e ↦ subst (Old token at) (sym e) h
  | inr e ↦ subst (Old token at) (sym e) (remove-Old token t at s h)
]
after-Old token at (ends t) s n h = remove-Old token t at s h
after-Old token at (opens q) s n h = λ r e. ground (arith, h r e)
after-Old token at (closes now q) s n h = λ r e. ground (arith, h r e)
after-Old token at (sweeps now) s n h =
    λ r e. ground (arith, get-keep (λ q. is_live now (s.store q)) s.sessions token, h r)

history-Old :
    (token : String) (at : ℕ) (cs : List Call) (s : ViewerSessions)
    → NoStart token cs
    → Old token at s
    → Old token at (history cs s)
unfolding history
history-Old token at [] s n h = h
history-Old token at (c ∷ cs) s (n, ns) h =
    history-Old token at cs (after c s) ns (after-Old token at c s n h)

-- Once a session has been started under a token, no later history makes the token good for longer
-- than the cap, unless another session is started under it: not by sockets that stay open, nor by
-- sockets opened on a session that the map has already dropped.
pub session_bounds :
    (token instance_id name : String) (ticket : Ticket) (at later : ℕ) (cs : List Call)
    (s : ViewerSessions)
    → NoStart token cs
    → at + session_max_ms < later
    → (get later token instance_id (history cs (start at token ticket name s).1)).0 ≡ none
unfolding start get
session_bounds token instance_id name ticket at later cs s n h =
    let t = history cs (start at token ticket name s).1 in
    let old =
      history-Old token at cs (start at token ticket name s).1 n
        (λ r e. ground (arith, get-set s.sessions token token s.next, eq_refl token)) in
    elim (Option-cases (Dict.get t.sessions token)) [
      | inl e ↦ rw (e, get) refl
      | inr (r, e) ↦ rw (e, get) (ground (arith, old r e))
    ]

after-Absent :
    (token : String) (c : Call) (s : ViewerSessions)
    → NotStart token c
    → Dict.get s.sessions token ≡ none
    → Dict.get (after c s).sessions token ≡ none
unfolding after start get end socket_opened socket_closed sweep_sessions
after-Absent token (starts now t ticket name) s n h =
    ground (arith, get-set s.sessions t token s.next, eq_iff t token)
after-Absent token (gets now t id) s n h = elim (get_session-left now t id s) [
  | inl e ↦ rw e h
  | inr e ↦ rw e (ground (arith, get-remove s.sessions t token))
]
after-Absent token (ends t) s n h = ground (arith, get-remove s.sessions t token)
after-Absent token (opens q) s n h = h
after-Absent token (closes now q) s n h = h
after-Absent token (sweeps now) s n h =
    ground (arith, get-keep (λ q. is_live now (s.store q)) s.sessions token)

-- A token that the map does not hold stays refused until a session is started under it.
pub ended_session_stays :
    (token instance_id : String) (at : ℕ) (cs : List Call) (s : ViewerSessions)
    → NoStart token cs
    → Dict.get s.sessions token ≡ none
    → (get at token instance_id (history cs s)).0 ≡ none
unfolding get history
ended_session_stays token instance_id at [] s n h = rw (h, get) refl
ended_session_stays token instance_id at (c ∷ cs) s (n, ns) h =
    ended_session_stays token instance_id at cs (after c s) ns (after-Absent token c s n h)
