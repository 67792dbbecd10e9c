-- ===== src/Auth/Tickets/Replay.antt =====
-- Histories of the ticket map: any interleaving of issues, consumes and sweeps.
use obs_instance_manager.Prelude.{
  ℕ, ◌+◌, ◌≤◌, String, ◌≢◌, inl, inr, Bool, true, false, Option, none, some, List, [], ◌∷◌, arith,
  ◌==◌, ◌&&◌, eq_iff, Option-cases, is_some,
}
use obs_instance_manager.Prelude.Dict
use obs_instance_manager.Prelude.Dict.{Dict, get-keep, get-set, get-remove}
use obs_instance_manager.Auth.Tickets.{
  Ticket, TicketScope, TicketInput, issue_ticket, consume_ticket, sweep,
}

pub data Call : Type 0 where
  issue : String → ℕ → TicketInput → Call
  consume : Option String → TicketScope → Option String → ℕ → Call
  sweeps : ℕ → Call

pub after : Call → Dict Ticket → Dict Ticket
after (issue token now input) m = (issue_ticket token now input m).1
after (consume token scope id now) m = (consume_ticket token scope id now m).1
after (sweeps now) m = sweep now m

abbrev is_issue : String → Call → Bool
is_issue tok (issue token now input) = token == tok
is_issue tok _ = false

abbrev wins : String → Call → Dict Ticket → Bool
wins tok (consume (some token) scope id now) m =
    token == tok && is_some (consume_ticket (some token) scope id now m).0
wins tok _ m = false

abbrev count_if : Bool → ℕ → ℕ
count_if true n = n + 1
count_if false n = n

-- How often a token is minted in a history, and how often it is accepted.
pub mints : String → List Call → ℕ
mints tok [] = 0
mints tok (c ∷ cs) = count_if (is_issue tok c) (mints tok cs)

pub acceptances : String → List Call → Dict Ticket → ℕ
acceptances tok [] m = 0
acceptances tok (c ∷ cs) m = count_if (wins tok c m) (acceptances tok cs (after c m))

abbrev pub held : String → Dict Ticket → ℕ
held tok m = count_if (is_some (Dict.get m tok)) 0

-- One call: an acceptance uses up what was held, and only an issue adds to it.
call_balance :
    (tok : String) (c : Call) (m : Dict Ticket)
    → tok ≢ ""
    → count_if (wins tok c m) (held tok (after c m)) ≤ count_if (is_issue tok c) (held tok m)
unfolding after issue_ticket sweep consume_ticket
call_balance tok (issue token now input) m h = rw (get-set m token tok _) (ground arith)
call_balance tok (consume none scope id now) m h = omega arith
call_balance tok (consume (some token) scope id now) m h = elim (Option-cases (Dict.get m token)) [
  | inl e ↦ rw (e, consume_ticket) (ground (arith, eq_iff token ""))
  | inr (t, e) ↦
      rw (e, consume_ticket)
        (ground (arith, e, eq_iff token "", eq_iff token tok, get-remove m token tok))
]
call_balance tok (sweeps now) m h = rw (get-keep _ m tok) (ground arith)

-- In any history a token is accepted at most as often as it was minted, plus once if the map held
-- a ticket for it at the start: no ticket is ever spent twice.
pub acceptances-le-mints :
    (tok : String) (cs : List Call) (m : Dict Ticket)
    → tok ≢ ""
    → acceptances tok cs m ≤ mints tok cs + held tok m
unfolding acceptances mints
acceptances-le-mints tok [] m h = omega arith
acceptances-le-mints tok (c ∷ cs) m h =
    ground (arith, acceptances-le-mints tok cs (after c m) h, call_balance tok c m h)
