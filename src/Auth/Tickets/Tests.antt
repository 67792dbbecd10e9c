-- ===== src/Auth/Tickets/Tests.antt =====
-- Tickets at work: one ticket for the viewer of an instance, and its replay.
use obs_instance_manager.Prelude.{◌+◌, ◌≤◌, some, List, [], ◌∷◌}
use obs_instance_manager.Prelude.Dict
use obs_instance_manager.Prelude.Dict.{Dict}
use obs_instance_manager.Auth.Tickets.{Ticket, TicketInput, selkies, issue_ticket}
use obs_instance_manager.Auth.Tickets.Replay.{
  Call, issue, consume, mints, acceptances, held, acceptances-le-mints,
}

abbrev viewer : TicketInput
viewer = record { user_id = "u1"; scope = selkies; instance_id = some "i1" }

abbrev minted : Dict Ticket
minted = (issue_ticket "t" 1000 viewer Dict.empty).1

abbrev ticket : Ticket
ticket = record { user_id = "u1"; scope = selkies; instance_id = some "i1"; expires_at = 121000 }

abbrev history : List Call
history =
    issue "t" 1000 viewer
    ∷ consume (some "t") selkies (some "i1") 2000
    ∷ consume (some "t") selkies (some "i1") 3000
    ∷ []

acceptances-le-mints_example :
    acceptances "t" history Dict.empty ≤ mints "t" history + held "t" Dict.empty
acceptances-le-mints_example = acceptances-le-mints "t" history Dict.empty (λ e. cc)
