-- ===== src/Proxy/ViewerTests.antt =====
-- A request of the viewer, and its socket.
use obs_instance_manager.Prelude.{
  ℕ, String, ◌≡◌, true, any, non_empty, Option, none, some, List, [], ◌∷◌, arith, if◌then◌else◌,
  ◌==◌,
}
use obs_instance_manager.Prelude.Dict
use obs_instance_manager.Auth.Tickets.{Ticket, TicketScope}
use obs_instance_manager.Auth.Viewer
use obs_instance_manager.Auth.Viewer.{ViewerSession}
use obs_instance_manager.Proxy.Selkies.{Outcome}
use obs_instance_manager.Proxy.Upstream.{request_headers, response_headers}
use obs_instance_manager.Proxy.Upstream.Laws.{
  request_headers_lem, response_headers_lem, passed_header,
}
use obs_instance_manager.Proxy.Handler
use obs_instance_manager.Proxy.Handler.{ViewerRequest, Answers}
use obs_instance_manager.Proxy.Handler.Laws.{IsGuarded, handle-IsGuarded}
use obs_instance_manager.Proxy.Sockets.{
  Event, connects, opens, closes, starts, handle, history, link_opened, link_closed,
}
use obs_instance_manager.Proxy.Sockets.Laws.{no_viewers, open_on, sockets_counted}

abbrev browser : String → Option String
browser name =
    if name == "authorization"
    then some "Bearer t"
    else if name == "cookie"
    then some "other=1"
    else none

abbrev request : ViewerRequest
request = record {
  id = "0a1b2c3d-0000-4000-8000-00000000000f";
  path = "/instances/0a1b2c3d-0000-4000-8000-00000000000f/selkies/api/status";
  search = "";
  method = "GET";
  header = browser;
}

abbrev answers : Answers
answers = record {
  decode = λ s. some s;
  base64url = λ s. s;
  authorization = some "Basic x";
  ready = λ own x. true;
  client_file = λ rest method. none;
  session = λ token recheck. Outcome.found 0;
}

handle-IsGuarded_example : IsGuarded answers request (Handler.handle answers request)
handle-IsGuarded_example = handle-IsGuarded answers request

request_headers_lem_example : Dict.get (request_headers browser "Basic x") "cookie" ≡ (
    if "authorization" == "cookie"
    then some "Basic x"
    else if any
        (λ n. n == "cookie")
        ("accept" ∷ "accept-language" ∷ "content-type" ∷ "content-length" ∷ "if-none-match"
          ∷ "if-modified-since" ∷ "range" ∷ "user-agent" ∷ [])
    then non_empty (browser "cookie")
    else none)
request_headers_lem_example = request_headers_lem browser "Basic x" "cookie"

abbrev upstream : Dict.Dict String
upstream = ("set-cookie", "a=1") ∷ ("location", "/login") ∷ []

response_headers_lem_example :
    Dict.get (response_headers "/instances/i1/selkies" upstream) "location"
    ≡ passed_header "/instances/i1/selkies" upstream "location"
response_headers_lem_example = response_headers_lem "/instances/i1/selkies" upstream "location"

abbrev ticket : Ticket
ticket = record {
  user_id = "u1";
  scope = TicketScope.selkies;
  instance_id = some "i1";
  expires_at = 120000;
}

abbrev nowhere : ℕ → ViewerSession
nowhere r = record {
  ticket = ticket;
  container_name = "";
  created_at = 0;
  open_sockets = 0;
  idle_since = 0;
}

-- Two sockets of one session, of which the first closes.
abbrev events : List (Event String)
events =
    starts 1 "t" ticket "obs-i1"
    ∷ connects (some 0)
    ∷ connects (some 0)
    ∷ opens 0 "/api/websockets" ""
    ∷ opens 1 "/api/websockets" ""
    ∷ closes 5 0
    ∷ []

sockets_counted_example :
    let s = history events (record { viewers = no_viewers nowhere; links = [] }) in
    (s.viewers.store 0).open_sockets ≡ open_on 0 s.links
unfolding handle history Viewer.start link_opened link_closed Viewer.socket_closed
    Viewer.socket_opened
sockets_counted_example =
    sockets_counted nowhere events 0 (tt, (omega arith, (omega arith, (tt, (tt, (tt, tt))))))
      (omega arith)
