-- ===== src/Obs/Commands.antt =====
-- src/services/obs/obs-command.ts: the commands of the auto-switcher. `serialize`, which the batch
-- runs under, chains promises as the instance lock does (Lock.antt). Parameters are a text, and the
-- body of the request is parsed: none stands for commands that are no array. The obs-websocket is
-- calls on a state; the race with the timeout is the answer of `connect`.
pub mod Laws
use obs_instance_manager.Prelude.{
  ℕ, ◌+◌, String, Bool, true, false, Option, none, some, List, [], ◌∷◌, ◌||◌, any, ltb, eqb, length,
  not, if◌then◌else◌, ◌==◌,
}
use obs_instance_manager.Effects.{Error, Result, ok, err}
use obs_instance_manager.Instances.Services.{Instance, InstanceSecrets}
use obs_instance_manager.Instances.Start.{usable}
use obs_instance_manager.Instances.Stop.{is_running_status}

abbrev pub allowed_requests : List String
allowed_requests =
    "SetCurrentProgramScene" ∷ "GetCurrentProgramScene" ∷ "GetSceneList" ∷ "GetSceneItemList"
    ∷ "SetSceneItemEnabled" ∷ "GetStreamStatus" ∷ "StopStream" ∷ []

unfoldable pub is_allowed : String → Bool
is_allowed request = any (λ r. r == request) allowed_requests

-- `params`: left out, an object, or another value.
pub data Params : Type 0 where
  no_params : Params
  object : String → Params
  bad_params : Params

-- An element of the array; a request that is no string is none.
pub record CommandInput : Type 0 where
  pub request : Option String
  pub params : Params

pub record ObsCommand : Type 0 where
  pub request : String
  pub params : Option String

pub data Validated (A : Type 0) : Type 0 where
  valid : A → Validated A
  -- `ObsCommandError` with its status
  obs_error : ℕ → Validated A

abbrev pub validate_params : String → Params → Validated ObsCommand
validate_params request no_params = valid (record { request = request; params = none })
validate_params request (object p) = valid (record { request = request; params = some p })
validate_params request bad_params = obs_error 400

unfoldable pub validate_command : CommandInput → Validated ObsCommand
validate_command input = elim input.request [
  | none ↦ obs_error 400
  | some request ↦
      if is_allowed request then validate_params request input.params else obs_error 400
]

abbrev pub prepend : ObsCommand → Validated (List ObsCommand) → Validated (List ObsCommand)
prepend c (valid cs) = valid (c ∷ cs)
prepend c (obs_error status) = obs_error status

abbrev pub and_rest :
    Validated ObsCommand → Validated (List ObsCommand) → Validated (List ObsCommand)
and_rest (valid c) rest = prepend c rest
and_rest (obs_error status) rest = obs_error status

-- The first command that is not valid decides.
unfoldable pub validate_each : List CommandInput → Validated (List ObsCommand)
validate_each [] = valid []
validate_each (c ∷ cs) = and_rest (validate_command c) (validate_each cs)

unfoldable pub validate_obs_commands : Option (List CommandInput) → Validated (List ObsCommand)
validate_obs_commands none = obs_error 400
validate_obs_commands (some inputs) =
    if eqb (length inputs) 0 || ltb 10 (length inputs) then obs_error 400 else validate_each inputs

pub data ObsCommandResult : Type 0 where
  succeeded : String → ObsCommandResult
  call_failed : Error → ObsCommandResult

pub record ObsSocket (E : Type 0) : Type 0 where
  pub connect : String → String → E → Result (Unit {0}) × E
  pub call : ObsCommand → E → Result String × E
  pub disconnect : E → Result (Unit {0}) × E
  pub get_secrets : String → E → Result InstanceSecrets × E

-- What was done on the socket, newest first.
pub data SocketCall : Type 0 where
  connected disconnected : SocketCall
  called : ObsCommand → SocketCall

pub record Socket (E : Type 0) : Type 0 where
  pub env : E
  pub calls : List SocketCall

module _ {E : Type 0} (obs : ObsSocket E) where
  abbrev pub result_of : Result String → ObsCommandResult
  result_of (ok response) = succeeded response
  result_of (err e) = call_failed e

  -- The loop over the commands: a call that fails is a result like another.
  unfoldable pub run_commands : List ObsCommand → Socket E → List ObsCommandResult × Socket E
  run_commands [] s = ([], s)
  run_commands (c ∷ cs) s =
      let (answer, env) = obs.call c s.env in
      let (rest, s') = run_commands cs (record { env = env; calls = called c ∷ s.calls }) in
      (result_of answer ∷ rest, s')

  -- `finally { await obs.disconnect().catch(…) }`
  abbrev pub hang_up : Socket E → Socket E
  hang_up s = record { env = (obs.disconnect s.env).1; calls = disconnected ∷ s.calls }

  unfoldable pub after_connect :
      Result (Unit {0}) → List ObsCommand → Socket E → Validated (List ObsCommandResult) × Socket E
  after_connect (err e) commands s = (obs_error 502, s)
  after_connect (ok u) commands s =
      let (results, s') = run_commands commands (record s { calls = connected ∷ s.calls }) in
      (valid results, hang_up s')

  abbrev pub password_of : Result InstanceSecrets → Option String
  password_of (err e) = none
  password_of (ok secrets) = usable secrets.obs_ws_password

  unfoldable pub with_password :
      String
      → Option String
      → List ObsCommand
      → Socket E
      → Validated (List ObsCommandResult) × Socket E
  with_password host none commands s = (obs_error 502, s)
  with_password host (some password) commands s =
      let (answer, env) = obs.connect host password s.env in
      after_connect answer commands (record s { env = env })

  unfoldable pub execute_obs_commands :
      Instance → List ObsCommand → Socket E → Validated (List ObsCommandResult) × Socket E
  execute_obs_commands instance commands s =
      if not (is_running_status instance.status)
      then (obs_error 409, s)
      else (let (secrets, env) = obs.get_secrets instance.id s.env in
          with_password instance.container_name (password_of secrets) commands
            (record s { env = env }))
