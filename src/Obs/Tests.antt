-- ===== src/Obs/Tests.antt =====
-- A batch of one command, on an OBS that answers and counts the calls.
use obs_instance_manager.Prelude.{ℕ, ◌+◌, none, some, []}
use obs_instance_manager.Effects.{ok}
use obs_instance_manager.Obs.Commands.{no_params, CommandInput, ObsCommand, ObsSocket, Socket}

abbrev input : CommandInput
input = record { request = some "StopStream"; params = no_params }

abbrev command : ObsCommand
command = record { request = "StopStream"; params = none }

abbrev obs : ObsSocket ℕ
obs = record {
  connect = λ host password n. (ok tt, n + 1);
  call = λ c n. (ok "{}", n + 1);
  disconnect = λ n. (ok tt, n + 1);
  get_secrets = λ id n. (ok (record { obs_ws_password = some "pw"; vnc_password = "vnc" }), n + 1);
}

abbrev idle : Socket ℕ
idle = record { env = 0; calls = [] }
