-- ===== src/Instances/Samples.antt =====
-- One stored row, with systems outside that answer, and with some that do not, for the tests.
use obs_instance_manager.Prelude.{ℕ, ◌+◌, true, false, none, some, [], ◌∷◌}
use obs_instance_manager.Prelude.Dict
use obs_instance_manager.Effects.{failed, ok, err, running, World, Op}
use obs_instance_manager.Instances.Services.{
  Instance, Services, Node, PlanLimits, granted, scope_missing,
}
use obs_instance_manager.Instances.Start.{StartSecrets}
use obs_instance_manager.Instances.Create.{CreateInput}

-- The state outside counts the calls.
abbrev pub answers : {A : Type 0} → A → Op ℕ A
answers a n = (ok a, n + 1)

abbrev pub fails : {A : Type 0} → Op ℕ A
fails n = (err (failed none "unavailable"), n + 1)

abbrev pub row : Instance
row = record {
  id = "i1";
  user_id = "u1";
  node_id = "n1";
  container_id = some "c1";
  container_name = "obs-instance-i1";
  resolution = "1920x1080";
  status = running;
  memory_mb = 4096;
  cpu_quota = 2;
  shm_size = "1g";
  config_template = none;
}

abbrev pub node : Node
node = record { id = "n1"; max_instances = 2; max_encoder_sessions = some 3 }

abbrev pub limits : PlanLimits
limits = record {
  resolution = "1920x1080";
  memory_mb = 4096;
  cpu_quota = 2;
  shm_size = "1g";
  vram_mb = 512;
  config_template = none;
}

abbrev pub healthy : Services ℕ
healthy = record {
  list_containers = λ name. answers [];
  inspect = λ id. answers true;
  create = λ options. answers "c2";
  start = λ id. answers tt;
  stop = λ id. answers tt;
  remove = λ id. answers tt;
  post_row = λ r token. answers row;
  patch = λ id fields. answers row;
  delete = λ id. answers tt;
  get_row = λ id. answers (some row);
  count_active = answers 1;
  list_unentitled = answers ("i1" ∷ []);
  refresh_node = answers node;
  subscription_limits = λ id. answers (some limits);
  instance_secrets = λ id. answers (record { obs_ws_password = some "pw"; vnc_password = "vnc" });
  stream_key = λ id. answers (record { key = some "live"; reason = granted });
  pull_obs_config = λ user id template. answers tt;
  sync_plugins = answers tt;
  inject_ws_password = λ id password. answers tt;
  inject_stream_key = λ id key. answers tt;
  clear_stream_key = λ id. answers tt;
  persist_and_remove = λ user id. answers true;
  remove_local = λ id. answers tt;
  remove_s3 = λ user id. answers tt;
  patch_by_container = λ id fields. answers (some row);
  refresh_node_instances = answers (row ∷ []);
  post_reconcile_report = λ orphans results. answers tt;
  has_rest_api = true;
  is_locked = λ id n. false;
  allow_missing_key = false;
}

abbrev pub world : World ℕ
world = record { env = 0; trace = []; api_stopping = Dict.empty; list_cached = true }

abbrev pub input : CreateInput
input = record {
  subscription_id = "s1";
  template = none;
  obs_ws_password = "pw";
  node_token = none;
}

abbrev pub secrets : StartSecrets
secrets = record { obs_ws_password = "pw"; vnc_password = "vnc" }

-- A node whose Docker starts nothing.
abbrev pub no_start : Services ℕ
no_start = record healthy { start = λ id. fails }

abbrev pub no_stop : Services ℕ
no_stop = record healthy { stop = λ id. fails }

abbrev pub no_disk : Services ℕ
no_disk = record healthy { inject_ws_password = λ id password. fails }

abbrev pub no_rows : Services ℕ
no_rows = record healthy { patch = λ id fields. fails }

abbrev pub no_key : Services ℕ
no_key = record healthy {
  stream_key = λ id. answers (record { key = none; reason = scope_missing });
}

abbrev pub full : Services ℕ
full = record healthy { count_active = answers 2 }
