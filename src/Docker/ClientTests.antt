-- ===== src/Docker/ClientTests.antt =====
-- The creation of a container on a node of four cores, two of which are taken.
use obs_instance_manager.Prelude.{
  ℕ, ◌≡◌, refl, String, true, Option, none, some, List, [], ◌∷◌, map, arith, strip_prefix,
}
use obs_instance_manager.Prelude.Dict
use obs_instance_manager.Prelude.Dict.{Dict}
use obs_instance_manager.Prelude.Digits.{join, decimal}
use obs_instance_manager.Effects.{ok, err, failed, ContainerOptions}
use obs_instance_manager.Instances.Services.{Container}
use obs_instance_manager.Media.Types.{codes}
use obs_instance_manager.Docker.Cpuset.{parse_cpuset, DockerHost, instances_of, allocate_cpuset}
use obs_instance_manager.Docker.Cpuset.Picking.{Picks}
use obs_instance_manager.Docker.Cpuset.Allocation.{pinned_to, allocated_cores}
use obs_instance_manager.Docker.Spec.{
  xserver, InstanceRuntime, is_override, overrides_of, gpu_mode_of, runtime_from_env,
  build_container_spec,
}
use obs_instance_manager.Docker.Spec.Env.{Fixed, settings-Fixed}
use obs_instance_manager.Docker.Client.{DockerApi}

abbrev no_number : List ℕ → Option ℕ
no_number s = none

abbrev neighbour : Container
neighbour = record {
  id = "c1";
  names = "/obs-instance-0a1b2c3d-0000-4000-8000-00000000000f" ∷ [];
  is_running = true;
}

abbrev host : DockerHost
host = record {
  info = some (some 4);
  running = some (neighbour ∷ []);
  pinned = λ id. some (some (codes "0-1"));
}

allocated_cores_example :
    (cores : List ℕ) × (allocate_cpuset no_number host 1500000000
      ≡ some (join b',' (map decimal cores)))
    × (parse_cpuset no_number 4 (some (join b',' (map decimal cores))) ≡ cores)
    × Picks
        (pinned_to no_number host 4
          (λ id. some (codes "0-1"))
          (λ id. refl)
          (instances_of no_number host (neighbour ∷ [])))
        4
        2
        cores
allocated_cores_example =
    allocated_cores no_number host 4 (λ id. some (codes "0-1")) (λ id. refl) (neighbour ∷ [])
      1500000000 refl refl (omega arith) (omega arith) (omega arith)

abbrev node_env : Dict String
node_env =
    ("SELKIES_PORT", "9999") ∷ ("SELKIES_BASIC_AUTH_PASSWORD", "shared") ∷ ("SELKIES_X", "1") ∷ []

abbrev runtime : InstanceRuntime
runtime = record {
  image = "ghcr.io/streamwizard/obs-cloud-container:latest";
  gpu_mode = xserver;
  gl_mode = "d3d12";
  wsl_lib_dir = "/usr/lib/wsl";
  config_base = "/data/obs-configs";
  plugins_dir = "/data/obs-plugins";
  selkies_overrides = ("SELKIES_PORT", "9999") ∷ ("SELKIES_X", "1") ∷ [];
}

abbrev options : ContainerOptions
options = record {
  instance_id = "i1";
  container_name = "obs-instance-i1";
  resolution = "1920x1080";
  obs_ws_password = "ws";
  viewer_password = "viewer";
  memory_mb = 4096;
  cpu_quota = 1500000000;
  shm_size = "2g";
}

settings-Fixed_example :
    let e = (build_container_spec options 0 "obs-net" none runtime).env in
    Fixed "SELKIES_BASIC_AUTH_PASSWORD" "viewer" e
    × Fixed "OBS_WEBSOCKET_PASSWORD" "ws" e
    × Fixed "SELKIES_PORT" "8080" e
    × Fixed "OBS_WEBSOCKET_PORT" "4455" e
unfolding runtime_from_env gpu_mode_of overrides_of is_override Dict.get strip_prefix
settings-Fixed_example = settings-Fixed node_env runtime options 0 "obs-net" none refl

-- The registry is down, and the image is in the local cache.
abbrev api : DockerApi
api = record {
  pull = err (failed none "no route");
  inspect_image = ok tt;
  host = host;
  create = λ spec. ok spec.name;
}
