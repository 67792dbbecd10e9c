-- ===== src/Docker/Spec.antt =====
-- src/clients/instance-spec.ts: the container of an instance, as the node asks Docker for it. An
-- environment is a dictionary; an entry of the container's environment is a name and a value, and
-- is written `name=value`.
pub mod Env
use Prim.Native.Char.{code}
use Prim.Native.String
use obs_instance_manager.Prelude.{
  ℕ, ◌*◌, String, Bool, true, false, not, ◌&&◌, Option, none, some, List, [], ◌∷◌, ◌++◌, map, eqb,
  if◌then◌else◌, ◌==◌, or_else, non_empty, strip_prefix, is_some,
}
use obs_instance_manager.Prelude.Dict
use obs_instance_manager.Prelude.Dict.{Dict}
use obs_instance_manager.Effects.{ContainerOptions}

pub data GpuMode : Type 0 where
  xserver direct : GpuMode

pub record InstanceRuntime : Type 0 where
  pub image : String
  pub gpu_mode : GpuMode
  pub gl_mode : String
  pub wsl_lib_dir : String
  pub config_base : String
  pub plugins_dir : String
  pub selkies_overrides : Dict String

infixl 65 ◌<>◌
abbrev pub ◌<>◌ : String → String → String
a <> b = String.◌++◌ a b

-- `env.NAME || fallback`
abbrev pub env_or : Dict String → String → String → String
env_or env name fallback = or_else (non_empty (Dict.get env name)) fallback

unfoldable pub is_override : String → Bool
is_override key =
    is_some (strip_prefix "SELKIES_" key) && not (key == "SELKIES_BASIC_AUTH_PASSWORD")

unfoldable pub overrides_of : Dict String → Dict String
overrides_of [] = []
overrides_of ((key, value) ∷ env) =
    if is_override key then (key, value) ∷ overrides_of env else overrides_of env

-- None is the error of `oneOf`.
unfoldable pub gpu_mode_of : Option String → Option GpuMode
gpu_mode_of none = some xserver
gpu_mode_of (some value) =
    if value == ""
    then some xserver
    else if value == "xserver"
    then some xserver
    else if value == "direct"
    then some direct
    else none

abbrev pub runtime_with : Dict String → Option GpuMode → Option InstanceRuntime
runtime_with env none = none
runtime_with env (some mode) = some (record {
  image = env_or env "OBS_INSTANCE_IMAGE" "ghcr.io/streamwizard/obs-cloud-container:latest";
  gpu_mode = mode;
  gl_mode = env_or env "OBS_GL_MODE" "d3d12";
  wsl_lib_dir = env_or env "OBS_WSL_LIB_DIR" "/usr/lib/wsl";
  config_base = env_or env "OBS_CONFIG_BASE" "/data/obs-configs";
  plugins_dir = env_or env "PLUGINS_PATH" "/data/obs-plugins";
  selkies_overrides = overrides_of env;
})

unfoldable pub runtime_from_env : Dict String → Option InstanceRuntime
runtime_from_env env = runtime_with env (gpu_mode_of (Dict.get env "OBS_GPU_MODE"))

-- The text before the first `x`, and the text after it.
unfoldable pub cut_x : String → String × Option String
cut_x String.[] = ("", none)
cut_x (String.◌∷◌ c s) =
    let (a, b) = cut_x s in if eqb (code c) b'x' then ("", some s) else (String.◌∷◌ c a, b)

abbrev pub width_of : String → String
width_of resolution = (cut_x resolution).0

-- `split("x")[1] ?? "1080"`
abbrev pub height_of : String → String
height_of resolution = elim (cut_x resolution).1 [ none ↦ "1080" | some rest ↦ (cut_x rest).0 ]

abbrev pub selkies_defaults : String → Dict String
selkies_defaults resolution =
    ("SELKIES_ENCODER", "h264enc-striped")
    ∷ ("SELKIES_FRAMERATE", "60-60")
    ∷ ("SELKIES_VIDEO_STREAMING_MODE", "false|locked")
    ∷ ("SELKIES_UI_SHOW_SIDEBAR", "false")
    ∷ ("SELKIES_UI_SHOW_CORE_BUTTONS", "false")
    ∷ ("SELKIES_ENABLE_SHARING", "false")
    ∷ ("SELKIES_GAMEPAD_ENABLED", "false")
    ∷ ("SELKIES_MICROPHONE_ENABLED", "false")
    ∷ ("SELKIES_WEBCAM_ENABLED", "false")
    ∷ ("SELKIES_FILE_TRANSFERS", "")
    ∷ ("SELKIES_AUDIO_DEVICE_NAME", "obs_sink.monitor")
    ∷ ("SELKIES_AUDIO_REDUNDANCY", "true")
    ∷ ("SELKIES_MANUAL_RESOLUTION", "true|locked")
    ∷ ("SELKIES_MANUAL_WIDTH", width_of resolution)
    ∷ ("SELKIES_MANUAL_HEIGHT", height_of resolution)
    ∷ []

-- `{ ...vars, ...overrides }`
unfoldable pub spread : Dict String → Dict String → Dict String
spread vars [] = vars
spread vars ((key, value) ∷ overrides) = spread (Dict.set vars key value) overrides

unfoldable pub selkies_env : String → Dict String → Dict String
selkies_env resolution overrides =
    Dict.set (spread (selkies_defaults resolution) overrides) "SELKIES_PORT" "8080"

pub record Bind : Type 0 where
  pub source : String
  pub target : String
  pub is_read_only : Bool

pub record ContainerSpec : Type 0 where
  pub name : String
  pub image : String
  pub env : List (String × String)
  pub runtime : Option String
  pub shm_size : ℕ
  pub cap_add : List String
  pub security_opt : List String
  pub memory : ℕ
  pub memory_reservation : ℕ
  pub memory_swap : ℕ
  pub nano_cpus : ℕ
  pub cpuset_cpus : Option (List ℕ)
  pub binds : List Bind
  pub capabilities : List String
  pub exposed_ports : List String
  pub network : String

abbrev pub is_xserver : GpuMode → Bool
is_xserver xserver = true
is_xserver direct = false

abbrev pub when : {A : Type 0} → Bool → List A → List A
when true xs = xs
when false xs = []

abbrev pub container_env : ContainerOptions → InstanceRuntime → List (String × String)
container_env o rt =
    (("RESOLUTION", o.resolution)
      ∷ ("OBS_WEBSOCKET_PORT", "4455")
      ∷ ("OBS_WEBSOCKET_PASSWORD", o.obs_ws_password)
      ∷ ("DISPLAY_NUM", ":10")
      ∷ [])
    ++ (when (not (is_xserver rt.gpu_mode))
          (("OBS_GL_MODE", rt.gl_mode) ∷ ("NVIDIA_DRIVER_CAPABILITIES", "all") ∷ [])
        ++ (selkies_env o.resolution rt.selkies_overrides
            ++ (("SELKIES_BASIC_AUTH_PASSWORD", o.viewer_password) ∷ [])))

abbrev pub container_binds : String → InstanceRuntime → List Bind
container_binds id rt =
    (record {
      source = rt.config_base <> "/" <> id <> "/obs-studio";
      target = "/home/app/.config/obs-studio";
      is_read_only = false;
    }
      ∷ record {
        source = rt.plugins_dir;
        target = "/home/app/.config/obs-studio/plugins";
        is_read_only = true;
      }
      ∷ [])
    ++ (when (is_xserver rt.gpu_mode) (
          record { source = "gpu-x11-socket"; target = "/opt/gpu-xsocket"; is_read_only = true }
          ∷ [])
        ++ (when (not (is_xserver rt.gpu_mode) && rt.gl_mode == "d3d12") (
              record { source = rt.wsl_lib_dir; target = "/usr/lib/wsl"; is_read_only = true } ∷ [])
            ++ (record {
              source = rt.config_base <> "/" <> id <> "/media";
              target = "/home/app/media";
              is_read_only = false;
            }
                ∷ [])))

-- A cpuset that is empty is left out.
abbrev pub given : Option (List ℕ) → Option (List ℕ)
given none = none
given (some []) = none
given (some (c ∷ cs)) = some (c ∷ cs)

unfoldable pub build_container_spec :
    ContainerOptions → ℕ → String → Option (List ℕ) → InstanceRuntime → ContainerSpec
build_container_spec o shm_bytes network_name cpuset rt =
    let is_x = is_xserver rt.gpu_mode in
    let memory_bytes = o.memory_mb * 1024 * 1024 in
    record {
      name = o.container_name;
      image = rt.image;
      env = container_env o rt;
      runtime = if is_x then some "nvidia" else none;
      shm_size = shm_bytes;
      cap_add = when is_x ("SYS_ADMIN" ∷ "NET_ADMIN" ∷ "SYS_PTRACE" ∷ []);
      security_opt = when is_x ("apparmor=unconfined" ∷ "seccomp=unconfined" ∷ []);
      memory = memory_bytes;
      memory_reservation = memory_bytes;
      memory_swap = memory_bytes;
      nano_cpus = o.cpu_quota;
      cpuset_cpus = given cpuset;
      binds = container_binds o.instance_id rt;
      capabilities = if is_x then "gpu" ∷ "utility" ∷ "video" ∷ "display" ∷ [] else "gpu" ∷ [];
      exposed_ports = "8080/tcp" ∷ "4455/tcp" ∷ [];
      network = network_name;
    }
