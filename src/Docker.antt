-- ===== src/Docker.antt =====
-- src/services/docker/ and src/utils/container-name.ts: what the node does about containers that
-- exit by themselves, on the live event stream and at boot. A line of the event stream that is
-- parsed is a DockerEvent. And src/clients/ and src/utils/cpuset.ts: how a container is specified,
-- pinned to cores and created.
pub mod Names
pub mod Cpuset
pub mod Spec
pub mod Client
pub mod Recovery
pub mod Exits
pub mod Reconcile
mod Tests
mod ClientTests
use obs_instance_manager.Prelude.{ℕ, String, Option}

pub record DockerEvent : Type 0 where
  pub action : String
  pub name : Option String
  pub id : Option String
  pub exit_code : Option ℕ
