-- ===== src/Lib.antt =====
-- The OBS instance manager: the process on a node that runs cloud OBS instances as Docker
-- containers for the owners of a plan.
--
-- Its parts and their models:
--
--   * Lock.antt: src/utils/instance-lock.ts, the mutex per instance that every start, stop and
--     delete runs under, as a step relation on the promises that it chains.
--   * Effects.antt: the monad of the instance operations, with the state outside the process, the
--     trace of the calls that change it, and the process's own state.
--   * Instances.antt: src/services/instances/ (start in Instances/Start.antt, create in
--     Instances/Create.antt, stop, delete and plan sweep in Instances/Stop.antt) over the clients
--     of src/clients/ (Instances/Services.antt).
--   * Docker.antt: src/services/docker/, containers that exit by themselves: the live exits
--     (Docker/Exits.antt), the recovery after an outage of the X server (Docker/Recovery.antt),
--     the check at boot (Docker/Reconcile.antt) and src/utils/container-name.ts
--     (Docker/Names.antt). It also has how a container is made: its spec from
--     src/clients/instance-spec.ts (Docker/Spec.antt), its cores from src/utils/cpuset.ts
--     (Docker/Cpuset.antt), and its creation in src/clients/docker.ts (Docker/Client.antt).
--   * Storage.antt: src/services/storage/, the mirror of an instance's files in S3: the pass over a
--     section (Storage/Sync.antt), the push and its retries (Storage/Push.antt), the pull
--     (Storage/Pull.antt), the listing and the delete of objects (Storage/Objects.antt), and which
--     files are kept (Storage/Policy.antt).
--   * Media.antt: src/services/storage/media.ts, media-paths.ts and src/utils/media-types.ts, the
--     user's media files: file types (Media/Types.antt), paths (Media/Paths.antt) and the
--     operations (Media/Files.antt, with the loop of an upload in Media/Files/Receiving.antt).
--   * Obs.antt: src/services/obs/, the commands that the node sends to the OBS of an instance
--     (Obs/Commands.antt), the connections that watch it (Obs/Listener.antt, its handlers in
--     Obs/Listener/Events.antt) and the statistics that it sends (Obs/Stats.antt).
--   * Proxy.antt: src/services/proxy/, the relay to the obs-websocket of a container
--     (Proxy/Relay.antt) and the Selkies proxy: its viewer sessions (Proxy/Selkies.antt), its
--     handler (Proxy/Handler.antt) with the reading of requests (Proxy/Requests.antt), the HTTP that
--     it forwards (Proxy/Upstream.antt) and the relay of the socket (Proxy/Sockets.antt).
--   * Auth.antt: src/services/auth/ and the middleware that uses it, the credentials that the node
--     accepts: tickets, node tokens, the command key and viewer sessions.
--   * Cache.antt: src/services/cache/, the answers of rest-api that the node keeps.
--   * Limits.antt: src/utils/rate-limit.ts and the middleware that uses it.
--   * Concurrency.antt: src/utils/concurrency.ts, the pool of workers that the storage uses.
--   * Prelude.antt: library names, Boolean tests, lists, dictionaries, sorting and digits.
--
-- A start, a stop and a delete are sequences of calls, and the lock keeps two of them for one
-- instance apart. rest-api, Docker, the disk and S3 are the record `Services`: each call answers a
-- result or an error and may change the state outside in any way. The clock, tokens and UUIDs are
-- arguments, and SHA-256 and the package jose are parameters. The listener, the relay, the viewer
-- proxy and the pool of workers are state machines: an asynchronous function is cut at its awaits,
-- what outlives a call stands in a store, and a history is any list of events. The loops without a
-- bound of their own run on fuel: for the final push three rounds are enough, for a delete in batches
-- as many as there are keys, and for a listing as many as S3 has pages. All other loops are
-- structural.
--
-- Not modelled: log lines, HTTP and the timers of periodic work, which only call what is modelled;
-- the metrics pipeline, telemetry that no decision rests on; the bodies of third-party packages;
-- the bodies that S3 streams; the injection of secrets; plugins; and the HTTP routes.
mod Prelude
pub mod Auth
pub mod Cache
pub mod Limits
pub mod Lock
pub mod Obs
pub mod Media
pub mod Proxy
pub mod Storage
pub mod Concurrency
pub mod Docker
pub mod Effects
pub mod Instances
