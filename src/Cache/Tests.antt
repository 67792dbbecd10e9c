-- ===== src/Cache/Tests.antt =====
-- The caches at work: a list of one instance id, and the passwords of one instance.
use obs_instance_manager.Prelude.{String, ◌≡◌, none, some, List, [], ◌∷◌}
use obs_instance_manager.Prelude.Dict
use obs_instance_manager.Instances.Services.{InstanceSecrets}
use obs_instance_manager.Cache.Single.{Single}
use obs_instance_manager.Cache.Single.Laws.{Event, reads, invalidates, resolves}
use obs_instance_manager.Cache.Secrets.{SecretsCache, forget_instance_secrets}
use obs_instance_manager.Cache.Secrets.Laws
use obs_instance_manager.Cache.Secrets.Laws.{answers, forgotten_stays}

abbrev warm : Single String
warm = record { cached = some "i1"; cached_at = 1000; failed_at = 0; in_flight = none; sent = 1 }

abbrev expired : Single String
expired = record {
  cached = some "i1";
  cached_at = 1000;
  failed_at = 0;
  in_flight = some 1;
  sent = 2;
}

abbrev events : List (Event String)
events = reads 1000 ∷ invalidates ∷ reads 1001 ∷ resolves 1002 "i1" ∷ reads 1003 ∷ []

abbrev secrets : InstanceSecrets
secrets = record { obs_ws_password = some "pw"; vnc_password = "vnc" }

abbrev requested : SecretsCache
requested = record { cache = Dict.empty; in_flight = ("i1", 0) ∷ []; sent = 1 }

forgotten_stays_example :
    Dict.get
      (Laws.history 300000
        (answers 2000 "i1" 0 secrets ∷ [])
        (forget_instance_secrets "i1" requested)).cache
      "i1"
    ≡ none
forgotten_stays_example =
    forgotten_stays 300000 "i1" (answers 2000 "i1" 0 secrets ∷ []) requested (tt, tt)
