-- ===== src/Tests/Factories.antt =====
-- The loggers, and the objects of the factories, on small inputs.
use nestjs_stay_api.Common.{ℕ, false, ◌≡◌, refl, ◌↔◌, none, some, [], ◌∷◌}
use nestjs_stay_api.LogUtil.{
  LogConfig, LogUtil, warning, key_of, no_instances, get_instance, get_instances, new_transports,
  value, error_message, written, with_stack, log, stacks,
}
use nestjs_stay_api.LogUtil
use nestjs_stay_api.LogUtil.Methods
use nestjs_stay_api.LogUtil.Identity.{get_instance_same_iff, no_instances-IsValid}
use nestjs_stay_api.Mongo
use nestjs_stay_api.Mongo.{MongoUtil, connect_all, disconnect, get_connection, mongo_util, connect}
use nestjs_stay_api.Providers.{StayConfig, mongo_util_provider}
use nestjs_stay_api.Providers.Connections.{disconnect-mongo_util_provider}

abbrev to_console : LogConfig
to_console = record { console = some (some warning); files = [] }

two_loggers :
    (get_instances (some (1, to_console) ∷ none ∷ some (1, to_console) ∷ []) no_instances).made ≡ 2
unfolding get_instances
two_loggers = refl

silent_without_console : new_transports (some (record { console = none; files = [] })) ≡ []
unfolding new_transports
silent_without_console = refl

-- An error is written at the level of its method, and again at `debug` with its stack.
error_with_stack :
    Methods.error
      (λ msgs. "disk: full")
      (value "disk:" ∷ error_message "full" (some "at write") ∷ [])
    ≡ written LogUtil.error "disk: full"
      ∷ with_stack LogUtil.debug (error_message "full" (some "at write")) (some "at write")
      ∷ []
unfolding Methods.error log stacks
error_with_stack = refl

get_instance_same_iff_example :
    let later = get_instances (some (1, to_console) ∷ []) (get_instance none no_instances).0 in
    (((get_instance (some (2, to_console)) later).1.id ≡ (get_instance none no_instances).1.id)
      ↔ (key_of (some (2, to_console)) ≡ key_of none))
    × (key_of (some (2, to_console)) ≡ key_of none
        → get_instance (some (2, to_console)) later ≡ (later, (get_instance none no_instances).1))
get_instance_same_iff_example =
    get_instance_same_iff (some (1, to_console) ∷ []) no_instances no_instances-IsValid none
      (some (2, to_console))

abbrev config : StayConfig
config = record {
  cors_whitelist = [];
  rw_pg_config = none;
  ro_pg_config = none;
  mongo_config = some (record {
    uri = "mongodb://localhost";
    database = "stay";
    max_pool_size = 10;
    min_pool_size = 1;
    server_selection_timeout_ms = 5000;
    socket_timeout_ms = 45000;
    write_concern = record { w = 1; j = false };
  });
  bull_mq_config = none;
  sqs_config = none;
  common_redis_config = none;
  smtp_config = none;
  s3 = none;
  port = none;
}

abbrev opened : MongoUtil ℕ
opened = record {
  mongo_config = record {
    uri = "mongodb://localhost";
    database = "stay";
    max_pool_size = 10;
    min_pool_size = 1;
    server_selection_timeout_ms = 5000;
    socket_timeout_ms = 45000;
    write_concern = record { w = 1; j = false };
  };
  connection = some 7;
  closed = [];
  failures = 0;
}

opened_by_factory : mongo_util_provider config (some 7) ≡ Mongo.Outcome.returned opened
unfolding mongo_util_provider mongo_util connect
opened_by_factory = refl

disconnect-mongo_util_provider_example :
    let later = connect_all (none ∷ some 8 ∷ []) opened in
    (opened.connection ≡ some 7)
    × (get_connection later ≡ Mongo.Outcome.returned 8)
    × ((disconnect later).closed ≡ 8 ∷ [])
disconnect-mongo_util_provider_example =
    disconnect-mongo_util_provider config 7 (none ∷ []) 8 opened opened_by_factory
