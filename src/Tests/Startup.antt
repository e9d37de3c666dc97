-- ===== src/Tests/Startup.antt =====
-- The start of the application and of the presence channel, and the addresses of files.
use nestjs_stay_api.Common.{nat_eq, ◌&&◌, Option, Bool, ℕ, ◌≡◌, refl, true, none, some, [], ◌==◌}
use nestjs_stay_api.Providers.{StayConfig}
use nestjs_stay_api.Bootstrap.{bootstrap, api_port, api_docs}
use nestjs_stay_api.Postgres.Pool.{PgSlonik}
use nestjs_stay_api.UserStatus.Service.{
  ExistsQuery, on_module_init, redis_subscriber_init, check_user_info, repository_check_user_info,
}
use nestjs_stay_api.S3.{UserProfile, get_cloud_front_url}
use nestjs_stay_api.Texts.{cloud_front_url, without_slash}

abbrev ports_only : StayConfig
ports_only = record {
  cors_whitelist = [];
  rw_pg_config = none;
  ro_pg_config = none;
  mongo_config = none;
  bull_mq_config = none;
  sqs_config = none;
  common_redis_config = none;
  smtp_config = none;
  s3 = none;
  port = some (record { api = 3000; websocket = 32099 });
}

listens :
    bootstrap true (some ports_only)
    ≡ some (record {
      docs = api_docs;
      global_prefix = "api/v1";
      transform = true;
      api_port = some 3000;
      host = "0.0.0.0";
    })
unfolding bootstrap api_port
listens = refl

-- A configuration without ports gives `listen` no port.
no_port : api_port (some (record ports_only { port = none })) ≡ none
unfolding api_port
no_port = refl

expirations : (on_module_init {S = ℕ}).subscription.channel ≡ "__keyevent@0__:expired"
unfolding on_module_init redis_subscriber_init
expirations = refl

-- Before the pool is there, the query is a TypeError; afterwards the read-only pool is asked.
asks_read_only :
    (u : PgSlonik ℕ)
    → check_user_info
        (λ p q. some (nat_eq p 7 && (q.table == "public.users")))
        "u1"
        (record { pg_slonik = u; ro_pg_slonik = record u { slonik_pool = some 7 } })
      ≡ some true
unfolding check_user_info repository_check_user_info
asks_read_only u = refl

no_pool :
    (u : PgSlonik ℕ) (exists : ℕ → ExistsQuery → Option Bool)
    → check_user_info exists "u1"
        (record { pg_slonik = u; ro_pg_slonik = record u { slonik_pool = none } })
      ≡ none
unfolding check_user_info repository_check_user_info
no_pool u exists = refl

abbrev profile : UserProfile
profile = record {
  bucket = "stay";
  acl = none;
  server_side_encryption = none;
  cloud_front_domain = some "https://cdn.example.com/";
}

address :
    get_cloud_front_url {C = ℕ} "a.png"
      (record { s3 = 1; aws_s3_config = record { user_profile = profile } })
    ≡ some "https://cdn.example.com/a.png"
unfolding get_cloud_front_url cloud_front_url without_slash
address = refl
