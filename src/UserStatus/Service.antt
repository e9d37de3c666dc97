-- ===== src/UserStatus/Service.antt =====
-- How the presence channel is set up, and its query of the users table: `onModuleInit` of
-- src/modules/user-status/user-status.message.ts, `redisSubscriberInit` and `checkUserInfo` of
-- src/modules/user-status/user-status.service.ts, and src/modules/user-status/user-status.repository.ts.
use nestjs_stay_api.Common.{ℕ, Bool, Option, none, some, String}
use nestjs_stay_api.Postgres.Pool.{pool}
use nestjs_stay_api.Postgres.Repository.{DbRepository}
use nestjs_stay_api.UserStatus.{World, ping_all, handle_redis_expiration}
use nestjs_stay_api.UserStatus.Clock.{ping_interval}

-- A query whether a table has a row with a value in a column
pub record ExistsQuery : Type 0 where
  pub table : String
  pub column : String
  pub value : String

-- `checkUserInfo` of the repository, with `exists` of the pool as an argument; an error of it, and the
-- TypeError where there is no pool, are thrown again (`none`).
unfoldable pub repository_check_user_info :
    {P : Type 0} → (P → ExistsQuery → Option Bool) → String → DbRepository P → Option Bool
unfolding pool
repository_check_user_info exists user_id r = elim (pool r.ro_pg_slonik) [
  | none ↦ none
  | some p ↦ exists p (record { table = "public.users"; column = "id"; value = user_id })
]

-- `checkUserInfo` of the service
unfoldable pub check_user_info :
    {P : Type 0} → (P → ExistsQuery → Option Bool) → String → DbRepository P → Option Bool
unfolding repository_check_user_info
check_user_info exists user_id r = repository_check_user_info exists user_id r

-- A channel of Redis, and what is called with each message on it
pub record Subscription (W : Type 0) : Type 0 where
  pub channel : String
  pub on_message : String → W → W

unfoldable pub redis_subscriber_init : {W : Type 0} → (String → W → W) → Subscription W
redis_subscriber_init callback = record {
  channel = "__keyevent@0__:expired";
  on_message = λ key. callback key;
}

-- What `onModuleInit` leaves: a timer with its interval in milliseconds, and the subscription.
pub record Started (W : Type 0) : Type 0 where
  pub interval : ℕ
  pub on_interval : W → W
  pub subscription : Subscription W

unfoldable pub on_module_init : {S : Type 0} → Started (World S)
unfolding redis_subscriber_init
on_module_init = record {
  interval = ping_interval;
  on_interval = ping_all;
  subscription = redis_subscriber_init handle_redis_expiration;
}
