-- ===== src/Cache.antt =====
-- src/utils/cache: the client of Redis, and the factory that connects it. `C` is the library's client;
-- the options that it is made with, and how `connect` ends, are arguments of the library. Console
-- output is left out, save for the count of errors that were logged.
use nestjs_stay_api.Common.{ℕ, suc, Bool, true, false, Option, none, some, String}

pub record RedisConfig : Type 0 where
  pub host : String
  pub port : ℕ
  pub retry_timeout : ℕ

-- The options of the socket; `reconnect_delay` is what `reconnectStrategy` answers each time.
pub record SocketOptions : Type 0 where
  pub host : String
  pub port : ℕ
  pub connect_timeout : ℕ
  pub reconnect_delay : ℕ

unfoldable pub socket_options : RedisConfig → SocketOptions
socket_options config = record {
  host = config.host;
  port = config.port;
  connect_timeout = 60000;
  reconnect_delay = config.retry_timeout;
}

pub record RedisUtil (C : Type 0) : Type 0 where
  pub common_client : C
  pub failures : ℕ

module _ {C : Type 0} where
  -- The constructor; a missing configuration is a TypeError (`none`).
  unfoldable pub redis_util : (SocketOptions → C) → Option RedisConfig → Option (RedisUtil C)
  unfolding socket_options
  redis_util create_client none = none
  redis_util create_client (some config) =
      some (record { common_client = create_client (socket_options config); failures = 0 })

  -- `redisConnect`, with the client that `connect` leaves, or its error; the second part is whether it
  -- returned and did not throw.
  unfoldable pub redis_connect : (C → Option C) → RedisUtil C → RedisUtil C × Bool
  redis_connect connect u = elim (connect u.common_client) [
    | some c ↦ (record u { common_client = c }, true)
    | none ↦ (record u { failures = suc u.failures }, false)
  ]

  -- `commonCacheRedis`
  unfoldable pub common_cache_redis : RedisUtil C → C
  common_cache_redis u = u.common_client

  -- The factory of `redisProvider`; an error of the connection is passed on (`none`).
  unfoldable pub redis_provider : (C → Option C) → RedisUtil C → Option (RedisUtil C)
  unfolding redis_connect
  redis_provider connect u =
      let (u', connected) = redis_connect connect u in
      elim connected [ true ↦ some u' | false ↦ none ]
