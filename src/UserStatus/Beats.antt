-- ===== src/UserStatus/Beats.antt =====
-- What it is for a client to be tracked for a user who is online for some time still, and which writes
-- to the server keep it so.
pub mod Events
pub mod Own
pub mod Rounds
use nestjs_stay_api.Common.{
  ℕ, ◌+◌, ◌-◌, ◌≤◌, ◌≡◌, ◌≢◌, refl, ap, sym, ◌∙◌, inl, inr, Bool, true, false, Option, none, some,
  List, [], ◌∷◌, ◌++◌, String, ltb, ◌==◌, eq_iff, eq_refl, is_some, Bool-cases, arith,
  if◌then◌else◌,
}
use nestjs_stay_api.Redis.{Redis}
use nestjs_stay_api.Websocket.{TrackedClient, get_client, set_client}
use nestjs_stay_api.Websocket.Clients.{Distinct, get_client-set_client}
use nestjs_stay_api.UserStatus.{
  user_status_hash_key, ttl_key, Awaiting, after_subscribe, after_pong, Task, checking, h_setting,
  setting, getting_online, unsubscribing, expiring, World, spawn, emit, send_client_message,
  broadcast, unsubscribed, dispatch, checked, status_set, ping_all, pong, handle_redis_expiration,
  resume, reject, unhandled_rejection, set_status,
}
use nestjs_stay_api.UserStatus.Keys.{ttl_key-ne-hash_key, hash_key-ne-ttl_key}
use nestjs_stay_api.UserStatus.Heartbeat.{get_client-ping_clients}
use nestjs_stay_api.UserStatus.Reach
use nestjs_stay_api.UserStatus.Table.{DistinctClients, Step-Distinct, Fault-Distinct}
use nestjs_stay_api.UserStatus.Others.{
  Spares, Spares-either, set_other, delete_other, subscribed-Spares, dispatch-Spares,
  handle_message-Spares, pong-Spares,
}
use nestjs_stay_api.UserStatus.Clock
use nestjs_stay_api.UserStatus.Clock.{Clock, IsForeign, Foreign, Phase, Beating, limit}

module _ (redis : Redis) (exists : String → Bool) (clock : Clock redis) (client : ℕ)
    (uid : String) where
  open redis use {State, h_get, h_get-h_set, h_get-h_del, h_get-set}
  open clock use {
    remaining, elapse, is_timed_lem, remaining-set, remaining-h_set, remaining-h_del,
    remaining-h_del_self, remaining-elapse, h_get-elapse,
  }

  -- The client is tracked for the user, who is in the hash with that much time left; the hash itself has
  -- no time to live.
  pub record Kept (alive : Bool) (left : ℕ) (w : World State) : Type 0 where
    pub entry :
        get_client client w.clients
        ≡ some (record { socket = client; user_uid = some uid; is_alive = alive })
    pub online : is_some (h_get user_status_hash_key uid w.redis) ≡ true
    pub hash_untimed : remaining user_status_hash_key w.redis ≡ 0
    pub time_left : left ≤ remaining (ttl_key uid) w.redis

  pub same-Kept :
      (alive : Bool) (left : ℕ) (w w' : World State)
      → Spares client w w'
      → Kept alive left w
      → Kept alive left w'
  same-Kept alive left w w' (same, e) k = record {
    entry = e ∙ k.entry;
    online = ap (λ s. is_some (h_get user_status_hash_key uid s)) same ∙ k.online;
    hash_untimed = ap (remaining user_status_hash_key) same ∙ k.hash_untimed;
    time_left = omega (arith, k.time_left, ap (remaining (ttl_key uid)) same);
  }

  pub h_set-Kept :
      (alive : Bool) (left : ℕ) (u : String) (w : World State)
      → Kept alive left w
      → Kept alive left (record w { redis = redis.h_set user_status_hash_key u "online" w.redis })
  h_set-Kept alive left u w k = record {
    entry = k.entry;
    online = ground (arith, k.online, h_get-h_set user_status_hash_key u "online" uid w.redis);
    hash_untimed = remaining-h_set user_status_hash_key u "online" _ w.redis ∙ k.hash_untimed;
    time_left =
        omega (
          arith,
          k.time_left,
          remaining-h_set user_status_hash_key u "online" (ttl_key uid) w.redis,
        );
  }

  pub set-Kept :
      (alive : Bool) (left : ℕ) (u : String) (w : World State)
      → left ≤ 15000
      → Kept alive left w
      → Kept alive left (record w { redis = redis.set (ttl_key u) "online" 15 w.redis })
  set-Kept alive left u w h k = record {
    entry = k.entry;
    online =
        ap is_some (
          h_get-set (ttl_key u) "online" user_status_hash_key uid 15 w.redis
            (ttl_key-ne-hash_key u))
        ∙ k.online;
    hash_untimed = ground (
      arith,
      remaining-set (ttl_key u) "online" user_status_hash_key 15 w.redis,
      ttl_key-ne-hash_key u,
      k.hash_untimed,
    );
    time_left =
        ground (arith, h, remaining-set (ttl_key u) "online" (ttl_key uid) 15 w.redis, k.time_left);
  }

  pub h_del-Kept :
      (alive : Bool) (left : ℕ) (u : String) (w : World State)
      → u ≢ uid
      → Kept alive left w
      → Kept alive left (record w { redis = (redis.h_del user_status_hash_key u w.redis).0 })
  h_del-Kept alive left u w apart k = record {
    entry = k.entry;
    online = ground (arith, h_get-h_del user_status_hash_key u uid w.redis, eq_iff u uid, k.online);
    hash_untimed =
        omega (arith, remaining-h_del_self user_status_hash_key u w.redis, k.hash_untimed);
    time_left = omega (
      arith,
      remaining-h_del user_status_hash_key u (ttl_key uid) w.redis (hash_key-ne-ttl_key uid),
      k.time_left,
    );
  }

  -- The user's own key, written anew
  pub own_set-Kept :
      (alive : Bool) (left : ℕ) (w : World State)
      → Kept alive left w
      → Kept alive 15000 (record w { redis = redis.set (ttl_key uid) "online" 15 w.redis })
  own_set-Kept alive left w k =
      let set_now = remaining-set (ttl_key uid) "online" (ttl_key uid) 15 w.redis in
      let least = set-Kept alive 0 uid w (omega arith) (record {
        entry = k.entry;
        online = k.online;
        hash_untimed = k.hash_untimed;
        time_left = omega arith;
      }) in
      record {
        entry = least.entry;
        online = least.online;
        hash_untimed = least.hash_untimed;
        time_left = ground (arith, set_now, eq_refl (ttl_key uid));
      }
