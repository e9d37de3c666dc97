-- ===== src/UserStatus/Beats/Own.antt =====
-- What each step of the client itself leaves of its entry, of the hash and of the user's key.
use nestjs_stay_api.Common.{
  ℕ, ◌-◌, ◌≤◌, refl, ap, ◌∙◌, Bool, true, false, some, List, ◌++◌, String, is_some, arith,
}
use nestjs_stay_api.Redis.{Redis}
use nestjs_stay_api.Websocket.{TrackedClient}
use nestjs_stay_api.Websocket.Clients.{get_client-set_client}
use nestjs_stay_api.UserStatus.{
  user_status_hash_key, ttl_key, after_pong, Task, h_setting, setting, World, spawn, status_set,
  ping_all, pong, resume, set_status,
}
use nestjs_stay_api.UserStatus.Heartbeat.{get_client-ping_clients}
use nestjs_stay_api.UserStatus.Table.{DistinctClients}
use nestjs_stay_api.UserStatus.Clock.{Clock}
use nestjs_stay_api.UserStatus.Beats.{own_set-Kept}
use nestjs_stay_api.UserStatus.Returns.{pong_tracked}
use nestjs_stay_api.UserStatus.Beats.Events

module _ (redis : Redis) (exists : String → Bool) (clock : Clock redis) (client : ℕ)
    (uid : String) where
  open redis use {State, h_get, is_timed}
  open clock use {
    remaining, elapse, is_timed_lem, remaining-set, remaining-h_set, remaining-elapse, h_get-elapse,
  }

  abbrev Holds : Bool → ℕ → World State → Type 0
  Holds = Events.Holds redis exists clock client uid

  pub less-Holds :
      (alive : Bool) (left less : ℕ) (w : World State)
      → less ≤ left
      → Holds alive left w
      → Holds alive less w
  less-Holds alive left less w h k = record {
    entry = k.entry;
    online = k.online;
    hash_untimed = k.hash_untimed;
    time_left = omega (arith, h, k.time_left);
  }

  pub elapse-Holds :
      (alive : Bool) (left m : ℕ) (w : World State)
      → Holds alive left w
      → Holds alive (left - m) (record w { redis = elapse m w.redis })
  elapse-Holds alive left m w k = record {
    entry = k.entry;
    online = ap is_some (h_get-elapse m user_status_hash_key uid w.redis k.hash_untimed) ∙ k.online;
    hash_untimed = omega (arith, remaining-elapse m user_status_hash_key w.redis, k.hash_untimed);
    time_left = omega (arith, remaining-elapse m (ttl_key uid) w.redis, k.time_left);
  }

  pub ping_all-Holds :
      (left : ℕ) (w : World State)
      → DistinctClients w
      → Holds true left w
      → Holds false left (ping_all w)
  unfolding ping_all
  ping_all-Holds left w d k = record {
    entry = ground (arith, get_client-ping_clients client w.clients d, k.entry);
    online = k.online;
    hash_untimed = k.hash_untimed;
    time_left = k.time_left;
  }

  pub pong-Holds :
      (left : ℕ) (w : World State) → Holds false left w → Holds true left (pong client w)
  unfolding set_status spawn
  pong-Holds left w k =
      let meta : TrackedClient = record {
        socket = client;
        user_uid = some uid;
        is_alive = false;
      } in
      rw (pong_tracked client uid w meta k.entry refl) (record {
        entry =
            ground
              (arith, get_client-set_client client (record meta { is_alive = true }) w.clients);
        online = k.online;
        hash_untimed = k.hash_untimed;
        time_left = k.time_left;
      })

  pub writes_hash-Holds :
      (left : ℕ) (w : World State) (before after : List Task)
      → left ≤ 15000
      → DistinctClients w
      → Holds true left w
      → Holds true left
          (resume redis exists (h_setting uid after_pong) (record w { tasks = before ++ after }))
  writes_hash-Holds left w before after h d k =
      let taken : World State = record w { tasks = before ++ after } in
      Events.resume-Holds redis exists clock client uid (h_setting uid after_pong) true left taken
        tt d h (Events.same-Holds redis exists clock client uid true left w taken (refl, refl) k)

  pub writes_key-Holds :
      (left : ℕ) (w : World State) (before after : List Task)
      → Holds true left w
      → Holds true 15000
          (resume redis exists (setting uid after_pong) (record w { tasks = before ++ after }))
  unfolding resume status_set
  writes_key-Holds left w before after k =
      let taken : World State = record w { tasks = before ++ after } in
      own_set-Kept redis exists clock client uid true left taken
        (Events.same-Holds redis exists clock client uid true left w taken (refl, refl) k)
