-- ===== src/UserStatus/Known/Steps.antt =====
-- `Known` is kept by each step of the event loop.
use nestjs_stay_api.Common.{
  ◌≡◌, inl, inr, Bool, true, none, some, List, [], ◌∷◌, arith, String, ◌==◌, eq_iff, eq_refl,
  Bool-cases, Option-cases,
}
use nestjs_stay_api.Redis.{Redis, lookup}
use nestjs_stay_api.Websocket.{offline}
use nestjs_stay_api.UserStatus.{
  user_status_hash_key, ttl_key, Task, checking, h_setting, setting, getting_online, unsubscribing,
  expiring, World, online_users, resume,
}
use nestjs_stay_api.UserStatus.Keys.{ttl_key-ne-hash_key}
use nestjs_stay_api.UserStatus.Reach.{
  Step, Fault, FaultyReach, receives, pings, pongs, disconnects, changes, expires, resumes, rejects,
  FaultyReach_induction,
}
use nestjs_stay_api.UserStatus.Known.{
  taken-Known, TaskIsKnown, InfoIsKnown, Known, spawn-Known, redis-Known, broadcast-Known,
  send_client_message-Known,
}
use nestjs_stay_api.UserStatus.Known.Handlers.{
  handle_message-Known, ping_all-Known, drop_client-Known, unsubscribed-Known, checked-Known,
  status_set-Known, pong-Known, handle_redis_expiration-Known, reject-Known,
}

module _ (redis : Redis) (exists : String → Bool) where
  open redis use {
    State, h_get, h_set, h_del, h_get_all, h_get-h_set, h_get-h_del, h_del_count, lookup-h_get_all,
    h_get-set, h_get-expire, is_timed, expire,
  }

  online_users-known :
      (values : List (String × String))
      → ((uid v : String) → lookup uid values ≡ some v → exists uid ≡ true)
      → InfoIsKnown exists (online_users values)
  unfolding online_users lookup
  online_users-known [] h = tt
  online_users-known ((f, v) ∷ values) h =
      let known = online_users-known values (λ uid u e. elim (Bool-cases (f == uid)) [
        | inl same ↦ h uid v (rw same)
        | inr other ↦ h uid u (rw other e)
      ]) in
      elim (Bool-cases (f == "__proto__")) [
        | inl proto ↦ rw (online_users, proto) known
        | inr plain ↦ rw (online_users, plain) (h f v (rw eq_refl), known)
      ]

  h_set-known :
      (uid v : String) (s : State)
      → exists uid ≡ true
      → ((u x : String) → h_get user_status_hash_key u s ≡ some x → exists u ≡ true)
      → (u x : String) → h_get user_status_hash_key u (h_set user_status_hash_key uid v s) ≡ some x
      → exists u ≡ true
  h_set-known uid v s p h u x e =
      ground (arith, h u x, h_get-h_set user_status_hash_key uid v u s, eq_iff uid u)

  h_del-known :
      (uid : String) (s : State)
      → ((u x : String) → h_get user_status_hash_key u s ≡ some x → exists u ≡ true)
      → (u x : String) → h_get user_status_hash_key u (h_del user_status_hash_key uid s).0 ≡ some x
      → exists u ≡ true
  h_del-known uid s h u x e = ground (arith, h u x, h_get-h_del user_status_hash_key uid u s)

  resume-Known :
      (t : Task) (w : World State)
      → TaskIsKnown exists t
      → Known redis exists w
      → Known redis exists (resume redis exists t w)
  unfolding resume
  resume-Known (checking client type uid reset) w p k =
      checked-Known redis exists client type uid reset w k
  resume-Known (h_setting uid a) w p k =
      spawn-Known redis exists _ _ p
        (redis-Known redis exists _ w (h_set-known uid "online" w.redis p k.hash) k)
  resume-Known (setting uid a) w p k = status_set-Known redis exists a uid _ p (
      redis-Known redis exists _ w
        (λ u x e. k.hash u x (
          rw
            (h_get-set (ttl_key uid) "online" user_status_hash_key u 15 w.redis
              (ttl_key-ne-hash_key uid))
            at e))
        k)
  resume-Known (getting_online client) w p k =
      send_client_message-Known redis exists client _ w
        (online_users-known (h_get_all user_status_hash_key w.redis)
          (λ u x e. k.hash u x (rw (lookup-h_get_all user_status_hash_key u w.redis) at e)))
        k
  resume-Known (unsubscribing client uid) w p k = unsubscribed-Known redis exists client _ (
      broadcast-Known redis exists (some client) uid offline _ p
        (redis-Known redis exists _ w (h_del-known uid w.redis k.hash) k))
  resume-Known (expiring uid) w p k =
      let k' = redis-Known redis exists _ w (h_del-known uid w.redis k.hash) k in
      elim (Option-cases (h_get user_status_hash_key uid w.redis)) [
        | inl e ↦ rw (h_del_count user_status_hash_key uid w.redis, e, resume) k'
        | inr (v, e) ↦
            rw (h_del_count user_status_hash_key uid w.redis, e, resume)
              (broadcast-Known redis exists none uid offline _ (k.hash uid v e) k')
      ]

  pub Step-Known :
      (w w' : World State) → Step redis exists w w' → Known redis exists w → Known redis exists w'
  Step-Known _ _ (receives w client message) k =
      handle_message-Known redis exists client message w k
  Step-Known _ _ (pings w) k = ping_all-Known redis exists w k
  Step-Known _ _ (pongs w client) k = pong-Known redis exists client w k
  Step-Known _ _ (disconnects w client) k = drop_client-Known redis exists client w k
  Step-Known _ _ (changes w is_open) k = record {
    hash = k.hash;
    clients = k.clients;
    tasks = k.tasks;
    frames = k.frames;
  }
  Step-Known _ _ (expires w key e) k = handle_redis_expiration-Known redis exists key _ (
      redis-Known redis exists _ w
        (λ u x h. ground (arith, k.hash u x, h_get-expire key user_status_hash_key u w.redis)) k)
  Step-Known _ _ (resumes w before after t e) k =
      let (p, k') = taken-Known redis exists before after t w e k in resume-Known t _ p k'

  pub Fault-Known :
      (w w' : World State) → Fault redis exists w w' → Known redis exists w → Known redis exists w'
  Fault-Known _ _ (rejects w before after t e) k =
      reject-Known redis exists t _ (taken-Known redis exists before after t w e k).1

  -- Whatever the interleaving and whatever fails: every user in the hash, in the table of clients,
  -- in a pending write and in a message to a socket is one that the users table holds.
  pub FaultyReach-Known :
      (start w : World State)
      → FaultyReach redis exists start w
      → Known redis exists start
      → Known redis exists w
  FaultyReach-Known start w r k =
      FaultyReach_induction redis exists (Known redis exists) Step-Known Fault-Known k r
