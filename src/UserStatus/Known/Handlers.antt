-- ===== src/UserStatus/Known/Handlers.antt =====
-- `Known` is kept by each handler.
use nestjs_stay_api.Common.{
  ℕ, ◌≡◌, inl, inr, Bool, true, false, Option, none, some, List, [], ◌∷◌, arith, String,
  starts_with, split, get_elem?, All, Bool-cases, Option-cases,
}
use nestjs_stay_api.Redis.{Redis}
use nestjs_stay_api.Websocket.{
  online, BroadcastUserStatusInfo, statuses, TrackedClient, SubscribeMessage, get_client,
}
use nestjs_stay_api.Websocket.Clients.{set_client-All, delete_client-All, get_client-All}
use nestjs_stay_api.UserStatus.{
  user_status_hash_ttl_key, set_status, Awaiting, after_subscribe, after_pong, Task, checking,
  h_setting, setting, getting_online, unsubscribing, expiring, World, spawn, subscribed, dispatch,
  unsubscribed, subscribe_message, unsubscribe_message, handle_message, checked, status_set,
  ping_clients, ping_frames, ping_all, pong, handle_redis_expiration, drop_client, reject,
  unhandled_rejection,
}
use nestjs_stay_api.UserStatus.Known.{
  UserIsKnown, ClientIsKnown, InfoIsKnown, FrameIsKnown, Known, spawn-Known, emit-Known,
  clients-Known, broadcast-Known, send_client_message-Known,
}

module _ (redis : Redis) (exists : String → Bool) where
  open redis use {
    State, h_get, h_set, h_del, h_get_all, h_get-h_set, h_get-h_del, h_del_count, lookup-h_get_all,
    h_get-set, h_get-expire, is_timed, expire,
  }

  subscribed-Known :
      (client : ℕ) (uid : Option String) (info : BroadcastUserStatusInfo) (reset : Bool)
      (w : World State)
      → UserIsKnown exists uid
      → InfoIsKnown exists info
      → Known redis exists w
      → Known redis exists (subscribed client uid info reset w)
  unfolding subscribed
  subscribed-Known client uid info reset w p q k =
      let listed =
        clients-Known redis exists _ w
          (set_client-All (ClientIsKnown exists) _ w.clients p k.clients) k in
      elim reset as (λ b. Known redis exists (subscribed client uid info b w)) [
        | true ↦ spawn-Known redis exists (getting_online client) _ tt listed
        | false ↦ send_client_message-Known redis exists client (statuses info) _ q listed
      ]

  subscribe_message-Known :
      (client : ℕ) (uid : Option String) (reset : Bool) (w : World State)
      → UserIsKnown exists uid
      → Known redis exists w
      → Known redis exists (subscribe_message client uid reset w)
  unfolding subscribe_message
  subscribe_message-Known client none reset w p k = subscribed-Known client none [] reset w tt tt k
  subscribe_message-Known client (some uid) reset w p k = spawn-Known redis exists _ w p k

  pub unsubscribed-Known :
      (client : ℕ) (w : World State)
      → Known redis exists w
      → Known redis exists (unsubscribed client w)
  unfolding unsubscribed
  unsubscribed-Known client w k = send_client_message-Known redis exists client _ _ tt (
      clients-Known redis exists _ w
        (delete_client-All (ClientIsKnown exists) client w.clients k.clients) k)

  unsubscribe_message-Known :
      (client : ℕ) (uid : Option String) (w : World State)
      → UserIsKnown exists uid
      → Known redis exists w
      → Known redis exists (unsubscribe_message client uid w)
  unfolding unsubscribe_message
  unsubscribe_message-Known client uid w p k = elim (Option-cases (get_client client w.clients)) [
    | inl e ↦ rw (e, unsubscribe_message) (send_client_message-Known redis exists client _ w tt k)
    | inr (c, e) ↦
        rw (e, unsubscribe_message)
          (elim uid
              as (λ u.
                UserIsKnown exists u
                → Known redis exists (elim u [
                  | none ↦ unsubscribed client w
                  | some u ↦ spawn (unsubscribing client u) w
                ])) [
                  | none ↦ λ _. unsubscribed-Known client w k
                  | some u ↦ λ q. spawn-Known redis exists (unsubscribing client u) w q k
                ]
            p)
  ]

  dispatch-Known :
      (client : ℕ) (type uid : Option String) (reset : Bool) (w : World State)
      → UserIsKnown exists uid
      → Known redis exists w
      → Known redis exists (dispatch client type uid reset w)
  unfolding dispatch
  dispatch-Known client none uid reset w p k = k
  dispatch-Known client (some type) uid reset w p k = ground (
    arith,
    subscribe_message-Known client uid reset w p k,
    unsubscribe_message-Known client uid w p k,
  )

  pub checked-Known :
      (client : ℕ) (type : Option String) (uid : String) (reset : Bool) (w : World State)
      → Known redis exists w
      → Known redis exists (checked client type uid reset (some (exists uid)) w)
  unfolding checked
  checked-Known client type uid reset w k = elim (Bool-cases (exists uid)) [
    | inl e ↦ rw (e, checked) (dispatch-Known client type (some uid) reset w e k)
    | inr e ↦ rw (e, checked) (emit-Known redis exists _ w ((omega arith), tt) k)
  ]

  pub status_set-Known :
      (k : Awaiting) (uid : String) (w : World State)
      → exists uid ≡ true
      → Known redis exists w
      → Known redis exists (status_set k uid w)
  unfolding status_set
  status_set-Known (after_subscribe client reset) uid w p h =
      subscribed-Known client (some uid) _ reset _ p (p, tt)
        (broadcast-Known redis exists (some client) uid online w p h)
  status_set-Known after_pong uid w p h = h

  ping_clients-known :
      (cs : List TrackedClient)
      → All (ClientIsKnown exists) cs
      → All (ClientIsKnown exists) (ping_clients cs)
  unfolding ping_clients
  ping_clients-known [] h = tt
  ping_clients-known (c ∷ cs) h = ground (arith, ping_clients-known cs h.1)

  ping_frames-known : (cs : List TrackedClient) → All (FrameIsKnown exists) (ping_frames cs)
  unfolding ping_frames
  ping_frames-known [] = tt
  ping_frames-known (c ∷ cs) = ground (arith, ping_frames-known cs)

  unhandled-Known :
      (w : World State) → Known redis exists w → Known redis exists (unhandled_rejection w)
  unfolding unhandled_rejection
  unhandled-Known w k = record {
    hash = k.hash;
    clients = k.clients;
    tasks = k.tasks;
    frames = k.frames;
  }

  marked-Known :
      (uid : Option String) (w : World State)
      → UserIsKnown exists uid
      → Known redis exists w
      → Known redis exists (elim uid [ none ↦ w | some u ↦ set_status u after_pong w ])
  unfolding set_status
  marked-Known none w p k = k
  marked-Known (some u) w p k = spawn-Known redis exists _ w p k

  pub pong-Known :
      (client : ℕ) (w : World State) → Known redis exists w → Known redis exists (pong client w)
  unfolding pong
  pong-Known client w k = elim (Option-cases (get_client client w.clients)) [
    | inl e ↦ rw (e, pong) k
    | inr (c, e) ↦
        let p = get_client-All (ClientIsKnown exists) client w.clients k.clients e in
        rw (e, pong)
          (marked-Known c.user_uid _ p (
            clients-Known redis exists _ w
              (set_client-All (ClientIsKnown exists) _ w.clients p k.clients) k))
  ]

  pub handle_redis_expiration-Known :
      (key : String) (w : World State)
      → Known redis exists w
      → Known redis exists (handle_redis_expiration key w)
  unfolding handle_redis_expiration unhandled_rejection
  handle_redis_expiration-Known key w k =
      elim (Bool-cases (starts_with key user_status_hash_ttl_key)) [
        | inr e ↦ rw (e, handle_redis_expiration) k
        | inl e ↦
            rw (e, handle_redis_expiration)
              (elim (Option-cases (get_elem? (split b':' key) 4)) [
                | inl e' ↦ rw (e', handle_redis_expiration) (unhandled-Known w k)
                | inr (u, e') ↦
                    rw (e', handle_redis_expiration) (spawn-Known redis exists (expiring u) w tt k)
              ])
      ]

  pub reject-Known :
      (t : Task) (w : World State) → Known redis exists w → Known redis exists (reject t w)
  unfolding reject
  reject-Known (checking client type uid reset) w k =
      emit-Known redis exists _ w ((omega arith), tt) k
  reject-Known (h_setting uid (after_subscribe client reset)) w k = unhandled-Known w k
  reject-Known (h_setting uid after_pong) w k = k
  reject-Known (setting uid (after_subscribe client reset)) w k = unhandled-Known w k
  reject-Known (setting uid after_pong) w k = k
  reject-Known (getting_online client) w k = unhandled-Known w k
  reject-Known (unsubscribing client uid) w k = unhandled-Known w k
  reject-Known (expiring uid) w k = unhandled-Known w k

  pub handle_message-Known :
      (client : ℕ) (message : SubscribeMessage) (w : World State)
      → Known redis exists w
      → Known redis exists (handle_message client message w)
  unfolding handle_message
  handle_message-Known client message w k = elim (Option-cases message.user_uid) [
    | inl e ↦ rw (e, handle_message) (dispatch-Known client message.connect_type none true w tt k)
    | inr (u, e) ↦ rw (e, handle_message) (spawn-Known redis exists _ w tt k)
  ]

  pub ping_all-Known : (w : World State) → Known redis exists w → Known redis exists (ping_all w)
  unfolding ping_all
  ping_all-Known w k =
      emit-Known redis exists _ _ (ping_frames-known w.clients)
        (clients-Known redis exists _ w (ping_clients-known w.clients k.clients) k)

  pub drop_client-Known :
      (client : ℕ) (w : World State)
      → Known redis exists w
      → Known redis exists (drop_client client w)
  unfolding drop_client
  drop_client-Known client w k =
      clients-Known redis exists _ w
        (delete_client-All (ClientIsKnown exists) client w.clients k.clients) k
