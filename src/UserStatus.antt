-- ===== src/UserStatus.antt =====
-- src/modules/user-status/user-status.{message,service,repository,type}.ts. The handlers are
-- asynchronous: each runs to its next `await` and leaves a pending task there, and `resume` and
-- `reject` run a task on from its `await`.
pub mod State
pub mod Reach
pub mod Keys
pub mod Known
pub mod Coverage
pub mod Flows
pub mod Termination
pub mod Liveness
pub mod Returns
pub mod Instances
pub mod Races
pub mod View
pub mod Clock
pub mod Others
pub mod Service
pub mod Beats
pub mod Refinement
pub mod Table
pub mod Queries
pub mod Heartbeat
unfoldable pub use State.*
use Prim.Native.String
use nestjs_stay_api.Common.{
  ℕ, suc, ◌+◌, Bool, true, false, Option, none, some, List, [], ◌∷◌, ◌++◌, map, String, ltb, ◌==◌,
  starts_with, is_some, get_elem?, split, if◌then◌else◌,
}
use nestjs_stay_api.Redis.{Redis}
use nestjs_stay_api.Websocket.{
  UserStatus, online, offline, status_text, BroadcastUserStatusInfo, websocket_subscribe,
  websocket_unsubscribe, websocket_channel_user_status, SubscribeMessage, CloseMessage, Payload,
  statuses, connect_type, Frame, send, ping, close, TrackedClient, get_client, set_client,
  delete_client, broadcast_status, handle_close,
}

module _ {S : Type 0} where
  unfoldable pub spawn : Task → World S → World S
  spawn t w = record w { tasks = t ∷ w.tasks }

  unfoldable pub unhandled_rejection : World S → World S
  unhandled_rejection w = record w { unhandled = suc w.unhandled }

  unfoldable pub emit : List Frame → World S → World S
  emit fs w = record w { frames = w.frames ++ fs }

  -- `sendClientMessage(client, WEBSOCKET_CHANNEL_USER_STATUS, data)`
  unfoldable pub send_client_message : ℕ → Payload → World S → World S
  unfolding emit
  send_client_message client info = emit (send client websocket_channel_user_status info ∷ [])

  -- `broadcastStatus(client, WEBSOCKET_CHANNEL_USER_STATUS, {[uid]: status})`. The ids that reach it are
  -- UUIDs of the users table; for the text `__proto__`, which is none, the object would have no member.
  unfoldable pub broadcast : Option ℕ → String → UserStatus → World S → World S
  unfolding emit broadcast_status
  broadcast client uid status w =
      emit
        (broadcast_status w.is_open client websocket_channel_user_status
          (statuses ((uid, status) ∷ [])) w.clients)
        w

  -- `setStatus(uid, ONLINE)` up to its first `await`
  unfoldable pub set_status : String → Awaiting → World S → World S
  unfolding spawn
  set_status uid k = spawn (h_setting uid k)

  -- `subscribeMessage` from the line that lists the client on, with its `dataInfo`
  unfoldable pub subscribed : ℕ → Option String → BroadcastUserStatusInfo → Bool → World S → World S
  unfolding spawn send_client_message set_client
  subscribed client uid info reset w =
      let meta : TrackedClient = record { socket = client; user_uid = uid; is_alive = true } in
      let listed : World S = record w { clients = set_client meta w.clients } in
      if reset
      then spawn (getting_online client) listed
      else send_client_message client (statuses info) listed

  unfoldable pub subscribe_message : ℕ → Option String → Bool → World S → World S
  unfolding set_status subscribed
  subscribe_message client none reset w = subscribed client none [] reset w
  subscribe_message client (some uid) reset w = set_status uid (after_subscribe client reset) w

  -- The tail of `unsubscribeMessage` where the client was tracked.
  unfoldable pub unsubscribed : ℕ → World S → World S
  unfolding send_client_message delete_client
  unsubscribed client w =
      send_client_message client (connect_type websocket_unsubscribe)
        (record w { clients = delete_client client w.clients })

  unfoldable pub unsubscribe_message : ℕ → Option String → World S → World S
  unfolding spawn send_client_message unsubscribed get_client
  unsubscribe_message client uid w = elim (get_client client w.clients) [
    | none ↦ send_client_message client (connect_type websocket_unsubscribe) w
    | some tracked ↦ elim uid [
      | none ↦ unsubscribed client w
      | some u ↦ spawn (unsubscribing client u) w
    ]
  ]

  -- The choice by `connect_type`, with the test of each branch.
  unfoldable pub dispatch : ℕ → Option String → Option String → Bool → World S → World S
  unfolding subscribe_message unsubscribe_message
  dispatch client none uid reset w = w
  dispatch client (some type) uid reset w =
      if type == websocket_subscribe
      then subscribe_message client uid reset w
      else (if type == websocket_unsubscribe then unsubscribe_message client uid w else w)

  -- `handleMessage` up to its `await`
  unfoldable pub handle_message : ℕ → SubscribeMessage → World S → World S
  unfolding dispatch spawn
  handle_message client message w = elim message.user_uid [
    | none ↦ dispatch client message.connect_type none true w
    | some uid ↦ spawn (checking client message.connect_type uid message.reset) w
  ]

  -- `handleMessage` from its `await` on, with what `checkUserInfo` answered (`none` is null)
  unfoldable pub checked : ℕ → Option String → String → Bool → Option Bool → World S → World S
  unfolding dispatch emit handle_close
  checked client type uid reset none w = emit (handle_close client invalid_uid ∷ []) w
  checked client type uid reset (some false) w = emit (handle_close client unknown_uid ∷ []) w
  checked client type uid reset (some true) w = dispatch client type (some uid) reset w

  -- What follows `setStatus`
  unfoldable pub status_set : Awaiting → String → World S → World S
  unfolding broadcast subscribed
  status_set (after_subscribe client reset) uid w =
      subscribed client (some uid) ((uid, online) ∷ []) reset (broadcast (some client) uid online w)
  status_set after_pong uid w = w

  unfoldable pub ping_all : World S → World S
  unfolding ping_clients ping_frames emit
  ping_all w = emit (ping_frames w.clients) (record w { clients = ping_clients w.clients })

  -- `pong` of a socket
  unfoldable pub pong : ℕ → World S → World S
  unfolding set_status get_client set_client
  pong client w = elim (get_client client w.clients) [
    | none ↦ w
    | some meta ↦
        let w' : World S = record w {
          clients = set_client (record meta { is_alive = true }) w.clients;
        } in
        elim meta.user_uid [ none ↦ w' | some uid ↦ set_status uid after_pong w' ]
  ]

  -- `handleRedisExpiration` up to its `await`. An absent part would be `hDel` of `undefined`.
  unfoldable pub handle_redis_expiration : String → World S → World S
  unfolding spawn split unhandled_rejection
  handle_redis_expiration key w =
      if starts_with key user_status_hash_ttl_key
      then elim (get_elem? (split b':' key) 4) [
        | none ↦ unhandled_rejection w
        | some uid ↦ spawn (expiring uid) w
      ]
      else w

  -- `deleteClient`, at the end of a connection
  unfoldable pub drop_client : ℕ → World S → World S
  unfolding delete_client
  drop_client client w = record w { clients = delete_client client w.clients }

  -- A task whose operation failed. The gateway catches the failure of `handleMessage`; `pong`
  -- catches its own; nobody waits for the others.
  unfoldable pub reject : Task → World S → World S
  unfolding emit unhandled_rejection
  reject (checking client type uid reset) w =
      emit (close client 1011 "Internal Server Error" ∷ []) w
  reject (h_setting uid (after_subscribe client reset)) w = unhandled_rejection w
  reject (h_setting uid after_pong) w = w
  reject (setting uid (after_subscribe client reset)) w = unhandled_rejection w
  reject (setting uid after_pong) w = w
  reject (getting_online client) w = unhandled_rejection w
  reject (unsubscribing client uid) w = unhandled_rejection w
  reject (expiring uid) w = unhandled_rejection w

-- `results[field] = ONLINE` for each field of the hash, on a plain object: assigning a text to
-- `__proto__` does nothing.
unfoldable pub online_users : List (String × String) → BroadcastUserStatusInfo
online_users [] = []
online_users ((field, value) ∷ values) =
    let rest = online_users values in if field == "__proto__" then rest else (field, online) ∷ rest

-- The server and the answer of the users table to `exists`.
module _ (redis : Redis) (exists : String → Bool) where
  open redis use {State, h_set, h_del, h_get_all, set, is_timed}

  -- A task whose operation succeeded: its effect on the server, and the handler's next part.
  unfoldable pub resume : Task → World State → World State
  unfolding checked spawn status_set send_client_message online_users broadcast unsubscribed
  resume (checking client type uid reset) w = checked client type uid reset (some (exists uid)) w
  resume (h_setting uid k) w =
      spawn (setting uid k)
        (record w { redis = h_set user_status_hash_key uid (status_text online) w.redis })
  resume (setting uid k) w =
      status_set k uid
        (record w { redis = set (ttl_key uid) (status_text online) ttl_expiration_time w.redis })
  resume (getting_online client) w =
      send_client_message client (statuses (online_users (h_get_all user_status_hash_key w.redis)))
        w
  resume (unsubscribing client uid) w = unsubscribed client (
      broadcast (some client) uid offline
        (record w { redis = (h_del user_status_hash_key uid w.redis).0 }))
  resume (expiring uid) w =
      let removed = h_del user_status_hash_key uid w.redis in
      let w' : World State = record w { redis = removed.0 } in
      if ltb 0 removed.1 then broadcast none uid offline w' else w'
