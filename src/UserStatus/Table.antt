-- ===== src/UserStatus/Table.antt =====
-- The table of clients stays a map: one entry for each socket, in every reachable state.
use nestjs_stay_api.Common.{
  ℕ, inl, inr, Bool, true, false, Option, none, some, [], arith, String, Option-cases,
}
use nestjs_stay_api.Redis.{Redis}
use nestjs_stay_api.Websocket.{BroadcastUserStatusInfo, SubscribeMessage, get_client}
use nestjs_stay_api.Websocket.Clients.{Distinct, set_client-Distinct, delete_client-Distinct}
use nestjs_stay_api.UserStatus.{
  Awaiting, after_subscribe, after_pong, Task, checking, h_setting, setting, unsubscribing,
  expiring, World, subscribed, dispatch, handle_message, checked, status_set, ping_all, pong,
  handle_redis_expiration, drop_client, reject, resume,
}
use nestjs_stay_api.UserStatus.Heartbeat.{ping_clients-Distinct}
use nestjs_stay_api.UserStatus.Reach.{
  Step, Fault, FaultyReach, receives, pings, pongs, disconnects, changes, expires, resumes, rejects,
  FaultyReach_induction,
}

module _ {S : Type 0} where
  abbrev pub DistinctClients : World S → Type 0
  DistinctClients w = Distinct w.clients

  subscribed-Distinct :
      (client : ℕ) (uid : Option String) (info : BroadcastUserStatusInfo) (reset : Bool)
      (w : World S)
      → DistinctClients w
      → DistinctClients (subscribed client uid info reset w)
  unfolding subscribed
  subscribed-Distinct client uid info true w d = set_client-Distinct _ w.clients d
  subscribed-Distinct client uid info false w d = set_client-Distinct _ w.clients d

  dispatch-Distinct :
      (client : ℕ) (type uid : Option String) (reset : Bool) (w : World S)
      → DistinctClients w
      → DistinctClients (dispatch client type uid reset w)
  unfolding dispatch
  dispatch-Distinct client none uid reset w d = d
  dispatch-Distinct client (some type) none reset w d = ground (
    arith,
    subscribed-Distinct client none [] reset w d,
    delete_client-Distinct client w.clients d,
  )
  dispatch-Distinct client (some type) (some uid) reset w d =
      ground (arith, delete_client-Distinct client w.clients d)

  checked-Distinct :
      (client : ℕ) (type : Option String) (uid : String) (reset : Bool) (found : Option Bool)
      (w : World S)
      → DistinctClients w
      → DistinctClients (checked client type uid reset found w)
  unfolding checked
  checked-Distinct client type uid reset none w d = d
  checked-Distinct client type uid reset (some false) w d = d
  checked-Distinct client type uid reset (some true) w d =
      dispatch-Distinct client type (some uid) reset w d

  handle_message-Distinct :
      (client : ℕ) (message : SubscribeMessage) (w : World S)
      → DistinctClients w
      → DistinctClients (handle_message client message w)
  unfolding handle_message
  handle_message-Distinct client message w d =
      ground (arith, dispatch-Distinct client message.connect_type none true w d)

  pong-Distinct : (client : ℕ) (w : World S) → DistinctClients w → DistinctClients (pong client w)
  unfolding pong
  pong-Distinct client w d = elim (Option-cases (get_client client w.clients)) [
    | inl e ↦ rw (e, pong) d
    | inr (c, e) ↦ ground (arith, set_client-Distinct (record c { is_alive = true }) w.clients d)
  ]

  pub handle_redis_expiration-Distinct :
      (key : String) (w : World S)
      → DistinctClients w
      → DistinctClients (handle_redis_expiration key w)
  unfolding handle_redis_expiration
  handle_redis_expiration-Distinct key w d = ground arith

  status_set-Distinct :
      (k : Awaiting) (uid : String) (w : World S)
      → DistinctClients w
      → DistinctClients (status_set k uid w)
  unfolding status_set
  status_set-Distinct (after_subscribe client reset) uid w d =
      subscribed-Distinct client (some uid) _ reset _ d
  status_set-Distinct after_pong uid w d = d

  reject-Distinct : (t : Task) (w : World S) → DistinctClients w → DistinctClients (reject t w)
  unfolding reject
  reject-Distinct (h_setting uid (after_subscribe client reset)) w d = d
  reject-Distinct (h_setting uid after_pong) w d = d
  reject-Distinct (setting uid (after_subscribe client reset)) w d = d
  reject-Distinct (setting uid after_pong) w d = d
  reject-Distinct _ w d = d

module _ (redis : Redis) (exists : String → Bool) where
  open redis use {State, h_del}

  resume-Distinct :
      (t : Task) (w : World State) → DistinctClients w → DistinctClients (resume redis exists t w)
  unfolding resume
  resume-Distinct (checking client type uid reset) w d =
      checked-Distinct client type uid reset (some (exists uid)) w d
  resume-Distinct (setting uid a) w d = status_set-Distinct a uid _ d
  resume-Distinct (unsubscribing client uid) w d = delete_client-Distinct client w.clients d
  resume-Distinct (expiring uid) w d = ground arith
  resume-Distinct _ w d = d

  pub Step-Distinct :
      (w w' : World State) → Step redis exists w w' → DistinctClients w → DistinctClients w'
  unfolding ping_all drop_client
  Step-Distinct _ _ (receives w client message) d = handle_message-Distinct client message w d
  Step-Distinct _ _ (pings w) d = ping_clients-Distinct w.clients d
  Step-Distinct _ _ (pongs w client) d = pong-Distinct client w d
  Step-Distinct _ _ (disconnects w client) d = delete_client-Distinct client w.clients d
  Step-Distinct _ _ (changes w is_open) d = d
  Step-Distinct _ _ (expires w key e) d = handle_redis_expiration-Distinct key _ d
  Step-Distinct _ _ (resumes w before after t e) d = resume-Distinct t _ d

  pub Fault-Distinct :
      (w w' : World State) → Fault redis exists w w' → DistinctClients w → DistinctClients w'
  Fault-Distinct _ _ (rejects w before after t e) d = reject-Distinct t _ d

  -- Whatever the interleaving and whatever fails, each socket has at most one entry.
  FaultyReach-Distinct :
      (start w : World State)
      → FaultyReach redis exists start w
      → DistinctClients start
      → DistinctClients w
  FaultyReach-Distinct start w r d =
      FaultyReach_induction redis exists DistinctClients Step-Distinct Fault-Distinct d r
