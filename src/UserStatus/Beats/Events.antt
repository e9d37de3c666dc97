-- ===== src/UserStatus/Beats/Events.antt =====
-- What others do, and what fails, leaves a tracked client and its user online.
use nestjs_stay_api.Common.{
  ℕ, ◌≤◌, ◌≢◌, refl, Bool, true, false, Option, some, List, ◌++◌, String, arith,
}
use nestjs_stay_api.Redis.{Redis}
use nestjs_stay_api.Websocket.Clients.{Distinct}
use nestjs_stay_api.UserStatus.{
  user_status_hash_key, Awaiting, after_subscribe, after_pong, Task, checking, h_setting, setting,
  getting_online, unsubscribing, expiring, World, spawn, emit, send_client_message, broadcast,
  unsubscribed, checked, status_set, handle_redis_expiration, drop_client, resume, reject,
  unhandled_rejection,
}
use nestjs_stay_api.UserStatus.Reach
use nestjs_stay_api.UserStatus.Table.{
  DistinctClients, Step-Distinct, Fault-Distinct, handle_redis_expiration-Distinct,
}
use nestjs_stay_api.UserStatus.Others.{
  Spares, Spares-either, delete_other, subscribed-Spares, dispatch-Spares, handle_message-Spares,
  pong-Spares,
}
use nestjs_stay_api.UserStatus.Clock
use nestjs_stay_api.UserStatus.Clock.{Clock, IsForeign, Foreign, Phase, Beating, limit}
use nestjs_stay_api.UserStatus.Beats.{Kept, same-Kept, h_set-Kept, set-Kept, h_del-Kept}

module _ (redis : Redis) (exists : String → Bool) (clock : Clock redis) (client : ℕ)
    (uid : String) where
  open redis use {State, h_get, is_timed}
  open clock use {
    remaining, elapse, is_timed_lem, remaining-set, remaining-h_set, remaining-elapse, h_get-elapse,
  }

  -- A state of the section's client
  abbrev pub Holds : Bool → ℕ → World State → Type 0
  Holds = Kept redis exists clock client uid

  pub same-Holds :
      (alive : Bool) (left : ℕ) (w w' : World State)
      → Spares client w w'
      → Holds alive left w
      → Holds alive left w'
  same-Holds = same-Kept redis exists clock client uid

  status_set-Spares :
      (k : Awaiting) (u : String) (w : World State)
      → Clock.WaitsElsewhere client k
      → Spares client w (status_set k u w)
  unfolding status_set broadcast emit
  status_set-Spares (after_subscribe other reset) u w apart =
      subscribed-Spares client other apart (some u) _ reset _
  status_set-Spares after_pong u w apart = (refl, refl)

  checked-Spares :
      (other : ℕ) (type : Option String) (u : String) (reset b : Bool) (w : World State)
      → other ≢ client
      → Distinct w.clients
      → Spares client w (checked other type u reset (some b) w)
  unfolding checked emit
  checked-Spares other type u reset true w apart d =
      dispatch-Spares client other apart type (some u) reset w d
  checked-Spares other type u reset false w apart d = (refl, refl)

  pub resume-Holds :
      (t : Task) (alive : Bool) (left : ℕ) (w : World State)
      → IsForeign client uid t
      → Distinct w.clients
      → left ≤ 15000
      → Holds alive left w
      → Holds alive left (resume redis exists t w)
  unfolding resume spawn send_client_message emit broadcast unsubscribed
  resume-Holds (checking other type u reset) alive left w apart d h k =
      same-Holds alive left _ _ (checked-Spares other type u reset (exists u) w apart d) k
  resume-Holds (h_setting u a) alive left w apart d h k =
      same-Holds alive left _ _ (refl, refl)
        (h_set-Kept redis exists clock client uid alive left u w k)
  resume-Holds (setting u a) alive left w apart d h k =
      same-Holds alive left _ _ (status_set-Spares a u _ apart)
        (set-Kept redis exists clock client uid alive left u w h k)
  resume-Holds (getting_online other) alive left w apart d h k =
      same-Holds alive left _ _ (refl, refl) k
  resume-Holds (unsubscribing other u) alive left w apart d h k =
      same-Holds alive left _ _ (refl, delete_other client other w.clients apart.0 d)
        (h_del-Kept redis exists clock client uid alive left u w apart.1 k)
  resume-Holds (expiring u) alive left w apart d h k =
      let gone : World State = record w {
        redis = (redis.h_del user_status_hash_key u w.redis).0;
      } in
      same-Holds alive left gone _ (Spares-either client gone _ _ _ (refl, refl) (refl, refl))
        (h_del-Kept redis exists clock client uid alive left u w apart k)

  reject-Spares : (t : Task) (w : World State) → Spares client w (reject t w)
  unfolding reject emit unhandled_rejection
  reject-Spares (checking other type u reset) w = (refl, refl)
  reject-Spares (h_setting u (after_subscribe other reset)) w = (refl, refl)
  reject-Spares (h_setting u after_pong) w = (refl, refl)
  reject-Spares (setting u (after_subscribe other reset)) w = (refl, refl)
  reject-Spares (setting u after_pong) w = (refl, refl)
  reject-Spares (getting_online other) w = (refl, refl)
  reject-Spares (unsubscribing other u) w = (refl, refl)
  reject-Spares (expiring u) w = (refl, refl)

  handle_redis_expiration-Spares :
      (key : String) (w : World State) → Spares client w (handle_redis_expiration key w)
  unfolding handle_redis_expiration spawn unhandled_rejection
  handle_redis_expiration-Spares key w = ground arith

  reject_taken :
      (alive : Bool) (left : ℕ) (w : World State) (before after : List Task) (t : Task)
      → Holds alive left w
      → Holds alive left (reject t (record w { tasks = before ++ after }))
  reject_taken alive left w before after t k =
      let taken : World State = record w { tasks = before ++ after } in
      same-Holds alive left taken _ (reject-Spares t taken)
        (same-Holds alive left w taken (refl, refl) k)

  pub Foreign-Holds :
      (alive : Bool) (left : ℕ) (w w' : World State)
      → Foreign redis exists clock client uid w w'
      → left ≤ 15000
      → DistinctClients w × Holds alive left w
      → DistinctClients w' × Holds alive left w'
  unfolding drop_client
  Foreign-Holds alive left _ _ (Clock.receives w other message apart) h (d, k) = (
    Step-Distinct redis exists _ _ (Reach.receives w other message) d,
    same-Holds alive left _ _ (handle_message-Spares client other apart message w d) k,
  )
  Foreign-Holds alive left _ _ (Clock.pongs w other apart) h (d, k) = (
    Step-Distinct redis exists _ _ (Reach.pongs w other) d,
    same-Holds alive left _ _ (pong-Spares client other apart w) k,
  )
  Foreign-Holds alive left _ _ (Clock.disconnects w other apart) h (d, k) = (
    Step-Distinct redis exists _ _ (Reach.disconnects w other) d,
    same-Holds alive left _ _ (refl, delete_other client other w.clients apart d) k,
  )
  Foreign-Holds alive left _ _ (Clock.changes w is_open) h (d, k) =
      (d, same-Holds alive left _ _ (refl, refl) k)
  Foreign-Holds alive left _ _ (Clock.notifies w key) h (d, k) = (
    handle_redis_expiration-Distinct key w d,
    same-Holds alive left _ _ (handle_redis_expiration-Spares key w) k,
  )
  Foreign-Holds alive left _ _ (Clock.resumes w before after t e foreign) h (d, k) = (
    Step-Distinct redis exists _ _ (Reach.resumes w before after t e) d,
    resume-Holds t alive left _ foreign d h (same-Holds alive left _ _ (refl, refl) k),
  )
  Foreign-Holds alive left _ _ (Clock.rejects w before after t e) h (d, k) = (
    Fault-Distinct redis exists _ _ (Reach.rejects w before after t e) d,
    reject_taken alive left w before after t k,
  )
