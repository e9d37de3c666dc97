-- ===== src/UserStatus/Coverage.antt =====
-- No user stays online for ever: whoever the hash shows as online has a key that will expire, or a
-- pending operation that will start one or remove the user.
pub mod Steps
use mathlib.Core.Path.{subst}
use nestjs_stay_api.Common.{
  ℕ, ◌≡◌, refl, ap, sym, ◌∙◌, ◌⊎◌, inl, inr, Bool, true, false, Option, none, some, List, [], ◌∷◌,
  ◌++◌, arith, String, ◌==◌, eq_iff, eq_refl, includes, starts_with, split, get_elem?, Any,
  Any-middle, Bool-cases, Option-cases,
}
use nestjs_stay_api.Redis.{Redis}
use nestjs_stay_api.Websocket.{
  UserStatus, online, BroadcastUserStatusInfo, SubscribeMessage, TrackedClient, Frame, Payload,
  get_client,
}
use nestjs_stay_api.UserStatus.{
  user_status_hash_key, user_status_hash_ttl_key, ttl_key, Awaiting, after_subscribe, after_pong,
  Task, checking, h_setting, setting, getting_online, unsubscribing, expiring, World, spawn, emit,
  send_client_message, set_status, subscribed, unsubscribed, broadcast, subscribe_message,
  unsubscribe_message, dispatch, checked, handle_message, status_set, pong, handle_redis_expiration,
  unhandled_rejection,
}

-- A pending operation after which the user is timed or gone.
abbrev pub Settles : String → Task → Type 0
Settles uid (setting u k) = u ≡ uid
Settles uid (expiring u) = u ≡ uid
Settles uid _ = ⊥

module _ (redis : Redis) where
  open redis use {State, h_get, is_timed}

  abbrev pub IsCovered : String → World State → Type 0
  IsCovered uid w = (is_timed (ttl_key uid) w.redis ≡ true) ⊎ Any (Settles uid) w.tasks

  -- Every user that the hash holds is covered.
  abbrev pub Covered : World State → Type 0
  Covered w = (uid v : String) → h_get user_status_hash_key uid w.redis ≡ some v → IsCovered uid w

  -- The same server and no task less.
  pub record Extends (w w' : World State) : Type 0 where
    pub same_redis : w'.redis ≡ w.redis
    pub more_tasks : (uid : String) → Any (Settles uid) w.tasks → Any (Settles uid) w'.tasks

  pub Extends-IsCovered :
      (uid : String) {w w' : World State} → Extends w w' → IsCovered uid w → IsCovered uid w'
  Extends-IsCovered uid x (inl timed) =
      inl (subst (λ s. is_timed (ttl_key uid) s ≡ true) (sym x.same_redis) timed)
  Extends-IsCovered uid x (inr pending) = inr (x.more_tasks uid pending)

  pub Extends-Covered : (w : World State) {w' : World State} → Extends w w' → Covered w → Covered w'
  Extends-Covered w x c uid v e =
      Extends-IsCovered uid x
        (c uid v (subst (λ s. h_get user_status_hash_key uid s ≡ some v) x.same_redis e))

  pub Extends-trans : {u v w : World State} → Extends u v → Extends v w → Extends u w
  Extends-trans x y = record {
    same_redis = y.same_redis ∙ x.same_redis;
    more_tasks = λ P h. y.more_tasks P (x.more_tasks P h);
  }

  Extends-refl : (w : World State) → Extends w w
  Extends-refl w = record { same_redis = refl; more_tasks = λ P h. h }

  spawn-Extends : (t : Task) (w : World State) → Extends w (spawn t w)
  unfolding spawn
  spawn-Extends t w = record { same_redis = refl; more_tasks = λ P h. inr h }

  pub emit-Extends : (fs : List Frame) (w : World State) → Extends w (emit fs w)
  unfolding emit
  emit-Extends fs w = record { same_redis = refl; more_tasks = λ P h. h }

  pub send_client_message-Extends :
      (client : ℕ) (info : Payload) (w : World State)
      → Extends w (send_client_message client info w)
  unfolding send_client_message
  send_client_message-Extends client info w = emit-Extends _ w

  subscribed-Extends :
      (client : ℕ) (uid : Option String) (info : BroadcastUserStatusInfo) (reset : Bool)
      (w : World State)
      → Extends w (subscribed client uid info reset w)
  unfolding subscribed
  subscribed-Extends client uid info true w = record {
    same_redis = refl;
    more_tasks = λ P h. inr h;
  }
  subscribed-Extends client uid info false w = record { same_redis = refl; more_tasks = λ P h. h }

  pub unsubscribed-Extends : (client : ℕ) (w : World State) → Extends w (unsubscribed client w)
  unfolding unsubscribed
  unsubscribed-Extends client w = record { same_redis = refl; more_tasks = λ P h. h }

  pub broadcast-Extends :
      (client : Option ℕ) (uid : String) (status : UserStatus) (w : World State)
      → Extends w (broadcast client uid status w)
  unfolding broadcast
  broadcast-Extends client uid status w = record { same_redis = refl; more_tasks = λ P h. h }

  subscribe_message-Extends :
      (client : ℕ) (uid : Option String) (reset : Bool) (w : World State)
      → Extends w (subscribe_message client uid reset w)
  unfolding subscribe_message
  subscribe_message-Extends client none reset w = subscribed-Extends client none [] reset w
  subscribe_message-Extends client (some uid) reset w = spawn-Extends _ w

  unsubscribe_message-Extends :
      (client : ℕ) (uid : Option String) (w : World State)
      → Extends w (unsubscribe_message client uid w)
  unfolding unsubscribe_message
  unsubscribe_message-Extends client uid w = elim (Option-cases (get_client client w.clients)) [
    | inl e ↦ rw (e, unsubscribe_message) (record { same_redis = refl; more_tasks = λ P h. h })
    | inr (c, e) ↦
        rw (e, unsubscribe_message)
          (elim uid
            as (λ u. Extends w (elim u [
              | none ↦ unsubscribed client w
              | some u ↦ spawn (unsubscribing client u) w
            ])) [
              | none ↦ unsubscribed-Extends client w
              | some u ↦ spawn-Extends (unsubscribing client u) w
            ])
  ]

  dispatch-Extends :
      (client : ℕ) (type uid : Option String) (reset : Bool) (w : World State)
      → Extends w (dispatch client type uid reset w)
  unfolding dispatch
  dispatch-Extends client none uid reset w = Extends-refl w
  dispatch-Extends client (some type) uid reset w = ground (
    arith,
    subscribe_message-Extends client uid reset w,
    unsubscribe_message-Extends client uid w,
    Extends-refl w,
  )

  pub checked-Extends :
      (client : ℕ) (type : Option String) (uid : String) (reset : Bool) (found : Option Bool)
      (w : World State)
      → Extends w (checked client type uid reset found w)
  unfolding checked
  checked-Extends client type uid reset none w = emit-Extends _ w
  checked-Extends client type uid reset (some false) w = emit-Extends _ w
  checked-Extends client type uid reset (some true) w =
      dispatch-Extends client type (some uid) reset w

  pub handle_message-Extends :
      (client : ℕ) (message : SubscribeMessage) (w : World State)
      → Extends w (handle_message client message w)
  unfolding handle_message
  handle_message-Extends client message w = elim (Option-cases message.user_uid) [
    | inl e ↦ rw (e, handle_message) (dispatch-Extends client message.connect_type none true w)
    | inr (u, e) ↦ rw (e, handle_message) (spawn-Extends _ w)
  ]

  pub status_set-Extends :
      (k : Awaiting) (uid : String) (w : World State) → Extends w (status_set k uid w)
  unfolding status_set
  status_set-Extends (after_subscribe client reset) uid w =
      Extends-trans (broadcast-Extends (some client) uid online w)
        (subscribed-Extends client (some uid) _ reset _)
  status_set-Extends after_pong uid w = Extends-refl w

  marked-Extends :
      (uid : Option String) (w : World State)
      → Extends w (elim uid [ none ↦ w | some u ↦ set_status u after_pong w ])
  unfolding set_status
  marked-Extends none w = Extends-refl w
  marked-Extends (some u) w = spawn-Extends _ w

  clients-Extends :
      (cs : List TrackedClient) (w : World State) → Extends w (record w { clients = cs })
  clients-Extends cs w = record { same_redis = refl; more_tasks = λ P h. h }

  pub pong-Extends : (client : ℕ) (w : World State) → Extends w (pong client w)
  unfolding pong
  pong-Extends client w = elim (Option-cases (get_client client w.clients)) [
    | inl e ↦ rw (e, pong) (Extends-refl w)
    | inr (c, e) ↦ rw (e, pong) (Extends-trans (clients-Extends _ w) (marked-Extends c.user_uid _))
  ]

  pub handle_redis_expiration-Extends :
      (key : String) (w : World State) → Extends w (handle_redis_expiration key w)
  unfolding handle_redis_expiration unhandled_rejection
  handle_redis_expiration-Extends key w =
      elim (Bool-cases (starts_with key user_status_hash_ttl_key)) [
        | inr e ↦ rw (e, handle_redis_expiration) (Extends-refl w)
        | inl e ↦
            rw (e, handle_redis_expiration)
              (elim (Option-cases (get_elem? (split b':' key) 4)) [
                | inl e' ↦
                    rw (e', handle_redis_expiration)
                      (record { same_redis = refl; more_tasks = λ P h. h })
                | inr (u, e') ↦ rw (e', handle_redis_expiration) (spawn-Extends (expiring u) w)
              ])
      ]
