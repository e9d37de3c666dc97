-- ===== src/UserStatus/Flows.antt =====
-- A message handled to its end, with no other handler between: what subscribing and unsubscribing
-- leave behind.
use nestjs_stay_api.Common.{
  ℕ, zero, suc, ◌≡◌, refl, ap, ◌∙◌, inl, inr, Bool, true, false, none, some, List, [], ◌∷◌, ◌++◌,
  arith, String, nat_eq, eq_refl, if◌then◌else◌, Any,
}
use mathlib.Core.Path.{subst}
use nestjs_stay_api.Redis.{Redis}
use nestjs_stay_api.Websocket.{
  online, offline, websocket_subscribe, websocket_unsubscribe, websocket_channel_user_status,
  SubscribeMessage, Payload, statuses, connect_type, Frame, send, TrackedClient, get_client,
  set_client, delete_client, broadcast_status,
}
use nestjs_stay_api.Websocket.Clients.{Distinct, get_client-set_client, get_client-delete_client}
use nestjs_stay_api.UserStatus.{
  user_status_hash_key, ttl_key, World, unsubscribing, handle_message, checked, dispatch, resume,
  spawn, unsubscribe_message, online_users,
}
use nestjs_stay_api.UserStatus.Keys.{ttl_key-ne-hash_key}
use nestjs_stay_api.UserStatus.Coverage.{Settles, IsCovered}

abbrev pub request : String → String → Bool → SubscribeMessage
request type uid reset = record {
  connect_type = some type;
  channel = some websocket_channel_user_status;
  user_uid = some uid;
  reset = reset;
}

pub unsubscribe_message_tracked :
    {S : Type 0} (client : ℕ) (uid : String) (w : World S) (c : TrackedClient)
    → get_client client w.clients ≡ some c
    → unsubscribe_message client (some uid) w ≡ spawn (unsubscribing client uid) w
unfolding unsubscribe_message
unsubscribe_message_tracked client uid w c e = rw (e, unsubscribe_message)

module _ (redis : Redis) (exists : String → Bool) where
  open redis use {
    State, h_get, h_get_all, is_timed, h_get-h_set, h_get-set, is_timed-set, h_get-h_del,
    is_timed-h_set,
  }

  -- The newest pending task goes on until none is left.
  unfoldable pub settle : ℕ → World State → World State
  settle zero w = w
  settle (suc n) w = elim w.tasks [
    | [] ↦ w
    | t ∷ ts ↦ settle n (resume redis exists t (record w { tasks = ts }))
  ]

  -- The frames of `broadcastStatus` about one user to all tracked clients but one.
  abbrev pub news : ℕ → String → World State → Payload → List Frame
  news client uid w info =
      broadcast_status w.is_open (some client) websocket_channel_user_status info w.clients

  abbrev pub answer : String → Bool → State → Payload
  answer uid reset s =
      if reset
      then statuses (online_users (h_get_all user_status_hash_key s))
      else statuses ((uid, online) ∷ [])

  module _ (client : ℕ) (uid : String) (w : World State) (idle : w.tasks ≡ []) where
    abbrev pub written : State
    written =
        redis.set (ttl_key uid) "online" 15 (redis.h_set user_status_hash_key uid "online" w.redis)

    pub stored : h_get user_status_hash_key uid written ≡ some "online"
    stored = ground (
      arith,
      h_get-set (ttl_key uid) "online" user_status_hash_key uid 15
          (redis.h_set user_status_hash_key uid "online" w.redis) (ttl_key-ne-hash_key uid),
      h_get-h_set user_status_hash_key uid "online" uid w.redis,
      eq_refl uid,
    )

    pub timed : is_timed (ttl_key uid) written ≡ true
    timed = rw (
      is_timed-set (ttl_key uid) "online" (ttl_key uid) 14
          (redis.h_set user_status_hash_key uid "online" w.redis),
      eq_refl,
    )

    abbrev entry : TrackedClient
    entry = record { socket = client; user_uid = some uid; is_alive = true }

    tracked : get_client client (set_client entry w.clients) ≡ some entry
    tracked = ground (arith, get_client-set_client client entry w.clients)

    -- Everything after the users table has answered.
    checking_settles :
        (type : String) (reset : Bool)
        → exists uid ≡ true
        → settle 4 (handle_message client (request type uid reset) w)
          ≡ settle 3 (dispatch client (some type) (some uid) reset (record w { tasks = [] }))
    unfolding settle resume handle_message checked
    checking_settles type reset e = rw idle (
        ap (λ b. settle 3 (checked client (some type) uid reset (some b) (record w { tasks = [] })))
          e)

    -- Subscribing as a known user, run to its end: nothing is pending; the hash shows the user
    -- online with a time to live; the client is tracked and alive; the news went to the other
    -- clients before the client got its own answer, and no other frame was sent.
    pub subscribe_settles :
        (reset : Bool)
        → exists uid ≡ true
        → let w' = settle 4 (handle_message client (request websocket_subscribe uid reset) w) in
          (w'.tasks ≡ [])
          × (h_get user_status_hash_key uid w'.redis ≡ some "online")
          × (is_timed (ttl_key uid) w'.redis ≡ true)
          × (get_client client w'.clients
              ≡ some (record { socket = client; user_uid = some uid; is_alive = true }))
          × (w'.frames
              ≡ (w.frames ++ news client uid w (statuses ((uid, online) ∷ [])))
                ++ send client websocket_channel_user_status (answer uid reset w'.redis) ∷ [])
    unfolding settle resume dispatch
    subscribe_settles true e =
        rw (checking_settles websocket_subscribe true e) (refl, stored, timed, tracked, refl)
    subscribe_settles false e =
        rw (checking_settles websocket_subscribe false e) (refl, stored, timed, tracked, refl)

    -- The server and the clients after it
    pub subscribe_writes :
        (reset : Bool)
        → exists uid ≡ true
        → let w' = settle 4 (handle_message client (request websocket_subscribe uid reset) w) in
          (w'.redis ≡ written)
          × (w'.clients ≡ set_client entry w.clients)
          × (w'.is_open ≡ w.is_open)
    unfolding settle resume dispatch
    subscribe_writes true e = rw (checking_settles websocket_subscribe true e) (refl, refl, refl)
    subscribe_writes false e = rw (checking_settles websocket_subscribe false e) (refl, refl, refl)

    dispatch_unsubscribe :
        (c : TrackedClient)
        → get_client client w.clients ≡ some c
        → settle 3 (
            dispatch client (some websocket_unsubscribe) (some uid) false (record w { tasks = [] }))
          ≡ resume redis exists (unsubscribing client uid) (record w { tasks = [] })
    unfolding settle resume dispatch
    dispatch_unsubscribe c e =
        ap (settle 3) (unsubscribe_message_tracked client uid (record w { tasks = [] }) c e)

    module _ (distinct : Distinct w.clients) (c : TrackedClient)
        (e : get_client client w.clients ≡ some c) (known : exists uid ≡ true) where
      -- Unsubscribing as a known user from a tracked socket, run to its end, whoever the socket was
      -- tracked for: nothing is pending, the hash does not hold the user, the socket alone is no
      -- longer tracked, and the news went to the other clients before the acknowledgement.
      pub unsubscribe_settles :
          let w' = settle 4 (handle_message client (request websocket_unsubscribe uid false) w) in
          (w'.tasks ≡ [])
          × (h_get user_status_hash_key uid w'.redis ≡ none)
          × ((s : ℕ)
              → get_client s w'.clients
                ≡ (if nat_eq client s then none else get_client s w.clients))
          × (w'.frames
              ≡ (w.frames ++ news client uid w (statuses ((uid, offline) ∷ [])))
                ++ send client websocket_channel_user_status (connect_type websocket_unsubscribe)
                  ∷ [])
      unfolding resume
      unsubscribe_settles =
          rw (checking_settles websocket_unsubscribe false known ∙ dispatch_unsubscribe c e) (
            refl,
            ground (arith, eq_refl uid, h_get-h_del user_status_hash_key uid uid w.redis),
            λ s. get_client-delete_client s client w.clients distinct,
            refl,
          )

      -- The server and the clients after it
      pub unsubscribe_writes :
          let w' = settle 4 (handle_message client (request websocket_unsubscribe uid false) w) in
          (w'.redis ≡ (redis.h_del user_status_hash_key uid w.redis).0)
          × (w'.clients ≡ delete_client client w.clients)
          × (w'.is_open ≡ w.is_open)
      unfolding resume
      unsubscribe_writes =
          rw (checking_settles websocket_unsubscribe false known ∙ dispatch_unsubscribe c e)
            (refl, refl, refl)

  pub written_online :
      (uid : String) (r : State)
      → h_get user_status_hash_key uid (redis.h_set user_status_hash_key uid "online" r)
        ≡ some "online"
  written_online uid r =
      ground (arith, eq_refl uid, h_get-h_set user_status_hash_key uid "online" uid r)

  pub written_untimed-not-Covered :
      (uid : String) (w : World State)
      → w.tasks ≡ []
      → is_timed (ttl_key uid) w.redis ≡ false
      → ¬ IsCovered redis uid
          (record w { redis = redis.h_set user_status_hash_key uid "online" w.redis })
  written_untimed-not-Covered uid w idle untimed (inl timed) =
      cc (is_timed-h_set user_status_hash_key uid "online" (ttl_key uid) w.redis)
  written_untimed-not-Covered uid w idle untimed (inr pending) =
      absurd (subst (Any (Settles uid)) idle pending)
