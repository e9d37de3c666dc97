-- ===== src/UserStatus/Races.antt =====
-- Two messages about one user whose handlers interleave: the user subscribes on one socket while another
-- socket of the user unsubscribes.
use nestjs_stay_api.Common.{
  ℕ, zero, suc, ◌≡◌, refl, ap, ◌∙◌, Bool, true, false, Option, none, some, List, [], ◌∷◌, ◌++◌,
  arith, String, includes,
}
use nestjs_stay_api.Redis.{Redis}
use nestjs_stay_api.Websocket.{
  online, offline, websocket_subscribe, websocket_unsubscribe, websocket_channel_user_status,
  statuses, connect_type, send, TrackedClient, get_client, set_client, delete_client,
}
use nestjs_stay_api.Websocket.Clients.{get_client-set_client}
use nestjs_stay_api.UserStatus.{
  user_status_hash_key, ttl_key, World, Task, checking, h_setting, expiring, after_subscribe,
  handle_message, checked, dispatch, resume, spawn, handle_redis_expiration,
}
use nestjs_stay_api.UserStatus.Flows.{settle, request, unsubscribe_message_tracked, news}
use nestjs_stay_api.UserStatus.Keys.{ttl_key-ne-hash_key, handle_redis_expiration-ttl_key}
use nestjs_stay_api.UserStatus.Liveness.{deleted, settle_spent}
use nestjs_stay_api.UserStatus.Instances.{nothing_left}
use nestjs_stay_api.UserStatus.Termination.{settle_step}

-- The pending task at a place, and the others
abbrev pick : ℕ → List Task → Option (Task × List Task)
pick n [] = none
pick zero (t ∷ ts) = some (t, ts)
pick (suc n) (t ∷ ts) = elim (pick n ts) [ none ↦ none | some (u, us) ↦ some (u, t ∷ us) ]

module _ (redis : Redis) (exists : String → Bool) where
  open redis use {State, h_get, h_del, h_set, set, expire, h_get-expire, h_get-set}

  -- The pending tasks at these places go on, one after the other.
  unfoldable pub run_at : List ℕ → World State → World State
  run_at [] w = w
  run_at (n ∷ ns) w = elim (pick n w.tasks) [
    | none ↦ run_at ns w
    | some (t, ts) ↦ run_at ns (resume redis exists t (record w { tasks = ts }))
  ]

  module _ (leaving coming : ℕ) (uid : String) (w : World State) where
    abbrev pub begun : World State
    begun =
        handle_message coming (request websocket_subscribe uid false)
          (handle_message leaving (request websocket_unsubscribe uid false) w)

    abbrev subscribing : Task
    subscribing = checking coming (some websocket_subscribe) uid false

    abbrev leaving_task : Task
    leaving_task = checking leaving (some websocket_unsubscribe) uid false

    abbrev entry : TrackedClient
    entry = record { socket = coming; user_uid = some uid; is_alive = true }

    -- The state once the one socket has left
    abbrev pub left : World State
    left = record w {
      redis = (h_del user_status_hash_key uid (h_set user_status_hash_key uid "online" w.redis)).0;
      clients = delete_client leaving w.clients;
      tasks = [];
      frames =
          (w.frames ++ news redis exists leaving uid w (statuses ((uid, offline) ∷ [])))
          ++ send leaving websocket_channel_user_status (connect_type websocket_unsubscribe) ∷ [];
    }

    abbrev crossed : World State
    crossed = record left {
      redis = set (ttl_key uid) "online" 15 left.redis;
      clients = set_client entry left.clients;
      frames =
          (left.frames ++ news redis exists coming uid left (statuses ((uid, online) ∷ [])))
          ++ send coming websocket_channel_user_status (statuses ((uid, online) ∷ [])) ∷ [];
    }

    module _ (c : TrackedClient) (idle : w.tasks ≡ []) (known : exists uid ≡ true)
        (e : get_client leaving w.clients ≡ some c) where
      begun_lem : begun ≡ record w { tasks = subscribing ∷ leaving_task ∷ [] }
      unfolding handle_message spawn
      begun_lem = rw idle refl

      run_crossed : run_at (0 ∷ 1 ∷ 1 ∷ 1 ∷ 0 ∷ []) begun ≡ crossed
      unfolding run_at resume checked dispatch
      run_crossed =
          ap (run_at (0 ∷ 1 ∷ 1 ∷ 1 ∷ 0 ∷ [])) begun_lem
          ∙ ap
              (λ b. run_at (1 ∷ 1 ∷ 1 ∷ 0 ∷ []) (
                checked coming (some websocket_subscribe) uid false (some b)
                  (record w { tasks = leaving_task ∷ [] })))
              known
          ∙ ap
              (λ b. run_at (1 ∷ 1 ∷ 0 ∷ []) (
                checked leaving (some websocket_unsubscribe) uid false (some b)
                  (record w { tasks = h_setting uid (after_subscribe coming false) ∷ [] })))
              known
          ∙ ap (run_at (1 ∷ 1 ∷ 0 ∷ [])) (
              unsubscribe_message_tracked leaving uid
                (record w { tasks = h_setting uid (after_subscribe coming false) ∷ [] }) c e)

      absent : h_get user_status_hash_key uid crossed.redis ≡ none
      absent =
          h_get-set (ttl_key uid) "online" user_status_hash_key uid 15 left.redis
            (ttl_key-ne-hash_key uid)
          ∙ deleted redis exists uid (h_set user_status_hash_key uid "online" w.redis)

      -- The expiration of the user's key, once the user is out of the hash
      silent :
          includes b':' uid ≡ false
          → (v : World State) → h_get user_status_hash_key uid v.redis ≡ none
          → (settle redis exists 1 (
              handle_redis_expiration
                (ttl_key uid)
                (record v { redis = expire (ttl_key uid) v.redis }))).frames
            ≡ v.frames
      unfolding spawn
      silent plain v gone =
          let late : World State = record v { redis = expire (ttl_key uid) v.redis } in
          let still : h_get user_status_hash_key uid late.redis ≡ none = ground (
            arith,
            gone,
            h_get-expire (ttl_key uid) user_status_hash_key uid v.redis,
            ttl_key-ne-hash_key uid,
          ) in
          ap (λ x. (settle redis exists 1 x).frames)
            (handle_redis_expiration-ttl_key uid late plain)
          ∙ ap (λ x. x.frames)
              (settle_step redis exists zero (spawn (expiring uid) late) (expiring uid) late.tasks
                  refl
                ∙ settle_spent redis exists (resume redis exists (expiring uid) late)
                ∙ nothing_left redis exists uid late still)

      -- With no task pending, a tracked socket unsubscribes for a known user, whose id has no colon, and
      -- before the users table has answered a socket subscribes as that user, without `reset`; the
      -- operations go on so that the server sees HSET, then HDEL, then SET. At the end nothing is pending,
      -- and the socket that subscribed is tracked, but the hash does not hold the user, although the last
      -- news to the other clients is that the user is online; and when the user's key then runs out, no
      -- client is told.
      pub run_at-crossed :
          includes b':' uid ≡ false
          → let w' = run_at (0 ∷ 1 ∷ 1 ∷ 1 ∷ 0 ∷ []) begun in
            (w'.tasks ≡ [])
            × (get_client coming w'.clients
                ≡ some (record { socket = coming; user_uid = some uid; is_alive = true }))
            × (h_get user_status_hash_key uid w'.redis ≡ none)
            × (w'.frames
                ≡ (left.frames ++ news redis exists coming uid left (statuses ((uid, online) ∷ [])))
                  ++ send coming websocket_channel_user_status (statuses ((uid, online) ∷ [])) ∷ [])
            × ((settle redis exists 1 (
                  handle_redis_expiration
                    (ttl_key uid)
                    (record w' { redis = expire (ttl_key uid) w'.redis }))).frames
                ≡ w'.frames)
      run_at-crossed plain = (
        ap (λ x. x.tasks) run_crossed,
        ap (λ x. get_client coming x.clients) run_crossed
            ∙ ground (arith, get_client-set_client coming entry left.clients),
        ap (λ x. h_get user_status_hash_key uid x.redis) run_crossed ∙ absent,
        ap (λ x. x.frames) run_crossed,
        silent plain _ (ap (λ x. h_get user_status_hash_key uid x.redis) run_crossed ∙ absent),
      )
