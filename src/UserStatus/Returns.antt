-- ===== src/UserStatus/Returns.antt =====
-- A client that answers a ping, its `setStatus` run to its end: what it repairs, and what it does not
-- tell.
use nestjs_stay_api.Common.{
  ℕ, Bool, ◌≡◌, refl, ap, ◌∙◌, true, false, none, some, [], ◌∷◌, ◌++◌, arith, String, includes,
}
use nestjs_stay_api.Redis.{Redis}
use nestjs_stay_api.Websocket.{
  offline, statuses, broadcast_status, websocket_channel_user_status, TrackedClient, get_client,
  set_client,
}
use nestjs_stay_api.Websocket.Clients.{get_client-set_client, get_client-socket}
use nestjs_stay_api.UserStatus.{
  user_status_hash_key, ttl_key, World, after_pong, h_setting, setting, set_status, pong, resume,
  reject, broadcast, emit, handle_redis_expiration,
}
use nestjs_stay_api.UserStatus.Flows.{
  settle, stored, timed, written_online, written_untimed-not-Covered,
}
use nestjs_stay_api.UserStatus.Liveness.{expire_settles, deleted}
use nestjs_stay_api.UserStatus.Coverage.{IsCovered}

pub pong_tracked :
    {S : Type 0} (client : ℕ) (uid : String) (w : World S) (c : TrackedClient)
    → get_client client w.clients ≡ some c
    → c.user_uid ≡ some uid
    → pong client w
      ≡ set_status uid after_pong
          (record w { clients = set_client (record c { is_alive = true }) w.clients })
unfolding pong
pong_tracked client uid w c e own = simp (pong, e, own)

module _ (redis : Redis) (exists : String → Bool) where
  open redis use {State, h_get, is_timed, expire, h_del}

  -- A tracked client's answer, run to its end: nothing is pending, the hash shows the user online with
  -- a time to live, the client is alive, and no frame is sent.
  pub pong_settles :
      (client : ℕ) (uid : String) (w : World State) (c : TrackedClient)
      → w.tasks ≡ []
      → get_client client w.clients ≡ some c
      → c.user_uid ≡ some uid
      → let w' = settle redis exists 2 (pong client w) in
        (w'.tasks ≡ [])
        × (h_get user_status_hash_key uid w'.redis ≡ some "online")
        × (is_timed (ttl_key uid) w'.redis ≡ true)
        × (get_client client w'.clients ≡ some (record c { is_alive = true }))
        × (w'.frames ≡ w.frames)
  unfolding settle resume
  pong_settles client uid w c idle e own =
      rw (pong_tracked client uid w c e own, idle)
        (
          refl,
          stored redis exists client uid w idle,
          timed redis exists client uid w idle,
          ground (
            arith,
            get_client-set_client client (record c { is_alive = true }) w.clients,
            get_client-socket client w.clients c e,
          ),
          refl,
        )

  -- The server and the clients after it
  pub pong_writes :
      (client : ℕ) (uid : String) (w : World State) (c : TrackedClient)
      → get_client client w.clients ≡ some c
      → c.user_uid ≡ some uid
      → let w' = settle redis exists 2 (pong client w) in
        (w'.redis
          ≡ redis.set
              (ttl_key uid)
              "online"
              15
              (redis.h_set user_status_hash_key uid "online" w.redis))
        × (w'.clients ≡ set_client (record c { is_alive = true }) w.clients)
        × (w'.is_open ≡ w.is_open)
  unfolding settle resume
  pong_writes client uid w c e own = rw (pong_tracked client uid w c e own) (refl, refl, refl)

  -- `setStatus` of `pong`, with the first write done and the second one failed; `pong` catches the error.
  abbrev pub write_failed : String → World State → World State
  write_failed uid w =
      reject (setting uid after_pong)
        (record (resume redis exists (h_setting uid after_pong) w) { tasks = w.tasks })

  -- With no task pending, a user's key has no running time to live, and the second write for an answer
  -- of a client of the user fails after the first succeeded. Then the hash holds that user, who has
  -- neither a time to live nor anything pending that would remove the user, and no rejection is unhandled;
  -- once a tracked client of the user answers a ping and this has been run to its end, the user has a
  -- time to live.
  pub failed_set-pong :
      (client : ℕ) (uid : String) (w : World State) (c : TrackedClient)
      → w.tasks ≡ []
      → is_timed (ttl_key uid) w.redis ≡ false
      → get_client client w.clients ≡ some c
      → c.user_uid ≡ some uid
      → let failed = write_failed uid w in
        let w' = settle redis exists 2 (pong client failed) in
        (h_get user_status_hash_key uid failed.redis ≡ some "online")
        × (¬ IsCovered redis uid failed)
        × (failed.unhandled ≡ w.unhandled)
        × (w'.tasks ≡ [])
        × (h_get user_status_hash_key uid w'.redis ≡ some "online")
        × (is_timed (ttl_key uid) w'.redis ≡ true)
  unfolding reject resume
  failed_set-pong client uid w c idle untimed e own =
      let (done, online_again, timed_again, alive, silent) =
        pong_settles client uid (write_failed uid w) c idle e own in
      (
        written_online redis exists uid w.redis,
        written_untimed-not-Covered redis exists uid w idle untimed,
        refl,
        done,
        online_again,
        timed_again,
      )

  -- With no task pending, the key of a user who is in the hash and whose id has no colon runs out, and
  -- the removal is run to its end; then a tracked client of that user answers a ping, and this is run to
  -- its end: the other clients were told that the user is offline, the answer puts the user back into
  -- the hash, with a time to live, and no client is told so.
  pub expire-pong :
      (client : ℕ) (uid v : String) (w : World State) (c : TrackedClient)
      → w.tasks ≡ []
      → includes b':' uid ≡ false
      → h_get user_status_hash_key uid w.redis ≡ some v
      → get_client client w.clients ≡ some c
      → c.user_uid ≡ some uid
      → let w1 = settle redis exists 1 (
          handle_redis_expiration
            (ttl_key uid)
            (record w { redis = expire (ttl_key uid) w.redis })) in
        let w2 = settle redis exists 2 (pong client w1) in
        (h_get user_status_hash_key uid w1.redis ≡ none)
        × (h_get user_status_hash_key uid w2.redis ≡ some "online")
        × (is_timed (ttl_key uid) w2.redis ≡ true)
        × (w2.tasks ≡ [])
        × (w2.frames
            ≡ w.frames
              ++ broadcast_status w.is_open none websocket_channel_user_status
                  (statuses ((uid, offline) ∷ []))
                  w.clients)
  unfolding broadcast emit
  expire-pong client uid v w c idle plain e tracked own =
      let w1 = settle redis exists 1 (
        handle_redis_expiration (ttl_key uid)
          (record w { redis = expire (ttl_key uid) w.redis })) in
      let ends = expire_settles redis exists uid v w plain e in
      let (done, online_again, timed_again, still, silent) =
        pong_settles client uid w1 c (ap (λ x. x.tasks) ends ∙ idle)
          (ap (λ x. get_client client x.clients) ends ∙ tracked) own in
      (
        ap (λ x. h_get user_status_hash_key uid x.redis) ends
            ∙ deleted redis exists uid (expire (ttl_key uid) w.redis),
        online_again,
        timed_again,
        done,
        silent ∙ ap (λ x. x.frames) ends,
      )
