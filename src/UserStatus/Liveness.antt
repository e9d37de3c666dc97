-- ===== src/UserStatus/Liveness.antt =====
-- What must come about once the operations that are pending end and no client says anything more.
use mathlib.Core.Path.{subst}
use nestjs_stay_api.Common.{
  ℕ, zero, suc, ◌≡◌, refl, ap, sym, ◌∙◌, inl, inr, Bool, true, false, none, some, [], ◌∷◌, ◌++◌,
  arith, String, eq_refl, includes, is_some, if◌then◌else◌, List-cases, Any,
}
use nestjs_stay_api.Redis.{Redis}
use nestjs_stay_api.Websocket.{offline, statuses, broadcast_status, websocket_channel_user_status}
use nestjs_stay_api.UserStatus.{
  user_status_hash_key, ttl_key, expiring, World, spawn, broadcast, emit, resume,
  handle_redis_expiration,
}
use nestjs_stay_api.UserStatus.Keys.{ttl_key-ne-hash_key, handle_redis_expiration-ttl_key}
use nestjs_stay_api.UserStatus.Flows.{settle}
use nestjs_stay_api.UserStatus.Reach.{Reach, Reach_induction, next, expires, resumes}
use nestjs_stay_api.UserStatus.Known.{Known}
use nestjs_stay_api.UserStatus.Known.Steps.{Step-Known}
use nestjs_stay_api.UserStatus.Coverage.{Settles, Covered, IsCovered}
use nestjs_stay_api.UserStatus.Coverage.Steps.{Reach-Covered}
use nestjs_stay_api.UserStatus.Termination.{load, settle_step, settle_idle, settle_enough}

module _ (redis : Redis) (exists : String → Bool) where
  open redis use {State, h_get, is_timed, expire, h_get-expire, h_get-h_del, h_del_count, h_del}

  settle-Reach :
      (n : ℕ) (start w : World State)
      → Reach redis exists start w
      → Reach redis exists start (settle redis exists n w)
  unfolding settle
  settle-Reach zero start w r = r
  settle-Reach (suc n) start w r = elim (List-cases w.tasks) [
    | inl e ↦ subst (Reach redis exists start) (sym (settle_idle redis exists (suc n) w e)) r
    | inr (t, ts, e) ↦
        subst (Reach redis exists start) (sym (settle_step redis exists n w t ts e)) (
          settle-Reach n start (resume redis exists t (record w { tasks = ts }))
            (next r (resumes w [] ts t e)))
  ]

  pub settle_spent : (w : World State) → settle redis exists zero w ≡ w
  unfolding settle
  settle_spent w = refl

  timed_of_idle :
      (uid : String) (w : World State)
      → w.tasks ≡ []
      → IsCovered redis uid w
      → is_timed (ttl_key uid) w.redis ≡ true
  timed_of_idle uid w idle (inl timed) = timed
  timed_of_idle uid w idle (inr pending) = absurd (subst (Any (Settles uid)) idle pending)

  -- The removal that an expired key leads to: the user is in the hash, so the removal is news.
  pub removal :
      (uid v : String) (w : World State)
      → h_get user_status_hash_key uid w.redis ≡ some v
      → resume redis exists (expiring uid) w
        ≡ broadcast none uid offline
            (record w { redis = (h_del user_status_hash_key uid w.redis).0 })
  unfolding resume
  removal uid v w e =
      let one : (h_del user_status_hash_key uid w.redis).1 ≡ 1 =
        h_del_count user_status_hash_key uid w.redis ∙ ap (λ o. if is_some o then 1 else 0) e in
      simp (resume, one)

  pub deleted :
      (uid : String) (s : State)
      → h_get user_status_hash_key uid (h_del user_status_hash_key uid s).0 ≡ none
  deleted uid s = ground (arith, h_get-h_del user_status_hash_key uid uid s, eq_refl uid)

  pub expire_settles :
      (uid v : String) (w : World State)
      → includes b':' uid ≡ false
      → h_get user_status_hash_key uid w.redis ≡ some v
      → settle redis exists 1 (
          handle_redis_expiration (ttl_key uid) (record w { redis = expire (ttl_key uid) w.redis }))
        ≡ broadcast none uid offline
            (record w { redis = (h_del user_status_hash_key uid (expire (ttl_key uid) w.redis)).0 })
  unfolding spawn
  expire_settles uid v w plain e =
      let gone : World State = record w { redis = expire (ttl_key uid) w.redis } in
      let still : h_get user_status_hash_key uid gone.redis ≡ some v = ground (
        arith,
        h_get-expire (ttl_key uid) user_status_hash_key uid w.redis,
        ttl_key-ne-hash_key uid,
      ) in
      ap (settle redis exists 1) (handle_redis_expiration-ttl_key uid gone plain)
      ∙ settle_step redis exists zero (spawn (expiring uid) gone) (expiring uid) gone.tasks refl
      ∙ settle_spent (resume redis exists (expiring uid) gone)
      ∙ removal uid v gone still

  Reach-Known :
      (start w : World State)
      → Reach redis exists start w
      → Known redis exists start
      → Known redis exists w
  Reach-Known start w r k =
      Reach_induction redis exists (Known redis exists) (Step-Known redis exists) k r

  -- If the ids in the users table have no colon, then from every state that steps without failures
  -- reach from a known and covered one, the pending operations, each of which completes, end; after
  -- them every user in the hash has a key with a time to live; and when that key runs out, its
  -- expiration and the one operation that it starts lead to a state, reachable again, with nothing
  -- pending, where the user is out of the hash and all tracked, open clients were told so.
  pub goes_offline :
      ((uid : String) → exists uid ≡ true → includes b':' uid ≡ false)
      → (start w : World State) → Reach redis exists start w
      → Known redis exists start
      → Covered redis start
      → let w1 = settle redis exists (load w.tasks) w in
        (w1.tasks ≡ [])
        × ((uid v : String)
            → h_get user_status_hash_key uid w1.redis ≡ some v
            → let w2 = settle redis exists 1 (
                handle_redis_expiration
                  (ttl_key uid)
                  (record w1 { redis = expire (ttl_key uid) w1.redis })) in
              (is_timed (ttl_key uid) w1.redis ≡ true)
              × Reach redis exists start w2
              × (w2.tasks ≡ [])
              × (h_get user_status_hash_key uid w2.redis ≡ none)
              × (w2.frames
                  ≡ w1.frames
                    ++ broadcast_status w1.is_open none websocket_channel_user_status
                        (statuses ((uid, offline) ∷ []))
                        w1.clients))
  unfolding broadcast emit
  goes_offline plain start w r k c =
      let w1 = settle redis exists (load w.tasks) w in
      let idle = settle_enough redis exists (load w.tasks) w (omega arith) in
      let r1 = settle-Reach (load w.tasks) start w r in
      let k1 = Reach-Known start w1 r1 k in
      let c1 = Reach-Covered redis exists plain start w1 r1 k c in
      (
        idle,
        λ uid v e.
            let named = plain uid (k1.hash uid v e) in
            let ends = expire_settles uid v w1 named e in
            let timed = timed_of_idle uid w1 idle (c1 uid v e) in
            (
              timed,
              settle-Reach 1 start _ (next r1 (expires w1 (ttl_key uid) timed)),
              ap (λ x. x.tasks) ends ∙ idle,
              ap (λ x. h_get user_status_hash_key uid x.redis) ends
                  ∙ deleted uid (expire (ttl_key uid) w1.redis),
              ap (λ x. x.frames) ends,
            ),
      )
