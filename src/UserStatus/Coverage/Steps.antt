-- ===== src/UserStatus/Coverage/Steps.antt =====
-- Coverage is kept by each step in which no operation fails.
use mathlib.Core.Path.{subst}
use nestjs_stay_api.Common.{
  ◌≡◌, refl, ◌⊎◌, inl, inr, Bool, true, false, none, some, List, ◌∷◌, ◌++◌, arith, String, ltb,
  ◌==◌, eq_iff, eq_refl, includes, Any, Any-middle, Bool-cases,
}
use nestjs_stay_api.Redis.{Redis}
use nestjs_stay_api.Websocket.{offline, statuses}
use nestjs_stay_api.UserStatus.{
  user_status_hash_key, ttl_key, Task, checking, h_setting, setting, getting_online, unsubscribing,
  expiring, World, spawn, resume, online_users, handle_redis_expiration, ttl_expiration_time,
  Awaiting, ping_all, drop_client,
}
use nestjs_stay_api.UserStatus.Keys.{
  ttl_key-ne-hash_key, hash_key-ne-ttl_key, handle_redis_expiration-ttl_key,
}
use nestjs_stay_api.UserStatus.Reach.{
  Step, Reach, receives, pings, pongs, disconnects, changes, expires, resumes, Reach_induction,
}
use nestjs_stay_api.UserStatus.Known.{Known}
use nestjs_stay_api.UserStatus.Known.Steps.{Step-Known}
use nestjs_stay_api.UserStatus.Coverage.{
  Settles, IsCovered, Covered, Extends-IsCovered, Extends-Covered, Extends-trans,
  send_client_message-Extends, unsubscribed-Extends, broadcast-Extends, checked-Extends,
  handle_message-Extends, status_set-Extends, pong-Extends, handle_redis_expiration-Extends,
}

module _ (redis : Redis) (exists : String → Bool) where
  open redis use {
    State, h_get, h_set, h_del, set, is_timed, expire, h_get-h_set, is_timed-h_set, h_get-h_del,
    is_timed-h_del, is_timed-set, h_get-set, is_timed-expire, h_get-expire,
  }

  is_timed-set_ttl :
      (u uid : String) (s : State)
      → (u ≡ uid) ⊎ (is_timed (ttl_key uid) s ≡ true)
      → is_timed (ttl_key uid) (set (ttl_key u) "online" ttl_expiration_time s) ≡ true
  is_timed-set_ttl u uid s (inl e) =
      rw (is_timed-set (ttl_key u) "online" (ttl_key uid) 14 s, e, eq_refl)
  is_timed-set_ttl u uid s (inr e) =
      ground (arith, is_timed-set (ttl_key u) "online" (ttl_key uid) 14 s)

  module _ (before after : List Task) (w : World State) (c : Covered redis w) where
    abbrev taken : World State
    taken = record w { tasks = before ++ after }

    -- A task that settles nobody can be taken out.
    taken-IsCovered :
        (t : Task) (uid : String)
        → w.tasks ≡ before ++ t ∷ after
        → ¬ Settles uid t
        → IsCovered redis uid w
        → IsCovered redis uid taken
    taken-IsCovered t uid e h (inl timed) = inl timed
    taken-IsCovered t uid e h (inr pending) =
        elim (Any-middle (Settles uid) before after t (subst (Any (Settles uid)) e pending)) [
          | inl p ↦ absurd (h p)
          | inr q ↦ inr q
        ]

    -- `hSet` of a user, whose `set` is now pending
    h_setting-Covered :
        (u : String) (a : Awaiting)
        → w.tasks ≡ before ++ h_setting u a ∷ after
        → Covered redis (
            spawn
              (setting u a)
              (record taken { redis = h_set user_status_hash_key u "online" w.redis }))
    unfolding spawn
    h_setting-Covered u a e uid v h = elim (Bool-cases (u == uid)) [
      | inl same ↦ inr (inl ((eq_iff u uid).0 same))
      | inr other ↦
          elim (taken-IsCovered (h_setting u a) uid e (λ p. p)
            (c uid v (ground (arith, h_get-h_set user_status_hash_key u "online" uid w.redis)))) [
              | inl timed ↦ inl (rw is_timed-h_set timed)
              | inr pending ↦ inr (inr pending)
            ]
    ]

    -- `set` of the user's key, which starts its time to live
    setting-Covered :
        (u : String) (a : Awaiting)
        → w.tasks ≡ before ++ setting u a ∷ after
        → Covered redis
            (record taken { redis = set (ttl_key u) "online" ttl_expiration_time w.redis })
    setting-Covered u a e uid v h =
        elim (c uid v (
          rw
            (h_get-set (ttl_key u) "online" user_status_hash_key uid 15 w.redis
              (ttl_key-ne-hash_key u))
            at h)) [
              | inl timed ↦ inl (is_timed-set_ttl u uid w.redis (inr timed))
              | inr pending ↦
                  elim (Any-middle (Settles uid) before after (setting u a)
                    (subst (Any (Settles uid)) e pending)) [
                      | inl p ↦ inl (is_timed-set_ttl u uid w.redis (inl p))
                      | inr q ↦ inr q
                    ]
            ]

    -- `hDel` of a user
    h_del-Covered :
        (u : String) (t : Task)
        → w.tasks ≡ before ++ t ∷ after
        → ((uid : String) → Settles uid t → u ≡ uid)
        → Covered redis (record taken { redis = (h_del user_status_hash_key u w.redis).0 })
    h_del-Covered u t e settles uid v h = elim (Bool-cases (u == uid)) [
      | inl same ↦ absurd (ground (arith, h_get-h_del user_status_hash_key u uid w.redis))
      | inr other ↦
          elim (taken-IsCovered t uid e (λ p. ground (arith, settles uid p, eq_iff u uid))
            (c uid v (ground (arith, h_get-h_del user_status_hash_key u uid w.redis)))) [
              | inl timed ↦ inl (
                  rw
                    (is_timed-h_del user_status_hash_key u (ttl_key uid) w.redis
                      (hash_key-ne-ttl_key uid))
                    timed)
              | inr pending ↦ inr pending
            ]
    ]

  resume-Covered :
      (before after : List Task) (t : Task) (w : World State)
      → w.tasks ≡ before ++ t ∷ after
      → Covered redis w
      → Covered redis (resume redis exists t (record w { tasks = before ++ after }))
  unfolding resume
  resume-Covered before after (checking client type uid reset) w e c =
      let w' : World State = record w { tasks = before ++ after } in
      Extends-Covered redis w' (checked-Extends redis client type uid reset (some (exists uid)) w')
        (λ u v h. taken-IsCovered before after w c _ u e (λ p. p) (c u v h))
  resume-Covered before after (h_setting uid a) w e c = h_setting-Covered before after w c uid a e
  resume-Covered before after (setting uid a) w e c =
      Extends-Covered redis _ (status_set-Extends redis a uid _)
        (setting-Covered before after w c uid a e)
  resume-Covered before after (getting_online client) w e c =
      let w' : World State = record w { tasks = before ++ after } in
      Extends-Covered redis w'
        (send_client_message-Extends redis client
          (statuses (online_users (redis.h_get_all user_status_hash_key w.redis))) w')
        (λ u v h. taken-IsCovered before after w c _ u e (λ p. p) (c u v h))
  resume-Covered before after (unsubscribing client uid) w e c =
      let w' : World State = record w {
        redis = (h_del user_status_hash_key uid w.redis).0;
        tasks = before ++ after;
      } in
      Extends-Covered redis w'
        (Extends-trans redis (broadcast-Extends redis (some client) uid offline w')
          (unsubscribed-Extends redis client _))
        (h_del-Covered before after w c uid (unsubscribing client uid) e (λ u p. absurd p))
  resume-Covered before after (expiring uid) w e c =
      let w' : World State = record w {
        redis = (h_del user_status_hash_key uid w.redis).0;
        tasks = before ++ after;
      } in
      let c' : Covered redis w' = h_del-Covered before after w c uid (expiring uid) e (λ u p. p) in
      elim (Bool-cases (ltb 0 (h_del user_status_hash_key uid w.redis).1)) [
        | inl e ↦
            rw (e, resume)
              (Extends-Covered redis w' (broadcast-Extends redis none uid offline w') c')
        | inr e ↦ rw (e, resume) c'
      ]

  module _ (plain : (uid : String) → exists uid ≡ true → includes b':' uid ≡ false) where
    expires-Covered :
        (w : World State) (key : String)
        → Known redis exists w
        → Covered redis w
        → Covered redis (handle_redis_expiration key (record w { redis = expire key w.redis }))
    unfolding spawn
    expires-Covered w key k c uid v h =
        let w' : World State = record w { redis = expire key w.redis } in
        let x = handle_redis_expiration-Extends redis key w' in
        let now = subst (λ s. h_get user_status_hash_key uid s ≡ some v) x.same_redis h in
        let old : h_get user_status_hash_key uid w.redis ≡ some v =
          ground (arith, h_get-expire key user_status_hash_key uid w.redis) in
        let gone : World State = record w { redis = expire (ttl_key uid) w.redis } in
        let went = handle_redis_expiration-ttl_key uid gone (plain uid (k.hash uid v old)) in
        elim (c uid v old) [
          | inr pending ↦ Extends-IsCovered redis uid x (inr pending)
          | inl timed ↦ elim (Bool-cases (key == ttl_key uid)) [
            | inl same ↦ inr (rw ((eq_iff _ _).0 same) (rw went (inl refl)))
            | inr other ↦
                Extends-IsCovered redis uid x
                  (inl (ground (arith, is_timed-expire key (ttl_key uid) w.redis)))
          ]
        ]

    Covered-Step :
        (w w' : World State)
        → Step redis exists w w'
        → Known redis exists w
        → Covered redis w
        → Covered redis w'
    unfolding ping_all drop_client
    Covered-Step _ _ (receives w client message) k c =
        Extends-Covered redis w (handle_message-Extends redis client message w) c
    Covered-Step _ _ (pings w) k c = c
    Covered-Step _ _ (pongs w client) k c = Extends-Covered redis w (pong-Extends redis client w) c
    Covered-Step _ _ (disconnects w client) k c = c
    Covered-Step _ _ (changes w is_open) k c = c
    Covered-Step _ _ (expires w key e) k c = expires-Covered w key k c
    Covered-Step _ _ (resumes w before after t e) k c = resume-Covered before after t w e c

    pub Step-Covered :
        (w w' : World State)
        → Step redis exists w w'
        → Known redis exists w × Covered redis w
        → Known redis exists w' × Covered redis w'
    Step-Covered w w' s (k, c) = (Step-Known redis exists w w' s k, Covered-Step w w' s k c)

    -- Without failures, no user stays online for ever: in every reachable state, whoever the hash
    -- holds has a key with a time to live, or a pending `set` of that key, or a pending removal.
    pub Reach-Covered :
        (start w : World State)
        → Reach redis exists start w
        → Known redis exists start
        → Covered redis start
        → Covered redis w
    Reach-Covered start w r k c =
        (Reach_induction redis exists (λ u. Known redis exists u × Covered redis u) Step-Covered
          (k, c) r).1
