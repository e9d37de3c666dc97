-- ===== src/UserStatus/Refinement.antt =====
-- What the channel promises, as a specification: who is online is a set of users of the users table,
-- which users join and leave one at a time. Every run of the event loop implements it.
use mathlib.Core.Path.{subst, fun_ext}
use nestjs_stay_api.Common.{
  ◌≡◌, refl, ap, sym, ◌∙◌, inl, inr, Bool, true, false, none, some, ◌++◌, arith, String, ltb, ◌==◌,
  eq_iff, is_some, if◌then◌else◌, All, All-middle, Bool-cases,
}
use nestjs_stay_api.Redis.{Redis}
use nestjs_stay_api.Websocket.{offline, statuses}
use nestjs_stay_api.UserStatus.{
  user_status_hash_key, ttl_key, after_subscribe, after_pong, Task, checking, h_setting, setting,
  getting_online, unsubscribing, expiring, World, spawn, resume, reject, emit, broadcast,
  online_users, ping_all, drop_client, unhandled_rejection, ttl_expiration_time,
}
use nestjs_stay_api.UserStatus.Keys.{ttl_key-ne-hash_key}
use nestjs_stay_api.UserStatus.Reach.{
  Step, Fault, FaultyReach, receives, pings, pongs, disconnects, changes, expires, resumes, rejects,
  FaultyReach_induction,
}
use nestjs_stay_api.UserStatus.Known.{Known, TaskIsKnown}
use nestjs_stay_api.UserStatus.Known.Steps.{Step-Known, Fault-Known}
use nestjs_stay_api.UserStatus.Coverage.{
  checked-Extends, handle_message-Extends, status_set-Extends, pong-Extends, broadcast-Extends,
  handle_redis_expiration-Extends, send_client_message-Extends, unsubscribed-Extends,
}

abbrev pub update : String → Bool → (String → Bool) → String → Bool
update uid b online u = if uid == u then b else online u

module _ (exists : String → Bool) where
  -- One step of the specification, from one set of online users to the next.
  pub data Change : (String → Bool) → (String → Bool) → Type 0 where
    stays : (online : String → Bool) → Change online online
    joins :
        (online : String → Bool) (uid : String)
        → exists uid ≡ true
        → Change online (update uid true online)
    leaves : (online : String → Bool) (uid : String) → Change online (update uid false online)

  pub data Changes (start : String → Bool) : (String → Bool) → Type 0 where
    here : Changes start start
    next :
        {online online' : String → Bool}
        → Changes start online
        → Change online online'
        → Changes start online'

module _ (redis : Redis) (exists : String → Bool) where
  open redis use {
    State, h_get, h_set, h_del, h_get_all, set, is_timed, expire, h_get-h_set, h_get-h_del,
    h_get-set, h_get-expire, is_timed-h_set, is_timed-h_del_self, is_timed-set, is_timed-expire,
  }

  -- Who is online: the users whose field the hash has.
  abbrev pub presence_of : State → String → Bool
  presence_of s uid = is_some (h_get user_status_hash_key uid s)

  -- The hash itself never expires.
  abbrev pub Lasts : State → Type 0
  Lasts s = is_timed user_status_hash_key s ≡ false

  -- A change of the server's state that the specification allows.
  abbrev Allowed : State → State → Type 0
  Allowed s s' = Change exists (presence_of s) (presence_of s') × (Lasts s → Lasts s')

  same-Allowed : (s s' : State) → s' ≡ s → Allowed s s'
  same-Allowed s s' e = subst (Allowed s) (sym e) (stays (presence_of s), λ l. l)

  moved-Allowed :
      (s : State) {s' : State} (online : String → Bool)
      → Change exists (presence_of s) online
      → ((u : String) → presence_of s' u ≡ online u)
      → (Lasts s → Lasts s')
      → Allowed s s'
  moved-Allowed s online c same lasts =
      (subst (Change exists (presence_of s)) (sym (fun_ext same)) c, lasts)

  h_set-Allowed :
      (uid v : String) (s : State)
      → exists uid ≡ true
      → Allowed s (h_set user_status_hash_key uid v s)
  h_set-Allowed uid v s e =
      moved-Allowed s (update uid true (presence_of s)) (joins (presence_of s) uid e)
        (λ u. ground (arith, h_get-h_set user_status_hash_key uid v u s))
        (λ l. is_timed-h_set user_status_hash_key uid v user_status_hash_key s ∙ l)

  h_del-Allowed : (uid : String) (s : State) → Allowed s (h_del user_status_hash_key uid s).0
  h_del-Allowed uid s =
      moved-Allowed s (update uid false (presence_of s)) (leaves (presence_of s) uid)
        (λ u. ground (arith, h_get-h_del user_status_hash_key uid u s))
        (λ l.
          elim (Bool-cases (is_timed user_status_hash_key (h_del user_status_hash_key uid s).0)) [
            | inl timed ↦
                absurd (ground (arith, is_timed-h_del_self user_status_hash_key uid s timed, l))
            | inr e ↦ e
          ])

  set-Allowed : (uid v : String) (s : State) → Allowed s (set (ttl_key uid) v ttl_expiration_time s)
  set-Allowed uid v s =
      moved-Allowed s (presence_of s) (stays (presence_of s))
        (λ u.
          ap is_some
            (h_get-set (ttl_key uid) v user_status_hash_key u 15 s (ttl_key-ne-hash_key uid)))
        (λ l. ground (
          arith,
          is_timed-set (ttl_key uid) v user_status_hash_key 14 s,
          ttl_key-ne-hash_key uid,
          l,
        ))

  expire-Allowed :
      (key : String) (s : State) → is_timed key s ≡ true → Lasts s → Allowed s (expire key s)
  expire-Allowed key s timed l = elim (Bool-cases (key == user_status_hash_key)) [
    | inl same ↦ absurd (
        ground (arith, ap (λ k. is_timed k s) ((eq_iff key user_status_hash_key).0 same), timed, l))
    | inr other ↦
        moved-Allowed s (presence_of s) (stays (presence_of s))
          (λ u. ground (arith, h_get-expire key user_status_hash_key u s, other))
          (λ k. ground (arith, is_timed-expire key user_status_hash_key s, other, k))
  ]

  -- A handler that leaves the server alone, after such a change or at first.
  then-Allowed : {s s' s'' : State} → Allowed s s' → s'' ≡ s' → Allowed s s''
  then-Allowed {s} a e = subst (Allowed s) (sym e) a

  resume-Allowed :
      (t : Task) (w : World State)
      → TaskIsKnown exists t
      → Allowed w.redis (resume redis exists t w).redis
  unfolding resume spawn
  resume-Allowed (checking client type uid reset) w k =
      same-Allowed w.redis _
        (checked-Extends redis client type uid reset (some (exists uid)) w).same_redis
  resume-Allowed (h_setting uid a) w k = h_set-Allowed uid "online" w.redis k
  resume-Allowed (setting uid a) w k =
      then-Allowed (set-Allowed uid "online" w.redis) (status_set-Extends redis a uid _).same_redis
  resume-Allowed (getting_online client) w k =
      same-Allowed w.redis _
        (send_client_message-Extends redis client
          (statuses (online_users (h_get_all user_status_hash_key w.redis))) w).same_redis
  resume-Allowed (unsubscribing client uid) w k =
      let gone : World State = record w { redis = (h_del user_status_hash_key uid w.redis).0 } in
      let told = broadcast-Extends redis (some client) uid offline gone in
      then-Allowed (h_del-Allowed uid w.redis) (
        (unsubscribed-Extends redis client (broadcast (some client) uid offline gone)).same_redis
        ∙ told.same_redis)
  resume-Allowed (expiring uid) w k =
      let gone : World State = record w { redis = (h_del user_status_hash_key uid w.redis).0 } in
      elim (Bool-cases (ltb 0 (h_del user_status_hash_key uid w.redis).1)) [
        | inl e ↦
            rw (e, resume)
              (then-Allowed (h_del-Allowed uid w.redis)
                (broadcast-Extends redis none uid offline gone).same_redis)
        | inr e ↦ rw (e, resume) (h_del-Allowed uid w.redis)
      ]

  redis-reject : (t : Task) (w : World State) → (reject t w).redis ≡ w.redis
  unfolding reject unhandled_rejection emit
  redis-reject (checking client type uid reset) w = refl
  redis-reject (h_setting uid (after_subscribe client reset)) w = refl
  redis-reject (h_setting uid after_pong) w = refl
  redis-reject (setting uid (after_subscribe client reset)) w = refl
  redis-reject (setting uid after_pong) w = refl
  redis-reject (getting_online client) w = refl
  redis-reject (unsubscribing client uid) w = refl
  redis-reject (expiring uid) w = refl

  Step-Allowed :
      (w w' : World State)
      → Step redis exists w w'
      → Known redis exists w
      → Lasts w.redis
      → Allowed w.redis w'.redis
  unfolding ping_all drop_client emit
  Step-Allowed _ _ (receives w client message) k l =
      same-Allowed w.redis _ (handle_message-Extends redis client message w).same_redis
  Step-Allowed _ _ (pings w) k l = same-Allowed w.redis _ refl
  Step-Allowed _ _ (pongs w client) k l =
      same-Allowed w.redis _ (pong-Extends redis client w).same_redis
  Step-Allowed _ _ (disconnects w client) k l = same-Allowed w.redis _ refl
  Step-Allowed _ _ (changes w is_open) k l = same-Allowed w.redis _ refl
  Step-Allowed _ _ (expires w key e) k l =
      then-Allowed (expire-Allowed key w.redis e l)
        (handle_redis_expiration-Extends redis key
          (record w { redis = expire key w.redis })).same_redis
  Step-Allowed _ _ (resumes w before after t e) k l =
      resume-Allowed t (record w { tasks = before ++ after })
        (All-middle (TaskIsKnown exists) before after t
          (subst (All (TaskIsKnown exists)) e k.tasks)).0

  Fault-Allowed : (w w' : World State) → Fault redis exists w w' → Allowed w.redis w'.redis
  Fault-Allowed _ _ (rejects w before after t e) =
      same-Allowed w.redis _ (redis-reject t (record w { tasks = before ++ after }))

  abbrev Implements : World State → World State → Type 0
  Implements start w =
      Known redis exists w
      × Lasts w.redis
      × Changes exists (presence_of start.redis) (presence_of w.redis)

  -- Whatever the interleaving and whatever fails: if at first everyone spoken of is known and the hash
  -- has no time to live, then the set of online users that the hash shows comes from the one it showed
  -- at first by users of the users table joining and users leaving, one at a time, and the hash never
  -- gets a time to live.
  pub FaultyReach-Changes :
      (start w : World State)
      → FaultyReach redis exists start w
      → Known redis exists start
      → Lasts start.redis
      → Changes exists (presence_of start.redis) (presence_of w.redis) × Lasts w.redis
  FaultyReach-Changes start w r k l =
      let h : Implements start w =
        FaultyReach_induction redis exists (Implements start)
          (λ u u' s (known, lasts, run).
            let (c, keeps) = Step-Allowed u u' s known lasts in
            (Step-Known redis exists u u' s known, keeps lasts, next run c))
          (λ u u' f (known, lasts, run).
            let (c, keeps) = Fault-Allowed u u' f in
            (Fault-Known redis exists u u' f known, keeps lasts, next run c))
          (k, l, here) r in
      (h.2, h.1)
