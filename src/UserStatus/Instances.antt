-- ===== src/UserStatus/Instances.antt =====
-- Several instances of the program on one Redis: each has its own clients and its own pending
-- operations, the server's state is shared, and every instance is told of a key that expires.
use nestjs_stay_api.Common.{
  ℕ, zero, Bool, ◌≡◌, refl, ap, ◌∙◌, false, none, some, List, [], ◌∷◌, ◌++◌, map, arith, String,
  includes, is_some, if◌then◌else◌,
}
use nestjs_stay_api.Redis.{Redis}
use nestjs_stay_api.Websocket.{
  Frame, offline, statuses, broadcast_status, websocket_channel_user_status, TrackedClient,
}
use nestjs_stay_api.UserStatus.{
  user_status_hash_key, ttl_key, Task, World, expiring, spawn, resume, broadcast, emit,
  handle_redis_expiration,
}
use nestjs_stay_api.UserStatus.Flows.{settle}
use nestjs_stay_api.UserStatus.Keys.{ttl_key-ne-hash_key, handle_redis_expiration-ttl_key}
use nestjs_stay_api.UserStatus.Liveness.{removal, deleted, settle_spent}
use nestjs_stay_api.UserStatus.Termination.{settle_step}

-- What an instance keeps itself
pub record Instance : Type 0 where
  pub clients : List TrackedClient
  pub tasks : List Task
  pub frames : List Frame
  pub is_open : ℕ → Bool
  pub unhandled : ℕ

abbrev pub world_of : {S : Type 0} → S → Instance → World S
world_of s i = record {
  redis = s;
  clients = i.clients;
  tasks = i.tasks;
  frames = i.frames;
  is_open = i.is_open;
  unhandled = i.unhandled;
}

abbrev pub instance_of : {S : Type 0} → World S → Instance
instance_of w = record {
  clients = w.clients;
  tasks = w.tasks;
  frames = w.frames;
  is_open = w.is_open;
  unhandled = w.unhandled;
}

-- What an instance has after it told its clients that a user is offline
abbrev pub told : String → Instance → Instance
told uid i = record i {
  frames =
      i.frames
      ++ broadcast_status i.is_open none websocket_channel_user_status
          (statuses ((uid, offline) ∷ [])) i.clients;
}

-- An instance that was told of the end of a user's key, and has still to remove the user
abbrev pending : String → Instance → Instance
pending uid i = record i { tasks = expiring uid ∷ i.tasks }

module _ (redis : Redis) (exists : String → Bool) where
  open redis use {State, h_get, h_del, expire, h_get-expire, h_get-h_del, h_del_count}

  -- The instances are told of a key that expired.
  unfoldable pub notified : String → State → List Instance → List Instance
  unfolding handle_redis_expiration
  notified key s [] = []
  notified key s (i ∷ is) =
      instance_of (handle_redis_expiration key (world_of s i)) ∷ notified key s is

  -- The newest pending operation of each instance, in the order of the list
  unfoldable pub run_each : State → List Instance → State × List Instance
  unfolding settle
  run_each s [] = (s, [])
  run_each s (i ∷ is) =
      let w = settle redis exists 1 (world_of s i) in
      let (s', is') = run_each w.redis is in (s', instance_of w ∷ is')

  -- A removal that another instance did before
  pub nothing_left :
      (uid : String) (w : World State)
      → h_get user_status_hash_key uid w.redis ≡ none
      → resume redis exists (expiring uid) w
        ≡ record w { redis = (h_del user_status_hash_key uid w.redis).0 }
  unfolding resume
  nothing_left uid w e =
      let zero_removed : (h_del user_status_hash_key uid w.redis).1 ≡ 0 =
        h_del_count user_status_hash_key uid w.redis ∙ ap (λ o. if is_some o then 1 else 0) e in
      simp (resume, zero_removed)

  notified_plain :
      (uid : String) (s : State) (is : List Instance)
      → includes b':' uid ≡ false
      → notified (ttl_key uid) s is ≡ map (pending uid) is
  unfolding notified spawn
  notified_plain uid s [] plain = refl
  notified_plain uid s (i ∷ is) plain =
      let first : instance_of (handle_redis_expiration (ttl_key uid) (world_of s i))
          ≡ pending uid i =
        ap instance_of (handle_redis_expiration-ttl_key uid (world_of s i) plain) in
      rw first (ap (◌∷◌ (pending uid i)) (notified_plain uid s is plain))

  run_pending :
      (uid : String) (s : State) (i : Instance)
      → settle redis exists 1 (world_of s (pending uid i))
        ≡ resume redis exists (expiring uid) (world_of s i)
  run_pending uid s i =
      settle_step redis exists zero (world_of s (pending uid i)) (expiring uid) i.tasks refl
      ∙ settle_spent redis exists _

  run_first :
      (uid : String) (s : State) (i : Instance) (is : List Instance) (w : World State)
      → resume redis exists (expiring uid) (world_of s i) ≡ w
      → run_each s (pending uid i ∷ is)
        ≡ ((run_each w.redis is).0, instance_of w ∷ (run_each w.redis is).1)
  unfolding run_each
  run_first uid s i is w e =
      ap (λ x. ((run_each x.redis is).0, instance_of x ∷ (run_each x.redis is).1))
        (run_pending uid s i ∙ e)

  -- Once the user is out of the hash, the other instances change nothing of their own.
  run_late :
      (uid : String) (s : State) (is : List Instance)
      → h_get user_status_hash_key uid s ≡ none
      → let r = run_each s (map (pending uid) is) in
        (r.1 ≡ is) × (h_get user_status_hash_key uid r.0 ≡ none)
  unfolding run_each
  run_late uid s [] gone = (refl, gone)
  run_late uid s (i ∷ is) gone =
      let left : State = (h_del user_status_hash_key uid s).0 in
      let (same, still) = run_late uid left is (deleted redis exists uid s) in
      let first =
        run_first uid s i (map (pending uid) is) _ (nothing_left uid (world_of s i) gone) in
      (
        ap (λ r. r.1) first ∙ ap (◌∷◌ i) same,
        ap (λ r. h_get user_status_hash_key uid r.0) first ∙ still,
      )

  -- The key of a user who is in the hash and whose id has no colon runs out, every instance is told of
  -- it, and each removes the user, in any order (that of the list): the user is out of the hash, the
  -- instance that comes first tells its clients that the user is offline, and every other one is as it
  -- was and tells its clients nothing.
  pub expire_each :
      (uid v : String) (s : State) (i : Instance) (is : List Instance)
      → includes b':' uid ≡ false
      → h_get user_status_hash_key uid s ≡ some v
      → let gone = expire (ttl_key uid) s in
        let r = run_each gone (notified (ttl_key uid) gone (i ∷ is)) in
        (h_get user_status_hash_key uid r.0 ≡ none) × (r.1 ≡ told uid i ∷ is)
  unfolding run_each broadcast emit
  expire_each uid v s i is plain e =
      let gone = expire (ttl_key uid) s in
      let still : h_get user_status_hash_key uid gone ≡ some v =
        ground
          (arith, h_get-expire (ttl_key uid) user_status_hash_key uid s, ttl_key-ne-hash_key uid) in
      let (same, absent) =
        run_late uid (h_del user_status_hash_key uid gone).0 is (deleted redis exists uid gone) in
      let first =
        ap (run_each gone) (notified_plain uid gone (i ∷ is) plain)
        ∙ run_first uid gone i (map (pending uid) is) _
            (removal redis exists uid v (world_of gone i) still) in
      (
        ap (λ r. h_get user_status_hash_key uid r.0) first ∙ absent,
        ap (λ r. r.1) first ∙ ap (◌∷◌ (told uid i)) same,
      )
