-- ===== src/UserStatus/Known.antt =====
-- Only users of the users table get into the presence data, and only they are spoken of.
pub mod Handlers
pub mod Steps
use nestjs_stay_api.Common.{
  ℕ, ◌≡◌, ◌≢◌, refl, inl, inr, Bool, true, false, Option, none, some, List, [], ◌∷◌, ◌++◌, arith,
  String, ◌==◌, eq_iff, eq_refl, starts_with, split, get_elem?, ltb, nat_eq, All, All-append,
  All-middle, Bool-cases, Option-cases, is_some, if◌then◌else◌,
}
use mathlib.Core.Path.{subst}
use nestjs_stay_api.Redis.{Redis, lookup}
use nestjs_stay_api.Websocket.{
  UserStatus, online, offline, BroadcastUserStatusInfo, Payload, statuses, connect_type, Frame,
  send, ping, close, TrackedClient, websocket_channel_user_status, broadcast_status, get_client,
}
use nestjs_stay_api.Websocket.Clients.{set_client-All, delete_client-All, get_client-All}
use nestjs_stay_api.UserStatus.{
  user_status_hash_key, user_status_hash_ttl_key, set_status, ttl_key, Awaiting, after_subscribe,
  after_pong, Task, checking, h_setting, setting, getting_online, unsubscribing, expiring, World,
  spawn, emit, send_client_message, broadcast, subscribed, dispatch, unsubscribed,
  subscribe_message, unsubscribe_message, handle_message, checked, status_set, ping_clients,
  ping_frames, ping_all, pong, handle_redis_expiration, drop_client, reject, online_users, resume,
  unhandled_rejection,
}
use nestjs_stay_api.UserStatus.Keys.{ttl_key-ne-hash_key}
use nestjs_stay_api.UserStatus.Reach.{
  Step, Fault, FaultyReach, receives, pings, pongs, disconnects, changes, expires, resumes, rejects,
  FaultyReach_induction,
}

module _ (exists : String → Bool) where
  abbrev pub UserIsKnown : Option String → Type 0
  UserIsKnown none = Unit {0}
  UserIsKnown (some uid) = exists uid ≡ true

  abbrev pub ClientIsKnown : TrackedClient → Type 0
  ClientIsKnown c = UserIsKnown c.user_uid

  abbrev pub TaskIsKnown : Task → Type 0
  TaskIsKnown (h_setting uid k) = exists uid ≡ true
  TaskIsKnown (setting uid k) = exists uid ≡ true
  TaskIsKnown (unsubscribing client uid) = exists uid ≡ true
  TaskIsKnown _ = Unit {0}

  abbrev pub InfoIsKnown : BroadcastUserStatusInfo → Type 0
  InfoIsKnown = All (λ p. exists p.0 ≡ true)

  abbrev pub PayloadIsKnown : Payload → Type 0
  PayloadIsKnown (statuses info) = InfoIsKnown info
  PayloadIsKnown (connect_type type) = Unit {0}

  abbrev pub FrameIsKnown : Frame → Type 0
  FrameIsKnown (send s channel info) = PayloadIsKnown info
  FrameIsKnown (close s status reason) = status ≢ 4001
  FrameIsKnown _ = Unit {0}

module _ (redis : Redis) (exists : String → Bool) where
  open redis use {
    State, h_get, h_set, h_del, h_get_all, h_get-h_set, h_get-h_del, h_del_count, lookup-h_get_all,
    h_get-set, h_get-expire, is_timed, expire,
  }

  pub record Known (w : World State) : Type 0 where
    pub hash :
        (uid v : String) → h_get user_status_hash_key uid w.redis ≡ some v → exists uid ≡ true
    pub clients : All (ClientIsKnown exists) w.clients
    pub tasks : All (TaskIsKnown exists) w.tasks
    pub frames : All (FrameIsKnown exists) w.frames

  pub spawn-Known :
      (t : Task) (w : World State) → TaskIsKnown exists t → Known w → Known (spawn t w)
  unfolding spawn
  spawn-Known t w p k = record {
    hash = k.hash;
    clients = k.clients;
    tasks = (p, k.tasks);
    frames = k.frames;
  }

  pub emit-Known :
      (fs : List Frame) (w : World State)
      → All (FrameIsKnown exists) fs
      → Known w
      → Known (emit fs w)
  unfolding emit
  emit-Known fs w p k = record {
    hash = k.hash;
    clients = k.clients;
    tasks = k.tasks;
    frames = All-append (FrameIsKnown exists) w.frames fs k.frames p;
  }

  pub clients-Known :
      (cs : List TrackedClient) (w : World State)
      → All (ClientIsKnown exists) cs
      → Known w
      → Known (record w { clients = cs })
  clients-Known cs w p k = record { hash = k.hash; clients = p; tasks = k.tasks; frames = k.frames }

  pub redis-Known :
      (r : State) (w : World State)
      → ((uid v : String) → h_get user_status_hash_key uid r ≡ some v → exists uid ≡ true)
      → Known w
      → Known (record w { redis = r })
  redis-Known r w p k = record { hash = p; clients = k.clients; tasks = k.tasks; frames = k.frames }

  broadcast_status-known :
      (is_open : ℕ → Bool) (connected : Option ℕ) (info : Payload) (cs : List TrackedClient)
      → PayloadIsKnown exists info
      → All
          (FrameIsKnown exists)
          (broadcast_status is_open connected websocket_channel_user_status info cs)
  unfolding broadcast_status
  broadcast_status-known is_open connected info [] p = tt
  broadcast_status-known is_open connected info (c ∷ cs) p =
      ground (arith, broadcast_status-known is_open connected info cs p)

  pub broadcast-Known :
      (connected : Option ℕ) (uid : String) (status : UserStatus) (w : World State)
      → exists uid ≡ true
      → Known w
      → Known (broadcast connected uid status w)
  unfolding broadcast
  broadcast-Known connected uid status w p k =
      emit-Known _ w (broadcast_status-known w.is_open connected _ w.clients (p, tt)) k

  pub send_client_message-Known :
      (client : ℕ) (info : Payload) (w : World State)
      → PayloadIsKnown exists info
      → Known w
      → Known (send_client_message client info w)
  unfolding send_client_message
  send_client_message-Known client info w p k = emit-Known _ w (p, tt) k

  -- A pending task taken out.
  pub taken-Known :
      (before after : List Task) (t : Task) (w : World State)
      → w.tasks ≡ before ++ t ∷ after
      → Known w
      → TaskIsKnown exists t × Known (record w { tasks = before ++ after })
  taken-Known before after t w e k =
      let (p, rest) =
        All-middle (TaskIsKnown exists) before after t
          (subst (All (TaskIsKnown exists)) e k.tasks) in
      (p, record { hash = k.hash; clients = k.clients; tasks = rest; frames = k.frames })
