-- ===== src/Tests/Clocks.antt =====
-- Time on the server in memory: heartbeats, late answers and several instances.
use nestjs_stay_api.Common.{
  ℕ, ◌-◌, ◌≡◌, refl, true, false, none, some, [], ◌∷◌, ◌++◌, List, String, ltb, leb, ◌&&◌, is_some,
  includes, map, arith, if◌then◌else◌,
}
use nestjs_stay_api.Redis.{lookup}
use nestjs_stay_api.Redis.Memory.{
  Server, memory, server_h_get, server_h_set, server_h_del, server_set, server_expire,
}
use nestjs_stay_api.Websocket.{
  offline, online, send, statuses, broadcast_status, websocket_channel_user_status,
  websocket_subscribe, get_client,
}
use nestjs_stay_api.UserStatus.{
  user_status_hash_key, ttl_key, World, handle_message, pong, ping_all, handle_redis_expiration,
  resume,
}
use nestjs_stay_api.UserStatus.Flows.{settle, request, news}
use nestjs_stay_api.UserStatus.Coverage.{IsCovered}
use nestjs_stay_api.UserStatus.Returns.{write_failed, failed_set-pong, expire-pong}
use nestjs_stay_api.UserStatus.Instances.{Instance, told, notified, run_each, expire_each}
use nestjs_stay_api.UserStatus.Races.{run_at, begun, left, run_at-crossed}
use nestjs_stay_api.UserStatus.Clock
use nestjs_stay_api.UserStatus.Clock.{Clock, Beating}
use nestjs_stay_api.UserStatus.Beats.Rounds.{Beating-online}
use nestjs_stay_api.Tests.Presence.{exists, world, client_of}

abbrev elapsed : ℕ → Server → Server
elapsed m s = record {
  fields = λ k. if ltb 0 (s.left k) && leb (s.left k) m then [] else s.fields k;
  left = λ k. s.left k - m;
}

h_get-elapsed :
    (m : ℕ) (k f : String) (s : Server)
    → s.left k ≡ 0
    → server_h_get k f (elapsed m s) ≡ server_h_get k f s
unfolding server_h_get
h_get-elapsed m k f s e = ground (arith, e)

abbrev clock : Clock memory
unfolding server_h_set server_h_del server_set
clock = record {
  remaining = λ k s. s.left k;
  elapse = elapsed;
  is_timed_lem = λ k s. refl;
  remaining-set = λ k v j n s. refl;
  remaining-h_set = λ k f v j s. refl;
  remaining-h_del = λ k f j s e. refl;
  remaining-h_del_self = λ k f s. omega arith;
  remaining-elapse = λ m k s. refl;
  h_get-elapse = h_get-elapsed;
}

abbrev subscribed : World Server
subscribed =
    settle memory exists 4 (handle_message 1 (request websocket_subscribe "u1" false) (world []))

abbrev later : ℕ → World Server → World Server
later m w = record w { redis = elapsed m w.redis }

abbrev answering : World Server
answering = pong 1 (later 4999 (ping_all (later 10000 subscribed)))

answering-Beating : Beating memory exists clock 1 "u1" subscribed Clock.h_writing 4999 answering
unfolding clock
answering-Beating = Clock.answers 4999 (later 4999 (ping_all (later 10000 subscribed))) (
    Clock.passes Clock.waiting 0 4999 (ping_all (later 10000 subscribed))
      (Clock.rounds 10000 (later 10000 subscribed) (
        Clock.passes Clock.answered 0 10000 subscribed (Clock.begins 0 (omega arith))
          (omega arith)))
      (omega arith))

-- An answer that is written five seconds after the round comes too late.
too_late :
    memory.is_timed (ttl_key "u1") (later 5000 (ping_all (later 10000 subscribed))).redis ≡ false
unfolding settle handle_message resume ping_all server_set
too_late = refl

Beating-online_example :
    (get_client 1 answering.clients
      ≡ some (record { socket = 1; user_uid = some "u1"; is_alive = true }))
    × (is_some (server_h_get user_status_hash_key "u1" answering.redis) ≡ true)
    × (memory.is_timed (ttl_key "u1") answering.redis ≡ true)
unfolding clock
Beating-online_example =
    Beating-online memory exists clock 1 "u1" false (world []) answering Clock.h_writing 4999 refl
      refl refl tt answering-Beating

abbrev tracked : World Server
tracked = world (client_of 1 "u1" ∷ client_of 2 "u2" ∷ [])

failed_set-pong_example :
    let failed = write_failed memory exists "u1" tracked in
    let w' = settle memory exists 2 (pong 1 failed) in
    (server_h_get user_status_hash_key "u1" failed.redis ≡ some "online")
    × (¬ IsCovered memory "u1" failed)
    × (failed.unhandled ≡ 0)
    × (w'.tasks ≡ [])
    × (server_h_get user_status_hash_key "u1" w'.redis ≡ some "online")
    × (memory.is_timed (ttl_key "u1") w'.redis ≡ true)
unfolding get_client
failed_set-pong_example =
    failed_set-pong memory exists 1 "u1" tracked (client_of 1 "u1") refl refl refl refl

-- A user who is online on the clients of `tracked`
abbrev online_server : Server
online_server =
    server_set (ttl_key "u1") "online" 15
      (server_h_set user_status_hash_key "u1" "online" tracked.redis)

abbrev online_world : World Server
online_world = record tracked { redis = online_server }

expire-pong_example :
    let w1 = settle memory exists 1 (
      handle_redis_expiration
        (ttl_key "u1")
        (record online_world { redis = server_expire (ttl_key "u1") online_server })) in
    let w2 = settle memory exists 2 (pong 1 w1) in
    (server_h_get user_status_hash_key "u1" w1.redis ≡ none)
    × (server_h_get user_status_hash_key "u1" w2.redis ≡ some "online")
    × (memory.is_timed (ttl_key "u1") w2.redis ≡ true)
    × (w2.tasks ≡ [])
    × (w2.frames
        ≡ []
          ++ broadcast_status online_world.is_open none websocket_channel_user_status
              (statuses (("u1", offline) ∷ []))
              online_world.clients)
unfolding server_h_get server_h_set server_set lookup includes get_client
expire-pong_example =
    expire-pong memory exists 1 "u1" "online" online_world (client_of 1 "u1") refl refl refl refl
      refl

abbrev node : List String → Instance
node users = record {
  clients = map (client_of 3) users;
  tasks = [];
  frames = [];
  is_open = λ s. true;
  unhandled = 0;
}

expire_each_example :
    let gone = server_expire (ttl_key "u1") online_server in
    let r =
      run_each memory exists gone
        (notified memory exists (ttl_key "u1") gone (node ("u1" ∷ []) ∷ node ("u2" ∷ []) ∷ [])) in
    (server_h_get user_status_hash_key "u1" r.0 ≡ none)
    × (r.1 ≡ told "u1" (node ("u1" ∷ [])) ∷ node ("u2" ∷ []) ∷ [])
unfolding server_h_get server_h_set server_set lookup includes
expire_each_example =
    expire_each memory exists "u1" "online" online_server (node ("u1" ∷ [])) (node ("u2" ∷ []) ∷ [])
      refl refl

run_at-crossed_example :
    let w' = run_at memory exists (0 ∷ 1 ∷ 1 ∷ 1 ∷ 0 ∷ []) (begun memory exists 1 3 "u1" tracked) in
    (w'.tasks ≡ [])
    × (get_client 3 w'.clients
        ≡ some (record { socket = 3; user_uid = some "u1"; is_alive = true }))
    × (server_h_get user_status_hash_key "u1" w'.redis ≡ none)
    × (w'.frames
        ≡ ((left memory exists 1 3 "u1" tracked).frames
            ++ news memory exists 3 "u1"
                (left memory exists 1 3 "u1" tracked)
                (statuses (("u1", online) ∷ [])))
          ++ send 3 websocket_channel_user_status (statuses (("u1", online) ∷ [])) ∷ [])
    × ((settle memory exists 1 (
          handle_redis_expiration
            (ttl_key "u1")
            (record w' { redis = server_expire (ttl_key "u1") w'.redis }))).frames
        ≡ w'.frames)
unfolding get_client includes
run_at-crossed_example =
    run_at-crossed memory exists 1 3 "u1" tracked (client_of 1 "u1") refl refl refl refl
