-- ===== src/Tests/Endings.antt =====
-- How runs of the user status channel end, on the server in memory.
use nestjs_stay_api.Common.{◌+◌, ◌≤◌, ◌≡◌, refl, none, some, true, false, [], ◌∷◌, ◌++◌, String}
use nestjs_stay_api.Redis.Memory.{Server, memory, server_h_get, server_expire}
use nestjs_stay_api.Websocket.{offline, statuses, broadcast_status, websocket_channel_user_status}
use nestjs_stay_api.UserStatus.{
  user_status_hash_key, ttl_key, h_setting, after_subscribe, Task, World, resume,
  handle_redis_expiration,
}
use nestjs_stay_api.UserStatus.Flows.{settle}
use nestjs_stay_api.UserStatus.Reach.{Reach}
use nestjs_stay_api.UserStatus.Termination.{load, drained, completes, Drain-load}
use nestjs_stay_api.UserStatus.Liveness.{goes_offline}
use nestjs_stay_api.UserStatus.Refinement.{Changes, presence_of, Lasts, FaultyReach-Changes}
use nestjs_stay_api.Tests.Presence.{
  exists, world, no_colon, nobody-Known, nobody, found, found-Reach, found-FaultyReach,
}

-- A client that subscribes, once the users table has answered.
abbrev task : Task
task = h_setting "u1" (after_subscribe 1 false)

abbrev waiting : World Server
waiting = record (world []) { tasks = task ∷ [] }

abbrev written : World Server
written = resume memory exists task (world [])

Drain-load_example : 1 + load written.tasks ≤ load waiting.tasks
Drain-load_example =
    Drain-load memory exists 1 waiting written
      (completes 0 waiting written [] [] task refl (drained written))

goes_offline_example :
    let w1 = settle memory exists (load found.tasks) found in
    (w1.tasks ≡ [])
    × ((uid v : String)
        → server_h_get user_status_hash_key uid w1.redis ≡ some v
        → let w2 = settle memory exists 1 (
            handle_redis_expiration
              (ttl_key uid)
              (record w1 { redis = server_expire (ttl_key uid) w1.redis })) in
          (memory.is_timed (ttl_key uid) w1.redis ≡ true)
          × Reach memory exists (world []) w2
          × (w2.tasks ≡ [])
          × (server_h_get user_status_hash_key uid w2.redis ≡ none)
          × (w2.frames
              ≡ w1.frames
                ++ broadcast_status w1.is_open none websocket_channel_user_status
                    (statuses ((uid, offline) ∷ []))
                    w1.clients))
goes_offline_example =
    goes_offline memory exists no_colon (world []) found found-Reach nobody-Known nobody

FaultyReach-Changes_example :
    Changes exists
      (presence_of memory exists (world []).redis)
      (presence_of memory exists found.redis)
    × Lasts memory exists found.redis
FaultyReach-Changes_example =
    FaultyReach-Changes memory exists (world []) found found-FaultyReach nobody-Known refl
