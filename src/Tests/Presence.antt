-- ===== src/Tests/Presence.antt =====
-- The user status channel on a server in memory, with one known user.
use nestjs_stay_api.Common.{
  ℕ, ◌≡◌, refl, inl, Bool, true, false, none, some, List, [], ◌∷◌, ◌++◌, String, ◌==◌, eq_iff,
  includes, nat_eq, if◌then◌else◌, is_some, ◌&&◌,
}
use mathlib.Core.Path.{subst}
use nestjs_stay_api.Redis.{lookup}
use nestjs_stay_api.Redis.Memory.{
  Server, memory, server_h_set, server_h_get, server_h_del, server_set, server_expire,
}
use nestjs_stay_api.Websocket.{
  online, offline, websocket_subscribe, websocket_unsubscribe, websocket_channel_user_status,
  SubscribeMessage, statuses, connect_type, send, close, TrackedClient, get_client,
  broadcast_status,
}
use nestjs_stay_api.Websocket.Clients.{Distinct, sent_to, sent_to-broadcast_status}
use nestjs_stay_api.UserStatus.{
  user_status_hash_key, ttl_key, checking, expiring, World, handle_message, ping_all, pong, resume,
  reject, spawn, handle_redis_expiration, ping_frames,
}
use nestjs_stay_api.UserStatus.Keys.{handle_redis_expiration-ttl_key}
use nestjs_stay_api.UserStatus.Heartbeat.{asked, answers, pinged, ping_all_lem}
use nestjs_stay_api.UserStatus.Reach.{Reach, FaultyReach, receives, resumes}
use nestjs_stay_api.UserStatus.Known.{Known}
use nestjs_stay_api.UserStatus.Known.Steps.{FaultyReach-Known}
use nestjs_stay_api.UserStatus.Coverage.{Covered}
use nestjs_stay_api.UserStatus.Coverage.Steps.{Reach-Covered}
use nestjs_stay_api.UserStatus.Flows.{
  request, settle, news, answer, subscribe_settles, unsubscribe_settles,
}
use nestjs_stay_api.Gateway.{message, on_module_init, receive, handle_disconnect}

abbrev pub exists : String → Bool
exists u = "u1" == u

abbrev pub server : Server
server = record { fields = λ k. []; left = λ k. 0 }

abbrev pub client_of : ℕ → String → TrackedClient
client_of s u = record { socket = s; user_uid = some u; is_alive = true }

abbrev pub world : List TrackedClient → World Server
world cs = record {
  redis = server;
  clients = cs;
  tasks = [];
  frames = [];
  is_open = λ s. true;
  unhandled = 0;
}

abbrev pub subscribing : SubscribeMessage
subscribing = request websocket_subscribe "u1" false

presence : Unit {0}
unfolding settle handle_message resume reject pong ping_all server_h_set server_h_get server_h_del
    server_set server_expire get_client handle_redis_expiration receive handle_disconnect
    on_module_init
presence = tt

-- Socket 1 subscribes while socket 2 is tracked: the news, then the answer.
subscribe_frames :
    (settle memory exists 4 (handle_message 1 subscribing (world (client_of 2 "u1" ∷ [])))).frames
    ≡ send 2 "user_status" (statuses (("u1", online) ∷ []))
      ∷ send 1 "user_status" (statuses (("u1", online) ∷ []))
      ∷ []
unfolding presence
subscribe_frames = refl

ttl_key_text : ttl_key "u1" ≡ "stay:user:status:ttl:u1"
ttl_key_text = refl

expiration_of_user :
    (handle_redis_expiration "stay:user:status:ttl:u1" (world [])).tasks ≡ expiring "u1" ∷ []
unfolding presence
expiration_of_user = refl

expiration_of_session : (handle_redis_expiration "session:u1" (world [])).tasks ≡ []
unfolding presence
expiration_of_session = refl

bad_channel :
    (receive on_module_init 1
      (message (record subscribing { channel = some "toString" }))
      (world [])).frames
    ≡ close 1 1011 "Internal Server Error" ∷ []
unfolding presence
bad_channel = refl

pub no_colon : (u : String) → exists u ≡ true → includes b':' u ≡ false
unfolding includes
no_colon u e = subst (λ t. includes b':' t ≡ false) ((eq_iff "u1" u).0 e) refl

pub nobody-Known : Known memory exists (world [])
unfolding server_h_get lookup
nobody-Known = record { hash = λ u v e. cc; clients = tt; tasks = tt; frames = tt }

abbrev asking : World Server
unfolding handle_message
asking = handle_message 1 subscribing (world [])

abbrev pub found : World Server
unfolding handle_message resume
found = resume memory exists (checking 1 (some "subscribe") "u1" false) (world [])

pub found-Reach : Reach memory exists (world []) found
unfolding handle_message resume
found-Reach =
    Reach.next (Reach.next Reach.here (receives (world []) 1 subscribing))
      (resumes asking [] [] (checking 1 (some "subscribe") "u1" false) refl)

pub found-FaultyReach : FaultyReach memory exists (world []) found
unfolding handle_message resume
found-FaultyReach =
    FaultyReach.next (FaultyReach.next FaultyReach.here (inl (receives (world []) 1 subscribing)))
      (inl (resumes asking [] [] (checking 1 (some "subscribe") "u1" false) refl))

pub nobody : Covered memory (world [])
unfolding server_h_get lookup
nobody u v e = cc

Reach-Covered_example : Covered memory found
Reach-Covered_example =
    Reach-Covered memory exists no_colon (world []) found found-Reach nobody-Known nobody

FaultyReach-Known_example : Known memory exists found
FaultyReach-Known_example =
    FaultyReach-Known memory exists (world []) found found-FaultyReach nobody-Known

abbrev settled : World Server → SubscribeMessage → World Server
settled w m = settle memory exists 4 (handle_message 1 m w)

subscribe_settles_example :
    let w' = settled (world (client_of 2 "u1" ∷ [])) (request websocket_subscribe "u1" true) in
    (w'.tasks ≡ [])
    × (server_h_get user_status_hash_key "u1" w'.redis ≡ some "online")
    × (memory.is_timed (ttl_key "u1") w'.redis ≡ true)
    × (get_client 1 w'.clients ≡ some (client_of 1 "u1"))
    × (w'.frames
        ≡ news memory exists 1 "u1" (world (client_of 2 "u1" ∷ [])) (statuses (("u1", online) ∷ []))
          ++ send 1 websocket_channel_user_status (answer memory exists "u1" true w'.redis) ∷ [])
subscribe_settles_example =
    subscribe_settles memory exists 1 "u1" (world (client_of 2 "u1" ∷ [])) refl true refl

-- Socket 1 is tracked for nobody, socket 2 for the user.
abbrev anonymous : TrackedClient
anonymous = record { socket = 1; user_uid = none; is_alive = true }

abbrev pair : World Server
pair = world (anonymous ∷ client_of 2 "u1" ∷ [])

pair-Distinct : Distinct pair.clients
unfolding get_client
pair-Distinct = (refl, (refl, tt))

pair_first : get_client 1 pair.clients ≡ some anonymous
unfolding get_client
pair_first = refl

pair_second : get_client 2 pair.clients ≡ some (client_of 2 "u1")
unfolding get_client
pair_second = refl

unsubscribe_settles_example :
    let w' = settled pair (request websocket_unsubscribe "u1" false) in
    (w'.tasks ≡ [])
    × (server_h_get user_status_hash_key "u1" w'.redis ≡ none)
    × ((s : ℕ) → get_client s w'.clients ≡ (if nat_eq 1 s then none else get_client s pair.clients))
    × (w'.frames
        ≡ news memory exists 1 "u1" pair (statuses (("u1", offline) ∷ []))
          ++ send 1 websocket_channel_user_status (connect_type websocket_unsubscribe) ∷ [])
unsubscribe_settles_example =
    unsubscribe_settles memory exists 1 "u1" pair refl pair-Distinct anonymous pair_first refl

sent_to-broadcast_status_example :
    sent_to 2 (
      broadcast_status
        (λ s. true)
        (some 1)
        "user_status"
        (statuses (("u1", online) ∷ []))
        pair.clients)
    ≡ (if is_some (get_client 2 pair.clients) && true && true then 1 else 0)
sent_to-broadcast_status_example =
    sent_to-broadcast_status (λ s. true) (some 1) "user_status" (statuses (("u1", online) ∷ [])) 2
      pair.clients pair-Distinct

handle_redis_expiration-ttl_key_example :
    handle_redis_expiration (ttl_key "u1") pair ≡ spawn (expiring "u1") pair
handle_redis_expiration-ttl_key_example =
    handle_redis_expiration-ttl_key "u1" pair (no_colon "u1" refl)

ping_all_lem_example :
    (get_client 2 (ping_all pair).clients ≡ asked (get_client 2 pair.clients))
    × (pinged 2 (ping_frames pair.clients) ≡ (if answers (get_client 2 pair.clients) then 1 else 0))
    × ((ping_all pair).frames ≡ ping_frames pair.clients)
    × ((ping_all pair).redis ≡ server)
    × ((ping_all pair).tasks ≡ [])
ping_all_lem_example = ping_all_lem 2 pair pair-Distinct
