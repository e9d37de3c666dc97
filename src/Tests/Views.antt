-- ===== src/Tests/Views.antt =====
-- What a client that listens is shown.
use nestjs_stay_api.Common.{◌≡◌, refl, arith, true, false, [], ◌∷◌, is_some}
use nestjs_stay_api.Redis.{lookup}
use nestjs_stay_api.Redis.Memory.{Server, memory, server_h_get}
use nestjs_stay_api.Websocket.{websocket_subscribe, websocket_unsubscribe, get_client, set_client}
use nestjs_stay_api.UserStatus.{
  user_status_hash_key, World, handle_message, resume, checked, dispatch,
}
use nestjs_stay_api.UserStatus.Flows.{settle, request}
use nestjs_stay_api.UserStatus.View.{shown}
use nestjs_stay_api.UserStatus.View.Calm.{Calm, Calm-shown}
use nestjs_stay_api.Tests.Presence.{exists, world, client_of}

-- A listener without a user of its own in the hash, and a client that comes and stays
abbrev listening : World Server
listening = world (client_of 1 "u2" ∷ [])

abbrev joined : World Server
joined =
    settle memory exists 4 (handle_message 2 (request websocket_subscribe "u1" false) listening)

joined-Calm : Calm memory exists 1 listening joined
joined-Calm = Calm.subscribes listening 2 "u1" false Calm.starts (λ e. omega (arith, e)) refl

abbrev departed : World Server
departed =
    settle memory exists 4 (handle_message 2 (request websocket_unsubscribe "u1" false) joined)

departed-Calm : Calm memory exists 1 listening departed
unfolding settle handle_message resume checked dispatch get_client set_client
departed-Calm =
    Calm.unsubscribes joined 2 "u1" (client_of 2 "u1") joined-Calm (λ e. omega (arith, e)) refl refl

Calm-shown_example :
    shown 1 "u1" false departed.frames
    ≡ is_some (server_h_get user_status_hash_key "u1" departed.redis)
unfolding get_client server_h_get lookup
Calm-shown_example =
    Calm-shown memory exists 1 listening departed "u1" departed-Calm refl (refl, tt) refl refl
      (λ u. refl)

shown_then_gone : shown 1 "u1" false joined.frames ≡ true
unfolding settle handle_message resume checked dispatch get_client set_client lookup
shown_then_gone = refl
