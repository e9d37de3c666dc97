-- ===== src/Tests/Sockets.antt =====
-- A run of the whole websocket server: a datum that is no JSON, then a subscription.
use nestjs_stay_api.Common.{◌≡◌, refl, false, [], ◌∷◌}
use nestjs_stay_api.Websocket.{close}
use nestjs_stay_api.UserStatus.{World}
use nestjs_stay_api.UserStatus.Known.{Known}
use nestjs_stay_api.UserStatus.Table.{DistinctClients}
use nestjs_stay_api.Redis.Memory.{Server, memory}
use nestjs_stay_api.Gateway.{syntax_error, message, on_module_init, receive}
use nestjs_stay_api.Gateway.Runs.{Run, here, next, receives, Run-IsSafe}
use nestjs_stay_api.Tests.Presence.{exists, world, subscribing, nobody-Known}

abbrev refused : World Server
unfolding receive
refused = receive on_module_init 7 syntax_error (world [])

abbrev asked : World Server
unfolding receive
asked = receive on_module_init 1 (message subscribing) refused

asked-Run : Run memory exists false (world []) asked
unfolding receive
asked-Run =
    next (next here (receives (world []) 7 syntax_error)) (receives refused 1 (message subscribing))

refused_with : asked.frames ≡ close 7 1011 "Internal Server Error" ∷ []
unfolding receive on_module_init
refused_with = refl

Run-IsSafe_example : Known memory exists asked × DistinctClients asked
Run-IsSafe_example = Run-IsSafe memory exists false (world []) asked asked-Run nobody-Known tt
