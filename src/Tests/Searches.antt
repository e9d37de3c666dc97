-- ===== src/Tests/Searches.antt =====
-- The queries of the user status service on a server in memory.
use nestjs_stay_api.Common.{◌≡◌, refl, none, some, [], ◌∷◌, if◌then◌else◌, is_some}
use nestjs_stay_api.Redis.{lookup}
use nestjs_stay_api.Redis.Memory.{Server, memory, server_h_set, server_h_get}
use nestjs_stay_api.Websocket.{online}
use nestjs_stay_api.UserStatus.{user_status_hash_key}
use nestjs_stay_api.UserStatus.Queries.{
  is_asked, get_online_users, search_statuses, get_status, lookup-search_statuses,
}

abbrev held : Server
unfolding server_h_set
held =
    server_h_set user_status_hash_key "u2" "online"
      (server_h_set user_status_hash_key "u1" "online" (record { fields = λ k. []; left = λ k. 0 }))

searched_statuses :
    (search_statuses memory ("u1" ∷ "u3" ∷ []) held ≡ ("u1", online) ∷ [])
    × (get_status memory "u2" held ≡ some "u2")
    × (get_status memory "u3" held ≡ none)
unfolding search_statuses get_status held server_h_set server_h_get
searched_statuses = (refl, refl, refl)

lookup-search_statuses_example :
    (lookup "u2" (search_statuses memory ("u1" ∷ []) held)
      ≡ (if is_asked "u2" ("u1" ∷ []) then lookup "u2" (get_online_users memory held) else none))
    × (lookup "u2" (get_online_users memory held)
        ≡ (if is_some (get_status memory "u2" held) then some online else none))
lookup-search_statuses_example = lookup-search_statuses memory "u2" refl ("u1" ∷ []) held
