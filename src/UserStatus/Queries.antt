-- ===== src/UserStatus/Queries.antt =====
-- src/modules/user-status/user-status.service.ts: the queries `getOnlineUsers`, `searchStatuses` and
-- `getStatus`, and that they agree.
use nestjs_stay_api.Common.{
  ◌≡◌, refl, ap, ◌∙◌, Bool, false, ◌||◌, ◌&&◌, Option, none, some, List, [], ◌∷◌, map, String, ◌==◌,
  arith, is_some, if◌then◌else◌, eq_iff, Bool-cases, inl, inr,
}
use nestjs_stay_api.Redis.{Redis, lookup}
use nestjs_stay_api.Websocket.{BroadcastUserStatusInfo, UserStatus, online}
use nestjs_stay_api.UserStatus.{user_status_hash_key, online_users}

-- `result[uid] = ONLINE` on a plain object
unfoldable pub set_online : String → BroadcastUserStatusInfo → BroadcastUserStatusInfo
set_online uid [] = if uid == "__proto__" then [] else (uid, online) ∷ []
set_online uid ((u, s) ∷ info) =
    let rest = set_online uid info in if u == uid then (u, online) ∷ info else (u, s) ∷ rest

-- The `forEach` of `searchStatuses`. An index out of range gives undefined, which is not null.
unfoldable pub collect :
    List String → List (Option String) → BroadcastUserStatusInfo → BroadcastUserStatusInfo
unfolding set_online
collect [] statuses result = result
collect (uid ∷ uids) [] result = collect uids [] (set_online uid result)
collect (uid ∷ uids) (none ∷ statuses) result = collect uids statuses result
collect (uid ∷ uids) (some status ∷ statuses) result = collect uids statuses (set_online uid result)

module _ (redis : Redis) where
  open redis use {State, h_get, h_get_all, h_m_get}

  -- `getOnlineUsers`
  unfoldable pub get_online_users : State → BroadcastUserStatusInfo
  unfolding online_users
  get_online_users s = online_users (h_get_all user_status_hash_key s)

  -- `searchStatuses`
  unfoldable pub search_statuses : List String → State → BroadcastUserStatusInfo
  unfolding collect
  search_statuses [] s = []
  search_statuses (uid ∷ uids) s =
      collect (uid ∷ uids) (h_m_get user_status_hash_key (uid ∷ uids) s) []

  -- `getStatus`
  unfoldable pub get_status : String → State → Option String
  get_status uid s = if is_some (h_get user_status_hash_key uid s) then some uid else none

lookup-set_online :
    (u v : String) (info : BroadcastUserStatusInfo)
    → (u == "__proto__") ≡ false
    → lookup u (set_online v info) ≡ (if v == u then some online else lookup u info)
unfolding lookup set_online
lookup-set_online u v [] plain =
    ground (arith, eq_iff v u, eq_iff v "__proto__", eq_iff u "__proto__")
lookup-set_online u v ((w, s) ∷ info) plain =
    ground (arith, lookup-set_online u v info plain, eq_iff w v, eq_iff w u, eq_iff v u)

lookup-online_users :
    (u : String) (values : List (String × String))
    → (u == "__proto__") ≡ false
    → lookup u (online_users values) ≡ (if is_some (lookup u values) then some online else none)
unfolding lookup online_users
lookup-online_users u [] plain = refl
lookup-online_users u ((f, v) ∷ values) plain = ground (
  arith,
  lookup-online_users u values plain,
  eq_iff f u,
  eq_iff f "__proto__",
  eq_iff u "__proto__",
)

-- Whether a text is in the list.
abbrev pub is_asked : String → List String → Bool
is_asked u [] = false
is_asked u (v ∷ vs) = v == u || is_asked u vs

collect_step :
    (v : String) (vs : List String) (o : Option String) (os : List (Option String))
    (result : BroadcastUserStatusInfo)
    → collect (v ∷ vs) (o ∷ os) result
      ≡ collect vs os (if is_some o then set_online v result else result)
unfolding collect
collect_step v vs none os result = refl
collect_step v vs (some s) os result = refl

module _ (get : String → Option String) (u : String) (plain : (u == "__proto__") ≡ false) where
  set_online_if :
      (v : String) (o : Option String) (result : BroadcastUserStatusInfo)
      → lookup u (if is_some o then set_online v result else result)
        ≡ (if v == u && is_some o then some online else lookup u result)
  set_online_if v none result = ground arith
  set_online_if v (some s) result = ground (arith, lookup-set_online u v result plain)

  is_asked_cons :
      (v : String) (b : Bool) (o : Option UserStatus)
      → (if b && is_some (get u)
          then some online
          else (if v == u && is_some (get v) then some online else o))
        ≡ (if (v == u || b) && is_some (get u) then some online else o)
  is_asked_cons v b o = elim (Bool-cases (v == u)) [
    | inl e ↦ ground (arith, e, ap get ((eq_iff v u).0 e))
    | inr e ↦ ground (arith, e)
  ]

  lookup-collect :
      (uids : List String) (result : BroadcastUserStatusInfo)
      → lookup u (collect uids (map get uids) result)
        ≡ (if is_asked u uids && is_some (get u) then some online else lookup u result)
  unfolding collect
  lookup-collect [] result = refl
  lookup-collect (v ∷ vs) result =
      ap (lookup u) (collect_step v vs (get v) (map get vs) result)
      ∙ lookup-collect vs (if is_some (get v) then set_online v result else result)
      ∙ ap (λ o. if is_asked u vs && is_some (get u) then some online else o)
          (set_online_if v (get v) result)
      ∙ is_asked_cons v (is_asked u vs) (lookup u result)

module _ (redis : Redis) (u : String) (plain : (u == "__proto__") ≡ false) where
  open redis use {State, h_get, h_get_all, h_m_get, h_m_get_lem, lookup-h_get_all}

  lookup-get_online_users :
      (s : State)
      → lookup u (get_online_users redis s)
        ≡ (if is_some (h_get user_status_hash_key u s) then some online else none)
  unfolding get_online_users
  lookup-get_online_users s =
      lookup-online_users u (h_get_all user_status_hash_key s) plain
      ∙ ap (λ o. if is_some o then some online else none)
          (lookup-h_get_all user_status_hash_key u s)

  searched :
      (uids : List String) (s : State)
      → lookup u (search_statuses redis uids s) ≡ (
          if is_asked u uids && is_some (h_get user_status_hash_key u s) then some online else none)
  unfolding search_statuses lookup
  searched [] s = refl
  searched (v ∷ vs) s =
      ap (λ os. lookup u (collect (v ∷ vs) os [])) (h_m_get_lem user_status_hash_key (v ∷ vs) s)
      ∙ lookup-collect (λ f. h_get user_status_hash_key f s) u plain (v ∷ vs) []

  -- For every user id but `__proto__`: a search shows it as online exactly if it was is_asked for and
  -- the list of all online users shows it, and that list shows it exactly if `getStatus` gives it.
  pub lookup-search_statuses :
      (uids : List String) (s : State)
      → (lookup u (search_statuses redis uids s)
          ≡ (if is_asked u uids then lookup u (get_online_users redis s) else none))
        × (lookup u (get_online_users redis s)
            ≡ (if is_some (get_status redis u s) then some online else none))
  unfolding get_status
  lookup-search_statuses uids s =
      let all = lookup-get_online_users s in
      let some_of = searched uids s in (ground (arith, all, some_of), ground (arith, all))
