-- ===== src/UserStatus/View.antt =====
-- What a client that listens has been shown: the last status that it was sent for each user.

pub mod Calm
pub mod Steps
pub mod News
use nestjs_stay_api.Common.{
  ℕ, ◌≡◌, refl, Bool, true, false, ◌&&◌, not, Option, none, some, List, [], ◌∷◌, ◌++◌, is_some,
  String, nat_eq, ◌==◌, arith, if◌then◌else◌,
}
use nestjs_stay_api.Redis.{lookup}
use nestjs_stay_api.Websocket.{
  UserStatus, online, offline, BroadcastUserStatusInfo, Payload, statuses, connect_type, Frame,
  send, ping, close, TrackedClient, get_client, is_connected, broadcast_status,
}
use nestjs_stay_api.UserStatus.{ping_frames}

abbrev pub is_online : UserStatus → Bool
is_online online = true
is_online offline = false

-- Whether the user is shown as online, after data that need not speak of the user
abbrev pub updated : String → BroadcastUserStatusInfo → Bool → Bool
updated uid info before = elim (lookup uid info) [ none ↦ before | some s ↦ is_online s ]

abbrev pub shown : ℕ → String → Bool → List Frame → Bool
shown socket uid before [] = before
shown socket uid before (send s channel (statuses info) ∷ fs) =
    shown socket uid (if nat_eq s socket then updated uid info before else before) fs
shown socket uid before (send s channel (connect_type type) ∷ fs) = shown socket uid before fs
shown socket uid before (ping s ∷ fs) = shown socket uid before fs
shown socket uid before (close s status reason ∷ fs) = shown socket uid before fs

pub shown-append :
    (socket : ℕ) (uid : String) (before : Bool) (fs gs : List Frame)
    → shown socket uid before (fs ++ gs) ≡ shown socket uid (shown socket uid before fs) gs
shown-append socket uid before [] gs = refl
shown-append socket uid before (send s channel (statuses info) ∷ fs) gs =
    shown-append socket uid (if nat_eq s socket then updated uid info before else before) fs gs
shown-append socket uid before (send s channel (connect_type type) ∷ fs) gs =
    shown-append socket uid before fs gs
shown-append socket uid before (ping s ∷ fs) gs = shown-append socket uid before fs gs
shown-append socket uid before (close s status reason ∷ fs) gs =
    shown-append socket uid before fs gs

pub shown-ping_frames :
    (socket : ℕ) (uid : String) (before : Bool) (cs : List TrackedClient)
    → shown socket uid before (ping_frames cs) ≡ before
unfolding ping_frames
shown-ping_frames socket uid before [] = refl
shown-ping_frames socket uid before (c ∷ cs) =
    ground (arith, shown-ping_frames socket uid before cs)

-- News about one user
abbrev pub after_news : String → UserStatus → String → Bool → Bool
after_news about status uid before = if about == uid then is_online status else before

updated_one :
    (about uid : String) (status : UserStatus) (before : Bool)
    → updated uid ((about, status) ∷ []) before ≡ after_news about status uid before
unfolding lookup
updated_one about uid status before = ground arith

pub shown-broadcast_status :
    (is_open : ℕ → Bool) (connected : Option ℕ) (channel about uid : String) (status : UserStatus)
    (socket : ℕ) (before : Bool) (cs : List TrackedClient)
    → shown socket uid before
        (broadcast_status is_open connected channel (statuses ((about, status) ∷ [])) cs)
      ≡ (if is_some (get_client socket cs) && is_open socket && not (is_connected connected socket)
          then after_news about status uid before
          else before)
unfolding get_client broadcast_status
shown-broadcast_status is_open connected channel about uid status socket before [] = refl
shown-broadcast_status is_open connected channel about uid status socket before (c ∷ cs) = ground (
  arith,
  updated_one about uid status before,
  shown-broadcast_status is_open connected channel about uid status socket before cs,
  shown-broadcast_status is_open connected channel about uid status socket
      (updated uid ((about, status) ∷ []) before) cs,
)
