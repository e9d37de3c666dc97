-- ===== src/Websocket.antt =====
-- src/types/websocket.type.ts, src/types/enum.ts and src/utils/websocket/websocket.channel.ts: the
-- messages, the sockets' frames and the channel's table of clients. A `WebSocket` is an identity, a
-- number; what the code does to it is recorded as a frame.
pub mod Clients
use nestjs_stay_api.Common.{
  ℕ, Bool, true, false, Option, none, some, List, [], ◌∷◌, ◌++◌, String, nat_eq, if◌then◌else◌,
}
use Prim.Native.String

-- $Enums.UserStatusType
pub data UserStatus : Type 0 where
  online offline : UserStatus

-- The text of a status, which is what Redis keeps.
abbrev pub status_text : UserStatus → String
status_text online = "online"
status_text offline = "offline"

-- BroadcastUserStatusInfo: an object with a status for each user.
abbrev pub BroadcastUserStatusInfo : Type 0
BroadcastUserStatusInfo = List (String × UserStatus)

abbrev pub websocket_subscribe : String
websocket_subscribe = "subscribe"

abbrev pub websocket_unsubscribe : String
websocket_unsubscribe = "unsubscribe"

abbrev pub websocket_channel_user_status : String
websocket_channel_user_status = "user_status"

-- A parsed message. A missing field is `none`; `reset` is whether the field is `true`.
pub record SubscribeMessage : Type 0 where
  pub connect_type : Option String
  pub channel : Option String
  pub user_uid : Option String
  pub reset : Bool

pub record CloseMessage : Type 0 where
  pub status : ℕ
  pub name : String
  pub message : String

-- `BroadcastUserStatusInfo | WebsocketConnectType`
pub data Payload : Type 0 where
  statuses : BroadcastUserStatusInfo → Payload
  connect_type : String → Payload

-- What the code asks of a socket: `send` of a channel's data, `ping` and `close`.
pub data Frame : Type 0 where
  send : ℕ → String → Payload → Frame
  ping : ℕ → Frame
  close : ℕ → ℕ → String → Frame

pub record TrackedClient : Type 0 where
  pub socket : ℕ
  pub user_uid : Option String
  pub is_alive : Bool

-- `clients.get(socket)`
unfoldable pub get_client : ℕ → List TrackedClient → Option TrackedClient
get_client s [] = none
get_client s (c ∷ cs) = if nat_eq c.socket s then some c else get_client s cs

-- `clients.set(client.socket, client)`: a key that is there keeps its place, a new one goes last.
unfoldable pub set_client : TrackedClient → List TrackedClient → List TrackedClient
set_client new [] = new ∷ []
set_client new (c ∷ cs) = if nat_eq c.socket new.socket then new ∷ cs else c ∷ set_client new cs

-- `clients.delete(socket)`. The keys of a `Map` are distinct.
unfoldable pub delete_client : ℕ → List TrackedClient → List TrackedClient
delete_client s [] = []
delete_client s (c ∷ cs) = if nat_eq c.socket s then cs else c ∷ delete_client s cs

-- `connectedClient != null && client.socket === connectedClient`
abbrev pub is_connected : Option ℕ → ℕ → Bool
is_connected none s = false
is_connected (some connected) s = nat_eq s connected

-- The frames of `broadcastStatus`: to every tracked client but the given one, if it is open.
unfoldable pub broadcast_status :
    (ℕ → Bool) → Option ℕ → String → Payload → List TrackedClient → List Frame
broadcast_status is_open connected channel info [] = []
broadcast_status is_open connected channel info (c ∷ cs) =
    let rest = broadcast_status is_open connected channel info cs in
    if is_connected connected c.socket
    then rest
    else (if is_open c.socket then send c.socket channel info ∷ rest else rest)

-- `handleClose`
unfoldable pub handle_close : ℕ → CloseMessage → Frame
handle_close client info =
    close client info.status (String.◌++◌ info.name (String.◌++◌ " : " info.message))
