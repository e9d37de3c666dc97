-- ===== src/UserStatus/State.antt =====
-- The state of the presence channel, and the constants of src/modules/user-status/user-status.type.ts.
use Prim.Native.String
use nestjs_stay_api.Common.{ℕ, Bool, false, Option, List, [], ◌∷◌, String, if◌then◌else◌}
use nestjs_stay_api.Websocket.{CloseMessage, Frame, ping, TrackedClient}

abbrev pub user_status_hash_key : String
user_status_hash_key = "stay:user:status"

abbrev pub user_status_hash_ttl_key : String
user_status_hash_ttl_key = String.◌++◌ user_status_hash_key ":ttl:"

-- Seconds.
abbrev pub ttl_expiration_time : ℕ
ttl_expiration_time = 15

abbrev pub ttl_key : String → String
ttl_key uid = String.◌++◌ user_status_hash_ttl_key uid

-- Who waits for `setStatus`: `subscribeMessage` of a client, or `pong`.
pub data Awaiting : Type 0 where
  after_subscribe : ℕ → Bool → Awaiting
  after_pong : Awaiting

-- A handler stopped at an `await`, named for the operation that it waits for.
pub data Task : Type 0 where
  checking : ℕ → Option String → String → Bool → Task
  h_setting : String → Awaiting → Task
  setting : String → Awaiting → Task
  getting_online : ℕ → Task
  unsubscribing : ℕ → String → Task
  expiring : String → Task

-- The server's state, the service's `clients`, the pending tasks, the frames handed to the sockets
-- so far, which sockets are open, and how many promises were rejected with nobody to handle it. At the
-- first of these Node ends the process: a state with one is its last, and what the model does from there
-- is no run of the program.
pub record World (S : Type 0) : Type 0 where
  pub redis : S
  pub clients : List TrackedClient
  pub tasks : List Task
  pub frames : List Frame
  pub is_open : ℕ → Bool
  pub unhandled : ℕ

abbrev pub invalid_uid : CloseMessage
invalid_uid = record { status = 4001; name = "user-status"; message = "invalid user_uid format" }

abbrev pub unknown_uid : CloseMessage
unknown_uid = record { status = 4004; name = "user-status"; message = "not user_uid found" }

-- One round of `ping` over each client: a silent one is dropped, the others are asked.
unfoldable pub ping_clients : List TrackedClient → List TrackedClient
ping_clients [] = []
ping_clients (c ∷ cs) =
    let rest = ping_clients cs in if c.is_alive then record c { is_alive = false } ∷ rest else rest

unfoldable pub ping_frames : List TrackedClient → List Frame
ping_frames [] = []
ping_frames (c ∷ cs) =
    let rest = ping_frames cs in if c.is_alive then ping c.socket ∷ rest else rest
