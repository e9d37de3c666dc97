-- ===== src/Gateway.antt =====
-- src/utils/websocket/websocket.gateway.ts: which channel gets a message, and the end of a
-- connection. `JSON.parse` answers a `Parsed`; the property key of a missing `channel` is
-- "undefined". A plain object also has the properties of `Object.prototype`, none of which has a
-- `handleMessage`.
pub mod Laws
pub mod Runs
use nestjs_stay_api.Common.{
  holds, Bool, true, false, Option, none, some, ℕ, List, [], ◌∷◌, String, ◌==◌, ◌||◌, or_else,
  if◌then◌else◌,
}
use nestjs_stay_api.Redis.{lookup}
use nestjs_stay_api.Websocket.{SubscribeMessage, close, websocket_channel_user_status}
use nestjs_stay_api.UserStatus.{World, emit, handle_message, drop_client, pong}

-- The one implementation of `WebsocketChannel`.
pub data Channel : Type 0 where
  user_status_message : Channel

-- `channelGateways`
abbrev pub ChannelGateways : Type 0
ChannelGateways = List (String × Channel)

-- `registerChannel`: an own property is replaced in place, a new one goes last.
unfoldable pub register_channel : String → Channel → ChannelGateways → ChannelGateways
register_channel channel gateway [] = (channel, gateway) ∷ []
register_channel channel gateway ((c, g) ∷ gs) =
    if c == channel then (c, gateway) ∷ gs else (c, g) ∷ register_channel channel gateway gs

-- `onModuleInit`, on the empty object that the class starts with
unfoldable pub on_module_init : ChannelGateways
unfolding register_channel
on_module_init = register_channel websocket_channel_user_status user_status_message []

-- The names of `Object.prototype`.
unfoldable pub is_inherited : String → Bool
is_inherited key = holds key (
    "constructor" ∷ "toString" ∷ "valueOf" ∷ "toLocaleString" ∷ "hasOwnProperty" ∷ "isPrototypeOf"
    ∷ "propertyIsEnumerable" ∷ "__proto__" ∷ "__defineGetter__" ∷ "__defineSetter__"
    ∷ "__lookupGetter__" ∷ "__lookupSetter__" ∷ [])

-- What `channelGateways[key]` is: a channel, something of `Object.prototype`, or undefined.
pub data Property : Type 0 where
  registered : Channel → Property
  inherited : Property
  missing : Property

unfoldable pub get_property : String → ChannelGateways → Property
unfolding is_inherited lookup
get_property key gateways = elim (lookup key gateways) [
  | some g ↦ registered g
  | none ↦ if is_inherited key then inherited else missing
]

-- The outcome of `JSON.parse`: an error, `null`, or a value whose fields are read.
pub data Parsed : Type 0 where
  syntax_error : Parsed
  null : Parsed
  message : SubscribeMessage → Parsed

module _ {S : Type 0} where
  -- The `catch` of `handleMessage`.
  unfoldable pub internal_error : ℕ → World S → World S
  unfolding emit
  internal_error client = emit (close client 1011 "Internal Server Error" ∷ [])

  -- `handleMessage` once the gateway is looked up
  unfoldable pub forward : ℕ → SubscribeMessage → Property → World S → World S
  unfolding internal_error handle_message emit
  forward client m (registered user_status_message) w = handle_message client m w
  forward client m inherited w = internal_error client w
  forward client m missing w = emit (close client 4004 "Bad Subscription Request" ∷ []) w

  -- `handleMessage`, for one datum that a socket received
  unfoldable pub receive : ChannelGateways → ℕ → Parsed → World S → World S
  unfolding forward get_property internal_error
  receive gateways client syntax_error w = internal_error client w
  receive gateways client null w = internal_error client w
  receive gateways client (message m) w =
      forward client m (get_property (or_else m.channel "undefined") gateways) w

  -- `handleDisconnect`: every registered channel forgets the client.
  unfoldable pub handle_disconnect : ChannelGateways → ℕ → World S → World S
  unfolding drop_client
  handle_disconnect [] client w = w
  handle_disconnect ((c, user_status_message) ∷ gs) client w =
      handle_disconnect gs client (drop_client client w)

  -- `handlePong`
  unfoldable pub handle_pong : ℕ → World S → World S
  unfolding pong
  handle_pong client w = pong client w
