-- ===== src/Gateway/Laws.antt =====
-- The routing of a datum, and the end of a connection.
use nestjs_stay_api.Common.{
  ℕ, ◌≡◌, refl, sym, ap, ◌∙◌, ◌≢◌, inl, inr, Option, none, some, [], ◌∷◌, ◌++◌, arith, String, ◌==◌,
  eq_iff, nat_eq, Bool-cases, or_else, if◌then◌else◌,
}
use nestjs_stay_api.Websocket.{
  SubscribeMessage, close, Frame, get_client, websocket_channel_user_status,
}
use nestjs_stay_api.Websocket.Clients.{Distinct, get_client-delete_client}
use nestjs_stay_api.UserStatus.{World, handle_message}
use nestjs_stay_api.Gateway.{
  syntax_error, null, message, on_module_init, is_inherited, receive, handle_disconnect,
  get_property, forward, user_status_message, missing, inherited, registered,
}

-- The close frame of a datum that no channel takes.
abbrev pub refusal : ℕ → String → Frame
refusal client key =
    if is_inherited key
    then close client 1011 "Internal Server Error"
    else close client 4004 "Bad Subscription Request"

own_channel :
    (channel : Option String)
    → channel ≡ some websocket_channel_user_status
    → get_property (or_else channel "undefined") on_module_init ≡ registered user_status_message
unfolding get_property on_module_init
own_channel none e = cc
own_channel (some c) e = ground (arith, eq_iff websocket_channel_user_status c)

other_channel :
    (channel : Option String)
    → channel ≢ some websocket_channel_user_status
    → get_property (or_else channel "undefined") on_module_init
      ≡ (if is_inherited (or_else channel "undefined") then inherited else missing)
unfolding get_property on_module_init
other_channel none e = refl
other_channel (some c) e = elim (Bool-cases (websocket_channel_user_status == c)) [
  | inl same ↦ absurd (e (ap some (sym ((eq_iff _ _).0 same))))
  | inr apart ↦ rw (apart, get_property)
]

refused :
    {S : Type 0} (client : ℕ) (m : SubscribeMessage) (w : World S) (key : String)
    → forward client m (if is_inherited key then inherited else missing) w
      ≡ record w { frames = w.frames ++ refusal client key ∷ [] }
unfolding forward
refused client m w key = elim (Bool-cases (is_inherited key)) [
  | inl e ↦ rw (e, forward)
  | inr e ↦ rw (e, forward)
]

module _ {S : Type 0} (client : ℕ) (w : World S) where
  -- A datum for the user status channel reaches its handler and nothing else happens; any other
  -- closes the socket and touches no other part of the state: with 1011 if it is no JSON, is null,
  -- or names a property that every object has, and with 4004 otherwise.
  receive_lem :
      (m : SubscribeMessage)
      → (m.channel ≡ some websocket_channel_user_status
          → receive on_module_init client (message m) w ≡ handle_message client m w)
        × (m.channel ≢ some websocket_channel_user_status
            → receive on_module_init client (message m) w ≡ record w {
              frames = w.frames ++ refusal client (or_else m.channel "undefined") ∷ [];
            })
        × (receive on_module_init client syntax_error w
            ≡ record w { frames = w.frames ++ close client 1011 "Internal Server Error" ∷ [] })
        × (receive on_module_init client null w ≡ receive on_module_init client syntax_error w)
  unfolding receive
  receive_lem m = (
    λ own. ap (λ g. forward client m g w) (own_channel m.channel own),
    λ other.
        ap (λ g. forward client m g w) (other_channel m.channel other)
        ∙ refused client m w (or_else m.channel "undefined"),
    refl,
    refl,
  )

  -- The end of a connection takes the socket out of the table and no other; the server's state and
  -- the frames are left alone, so the user stays in the hash until the key expires.
  handle_disconnect_lem :
      Distinct w.clients
      → let w' = handle_disconnect on_module_init client w in
        ((s : ℕ)
          → get_client s w'.clients ≡ (if nat_eq client s then none else get_client s w.clients))
        × (w'.redis ≡ w.redis)
        × (w'.frames ≡ w.frames)
        × (w'.tasks ≡ w.tasks)
  unfolding handle_disconnect on_module_init
  handle_disconnect_lem d = (λ s. get_client-delete_client s client w.clients d, refl, refl, refl)
