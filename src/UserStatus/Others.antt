-- ===== src/UserStatus/Others.antt =====
-- What the handlers for one socket leave of the server and of another socket's entry.
use nestjs_stay_api.Common.{
  ℕ, ◌≡◌, ◌≢◌, refl, sym, ◌∙◌, inl, inr, Bool, true, false, Option, none, some, List, [], String,
  Option-cases, arith, if◌then◌else◌,
}
use nestjs_stay_api.Websocket.{
  BroadcastUserStatusInfo, SubscribeMessage, TrackedClient, get_client, set_client, delete_client,
}
use nestjs_stay_api.Websocket.Clients.{
  Distinct, get_client-set_client, get_client-delete_client, get_client-socket,
}
use nestjs_stay_api.UserStatus.{
  unsubscribing, World, spawn, emit, send_client_message, subscribed, subscribe_message,
  unsubscribed, unsubscribe_message, dispatch, handle_message, pong, set_status,
}

-- The same server, and the same entry of a client
abbrev pub Spares : {S : Type 0} → ℕ → World S → World S → Type 0
Spares client w w' =
    (w'.redis ≡ w.redis) × (get_client client w'.clients ≡ get_client client w.clients)

pub Spares-either :
    {S : Type 0} (client : ℕ) (w a b : World S) (test : Bool)
    → Spares client w a
    → Spares client w b
    → Spares client w (if test then a else b)
Spares-either client w a b true p q = p
Spares-either client w a b false p q = q

pub set_other :
    (client : ℕ) (new : TrackedClient) (cs : List TrackedClient)
    → new.socket ≢ client
    → get_client client (set_client new cs) ≡ get_client client cs
set_other client new cs apart = ground (arith, get_client-set_client client new cs)

pub delete_other :
    (client other : ℕ) (cs : List TrackedClient)
    → other ≢ client
    → Distinct cs
    → get_client client (delete_client other cs) ≡ get_client client cs
delete_other client other cs apart d = ground (arith, get_client-delete_client client other cs d)

module _ {S : Type 0} (client other : ℕ) (apart : other ≢ client) where
  pub subscribed-Spares :
      (u : Option String) (info : BroadcastUserStatusInfo) (reset : Bool) (w : World S)
      → Spares client w (subscribed other u info reset w)
  unfolding subscribed send_client_message emit spawn
  subscribed-Spares u info true w = (refl, set_other client _ w.clients apart)
  subscribed-Spares u info false w = (refl, set_other client _ w.clients apart)

  pub subscribe_message-Spares :
      (u : Option String) (reset : Bool) (w : World S)
      → Spares client w (subscribe_message other u reset w)
  unfolding subscribe_message set_status spawn
  subscribe_message-Spares none reset w = subscribed-Spares none [] reset w
  subscribe_message-Spares (some u) reset w = (refl, refl)

  pub unsubscribe_message-Spares :
      (u : Option String) (w : World S)
      → Distinct w.clients
      → Spares client w (unsubscribe_message other u w)
  unfolding unsubscribe_message unsubscribed send_client_message emit spawn
  unsubscribe_message-Spares u w d = elim (Option-cases (get_client other w.clients)) [
    | inl e ↦ rw (e, unsubscribe_message) ((refl, refl))
    | inr (c, e) ↦
        rw (e, unsubscribe_message)
          (elim u
            as (λ u. Spares client w (elim u [
              | none ↦ unsubscribed other w
              | some u' ↦ spawn (unsubscribing other u') w
            ])) [
              | none ↦ (refl, delete_other client other w.clients apart d)
              | some u' ↦ (refl, refl)
            ])
  ]

  pub dispatch-Spares :
      (type u : Option String) (reset : Bool) (w : World S)
      → Distinct w.clients
      → Spares client w (dispatch other type u reset w)
  unfolding dispatch
  dispatch-Spares none u reset w d = (refl, refl)
  dispatch-Spares (some type) u reset w d =
      let subscribes = subscribe_message-Spares u reset w in
      let unsubscribes = unsubscribe_message-Spares u w d in
      Spares-either client w _ _ _ subscribes
        (Spares-either client w _ _ _ unsubscribes (refl, refl))

  pub handle_message-Spares :
      (m : SubscribeMessage) (w : World S)
      → Distinct w.clients
      → Spares client w (handle_message other m w)
  unfolding handle_message spawn
  handle_message-Spares m w d = elim (Option-cases m.user_uid) [
    | inl e ↦ rw (e, handle_message) (dispatch-Spares m.connect_type none true w d)
    | inr (u, e) ↦ rw (e, handle_message) (refl, refl)
  ]

  pub pong-Spares : (w : World S) → Spares client w (pong other w)
  unfolding pong set_status spawn
  pong-Spares w = elim (Option-cases (get_client other w.clients)) [
    | inl e ↦ rw (e, pong) (refl, refl)
    | inr (c, e) ↦
        rw (e, pong)
          (elim (Option-cases c.user_uid) [
            | inl n ↦ rw n (
              refl,
              set_other client _ w.clients
                  (λ q. apart (sym (get_client-socket other w.clients c e) ∙ q)),
            )
            | inr (u, n) ↦ rw n (
              refl,
              set_other client _ w.clients
                  (λ q. apart (sym (get_client-socket other w.clients c e) ∙ q)),
            )
          ])
  ]
