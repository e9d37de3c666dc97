-- ===== src/Gateway/Runs.antt =====
-- The whole websocket server: what the sockets send goes through the gateway of
-- src/utils/websocket/websocket.gateway.ts, beside the rounds of pings, the expirations and the
-- pending operations of the user status channel.
use nestjs_stay_api.Common.{
  ℕ, ◌≡◌, ◌≢◌, ◌⊎◌, inl, inr, Bool, true, false, List, [], ◌∷◌, ◌++◌, String, includes, arith,
}
use nestjs_stay_api.Redis.{Redis}
use nestjs_stay_api.Websocket.{SubscribeMessage, close}
use nestjs_stay_api.UserStatus.{Task, World, emit, ping_all, handle_redis_expiration, resume}
use nestjs_stay_api.UserStatus.Reach
use nestjs_stay_api.UserStatus.Reach.{Step, Fault}
use nestjs_stay_api.UserStatus.Known.{Known, emit-Known}
use nestjs_stay_api.UserStatus.Known.Steps.{Step-Known, Fault-Known}
use nestjs_stay_api.UserStatus.Coverage.{Covered, Extends-Covered, emit-Extends}
use nestjs_stay_api.UserStatus.Coverage.Steps.{Step-Covered}
use nestjs_stay_api.UserStatus.Table.{DistinctClients, Step-Distinct, Fault-Distinct}
use nestjs_stay_api.Gateway.{
  Parsed, syntax_error, null, message, on_module_init, receive, handle_disconnect, handle_pong,
  Property, registered, inherited, missing, user_status_message, forward, internal_error,
}

module _ (redis : Redis) (exists : String → Bool) where
  open redis use {State, is_timed, expire}

  pub data ServerStep : World State → World State → Type 0 where
    receives :
        (w : World State) (client : ℕ) (parsed : Parsed)
        → ServerStep w (receive on_module_init client parsed w)
    pongs : (w : World State) (client : ℕ) → ServerStep w (handle_pong client w)
    disconnects :
        (w : World State) (client : ℕ) → ServerStep w (handle_disconnect on_module_init client w)
    pings : (w : World State) → ServerStep w (ping_all w)
    changes : (w : World State) (is_open : ℕ → Bool) → ServerStep w (record w { is_open = is_open })
    expires :
        (w : World State) (key : String)
        → is_timed key w.redis ≡ true
        → ServerStep w (handle_redis_expiration key (record w { redis = expire key w.redis }))
    resumes :
        (w : World State) (before after : List Task) (t : Task)
        → w.tasks ≡ before ++ t ∷ after
        → ServerStep w (resume redis exists t (record w { tasks = before ++ after }))

  -- Steps of the server, among which operations fail only where `faults` is true.
  pub data Run (faults : Bool) (start : World State) : World State → Type 0 where
    here : Run faults start start
    next : {w w' : World State} → Run faults start w → ServerStep w w' → Run faults start w'
    fails :
        {w w' : World State}
        → faults ≡ true
        → Run faults start w
        → Fault redis exists w w'
        → Run faults start w'

  -- The gateway closes a socket, and does nothing else.
  data Refusal : World State → World State → Type 0 where
    refuses :
        (w : World State) (client status : ℕ) (reason : String)
        → status ≢ 4001
        → Refusal w (emit (close client status reason ∷ []) w)

  forward-cases :
      (w : World State) (client : ℕ) (m : SubscribeMessage) (g : Property)
      → Step redis exists w (forward client m g w) ⊎ Refusal w (forward client m g w)
  unfolding forward internal_error
  forward-cases w client m (registered user_status_message) = inl (Reach.Step.receives w client m)
  forward-cases w client m inherited =
      inr (refuses w client 1011 "Internal Server Error" (λ e. omega (arith, e)))
  forward-cases w client m missing =
      inr (refuses w client 4004 "Bad Subscription Request" (λ e. omega (arith, e)))

  receive-cases :
      (w : World State) (client : ℕ) (parsed : Parsed)
      → Step redis exists w (receive on_module_init client parsed w)
        ⊎ Refusal w (receive on_module_init client parsed w)
  unfolding receive internal_error
  receive-cases w client syntax_error =
      inr (refuses w client 1011 "Internal Server Error" (λ e. omega (arith, e)))
  receive-cases w client null =
      inr (refuses w client 1011 "Internal Server Error" (λ e. omega (arith, e)))
  receive-cases w client (message m) = forward-cases w client m _

  ServerStep-cases : (w w' : World State) → ServerStep w w' → Step redis exists w w' ⊎ Refusal w w'
  unfolding handle_disconnect on_module_init handle_pong
  ServerStep-cases _ _ (receives w client parsed) = receive-cases w client parsed
  ServerStep-cases _ _ (pongs w client) = inl (Reach.Step.pongs w client)
  ServerStep-cases _ _ (disconnects w client) = inl (Reach.Step.disconnects w client)
  ServerStep-cases _ _ (pings w) = inl (Reach.Step.pings w)
  ServerStep-cases _ _ (changes w is_open) = inl (Reach.Step.changes w is_open)
  ServerStep-cases _ _ (expires w key e) = inl (Reach.Step.expires w key e)
  ServerStep-cases _ _ (resumes w before after t e) = inl (Reach.Step.resumes w before after t e)

  -- What the steps of the channel, its failures and the closing of a socket keep, a run keeps.
  Run_induction :
      (P : World State → Type 0) {faults : Bool} {start w : World State}
      → ((u u' : World State) → Step redis exists u u' → P u → P u')
      → ((u u' : World State) → Refusal u u' → P u → P u')
      → (faults ≡ true → (u u' : World State) → Fault redis exists u u' → P u → P u')
      → P start
      → Run faults start w
      → P w
  Run_induction P keep close_keeps survive p here = p
  Run_induction P keep close_keeps survive p (next r s) =
      let before = Run_induction P keep close_keeps survive p r in
      elim (ServerStep-cases _ _ s) [
        | inl step ↦ keep _ _ step before
        | inr refusal ↦ close_keeps _ _ refusal before
      ]
  Run_induction P keep close_keeps survive p (fails f r fault) =
      survive f _ _ fault (Run_induction P keep close_keeps survive p r)

  Refusal-Known : (w w' : World State) → Refusal w w' → Known redis exists w → Known redis exists w'
  Refusal-Known _ _ (refuses w client status reason n) k = emit-Known redis exists _ w (n, tt) k

  Refusal-Distinct : (w w' : World State) → Refusal w w' → DistinctClients w → DistinctClients w'
  unfolding emit
  Refusal-Distinct _ _ (refuses w client status reason n) d = d

  Refusal-Covered : (w w' : World State) → Refusal w w' → Covered redis w → Covered redis w'
  Refusal-Covered _ _ (refuses w client status reason n) c =
      Extends-Covered redis w (emit-Extends redis _ w) c

  -- Whatever the sockets send, JSON or not, for a channel or none, however the steps interleave, and
  -- whatever operations fail: if at first every user in the hash, in the table of clients, in a pending
  -- write and in a message to a socket is one that the users table holds, and each socket is tracked at
  -- most once, it stays so.
  pub Run-IsSafe :
      (faults : Bool) (start w : World State)
      → Run faults start w
      → Known redis exists start
      → DistinctClients start
      → Known redis exists w × DistinctClients w
  Run-IsSafe faults start w r k d = (
    Run_induction (Known redis exists) (Step-Known redis exists) Refusal-Known
        (λ f. Fault-Known redis exists) k r,
    Run_induction DistinctClients (Step-Distinct redis exists) Refusal-Distinct
        (λ f. Fault-Distinct redis exists) d r,
  )

  -- Where no operation fails and no id of a user has a colon, every user in the hash stays covered,
  -- whatever the sockets send.
  Run-Covered :
      ((uid : String) → exists uid ≡ true → includes b':' uid ≡ false)
      → (start w : World State) → Run false start w
      → Known redis exists start
      → Covered redis start
      → Covered redis w
  Run-Covered plain start w r k c =
      (Run_induction (λ u. Known redis exists u × Covered redis u) (Step-Covered redis exists plain)
        (λ u u' s p. (Refusal-Known u u' s p.0, Refusal-Covered u u' s p.1))
        (λ f. absurd (ground (arith, f))) (k, c) r).1
