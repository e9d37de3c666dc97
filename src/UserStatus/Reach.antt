-- ===== src/UserStatus/Reach.antt =====
-- The interleavings: every step that the event loop can take, and the states that they reach. The
-- environment chooses the messages, the pending task that goes on, and which keys expire when.
use nestjs_stay_api.Common.{ℕ, ◌≡◌, ◌⊎◌, inl, inr, Bool, true, List, ◌∷◌, ◌++◌, String}
use nestjs_stay_api.Redis.{Redis}
use nestjs_stay_api.Websocket.{SubscribeMessage}
use nestjs_stay_api.UserStatus.{
  Task, World, handle_message, ping_all, pong, handle_redis_expiration, drop_client, resume, reject,
}

module _ (redis : Redis) (exists : String → Bool) where
  open redis use {State, is_timed, expire}

  -- A step in which no operation fails.
  pub data Step : World State → World State → Type 0 where
    receives :
        (w : World State) (client : ℕ) (message : SubscribeMessage)
        → Step w (handle_message client message w)
    pings : (w : World State) → Step w (ping_all w)
    pongs : (w : World State) (client : ℕ) → Step w (pong client w)
    disconnects : (w : World State) (client : ℕ) → Step w (drop_client client w)
    -- Sockets open and close.
    changes : (w : World State) (is_open : ℕ → Bool) → Step w (record w { is_open = is_open })
    expires :
        (w : World State) (key : String)
        → is_timed key w.redis ≡ true
        → Step w (handle_redis_expiration key (record w { redis = expire key w.redis }))
    resumes :
        (w : World State) (before after : List Task) (t : Task)
        → w.tasks ≡ before ++ t ∷ after
        → Step w (resume redis exists t (record w { tasks = before ++ after }))

  -- The operation that a pending task waits for fails.
  pub data Fault : World State → World State → Type 0 where
    rejects :
        (w : World State) (before after : List Task) (t : Task)
        → w.tasks ≡ before ++ t ∷ after
        → Fault w (reject t (record w { tasks = before ++ after }))

  pub data Reach (start : World State) : World State → Type 0 where
    here : Reach start start
    next : {w w' : World State} → Reach start w → Step w w' → Reach start w'

  pub data FaultyReach (start : World State) : World State → Type 0 where
    here : FaultyReach start start
    next :
        {w w' : World State} → FaultyReach start w → Step w w' ⊎ Fault w w' → FaultyReach start w'

  pub Reach_induction :
      (P : World State → Type 0) {start w : World State}
      → ((u u' : World State) → Step u u' → P u → P u')
      → P start
      → Reach start w
      → P w
  Reach_induction P keep p here = p
  Reach_induction P keep p (next r s) = keep _ _ s (Reach_induction P keep p r)

  pub FaultyReach_induction :
      (P : World State → Type 0) {start w : World State}
      → ((u u' : World State) → Step u u' → P u → P u')
      → ((u u' : World State) → Fault u u' → P u → P u')
      → P start
      → FaultyReach start w
      → P w
  FaultyReach_induction P keep survive p here = p
  FaultyReach_induction P keep survive p (next r (inl s)) =
      keep _ _ s (FaultyReach_induction P keep survive p r)
  FaultyReach_induction P keep survive p (next r (inr f)) =
      survive _ _ f (FaultyReach_induction P keep survive p r)
