-- ===== src/UserStatus/Clock.antt =====
-- Time: how long the keys have still to live, and what can happen around one client that answers its
-- pings. Times are milliseconds.
use nestjs_stay_api.Common.{
  ℕ, ◌+◌, ◌-◌, ◌*◌, ◌≤◌, ◌≡◌, ◌≢◌, Bool, false, List, ◌∷◌, ◌++◌, String, ltb, ◌==◌, if◌then◌else◌,
}
use nestjs_stay_api.Redis.{Redis}
use nestjs_stay_api.Websocket.{SubscribeMessage}
use nestjs_stay_api.UserStatus.{
  Awaiting, after_subscribe, after_pong, Task, checking, h_setting, setting, getting_online,
  unsubscribing, expiring, World, handle_message, ping_all, pong, handle_redis_expiration,
  drop_client, resume, reject,
}

abbrev pub ping_interval : ℕ
ping_interval = 10000

-- A Redis server in time: what PTTL answers for a key with a time to live (0 for one without), and the
-- passing of time, at whose end a key whose time is over is gone.
pub record Clock (redis : Redis) : Type 0 where
  pub remaining : String → redis.State → ℕ
  pub elapse : ℕ → redis.State → redis.State
  pub is_timed_lem : (k : String) (s : redis.State) → redis.is_timed k s ≡ ltb 0 (remaining k s)
  pub remaining-set :
      (k v j : String) (n : ℕ) (s : redis.State)
      → remaining j (redis.set k v n s) ≡ (if k == j then n * 1000 else remaining j s)
  pub remaining-h_set :
      (k f v j : String) (s : redis.State) → remaining j (redis.h_set k f v s) ≡ remaining j s
  pub remaining-h_del :
      (k f j : String) (s : redis.State)
      → (k == j) ≡ false
      → remaining j (redis.h_del k f s).0 ≡ remaining j s
  pub remaining-h_del_self :
      (k f : String) (s : redis.State) → remaining k (redis.h_del k f s).0 ≤ remaining k s
  pub remaining-elapse :
      (m : ℕ) (k : String) (s : redis.State) → remaining k (elapse m s) ≡ remaining k s - m
  pub h_get-elapse :
      (m : ℕ) (k f : String) (s : redis.State)
      → remaining k s ≡ 0
      → redis.h_get k f (elapse m s) ≡ redis.h_get k f s

-- Whose answer a task awaits: an operation that is not for the client, and does not take the user away.
abbrev pub WaitsElsewhere : ℕ → Awaiting → Type 0
WaitsElsewhere client (after_subscribe other reset) = other ≢ client
WaitsElsewhere client after_pong = Unit {0}

abbrev pub IsForeign : ℕ → String → Task → Type 0
IsForeign client uid (checking other type u reset) = other ≢ client
IsForeign client uid (h_setting u k) = WaitsElsewhere client k
IsForeign client uid (setting u k) = WaitsElsewhere client k
IsForeign client uid (getting_online other) = Unit {0}
IsForeign client uid (unsubscribing other u) = (other ≢ client) × (u ≢ uid)
IsForeign client uid (expiring u) = u ≢ uid

module _ (redis : Redis) (exists : String → Bool) (clock : Clock redis) (client : ℕ)
    (uid : String) where
  open redis use {State}

  -- What others do, and failures: messages, pongs and ends of other sockets, notifications of expired
  -- keys, and the pending operations of others. Nobody takes the user out of the hash.
  pub data Foreign : World State → World State → Type 0 where
    receives :
        (w : World State) (other : ℕ) (message : SubscribeMessage)
        → other ≢ client
        → Foreign w (handle_message other message w)
    pongs : (w : World State) (other : ℕ) → other ≢ client → Foreign w (pong other w)
    disconnects : (w : World State) (other : ℕ) → other ≢ client → Foreign w (drop_client other w)
    changes : (w : World State) (is_open : ℕ → Bool) → Foreign w (record w { is_open = is_open })
    notifies : (w : World State) (key : String) → Foreign w (handle_redis_expiration key w)
    resumes :
        (w : World State) (before after : List Task) (t : Task)
        → w.tasks ≡ before ++ t ∷ after
        → IsForeign client uid t
        → Foreign w (resume redis exists t (record w { tasks = before ++ after }))
    rejects :
        (w : World State) (before after : List Task) (t : Task)
        → w.tasks ≡ before ++ t ∷ after
        → Foreign w (reject t (record w { tasks = before ++ after }))

  -- Where the client's answer to the last round of pings is: not yet come, or come with one of the two
  -- writes of `setStatus` pending, or both done.
  pub data Phase : Type 0 where
    waiting h_writing writing answered : Phase

  -- How long after a round of pings a phase may still last: an answer is written in less than five
  -- seconds, and the next round comes when the interval is over.
  abbrev pub limit : Phase → ℕ
  limit answered = ping_interval
  limit _ = 4999

  -- A client that answers every round in time, with anything of others between: the phase, the time
  -- since the last round, and the state. It begins with an answer just written, at any time in a round.
  pub data Beating (start : World State) : Phase → ℕ → World State → Type 0 where
    begins : (t : ℕ) → t ≤ ping_interval → Beating start answered t start
    passes :
        (p : Phase) (t m : ℕ) (w : World State)
        → Beating start p t w
        → t + m ≤ limit p
        → Beating start p (t + m) (record w { redis = clock.elapse m w.redis })
    rounds :
        (t : ℕ) (w : World State)
        → Beating start answered t w
        → Beating start waiting 0 (ping_all w)
    answers :
        (t : ℕ) (w : World State)
        → Beating start waiting t w
        → Beating start h_writing t (pong client w)
    writes_hash :
        (t : ℕ) (w : World State) (before after : List Task)
        → Beating start h_writing t w
        → w.tasks ≡ before ++ h_setting uid after_pong ∷ after
        → Beating start writing t
            (resume redis exists (h_setting uid after_pong) (record w { tasks = before ++ after }))
    writes_key :
        (t : ℕ) (w : World State) (before after : List Task)
        → Beating start writing t w
        → w.tasks ≡ before ++ setting uid after_pong ∷ after
        → Beating start answered t
            (resume redis exists (setting uid after_pong) (record w { tasks = before ++ after }))
    others :
        (p : Phase) (t : ℕ) (w w' : World State)
        → Beating start p t w
        → Foreign w w'
        → Beating start p t w'
