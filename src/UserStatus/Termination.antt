-- ===== src/UserStatus/Termination.antt =====
-- The pending operations come to an end: each of them costs a number of completions that is known
-- beforehand, in whatever order they go on.
use nestjs_stay_api.Common.{
  ℕ, zero, suc, ◌+◌, ◌≤◌, ◌≡◌, refl, ap, ◌∙◌, inl, inr, Bool, true, false, Option, none, some, List,
  [], ◌∷◌, ◌++◌, arith, String, List-cases,
}
use nestjs_stay_api.Redis.{Redis}
use nestjs_stay_api.Websocket.{BroadcastUserStatusInfo}
use nestjs_stay_api.UserStatus.{
  Awaiting, after_subscribe, after_pong, Task, checking, h_setting, setting, getting_online,
  unsubscribing, expiring, World, spawn, emit, send_client_message, broadcast, subscribed, dispatch,
  unsubscribed, subscribe_message, unsubscribe_message, checked, status_set, set_status, resume,
  reject, unhandled_rejection,
}
use nestjs_stay_api.UserStatus.Flows.{settle}

-- How many operations a task may still wait for, itself included.
abbrev pub cost : Task → ℕ
cost (checking client type uid reset) = 4
cost (h_setting uid k) = 3
cost (setting uid k) = 2
cost (getting_online client) = 1
cost (unsubscribing client uid) = 1
cost (expiring uid) = 1

unfoldable pub load : List Task → ℕ
load [] = 0
load (t ∷ ts) = cost t + load ts

load-append : (xs ys : List Task) → load (xs ++ ys) ≡ load xs + load ys
unfolding load
load-append [] ys = omega arith
load-append (x ∷ xs) ys = omega (arith, load-append xs ys)

module _ {S : Type 0} where
  load-subscribed :
      (client : ℕ) (uid : Option String) (info : BroadcastUserStatusInfo) (reset : Bool)
      (w : World S)
      → load (subscribed client uid info reset w).tasks ≤ 1 + load w.tasks
  unfolding subscribed spawn send_client_message emit load
  load-subscribed client uid info true w = omega arith
  load-subscribed client uid info false w = omega arith

  load-subscribe_message :
      (client : ℕ) (uid : Option String) (reset : Bool) (w : World S)
      → load (subscribe_message client uid reset w).tasks ≤ 3 + load w.tasks
  unfolding subscribe_message set_status spawn load
  load-subscribe_message client none reset w = omega (arith, load-subscribed client none [] reset w)
  load-subscribe_message client (some uid) reset w = omega arith

  load-unsubscribe_message :
      (client : ℕ) (uid : Option String) (w : World S)
      → load (unsubscribe_message client uid w).tasks ≤ 1 + load w.tasks
  unfolding unsubscribe_message unsubscribed send_client_message emit spawn load
  load-unsubscribe_message client none w = ground arith
  load-unsubscribe_message client (some uid) w = ground arith

  load-dispatch :
      (client : ℕ) (type uid : Option String) (reset : Bool) (w : World S)
      → load (dispatch client type uid reset w).tasks ≤ 3 + load w.tasks
  unfolding dispatch
  load-dispatch client none uid reset w = omega arith
  load-dispatch client (some type) uid reset w =
      ground
        (arith, load-subscribe_message client uid reset w, load-unsubscribe_message client uid w)

  load-checked :
      (client : ℕ) (type : Option String) (uid : String) (reset b : Bool) (w : World S)
      → load (checked client type uid reset (some b) w).tasks ≤ 3 + load w.tasks
  unfolding checked emit
  load-checked client type uid reset true w = load-dispatch client type (some uid) reset w
  load-checked client type uid reset false w = omega arith

  load-status_set :
      (k : Awaiting) (uid : String) (w : World S)
      → load (status_set k uid w).tasks ≤ 1 + load w.tasks
  unfolding status_set broadcast emit
  load-status_set (after_subscribe client reset) uid w = load-subscribed client (some uid) _ reset _
  load-status_set after_pong uid w = omega arith

  -- A task that fails leaves the others as they are.
  tasks-reject : (t : Task) (w : World S) → (reject t w).tasks ≡ w.tasks
  unfolding reject unhandled_rejection emit
  tasks-reject (checking client type uid reset) w = refl
  tasks-reject (h_setting uid (after_subscribe client reset)) w = refl
  tasks-reject (h_setting uid after_pong) w = refl
  tasks-reject (setting uid (after_subscribe client reset)) w = refl
  tasks-reject (setting uid after_pong) w = refl
  tasks-reject (getting_online client) w = refl
  tasks-reject (unsubscribing client uid) w = refl
  tasks-reject (expiring uid) w = refl

module _ (redis : Redis) (exists : String → Bool) where
  open redis use {State, h_del, h_set, set}

  load-resume :
      (t : Task) (w : World State)
      → suc (load (resume redis exists t w).tasks) ≤ cost t + load w.tasks
  unfolding resume spawn load send_client_message emit broadcast unsubscribed
  load-resume (checking client type uid reset) w =
      omega (arith, load-checked client type uid reset (exists uid) w)
  load-resume (h_setting uid k) w = omega arith
  load-resume (setting uid k) w = omega (arith, load-status_set k uid _)
  load-resume (getting_online client) w = omega arith
  load-resume (unsubscribing client uid) w = omega arith
  load-resume (expiring uid) w = ground arith

  -- Completions and failures of pending operations in any order, counted, with nothing else between.
  pub data Drain : ℕ → World State → World State → Type 0 where
    drained : (w : World State) → Drain zero w w
    completes :
        (n : ℕ) (w w' : World State) (before after : List Task) (t : Task)
        → w.tasks ≡ before ++ t ∷ after
        → Drain n (resume redis exists t (record w { tasks = before ++ after })) w'
        → Drain (suc n) w w'
    fails :
        (n : ℕ) (w w' : World State) (before after : List Task) (t : Task)
        → w.tasks ≡ before ++ t ∷ after
        → Drain n (reject t (record w { tasks = before ++ after })) w'
        → Drain (suc n) w w'

  load-middle :
      (w : World State) (before after : List Task) (t : Task)
      → w.tasks ≡ before ++ t ∷ after
      → load w.tasks ≡ cost t + load (before ++ after)
  unfolding load
  load-middle w before after t e =
      let total = ap load e in
      omega (arith, total, load-append before (t ∷ after), load-append before after)

  cost_pos : (t : Task) → 1 ≤ cost t
  cost_pos (checking client type uid reset) = omega arith
  cost_pos (h_setting uid k) = omega arith
  cost_pos (setting uid k) = omega arith
  cost_pos (getting_online client) = omega arith
  cost_pos (unsubscribing client uid) = omega arith
  cost_pos (expiring uid) = omega arith

  -- However the pending operations complete or fail, and in whatever order, with no other event between
  -- them: the number of those that did and what the pending ones may still cost are together at most
  -- what they could cost at first.
  pub Drain-load : (n : ℕ) (w w' : World State) → Drain n w w' → n + load w'.tasks ≤ load w.tasks
  Drain-load _ _ _ (drained w) = omega arith
  Drain-load _ _ _ (completes n w w' before after t e d) =
      let taken : World State = record w { tasks = before ++ after } in
      omega (
        arith,
        Drain-load n (resume redis exists t taken) w' d,
        load-resume t taken,
        load-middle w before after t e,
      )
  Drain-load _ _ _ (fails n w w' before after t e d) =
      let taken : World State = record w { tasks = before ++ after } in
      omega (
        arith,
        Drain-load n (reject t taken) w' d,
        ap load (tasks-reject t taken),
        cost_pos t,
        load-middle w before after t e,
      )

  pub settle_step :
      (n : ℕ) (w : World State) (t : Task) (ts : List Task)
      → w.tasks ≡ t ∷ ts
      → settle redis exists (suc n) w
        ≡ settle redis exists n (resume redis exists t (record w { tasks = ts }))
  unfolding settle
  settle_step n w t ts e = simp (settle, e)

  pub settle_idle : (n : ℕ) (w : World State) → w.tasks ≡ [] → settle redis exists n w ≡ w
  unfolding settle
  settle_idle zero w e = refl
  settle_idle (suc n) w e = simp (settle, e)

  -- Fuel as large as what the pending tasks may cost is enough: then none is left.
  pub settle_enough :
      (n : ℕ) (w : World State) → load w.tasks ≤ n → (settle redis exists n w).tasks ≡ []
  unfolding settle load
  settle_enough zero w h = elim (List-cases w.tasks) [
    | inl e ↦ ap (λ v. v.tasks) (settle_idle zero w e) ∙ e
    | inr (t, ts, e) ↦ absurd (omega (arith, ap load e, cost_pos t))
  ]
  settle_enough (suc n) w h = elim (List-cases w.tasks) [
    | inl e ↦ ap (λ v. v.tasks) (settle_idle (suc n) w e) ∙ e
    | inr (t, ts, e) ↦
        let taken : World State = record w { tasks = ts } in
        ap (λ v. v.tasks) (settle_step n w t ts e)
        ∙ settle_enough n (resume redis exists t taken)
            (omega (arith, ap load e, load-resume t taken))
  ]
