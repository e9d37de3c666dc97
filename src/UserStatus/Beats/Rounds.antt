-- ===== src/UserStatus/Beats/Rounds.antt =====
-- Rounds of pings in time (`PING_INTERVAL` and `TTL_EXPIRATION_TIME` of
-- src/modules/user-status/user-status.type.ts), around one client that answers each of them.
use nestjs_stay_api.Common.{
  ℕ, ◌+◌, ◌-◌, ◌≤◌, ◌≡◌, ap, sym, ◌∙◌, Bool, true, false, some, [], String, eq_refl, is_some, arith,
}
use nestjs_stay_api.Redis.{Redis}
use nestjs_stay_api.Websocket.{TrackedClient, get_client, websocket_subscribe}
use nestjs_stay_api.Websocket.Clients.{Distinct, get_client-set_client, set_client-Distinct}
use mathlib.Core.Path.{subst}
use nestjs_stay_api.UserStatus.{handle_message, user_status_hash_key, ttl_key, World}
use nestjs_stay_api.UserStatus.Keys.{ttl_key-ne-hash_key}
use nestjs_stay_api.UserStatus.Reach
use nestjs_stay_api.UserStatus.Table.{DistinctClients, Step-Distinct}
use nestjs_stay_api.UserStatus.Clock
use nestjs_stay_api.UserStatus.Clock.{Clock, IsForeign, Foreign, Phase, Beating, limit}
use nestjs_stay_api.UserStatus.Flows.{settle, request, subscribe_writes, stored}
use nestjs_stay_api.UserStatus.Beats.Events
use nestjs_stay_api.UserStatus.Beats.Own

module _ (redis : Redis) (exists : String → Bool) (clock : Clock redis) (client : ℕ)
    (uid : String) where
  open redis use {State, h_get, is_timed}
  open clock use {
    remaining, elapse, is_timed_lem, remaining-set, remaining-h_set, remaining-elapse, h_get-elapse,
  }

  abbrev Holds : Bool → ℕ → World State → Type 0
  Holds = Events.Holds redis exists clock client uid

  -- Whether the entry is marked alive in a phase, and how long the user then has at least.
  abbrev pub is_marked : Phase redis exists clock client uid → Bool
  is_marked Clock.waiting = false
  is_marked _ = true

  abbrev time_of : Phase redis exists clock client uid → ℕ → ℕ
  time_of Clock.answered t = 15000 - t
  time_of _ t = 5000 - t

  time_later :
      (p : Phase redis exists clock client uid) (t m : ℕ) → time_of p (t + m) ≤ time_of p t - m
  time_later Clock.waiting t m = omega arith
  time_later Clock.h_writing t m = omega arith
  time_later Clock.writing t m = omega arith
  time_later Clock.answered t m = omega arith

  time_small : (p : Phase redis exists clock client uid) (t : ℕ) → time_of p t ≤ 15000
  time_small Clock.waiting t = omega arith
  time_small Clock.h_writing t = omega arith
  time_small Clock.writing t = omega arith
  time_small Clock.answered t = omega arith

  Beating-Holds :
      (start w : World State) (p : Phase redis exists clock client uid) (t : ℕ)
      → Beating redis exists clock client uid start p t w
      → DistinctClients start
      → Holds true 15000 start
      → (t ≤ limit redis exists clock client uid p)
        × DistinctClients w
        × Holds (is_marked p) (time_of p t) w
  Beating-Holds start _ _ _ (Clock.begins t h) d k = (
    h,
    d,
    Own.less-Holds redis exists clock client uid true 15000 (15000 - t) start (omega arith) k,
  )
  Beating-Holds start _ _ _ (Clock.passes p t m w b h) d k =
      let (early, d', k') = Beating-Holds start w p t b d k in
      (
        h,
        d',
        Own.less-Holds redis exists clock client uid (is_marked p) (time_of p t - m)
            (time_of p (t + m)) _ (time_later p t m)
            (Own.elapse-Holds redis exists clock client uid (is_marked p) (time_of p t) m w k'),
      )
  Beating-Holds start _ _ _ (Clock.rounds t w b) d k =
      let (early, d', k') = Beating-Holds start w Clock.answered t b d k in
      (
        omega arith,
        Step-Distinct redis exists _ _ (Reach.pings w) d',
        Own.less-Holds redis exists clock client uid false (15000 - t) 5000 _ (omega arith)
            (Own.ping_all-Holds redis exists clock client uid (15000 - t) w d' k'),
      )
  Beating-Holds start _ _ _ (Clock.answers t w b) d k =
      let (early, d', k') = Beating-Holds start w Clock.waiting t b d k in
      (
        early,
        Step-Distinct redis exists _ _ (Reach.pongs w client) d',
        Own.pong-Holds redis exists clock client uid (5000 - t) w k',
      )
  Beating-Holds start _ _ _ (Clock.writes_hash t w before after b e) d k =
      let (early, d', k') = Beating-Holds start w Clock.h_writing t b d k in
      (
        early,
        Step-Distinct redis exists _ _ (Reach.resumes w before after _ e) d',
        Own.writes_hash-Holds redis exists clock client uid (5000 - t) w before after (omega arith)
            d' k',
      )
  Beating-Holds start _ _ _ (Clock.writes_key t w before after b e) d k =
      let (early, d', k') = Beating-Holds start w Clock.writing t b d k in
      (
        omega (arith, early),
        Step-Distinct redis exists _ _ (Reach.resumes w before after _ e) d',
        Own.less-Holds redis exists clock client uid true 15000 (15000 - t) _ (omega arith)
            (Own.writes_key-Holds redis exists clock client uid (5000 - t) w before after k'),
      )
  Beating-Holds start _ _ _ (Clock.others p t w w' b f) d k =
      let (early, d', k') = Beating-Holds start w p t b d k in
      let (d2, k2) =
        Events.Foreign-Holds redis exists clock client uid (is_marked p) (time_of p t) w w' f
          (time_small p t) (d', k') in
      (early, d2, k2)

  time_positive :
      (p : Phase redis exists clock client uid) (t : ℕ)
      → t ≤ limit redis exists clock client uid p
      → 1 ≤ time_of p t
  time_positive Clock.waiting t h = omega arith
  time_positive Clock.h_writing t h = omega arith
  time_positive Clock.writing t h = omega arith
  time_positive Clock.answered t h = omega arith

  -- A subscription run to its end
  subscribe-Holds :
      (reset : Bool) (w : World State)
      → w.tasks ≡ []
      → remaining user_status_hash_key w.redis ≡ 0
      → exists uid ≡ true
      → DistinctClients w
      → let w' =
          settle redis exists 4 (handle_message client (request websocket_subscribe uid reset) w) in
        DistinctClients w' × Holds true 15000 w'
  subscribe-Holds reset w idle untimed known d =
      let (stores, lists, opens) = subscribe_writes redis exists client uid w idle reset known in
      let settled =
        settle redis exists 4 (handle_message client (request websocket_subscribe uid reset) w) in
      let own : TrackedClient = record { socket = client; user_uid = some uid; is_alive = true } in
      let hashed = redis.h_set user_status_hash_key uid "online" w.redis in
      (
        subst Distinct (sym lists) (set_client-Distinct own w.clients d),
        record {
          entry =
              ap (get_client client) lists
              ∙ ground (arith, get_client-set_client client own w.clients);
          online =
              ap (λ s. is_some (h_get user_status_hash_key uid s)) stores
              ∙ ap is_some (stored redis exists client uid w idle);
          hash_untimed =
              ap (remaining user_status_hash_key) stores
              ∙ ground (
                arith,
                untimed,
                ttl_key-ne-hash_key uid,
                remaining-set (ttl_key uid) "online" user_status_hash_key 15 hashed,
                remaining-h_set user_status_hash_key uid "online" user_status_hash_key w.redis,
              );
          time_left = ground (
            arith,
            ap (remaining (ttl_key uid)) stores,
            eq_refl (ttl_key uid),
            remaining-set (ttl_key uid) "online" (ttl_key uid) 15 hashed,
          );
        },
      )

  -- A known user subscribes, at any time between two rounds of pings, on a state with nothing pending,
  -- and the subscription is run to its end; from then on the client answers each round of pings, and the
  -- writes of `setStatus` are done, in less than five seconds after the round, and the next round comes
  -- within ten. Whatever others do in between, and whatever of theirs fails, as long as nobody takes the
  -- user out of the hash: at every moment the client is tracked, the hash holds the user, and the user's
  -- key has not run out.
  pub Beating-online :
      (reset : Bool) (before w : World State) (p : Phase redis exists clock client uid) (t : ℕ)
      → before.tasks ≡ []
      → remaining user_status_hash_key before.redis ≡ 0
      → exists uid ≡ true
      → DistinctClients before
      → Beating redis exists clock client uid
          (settle redis exists 4
            (handle_message client (request websocket_subscribe uid reset) before))
          p
          t
          w
      → (get_client client w.clients
          ≡ some (record { socket = client; user_uid = some uid; is_alive = is_marked p }))
        × (is_some (h_get user_status_hash_key uid w.redis) ≡ true)
        × (is_timed (ttl_key uid) w.redis ≡ true)
  Beating-online reset before w p t idle untimed known d b =
      let (d1, k1) = subscribe-Holds reset before idle untimed known d in
      let (early, d2, k2) = Beating-Holds _ w p t b d1 k1 in
      (
        k2.entry,
        k2.online,
        ground (arith, is_timed_lem (ttl_key uid) w.redis, time_positive p t early, k2.time_left),
      )
