-- ===== src/UserStatus/Heartbeat.antt =====
-- `ping` and `pong`: which clients a round keeps.
use nestjs_stay_api.Common.{
  ℕ, suc, ◌≡◌, refl, Bool, true, false, Option, none, some, List, [], ◌∷◌, ◌++◌, arith, nat_eq,
  if◌then◌else◌,
}
use nestjs_stay_api.Websocket.{TrackedClient, get_client, set_client, ping, Frame}
use nestjs_stay_api.Websocket.Clients.{
  Distinct, get_client-set_client, set_client-Distinct, get_client-socket,
}
use nestjs_stay_api.UserStatus.{World, ping_clients, ping_frames, ping_all, pong}

-- An entry after a round of pings.
abbrev pub asked : Option TrackedClient → Option TrackedClient
asked none = none
asked (some c) = if c.is_alive then some (record c { is_alive = false }) else none

-- What a round of pings leaves of a socket's entry: nothing if it was silent since the last round,
-- and else the entry marked silent.
pub get_client-ping_clients :
    (s : ℕ) (cs : List TrackedClient)
    → Distinct cs
    → get_client s (ping_clients cs) ≡ asked (get_client s cs)
unfolding get_client ping_clients
get_client-ping_clients s [] d = refl
get_client-ping_clients s (c ∷ cs) d =
    ground (arith, get_client-ping_clients s cs d.1, get_client-ping_clients c.socket cs d.1)

pub ping_clients-Distinct : (cs : List TrackedClient) → Distinct cs → Distinct (ping_clients cs)
unfolding get_client ping_clients
ping_clients-Distinct [] d = tt
ping_clients-Distinct (c ∷ cs) d =
    ground (arith, ping_clients-Distinct cs d.1, get_client-ping_clients c.socket cs d.1)

-- How often a socket is pinged by some frames.
abbrev pub pinged : ℕ → List Frame → ℕ
pinged s [] = 0
pinged s (ping t ∷ fs) = let rest = pinged s fs in if nat_eq t s then suc rest else rest
pinged s (_ ∷ fs) = pinged s fs

pinged-untracked :
    (s : ℕ) (cs : List TrackedClient) → get_client s cs ≡ none → pinged s (ping_frames cs) ≡ 0
unfolding get_client ping_frames
pinged-untracked s [] h = refl
pinged-untracked s (c ∷ cs) h = ground (arith, pinged-untracked s cs)

-- Whether an entry is there and alive.
abbrev pub answers : Option TrackedClient → Bool
answers none = false
answers (some c) = c.is_alive

pinged-ping_frames :
    (s : ℕ) (cs : List TrackedClient)
    → Distinct cs
    → pinged s (ping_frames cs) ≡ (if answers (get_client s cs) then 1 else 0)
unfolding get_client ping_frames
pinged-ping_frames s [] d = refl
pinged-ping_frames s (c ∷ cs) d = ground (arith, pinged-ping_frames s cs d.1, pinged-untracked s cs)

pong-clients :
    {S : Type 0} (s : ℕ) (w : World S) (c : TrackedClient)
    → get_client s w.clients ≡ some c
    → (pong s w).clients ≡ set_client (record c { is_alive = true }) w.clients
unfolding pong
pong-clients s w c e = ground arith

module _ {S : Type 0} (s : ℕ) (w : World S) (d : Distinct w.clients) where
  -- A round keeps exactly the clients that are alive, marks them silent and pings each once; the
  -- rest of the state is left alone.
  pub ping_all_lem :
      (get_client s (ping_all w).clients ≡ asked (get_client s w.clients))
      × (pinged s (ping_frames w.clients) ≡ (if answers (get_client s w.clients) then 1 else 0))
      × ((ping_all w).frames ≡ w.frames ++ ping_frames w.clients)
      × ((ping_all w).redis ≡ w.redis)
      × ((ping_all w).tasks ≡ w.tasks)
  unfolding ping_all
  ping_all_lem =
      (get_client-ping_clients s w.clients d, pinged-ping_frames s w.clients d, refl, refl, refl)

  -- Two rounds with no answer between them drop every client that was tracked before them.
  ping_all-ping_all : get_client s (ping_all (ping_all w)).clients ≡ none
  unfolding ping_all
  ping_all-ping_all = ground (
    arith,
    get_client-ping_clients s w.clients d,
    get_client-ping_clients s (ping_clients w.clients) (ping_clients-Distinct w.clients d),
  )

  -- A client that answers between two rounds stays, and is silent again.
  ping_all-pong :
      (c : TrackedClient)
      → get_client s w.clients ≡ some c
      → c.is_alive ≡ true
      → get_client s (ping_all (pong s (ping_all w))).clients ≡ some (record c { is_alive = false })
  unfolding ping_all
  ping_all-pong c e alive =
      let silent : TrackedClient = record c { is_alive = false } in
      let again : TrackedClient = record c { is_alive = true } in
      let cs = ping_clients w.clients in
      let d' = ping_clients-Distinct w.clients d in
      let found : get_client s cs ≡ some silent =
        ground (arith, get_client-ping_clients s w.clients d) in
      rw (pong-clients s (ping_all w) silent found) (
        ground (
          arith,
          get_client-ping_clients s (set_client again cs) (set_client-Distinct again cs d'),
          get_client-set_client s again cs,
          get_client-socket s w.clients c e,
        ))
