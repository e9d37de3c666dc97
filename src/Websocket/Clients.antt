-- ===== src/Websocket/Clients.antt =====
-- The table of clients as a map: distinct sockets, and what each operation does to a lookup.
use nestjs_stay_api.Common.{
  ℕ, suc, ◌≡◌, refl, inl, inr, Bool-cases, is_some, ◌&&◌, not, Bool, Option, none, some, List, [],
  ◌∷◌, arith, String, nat_eq, All, if◌then◌else◌,
}
use mathlib.Core.Path.{subst}
use nestjs_stay_api.Websocket.{
  TrackedClient, Frame, send, ping, close, Payload, get_client, set_client, delete_client,
  is_connected, broadcast_status,
}

-- Each socket has one entry.
abbrev pub Distinct : List TrackedClient → Type 0
Distinct [] = Unit {0}
Distinct (c ∷ cs) = (get_client c.socket cs ≡ none) × Distinct cs

pub get_client-set_client :
    (s : ℕ) (new : TrackedClient) (cs : List TrackedClient)
    → get_client s (set_client new cs) ≡ (if nat_eq new.socket s then some new else get_client s cs)
unfolding get_client set_client
get_client-set_client s new [] = refl
get_client-set_client s new (c ∷ cs) = ground (arith, get_client-set_client s new cs)

pub get_client-delete_client :
    (s t : ℕ) (cs : List TrackedClient)
    → Distinct cs
    → get_client s (delete_client t cs) ≡ (if nat_eq t s then none else get_client s cs)
unfolding get_client delete_client
get_client-delete_client s t [] d = ground arith
get_client-delete_client s t (c ∷ cs) d = ground (arith, get_client-delete_client s t cs d.1)

pub set_client-Distinct :
    (new : TrackedClient) (cs : List TrackedClient) → Distinct cs → Distinct (set_client new cs)
unfolding get_client set_client
set_client-Distinct new [] d = (refl, tt)
set_client-Distinct new (c ∷ cs) d =
    ground (arith, set_client-Distinct new cs d.1, get_client-set_client c.socket new cs)

pub delete_client-Distinct :
    (s : ℕ) (cs : List TrackedClient) → Distinct cs → Distinct (delete_client s cs)
unfolding get_client delete_client
delete_client-Distinct s [] d = tt
delete_client-Distinct s (c ∷ cs) d =
    ground (arith, delete_client-Distinct s cs d.1, get_client-delete_client c.socket s cs d.1)

module _ (P : TrackedClient → Type 0) where
  pub set_client-All :
      (new : TrackedClient) (cs : List TrackedClient) → P new → All P cs → All P (set_client new cs)
  unfolding set_client
  set_client-All new [] p h = (p, tt)
  set_client-All new (c ∷ cs) p h = ground (arith, set_client-All new cs p h.1)

  pub delete_client-All : (s : ℕ) (cs : List TrackedClient) → All P cs → All P (delete_client s cs)
  unfolding delete_client
  delete_client-All s [] h = tt
  delete_client-All s (c ∷ cs) h = ground (arith, delete_client-All s cs h.1)

  pub get_client-All :
      (s : ℕ) (cs : List TrackedClient) {c : TrackedClient}
      → All P cs
      → get_client s cs ≡ some c
      → P c
  unfolding get_client
  get_client-All s [] h e = cc
  get_client-All s (x ∷ cs) h e = elim (Bool-cases (nat_eq x.socket s)) [
    | inl hit ↦ subst P (ground arith) h.0
    | inr miss ↦ get_client-All s cs h.1 (ground arith)
  ]

-- How many of the frames carry data to a socket.
abbrev pub sent_to : ℕ → List Frame → ℕ
sent_to s [] = 0
sent_to s (send t channel info ∷ fs) =
    let rest = sent_to s fs in if nat_eq t s then suc rest else rest
sent_to s (ping t ∷ fs) = sent_to s fs
sent_to s (close t status reason ∷ fs) = sent_to s fs

broadcast_untracked :
    (is_open : ℕ → Bool) (connected : Option ℕ) (channel : String) (info : Payload) (s : ℕ)
    (cs : List TrackedClient)
    → get_client s cs ≡ none
    → sent_to s (broadcast_status is_open connected channel info cs) ≡ 0
unfolding get_client broadcast_status
broadcast_untracked is_open connected channel info s [] h = refl
broadcast_untracked is_open connected channel info s (c ∷ cs) h =
    ground (arith, broadcast_untracked is_open connected channel info s cs)

-- A broadcast reaches each tracked and open socket exactly once, and no other socket; the connected
-- one is left out.
pub sent_to-broadcast_status :
    (is_open : ℕ → Bool) (connected : Option ℕ) (channel : String) (info : Payload) (s : ℕ)
    (cs : List TrackedClient)
    → Distinct cs
    → sent_to s (broadcast_status is_open connected channel info cs)
      ≡ (if is_some (get_client s cs) && is_open s && not (is_connected connected s) then 1 else 0)
unfolding get_client broadcast_status
sent_to-broadcast_status is_open connected channel info s [] d = refl
sent_to-broadcast_status is_open connected channel info s (c ∷ cs) d = ground (
  arith,
  sent_to-broadcast_status is_open connected channel info s cs d.1,
  broadcast_untracked is_open connected channel info s cs,
)

-- An entry is found under its own socket.
pub get_client-socket :
    (s : ℕ) (cs : List TrackedClient) (c : TrackedClient) → get_client s cs ≡ some c → c.socket ≡ s
unfolding get_client
get_client-socket s [] c e = cc
get_client-socket s (x ∷ cs) c e = ground (arith, get_client-socket s cs c)
