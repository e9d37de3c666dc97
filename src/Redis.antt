-- ===== src/Redis.antt =====
-- The Redis server behind `redis` of node-redis (src/utils/cache/types/redis.util.ts gives its
-- client), as an interface: the commands that the user status service sends, and the documented
-- behaviour that it relies on. Each command takes the server's state and gives the next one.
pub mod Memory
use nestjs_stay_api.Common.{
  ℕ, zero, suc, ◌≡◌, Bool, true, false, Option, none, some, List, map, String, ◌==◌, is_some,
  if◌then◌else◌,
}

-- The value of a field in a list of pairs.
unfoldable pub lookup {ℓ} : {V : Type ℓ} → String → List (String × V) → Option V
lookup f List.[] = none
lookup f (List.◌∷◌ (g, v) r) = if g == f then some v else lookup f r

pub record Redis : Type 1 where
  pub State : Type 0
  -- HSET key field value, HGET key field, HDEL key field, HGETALL key, HMGET key fields
  pub h_set : String → String → String → State → State
  pub h_get : String → String → State → Option String
  pub h_del : String → String → State → State × ℕ
  pub h_get_all : String → State → List (String × String)
  pub h_m_get : String → List String → State → List (Option String)
  -- SET key value EX seconds
  pub set : String → String → ℕ → State → State
  -- Whether the key is there with a time to live, and the server's removal of such a key.
  pub is_timed : String → State → Bool
  pub expire : String → State → State
  -- HSET writes one field of one hash.
  pub h_get-h_set :
      (k f v g : String) (s : State)
      → h_get k g (h_set k f v s) ≡ (if f == g then some v else h_get k g s)
  pub is_timed-h_set : (k f v j : String) (s : State) → is_timed j (h_set k f v s) ≡ is_timed j s
  -- HDEL removes one field, and answers how many fields it removed.
  pub h_get-h_del :
      (k f g : String) (s : State)
      → h_get k g (h_del k f s).0 ≡ (if f == g then none else h_get k g s)
  pub h_del_count :
      (k f : String) (s : State) → (h_del k f s).1 ≡ (if is_some (h_get k f s) then 1 else 0)
  pub is_timed-h_del :
      (k f j : String) (s : State) → (k == j) ≡ false → is_timed j (h_del k f s).0 ≡ is_timed j s
  pub is_timed-h_del_self :
      (k f : String) (s : State) → is_timed k (h_del k f s).0 ≡ true → is_timed k s ≡ true
  -- HGETALL answers the fields of the hash.
  pub lookup-h_get_all : (k f : String) (s : State) → lookup f (h_get_all k s) ≡ h_get k f s
  -- HMGET answers the fields one by one.
  pub h_m_get_lem :
      (k : String) (fs : List String) (s : State) → h_m_get k fs s ≡ map (λ f. h_get k f s) fs
  -- SET with EX of at least one second starts a time to live, and leaves other keys alone.
  pub is_timed-set :
      (k v j : String) (n : ℕ) (s : State)
      → is_timed j (set k v (suc n) s) ≡ (if k == j then true else is_timed j s)
  pub h_get-set :
      (k v j f : String) (n : ℕ) (s : State)
      → (k == j) ≡ false
      → h_get j f (set k v n s) ≡ h_get j f s
  -- A key that expires is gone, and no other key is.
  pub is_timed-expire :
      (k j : String) (s : State)
      → is_timed j (expire k s) ≡ (if k == j then false else is_timed j s)
  pub h_get-expire :
      (k j f : String) (s : State) → h_get j f (expire k s) ≡ (if k == j then none else h_get j f s)
