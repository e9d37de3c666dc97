-- ===== src/Redis/Memory.antt =====
-- A server in memory, which shows that the laws of `Redis` can hold. A key has the fields of its
-- hash and the time that it has still to live.
use nestjs_stay_api.Common.{
  ltb, ◌*◌, ℕ, suc, ◌≡◌, refl, true, false, Option, none, some, List, [], ◌∷◌, map, arith, String,
  ◌==◌, eq_iff, eq_refl, is_some, if◌then◌else◌,
}
use nestjs_stay_api.Redis.{Redis, lookup}

unfoldable pub without : String → List (String × String) → List (String × String)
without f [] = []
without f ((g, v) ∷ r) = let rest = without f r in if g == f then rest else (g, v) ∷ rest

lookup-without :
    (f g : String) (m : List (String × String))
    → lookup g (without f m) ≡ (if f == g then none else lookup g m)
unfolding lookup without
lookup-without f g [] = ground arith
lookup-without f g ((h, v) ∷ m) =
    ground (arith, lookup-without f g m, eq_iff h f, eq_iff h g, eq_iff f g)

pub record Server : Type 0 where
  pub fields : String → List (String × String)
  -- How many milliseconds the key has still to live; none is 0.
  pub left : String → ℕ

abbrev pub at_key {ℓ} : {A : Type ℓ} → String → A → (String → A) → String → A
at_key k a f j = if k == j then a else f j

unfoldable pub server_h_set : String → String → String → Server → Server
unfolding without
server_h_set k f v s = record s { fields = at_key k ((f, v) ∷ without f (s.fields k)) s.fields }

unfoldable pub server_h_get : String → String → Server → Option String
unfolding lookup
server_h_get k f s = lookup f (s.fields k)

unfoldable pub server_h_del : String → String → Server → Server × ℕ
unfolding without lookup
server_h_del k f s = (
  record s { fields = at_key k (without f (s.fields k)) s.fields },
  if is_some (lookup f (s.fields k)) then 1 else 0,
)

unfoldable pub server_set : String → String → ℕ → Server → Server
server_set k v n s = record { fields = at_key k [] s.fields; left = at_key k (n * 1000) s.left }

unfoldable pub server_expire : String → Server → Server
server_expire k s = record { fields = at_key k [] s.fields; left = at_key k 0 s.left }

module _ (k f : String) (s : Server) where
  pub h_get-h_set_lem :
      (v g : String)
      → server_h_get k g (server_h_set k f v s) ≡ (if f == g then some v else server_h_get k g s)
  unfolding server_h_get server_h_set
  h_get-h_set_lem v g = ground (arith, eq_refl k, lookup-without f g (s.fields k))

  pub h_get-h_del_lem :
      (g : String)
      → server_h_get k g (server_h_del k f s).0 ≡ (if f == g then none else server_h_get k g s)
  unfolding server_h_get server_h_del
  h_get-h_del_lem g = ground (arith, eq_refl k, lookup-without f g (s.fields k))

pub h_get-set_lem :
    (k v j f : String) (n : ℕ) (s : Server)
    → (k == j) ≡ false
    → server_h_get j f (server_set k v n s) ≡ server_h_get j f s
unfolding server_h_get server_set
h_get-set_lem k v j f n s e = rw e

pub h_get-expire_lem :
    (k j f : String) (s : Server)
    → server_h_get j f (server_expire k s) ≡ (if k == j then none else server_h_get j f s)
unfolding server_h_get server_expire
h_get-expire_lem k j f s = ground arith

pub is_timed-h_set_lem :
    (k f v j : String) (s : Server) → ltb 0 ((server_h_set k f v s).left j) ≡ ltb 0 (s.left j)
unfolding server_h_set
is_timed-h_set_lem k f v j s = refl

pub h_del_count_lem :
    (k f : String) (s : Server)
    → (server_h_del k f s).1 ≡ (if is_some (server_h_get k f s) then 1 else 0)
unfolding server_h_del server_h_get
h_del_count_lem k f s = refl

pub is_timed-h_del_lem :
    (k f j : String) (s : Server)
    → (k == j) ≡ false
    → ltb 0 ((server_h_del k f s).0.left j) ≡ ltb 0 (s.left j)
unfolding server_h_del
is_timed-h_del_lem k f j s e = refl

pub is_timed-h_del_self_lem :
    (k f : String) (s : Server)
    → ltb 0 ((server_h_del k f s).0.left k) ≡ true
    → ltb 0 (s.left k) ≡ true
unfolding server_h_del
is_timed-h_del_self_lem k f s h = h

pub lookup-h_get_all_lem : (k f : String) (s : Server) → lookup f (s.fields k) ≡ server_h_get k f s
unfolding server_h_get
lookup-h_get_all_lem k f s = refl

pub is_timed-set_lem :
    (k v j : String) (n : ℕ) (s : Server)
    → ltb 0 ((server_set k v (suc n) s).left j) ≡ (if k == j then true else ltb 0 (s.left j))
unfolding server_set
is_timed-set_lem k v j n s = ground arith

pub is_timed-expire_lem :
    (k j : String) (s : Server)
    → ltb 0 ((server_expire k s).left j) ≡ (if k == j then false else ltb 0 (s.left j))
unfolding server_expire
is_timed-expire_lem k j s = ground arith

abbrev pub memory : Redis
memory = record {
  State = Server;
  h_set = server_h_set;
  h_get = server_h_get;
  h_del = server_h_del;
  h_get_all = λ k s. s.fields k;
  h_m_get = λ k fs s. map (λ f. server_h_get k f s) fs;
  set = server_set;
  is_timed = λ k s. ltb 0 (s.left k);
  expire = server_expire;
  h_get-h_set = λ k f v g s. h_get-h_set_lem k f s v g;
  is_timed-h_set = is_timed-h_set_lem;
  h_get-h_del = λ k f g s. h_get-h_del_lem k f s g;
  h_del_count = h_del_count_lem;
  is_timed-h_del = is_timed-h_del_lem;
  is_timed-h_del_self = is_timed-h_del_self_lem;
  lookup-h_get_all = lookup-h_get_all_lem;
  h_m_get_lem = λ k fs s. refl;
  is_timed-set = is_timed-set_lem;
  h_get-set = h_get-set_lem;
  h_get-expire = h_get-expire_lem;
  is_timed-expire = is_timed-expire_lem;
}
