-- ===== src/Sqs/Lifecycle.antt =====
-- The clients of an SqsUtil, from `onModuleInit` to `onModuleDestroy`.
use nestjs_stay_api.Common.{
  ℕ, zero, suc, ◌≤◌, ◌≡◌, refl, ap, ◌≢◌, true, false, ◌||◌, List, [], ◌∷◌, ◌++◌, arith, length, All,
}
use nestjs_stay_api.Sqs.{
  World, returned, thrown, configuration_error, is_development, is_blank, new_clients, init,
  on_module_init, on_module_destroy, get_send_client, get_receive_client_pool,
}

-- No number is twice in the list.
abbrev pub AllDistinct : List ℕ → Type 0
AllDistinct [] = Unit
AllDistinct (c ∷ cs) = All (λ d. c ≢ d) cs × AllDistinct cs

length-new_clients : (first n : ℕ) → length (new_clients first n) ≡ n
unfolding new_clients
length-new_clients first zero = refl
length-new_clients first (suc n) = ap suc (length-new_clients (suc first) n)

new_clients_above : (low first n : ℕ) → low ≤ first → All (λ c. low ≤ c) (new_clients first n)
unfolding new_clients
new_clients_above low first zero h = tt
new_clients_above low first (suc n) h = (h, new_clients_above low (suc first) n (omega arith))

above_other :
    (low first : ℕ) (cs : List ℕ)
    → suc first ≤ low
    → All (λ c. low ≤ c) cs
    → All (λ d. first ≢ d) cs
above_other low first [] h k = tt
above_other low first (c ∷ cs) h (k, ks) =
    (λ e. absurd (omega arith), above_other low first cs h ks)

new_clients-AllDistinct : (first n : ℕ) → AllDistinct (new_clients first n)
unfolding new_clients
new_clients-AllDistinct first zero = tt
new_clients-AllDistinct first (suc n) = (
  above_other (suc first) first (new_clients (suc first) n) (omega arith)
      (new_clients_above (suc first) (suc first) n (omega arith)),
  new_clients-AllDistinct (suc first) n,
)

module _ {S : Type 0} (w : World S) where
  -- Outside the development mode and with a queue address and a region, `onModuleInit` returns, and
  -- then the send client and as many receive clients as the pool count says are there, all distinct
  -- and none of them made before; `onModuleDestroy` then destroys exactly these, each once.
  pub on_module_destroy-on_module_init :
      is_development w.util.sqs_config ≡ false
      → is_blank w.util.sqs_config.queue_url ≡ false
      → is_blank w.util.sqs_config.region ≡ false
      → ((on_module_init w).1 ≡ returned tt)
        × (c : ℕ) × (cs : List ℕ) × (get_send_client (on_module_init w).0 ≡ returned c)
        × (get_receive_client_pool (on_module_init w).0 ≡ returned cs)
        × (length cs ≡ w.util.pool_count)
        × AllDistinct (c ∷ cs)
        × All (λ d. w.clients ≤ d) (c ∷ cs)
        × ((on_module_destroy (on_module_init w).0).destroyed ≡ w.destroyed ++ c ∷ cs)
  unfolding on_module_init init get_send_client get_receive_client_pool on_module_destroy
  on_module_destroy-on_module_init d q r =
      let n = w.util.pool_count in
      let cs = new_clients (suc w.clients) n in
      let fresh = new_clients_above (suc w.clients) (suc w.clients) n (omega arith) in
      rw (d, q, r)
        (
          refl,
          w.clients,
          cs,
          refl,
          refl,
          length-new_clients (suc w.clients) n,
          (
            above_other (suc w.clients) w.clients cs (omega arith) fresh,
            new_clients-AllDistinct (suc w.clients) n,
          ),
          (omega arith, new_clients_above w.clients (suc w.clients) n (omega arith)),
          refl,
        )

  -- Outside the development mode and with no queue address or no region, `onModuleInit` throws and
  -- makes no client.
  pub on_module_init_rejects :
      is_development w.util.sqs_config ≡ false
      → (is_blank w.util.sqs_config.queue_url || is_blank w.util.sqs_config.region) ≡ true
      → on_module_init w ≡ (w, thrown configuration_error)
  unfolding on_module_init init
  on_module_init_rejects d b = rw (d, b) refl
