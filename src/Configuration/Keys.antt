-- ===== src/Configuration/Keys.antt =====
-- The keys of the configuration.
use nestjs_stay_api.Common.{
  ◌≡◌, refl, ap, ◌∙◌, inl, inr, Bool, true, false, Option, none, some, List, [], ◌∷◌, String, ◌==◌,
  eq_iff, starts_with, nat_eq, or_else, length, if◌then◌else◌, is_some, Bool-cases, arith,
}
use nestjs_stay_api.Redis.{lookup}
use nestjs_stay_api.Configuration.{
  Loaded, mapping, returned, default_filename, put, assign, copy_keys, configuration,
}

starts_alike : (k j : String) → (k == j) ≡ true → starts_with k "x-" ≡ starts_with j "x-"
starts_alike k j e = ap (λ s. starts_with s "x-") ((eq_iff k j).0 e)

module _ {V : Type 0} where
  -- Whether a key is among those of a mapping
  abbrev pub has_key : String → List (String × V) → Bool
  has_key k l = is_some (lookup k l)

  -- No key is there twice.
  abbrev pub distinct_keys : List (String × V) → Bool
  distinct_keys [] = true
  distinct_keys ((k, v) ∷ l) = if has_key k l then false else distinct_keys l

  lookup-put :
      (j k : String) (v : V) (acc : List (String × V))
      → lookup j (put k v acc) ≡ (if k == j then some v else lookup j acc)
  unfolding put lookup
  lookup-put j k v [] = refl
  lookup-put j k v ((i, u) ∷ acc) =
      ground (arith, lookup-put j k v acc, eq_iff i k, eq_iff i j, eq_iff k j)

  lookup-assign :
      (j k : String) (v : V) (acc : List (String × V))
      → (j == "__proto__") ≡ false
      → lookup j (assign k v acc) ≡ (if k == j then some v else lookup j acc)
  unfolding assign
  lookup-assign j k v acc own =
      ground
        (arith, lookup-put j k v acc, own, eq_iff k "__proto__", eq_iff k j, eq_iff j "__proto__")

  has_key_alike :
      (k j : String) (l : List (String × V)) → (k == j) ≡ true → has_key k l ≡ has_key j l
  has_key_alike k j l e = ap (λ s. has_key s l) ((eq_iff k j).0 e)

  lookup-copy_keys :
      (j : String) (acc raw : List (String × V))
      → (j == "__proto__") ≡ false
      → distinct_keys raw ≡ true
      → lookup j (copy_keys acc raw) ≡ (
          if starts_with j "x-"
          then lookup j acc
          else if has_key j raw
          then lookup j raw
          else lookup j acc)
  unfolding copy_keys lookup
  lookup-copy_keys j acc [] own d = ground arith
  lookup-copy_keys j acc ((k, v) ∷ raw) own d = elim (Bool-cases (starts_with k "x-")) [
    | inl dropped ↦ rw dropped (
        ground
          (arith, d, dropped, lookup-copy_keys j acc raw own (ground (arith, d)), starts_alike k j))
    | inr kept ↦ rw kept (
        ground (
          arith,
          d,
          kept,
          lookup-copy_keys j (assign k v acc) raw own (ground (arith, d)),
          lookup-assign j k v acc own,
          starts_alike k j,
          has_key_alike k j raw,
        ))
  ]

  proto-put :
      (k : String) (v : V) (acc : List (String × V))
      → (k == "__proto__") ≡ false
      → lookup "__proto__" (put k v acc) ≡ lookup "__proto__" acc
  proto-put k v acc other = lookup-put "__proto__" k v acc ∙ ground (arith, other)

  -- The own key `__proto__` is never made.
  proto-copy_keys :
      (acc raw : List (String × V))
      → lookup "__proto__" acc ≡ none
      → lookup "__proto__" (copy_keys acc raw) ≡ none
  unfolding copy_keys assign
  proto-copy_keys acc [] none_yet = none_yet
  proto-copy_keys acc ((k, v) ∷ raw) none_yet = ground (
    arith,
    proto-copy_keys acc raw none_yet,
    proto-copy_keys (put k v acc) raw,
    proto-put k v acc,
    none_yet,
  )

  absent_key :
      (b : Bool) (o : Option V)
      → (if b then none else if is_some o then o else none) ≡ (if b then none else o)
  absent_key true o = refl
  absent_key false none = refl
  absent_key false (some v) = refl

  -- With one argument, of a file that reads as a mapping without a key twice: the configuration has
  -- exactly the keys of the file that do not begin with "x-" and are not `__proto__`, each with the value
  -- that the file gives it.
  pub lookup-configuration :
      (args : List String) (config_option : Option String) (load : String → Loaded V)
      (raw : List (String × V))
      → length args ≡ 1
      → load (or_else config_option default_filename) ≡ mapping raw
      → distinct_keys raw ≡ true
      → (config : List (String × V)) × (configuration args config_option load ≡ returned config)
        × ((k : String)
            → (k == "__proto__") ≡ false
            → lookup k config ≡ (if starts_with k "x-" then none else lookup k raw))
        × (lookup "__proto__" config ≡ none)
  unfolding configuration lookup
  lookup-configuration args config_option load raw one e d =
      let single : nat_eq (length args) 1 ≡ true = ground (arith, one) in
      (
        copy_keys [] raw,
        rw (single, e) refl,
        λ k own. lookup-copy_keys k [] raw own d ∙ absent_key (starts_with k "x-") (lookup k raw),
        proto-copy_keys [] raw refl,
      )
