-- ===== src/Validation/Paths.antt =====
-- Which keys the details have: the dotted paths of the properties whose constraints failed.
use nestjs_stay_api.Common.{
  ◌≡◌, refl, sym, ap, ◌∙◌, ◌↔◌, ◌⊎◌, inl, inr, Bool, true, false, some, [], ◌∷◌, arith, String,
  ◌==◌, eq_iff, eq_refl, Bool-cases, if◌then◌else◌,
}
use nestjs_stay_api.Redis.{lookup}
use nestjs_stay_api.Errors.{Details}
use nestjs_stay_api.Validation.{
  ValidationError, failing, ValidationErrors, nil, cons, property_path, put, set_detail,
  process_validation_error, process_all,
}

lookup-put :
    (k j v : String) (d : Details) → lookup j (put k v d) ≡ (if k == j then some v else lookup j d)
unfolding lookup put
lookup-put k j v [] = refl
lookup-put k j v ((i, w) ∷ d) =
    ground (arith, lookup-put k j v d, eq_iff i k, eq_iff i j, eq_iff k j)

lookup-set_detail :
    (k j v : String) (d : Details)
    → (j == "__proto__") ≡ false
    → lookup j (set_detail k v d) ≡ (if k == j then some v else lookup j d)
unfolding set_detail
lookup-set_detail k j v d e =
    ground (arith, lookup-put k j v d, eq_iff k "__proto__", eq_iff k j, eq_iff j "__proto__")

-- A property whose constraints failed, with its path: at the root of a tree or below it.
mutual
  pub data Fails (path : String) : String → ValidationError → Type 0 where
    at :
        {prefix property : String} {children : ValidationErrors}
        → property_path prefix property ≡ path
        → Fails path prefix (failing property true children)
    below :
        {prefix property : String} {constraints : Bool} {children : ValidationErrors}
        → AnyFails path (property_path prefix property) children
        → Fails path prefix (failing property constraints children)

  pub data AnyFails (path : String) : String → ValidationErrors → Type 0 where
    first :
        {prefix : String} {e : ValidationError} {es : ValidationErrors}
        → Fails path prefix e
        → AnyFails path prefix (cons e es)
    later :
        {prefix : String} {e : ValidationError} {es : ValidationErrors}
        → AnyFails path prefix es
        → AnyFails path prefix (cons e es)

module _ (path : String) (plain : (path == "__proto__") ≡ false) where
  mutual
    unfolding process_validation_error process_all

    kept :
        (e : ValidationError) (d : Details) (prefix : String)
        → lookup path d ≡ some "invalid"
        → lookup path (process_validation_error e d prefix) ≡ some "invalid"
    kept (failing property true children) d prefix h =
        kept_all children _ _
          (ground (arith, lookup-set_detail (property_path prefix property) path "invalid" d plain))
    kept (failing property false children) d prefix h = kept_all children d _ h

    kept_all :
        (es : ValidationErrors) (d : Details) (prefix : String)
        → lookup path d ≡ some "invalid"
        → lookup path (process_all es d prefix) ≡ some "invalid"
    kept_all nil d prefix h = h
    kept_all (cons e es) d prefix h = kept_all es _ prefix (kept e d prefix h)

  mutual
    unfolding process_validation_error process_all

    complete :
        {prefix : String} {e : ValidationError} (d : Details)
        → Fails path prefix e
        → lookup path (process_validation_error e d prefix) ≡ some "invalid"
    complete d (at {prefix} {property} {children} e) =
        kept_all children _ _ (
          rw (lookup-set_detail (property_path prefix property) path "invalid" d plain, e, eq_refl))
    complete d (below f) = complete_all _ f

    complete_all :
        {prefix : String} {es : ValidationErrors} (d : Details)
        → AnyFails path prefix es
        → lookup path (process_all es d prefix) ≡ some "invalid"
    complete_all d (first {prefix} {es} f) = kept_all es _ prefix (complete d f)
    complete_all d (later f) = complete_all _ f

  mutual
    unfolding process_validation_error process_all

    sound :
        (e : ValidationError) (d : Details) (prefix v : String)
        → lookup path (process_validation_error e d prefix) ≡ some v
        → (Fails path prefix e × (v ≡ "invalid")) ⊎ (lookup path d ≡ some v)
    sound (failing property true children) d prefix v h = elim (sound_all children _ _ v h) [
      | inl (f, e) ↦ inl (below f, e)
      | inr h' ↦ elim (Bool-cases (property_path prefix property == path)) [
        | inl same ↦ inl (
          at ((eq_iff _ _).0 same),
          ground (arith, lookup-set_detail (property_path prefix property) path "invalid" d plain),
        )
        | inr apart ↦ inr (
            ground
              (arith, lookup-set_detail (property_path prefix property) path "invalid" d plain))
      ]
    ]
    sound (failing property false children) d prefix v h = elim (sound_all children d _ v h) [
      | inl (f, e) ↦ inl (below f, e)
      | inr h' ↦ inr h'
    ]

    sound_all :
        (es : ValidationErrors) (d : Details) (prefix v : String)
        → lookup path (process_all es d prefix) ≡ some v
        → (AnyFails path prefix es × (v ≡ "invalid")) ⊎ (lookup path d ≡ some v)
    sound_all nil d prefix v h = inr h
    sound_all (cons e es) d prefix v h = elim (sound_all es _ prefix v h) [
      | inl (f, q) ↦ inl (later f, q)
      | inr h' ↦ elim (sound e d prefix v h') [ inl (f, q) ↦ inl (first f, q) | inr h'' ↦ inr h'' ]
    ]

  -- The details have a key, with the value "invalid", exactly for each path of a property whose
  -- constraints failed, however deep; `__proto__` is left out.
  pub process_all_iff :
      (es : ValidationErrors) (v : String)
      → (lookup path (process_all es [] "") ≡ some v) ↔ (AnyFails path "" es × (v ≡ "invalid"))
  unfolding lookup
  process_all_iff es v = (
    λ h. elim (sound_all es [] "" v h) [ inl p ↦ p | inr e ↦ cc ],
    λ (f, e). complete_all [] f ∙ ap some (sym e),
  )
