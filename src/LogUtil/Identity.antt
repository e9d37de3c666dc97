-- ===== src/LogUtil/Identity.antt =====
-- One logger for each option object.
use nestjs_stay_api.Common.{
  ℕ, suc, ◌<◌, ◌≡◌, refl, sym, ap, ◌∙◌, ◌↔◌, inl, inr, true, Option, none, some, List, [], ◌∷◌,
  ◌++◌, arith, if◌then◌else◌, Bool-cases, Option-cases,
}
use nestjs_stay_api.LogUtil.{
  LogConfig, LogUtil, Instances, key_of, config_of, same_key, find_instance, new_transports,
  get_instance, get_instances, no_instances,
}

same_key_iff : (j k : Option ℕ) → (same_key j k ≡ true) ↔ (j ≡ k)
same_key_iff none none = (λ h. refl, λ h. refl)
same_key_iff none (some b) = (λ h. absurd (ground (arith, h)), λ h. absurd (ground (arith, h)))
same_key_iff (some a) none = (λ h. absurd (ground (arith, h)), λ h. absurd (ground (arith, h)))
same_key_iff (some a) (some b) = (λ h. ground (arith, h), λ h. ground (arith, h))

find_instance-append :
    (k j : Option ℕ) (u : LogUtil) (entries : List (Option ℕ × LogUtil))
    → find_instance j entries ≡ none
    → find_instance k (entries ++ (j, u) ∷ [])
      ≡ (if same_key j k then some u else find_instance k entries)
unfolding find_instance
find_instance-append k j u [] h = refl
find_instance-append k j u ((i, v) ∷ entries) h = ground (
  arith,
  h,
  find_instance-append k j u entries,
  same_key_iff i j,
  same_key_iff i k,
  same_key_iff j k,
)

-- Loggers have numbers of creations past, and two options never share one.
pub record IsValid (s : Instances) : Type 0 where
  pub made_before :
      (k : Option ℕ) (u : LogUtil) → find_instance k s.entries ≡ some u → u.id < s.made
  pub one_option :
      (j k : Option ℕ) (u v : LogUtil)
      → find_instance j s.entries ≡ some u
      → find_instance k s.entries ≡ some v
      → u.id ≡ v.id
      → j ≡ k

module _ (option : Option (ℕ × LogConfig)) (s : Instances) where
  get_instance_known :
      (u : LogUtil)
      → find_instance (key_of option) s.entries ≡ some u
      → get_instance option s ≡ (s, u)
  unfolding get_instance
  get_instance_known u e = simp (get_instance, e)

  abbrev fresh : LogUtil
  fresh = record { id = s.made; transports = new_transports (config_of option) }

  get_instance_new :
      find_instance (key_of option) s.entries ≡ none
      → get_instance option s
        ≡ (record { entries = s.entries ++ (key_of option, fresh) ∷ []; made = suc s.made }, fresh)
  unfolding get_instance
  get_instance_new e = simp (get_instance, e)

  find-get_instance :
      (k : Option ℕ)
      → find_instance k (get_instance option s).0.entries ≡ (
          if same_key (key_of option) k
          then some (get_instance option s).1
          else find_instance k s.entries)
  find-get_instance k = elim (Option-cases (find_instance (key_of option) s.entries)) [
    | inl e ↦ rw (get_instance_new e) (find_instance-append k (key_of option) fresh s.entries e)
    | inr (u, e) ↦ rw (get_instance_known u e) (elim (Bool-cases (same_key (key_of option) k)) [
      | inl same ↦
          rw same (
            ap (λ j. find_instance j s.entries) (sym ((same_key_iff (key_of option) k).0 same)) ∙ e)
      | inr other ↦ rw other refl
    ])
  ]

  get_instance-IsValid : IsValid s → IsValid (get_instance option s).0
  get_instance-IsValid v = elim (Option-cases (find_instance (key_of option) s.entries)) [
    | inr (u, e) ↦ rw (get_instance_known u e) v
    | inl e ↦ rw (get_instance_new e) (record {
      made_before = λ k u h.
          ground
            (arith, h, find_instance-append k (key_of option) fresh s.entries e, v.made_before k u);
      one_option = λ j k a b h i same. ground (
        arith,
        h,
        i,
        same,
        find_instance-append j (key_of option) fresh s.entries e,
        find_instance-append k (key_of option) fresh s.entries e,
        same_key_iff (key_of option) j,
        same_key_iff (key_of option) k,
        v.made_before j a,
        v.made_before k b,
        v.one_option j k a b,
      );
    })
  ]

  held_after :
      (k : Option ℕ) (u : LogUtil)
      → find_instance k s.entries ≡ some u
      → find_instance k (get_instance option s).0.entries ≡ some u
  held_after k u h = elim (Bool-cases (same_key (key_of option) k)) [
    | inr other ↦ find-get_instance k ∙ rw other h
    | inl same ↦
        let e : find_instance (key_of option) s.entries ≡ some u =
          ap (λ j. find_instance j s.entries) ((same_key_iff (key_of option) k).0 same) ∙ h in
        ap (λ p. find_instance k p.0.entries) (get_instance_known u e) ∙ h
  ]

  -- What `getInstance` returned is in the map under the option.
  found_after :
      find_instance (key_of option) (get_instance option s).0.entries
      ≡ some (get_instance option s).1
  found_after =
      find-get_instance (key_of option)
      ∙ rw ((same_key_iff (key_of option) (key_of option)).1 refl) refl

held_on :
    (options : List (Option (ℕ × LogConfig))) (s : Instances) (k : Option ℕ) (u : LogUtil)
    → find_instance k s.entries ≡ some u
    → find_instance k (get_instances options s).entries ≡ some u
unfolding get_instances
held_on [] s k u h = h
held_on (option ∷ options) s k u h =
    held_on options (get_instance option s).0 k u (held_after option s k u h)

get_instances-IsValid :
    (options : List (Option (ℕ × LogConfig))) (s : Instances)
    → IsValid s
    → IsValid (get_instances options s)
unfolding get_instances
get_instances-IsValid [] s v = v
get_instances-IsValid (option ∷ options) s v =
    get_instances-IsValid options (get_instance option s).0 (get_instance-IsValid option s v)

pub no_instances-IsValid : IsValid no_instances
unfolding find_instance
no_instances-IsValid = record {
  made_before = λ k u h. absurd (ground (arith, h));
  one_option = λ j k u v h i same. absurd (ground (arith, h));
}

-- Two calls of `getInstance`, with any calls between them, return the same logger exactly if their
-- options are the same object, undefined and null being one; a repeated call changes nothing.
pub get_instance_same_iff :
    (options : List (Option (ℕ × LogConfig))) (s : Instances)
    → IsValid s
    → (a b : Option (ℕ × LogConfig))
    → let later = get_instances options (get_instance a s).0 in
      (((get_instance b later).1.id ≡ (get_instance a s).1.id) ↔ (key_of b ≡ key_of a))
      × (key_of b ≡ key_of a → get_instance b later ≡ (later, (get_instance a s).1))
get_instance_same_iff options s v a b =
    let later = get_instances options (get_instance a s).0 in
    let u = (get_instance a s).1 in
    let held = held_on options (get_instance a s).0 (key_of a) u (found_after a s) in
    let valid = get_instances-IsValid options (get_instance a s).0 (get_instance-IsValid a s v) in
    let known : key_of b ≡ key_of a → get_instance b later ≡ (later, u) =
      λ e. get_instance_known b later u (ap (λ k. find_instance k later.entries) e ∙ held) in
    (
      (
        λ same.
            (get_instance-IsValid b later valid).one_option (key_of b) (key_of a)
              (get_instance b later).1 u (found_after b later)
              (held_after b later (key_of a) u held) same,
        λ e. ap (λ p. p.1.id) (known e),
      ),
      known,
    )
