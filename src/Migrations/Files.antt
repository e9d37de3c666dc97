-- ===== src/Migrations/Files.antt =====
-- What files of tables make and what dropping a list of tables leaves.
use nestjs_stay_api.Common.{
  holds, ◌≡◌, refl, ap, ◌∙◌, inl, inr, Bool, true, false, Option, none, some, List, [], ◌∷◌, String,
  ◌==◌, ◌&&◌, not, is_some, eq_iff, Bool-cases, if◌then◌else◌, arith,
}
use nestjs_stay_api.Migrations.{Table, Server, without, unlinked, create_tables, drop_tables}

-- The names of the tables of a file
abbrev pub names : List (String × Table) → List String
names [] = []
names ((n, t) ∷ ts) = n ∷ names ts

-- Whether all of one list is in another
abbrev pub covers : List String → List String → Bool
covers ys [] = true
covers ys (x ∷ xs) = holds x ys && covers ys xs

-- Whether each table has a new name and needs only what is known before it.
abbrev fits : List String → List String → List (String × Table) → Bool
fits extensions known [] = true
fits extensions known ((n, t) ∷ ts) =
    not (holds n (names ts))
    && (covers known t.references
        && (covers extensions t.extensions && fits extensions (n ∷ known) ts))

-- What is under a name after the tables of a file were made
abbrev pub made : List (String × Table) → String → Option Table → Option Table
made [] k o = o
made ((n, t) ∷ ts) k o = made ts k (if n == k then some t else o)

-- What is under a name after tables were dropped
abbrev pub dropped : List String → String → Option Table → Option Table
dropped [] k o = o
dropped (n ∷ ns) k o = dropped ns k (if n == k then none else unlinked n o)

pub covers-holds :
    (x : String) (ys xs : List String) → covers ys xs ≡ true → holds x xs ≡ true → holds x ys ≡ true
covers-holds x ys [] c h = absurd (ground (arith, h))
covers-holds x ys (y ∷ xs) c h = ground (arith, c, h, eq_iff y x, covers-holds x ys xs)

pub not_held :
    (x : String) (ys xs : List String)
    → covers ys xs ≡ true
    → holds x ys ≡ false
    → holds x xs ≡ false
not_held x ys xs c h = elim (Bool-cases (holds x xs)) [
  | inr e ↦ e
  | inl e ↦ absurd (ground (arith, h, covers-holds x ys xs c e))
]

module _ (server : Server) where
  open server use {
    State, table, extension_table, has_extension, create_extension, create_table, drop_table,
    create_table_lem, table-drop_table, extension_table-drop_table, has_extension-drop_table,
  }

  -- A file whose tables fit is taken, and makes its tables and nothing else.
  pub create_tables_lem :
      (extensions known : List String) (ts : List (String × Table)) (s : State)
      → fits extensions known ts ≡ true
      → ((k : String)
          → holds k (names ts) ≡ true
          → (table k s ≡ none) × (extension_table k s ≡ false))
      → ((r : String) → holds r known ≡ true → is_some (table r s) ≡ true)
      → ((e : String) → holds e extensions ≡ true → has_extension e s ≡ true)
      → (s' : State) × (create_tables server ts s ≡ some s')
        × ((k : String) → table k s' ≡ made ts k (table k s))
        × ((k : String) → extension_table k s' ≡ extension_table k s)
        × ((e : String) → has_extension e s' ≡ has_extension e s)
  unfolding create_tables
  create_tables_lem extensions known [] s fit free there able =
      (s, refl, λ k. refl, λ k. refl, λ e. refl)
  create_tables_lem extensions known ((n, t) ∷ ts) s fit free there able =
      let (free_name, free_of_extensions) = free n (ground (arith, eq_iff n n)) in
      let (s1, e1, tables1, own1, extensions1) =
        create_table_lem n t s free_name free_of_extensions
          (λ r h. there r (covers-holds r known t.references (ground (arith, fit)) h))
          (λ e h. able e (covers-holds e extensions t.extensions (ground (arith, fit)) h)) in
      let (s2, e2, tables2, own2, extensions2) =
        create_tables_lem extensions (n ∷ known) ts s1 (ground (arith, fit))
          (λ k h.
            let later = free k (ground (arith, h)) in
            (ground (arith, fit, h, tables1 k, later.0, eq_iff n k), own1 k ∙ later.1))
          (λ r h. ground (arith, h, tables1 r, there r, eq_iff n r))
          (λ e h. extensions1 e ∙ able e h) in
      (
        s2,
        rw (e1, create_tables) e2,
        λ k. tables2 k ∙ ap (made ts k) (tables1 k),
        λ k. own2 k ∙ own1 k,
        λ e. extensions2 e ∙ extensions1 e,
      )

  pub table-drop_tables :
      (ns : List String) (k : String) (s : State)
      → ((n : String) → holds n ns ≡ true → extension_table n s ≡ false)
      → table k (drop_tables server ns s) ≡ dropped ns k (table k s)
  unfolding drop_tables
  table-drop_tables [] k s own = refl
  table-drop_tables (n ∷ ns) k s own =
      table-drop_tables ns k (drop_table n s)
        (λ m h. extension_table-drop_table m n s ∙ own m (ground (arith, h)))
      ∙ ap (dropped ns k) (table-drop_table k n s (own n (ground (arith, eq_iff n n))))

  pub has_extension-drop_tables :
      (ns : List String) (e : String) (s : State)
      → has_extension e (drop_tables server ns s) ≡ has_extension e s
  unfolding drop_tables
  has_extension-drop_tables [] e s = refl
  has_extension-drop_tables (n ∷ ns) e s =
      has_extension-drop_tables ns e _ ∙ has_extension-drop_table e n s

dropped_absent : (ns : List String) (k : String) → dropped ns k none ≡ none
unfolding unlinked
dropped_absent [] k = refl
dropped_absent (n ∷ ns) k = ground (arith, dropped_absent ns k)

pub dropped_held :
    (ns : List String) (k : String) (o : Option Table) → holds k ns ≡ true → dropped ns k o ≡ none
dropped_held [] k o h = absurd (ground (arith, h))
dropped_held (n ∷ ns) k o h =
    ground (arith, h, eq_iff n k, dropped_absent ns k, dropped_held ns k (unlinked n o))

without_other : (n : String) (xs : List String) → holds n xs ≡ false → without n xs ≡ xs
unfolding without
without_other n [] h = refl
without_other n (x ∷ xs) h = ground (arith, h, eq_iff x n, without_other n xs)

pub made_other :
    (ts : List (String × Table)) (k : String) (o : Option Table)
    → holds k (names ts) ≡ false
    → made ts k o ≡ o
made_other [] k o h = refl
made_other ((n, t) ∷ ts) k o h = ground (arith, h, eq_iff n k, made_other ts k o)

-- A table of another name, with no foreign key to what is dropped, stays as it was.
pub dropped_other :
    (ns : List String) (k : String) (o : Option Table)
    → holds k ns ≡ false
    → ((t : Table) → o ≡ some t → (r : String) → holds r ns ≡ true → holds r t.references ≡ false)
    → dropped ns k o ≡ o
unfolding unlinked
dropped_other [] k o h apart = refl
dropped_other (n ∷ ns) k none h apart = ground (arith, h, dropped_absent ns k)
dropped_other (n ∷ ns) k (some t) h apart =
    let kept : unlinked n (some t) ≡ some t =
      ap (λ l. some (record t { references = l }))
        (without_other n t.references (apart t refl n (ground (arith, eq_iff n n)))) in
    let rest : dropped ns k (some t) ≡ some t =
      dropped_other ns k (some t) (ground (arith, h))
        (λ u e r held. apart u e r (ground (arith, held))) in
    ground (arith, h, kept, rest)

pub made_still :
    (ts : List (String × Table)) (k : String) (o : Option Table)
    → is_some o ≡ true
    → is_some (made ts k o) ≡ true
made_still [] k o h = h
made_still ((n, t) ∷ ts) k o h = made_still ts k _ (ground (arith, h))

pub made_named :
    (ts : List (String × Table)) (k : String) (o : Option Table)
    → holds k (names ts) ≡ true
    → is_some (made ts k o) ≡ true
made_named [] k o h = absurd (ground (arith, h))
made_named ((n, t) ∷ ts) k o h = elim (Bool-cases (n == k)) [
  | inl e ↦ made_still ts k _ (rw e refl)
  | inr e ↦ made_named ts k _ (ground (arith, h, e))
]
