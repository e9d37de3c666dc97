-- ===== src/Tests/Databases.antt =====
-- The migrations on a database in memory.
use nestjs_stay_api.Common.{
  holds, ◌≡◌, refl, ap, ◌∙◌, inl, inr, Bool, true, false, Option, none, some, List, [], ◌∷◌, String,
  ◌==◌, ◌||◌, ◌&&◌, is_some, eq_iff, Bool-cases, if◌then◌else◌, arith,
}
use nestjs_stay_api.Migrations.{Table, table_of, Server, unlinked, migrate, roll_back}
use nestjs_stay_api.Migrations.Extensions.{IsApart}
use nestjs_stay_api.Migrations.Rollback.{roll_back-migrate}
use nestjs_stay_api.Migrations.Tables.{created}

-- The tables, and the extensions; PostGIS brings one table of its own.
abbrev State : Type 0
State = (String → Option Table) × (String → Bool)

abbrev brings : String → List String
brings e = if e == "postgis" then "spatial_ref_sys" ∷ [] else []

abbrev is_its_table : String → State → Bool
is_its_table k s = s.1 "postgis" && "spatial_ref_sys" == k

abbrev extended : String → State → State
extended e s = (s.0, λ d. if e == d then true else s.1 d)

brought_too :
    (e k : String) (s : State)
    → is_its_table k (extended e s) ≡ (holds k (brings e) || is_its_table k s)
brought_too e k s = ground arith

abbrev all_there : (String → Option Table) → List String → Bool
all_there tables [] = true
all_there tables (r ∷ refs) = is_some (tables r) && all_there tables refs

abbrev added : String → Table → State → State
added n t s = (λ k. if n == k then some t else s.0 k, s.1)

abbrev create : String → Table → State → Option State
create n t s =
    if is_some (s.0 n)
    then none
    else if all_there s.0 t.references
    then some (added n t s)
    else none

all_there_of :
    (tables : String → Option Table) (refs : List String)
    → ((r : String) → holds r refs ≡ true → is_some (tables r) ≡ true)
    → all_there tables refs ≡ true
all_there_of tables [] h = refl
all_there_of tables (r ∷ refs) h =
    let first : is_some (tables r) ≡ true = h r (ground (arith, eq_iff r r)) in
    rw first (all_there_of tables refs (λ x held. h x (ground (arith, held))))

create-added :
    (n : String) (t : Table) (s : State)
    → s.0 n ≡ none
    → ((r : String) → holds r t.references ≡ true → is_some (s.0 r) ≡ true)
    → create n t s ≡ some (added n t s)
create-added n t s e h = rw (e, all_there_of s.0 t.references h) refl

abbrev in_memory : Server
in_memory = record {
  State = State;
  table = λ k s. s.0 k;
  has_extension = λ e s. s.1 e;
  extension_table = is_its_table;
  is_available = λ e. true;
  brings = brings;
  requires = λ e d. false;
  create_extension = λ e s. some (extended e s);
  brings_uuid_ossp = refl;
  postgis_requires = λ d. refl;
  uuid_ossp_requires = λ d. refl;
  create_table = create;
  drop_table = λ n s. (λ k. if n == k then none else unlinked n (s.0 k), s.1);
  drop_function = λ f s. s;
  drop_extension = λ e s. some (s.0, λ d. if e == d then false else s.1 d);
  create_extension_lem = λ e s available required free.
      (extended e s, refl, λ k. refl, λ k. brought_too e k s, λ d. refl);
  create_table_lem = λ n t s free own there able.
      (added n t s, create-added n t s free there, λ k. refl, λ k. refl, λ e. refl);
  table-drop_table = λ k n s own. refl;
  extension_table-drop_table = λ k n s. refl;
  has_extension-drop_table = λ e n s. refl;
  table-drop_function = λ k f s. refl;
  has_extension-drop_function = λ e f s. refl;
  drop_extension_lem = λ e s unused unrequired.
      ((s.0, λ d. if e == d then false else s.1 d), refl, λ k. refl, λ d. refl);
}

-- A database with the table of the migrations themselves
abbrev before : State
before = (λ k. if "pgmigrations" == k then some (table_of [] []) else none, λ e. e == "postgis")

only_table :
    (k : String) (t : Table)
    → (if "pgmigrations" == k then some (table_of [] []) else none) ≡ some t
    → t ≡ table_of [] []
only_table k t e = elim (Bool-cases ("pgmigrations" == k)) [
  | inl same ↦ ground (arith, e, same)
  | inr other ↦ absurd (ground (arith, e, other))
]

absent_before : (k : String) → holds k created ≡ true → before.0 k ≡ none
absent_before k h = elim (Bool-cases ("pgmigrations" == k)) [
  | inr other ↦ rw other refl
  | inl same ↦
      let e : holds "pgmigrations" created ≡ true =
        ap (λ x. holds x created) ((eq_iff "pgmigrations" k).0 same) ∙ h in
      absurd (ground (arith, e))
]

-- None of the migrations' tables has the name of the table of PostGIS.
unnamed : (k : String) → holds k created ≡ true → holds k (brings "postgis") ≡ false
unnamed k h = elim (Bool-cases ("spatial_ref_sys" == k)) [
  | inr other ↦ ground (arith, other)
  | inl same ↦
      let e : holds "spatial_ref_sys" created ≡ true =
        ap (λ x. holds x created) ((eq_iff "spatial_ref_sys" k).0 same) ∙ h in
      absurd (ground (arith, e))
]

not_its_own : (k : String) → holds k created ≡ true → is_its_table k before ≡ false
not_its_own k h = ground (arith, unnamed k h)

before-IsApart : IsApart in_memory before
before-IsApart = record {
  available = (refl, refl);
  fresh = λ k h. (absent_before k h, not_its_own k h);
  unnamed = unnamed;
  unlinked_to = λ k t e. (λ r h. rw (only_table k t e) refl, λ r h. rw (only_table k t e) refl);
  without_extensions = λ k t e. rw (only_table k t e) (refl, refl);
  unrequired = λ d h. (refl, refl);
  room = inl refl;
}

roll_back-migrate_example :
    (s1 : State) × (s2 : State) × (migrate in_memory before ≡ some s1)
    × (roll_back in_memory s1 ≡ some s2)
    × ((k : String) → holds k created ≡ true → is_some (s1.0 k) ≡ true)
    × ((k : String) → s2.0 k ≡ before.0 k)
    × ((e : String)
        → s2.1 e
          ≡ (if "uuid-ossp" == e then false else if "postgis" == e then false else before.1 e))
roll_back-migrate_example = roll_back-migrate in_memory before before-IsApart
