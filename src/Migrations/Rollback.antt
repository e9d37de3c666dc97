-- ===== src/Migrations/Rollback.antt =====
-- Taking the migrations back: the database has the tables that it had before them.
use nestjs_stay_api.Common.{
  holds, ◌≡◌, refl, sym, ap, ◌∙◌, true, false, some, [], ◌∷◌, String, ◌==◌, is_some, eq_iff,
  if◌then◌else◌, arith,
}
use nestjs_stay_api.Migrations.{
  Server, public_schema, security_log, tables, drop_tables, up, down, up_security_log,
  down_security_log, migrate, roll_back,
}
use nestjs_stay_api.Migrations.Files.{
  names, made, dropped, covers-holds, create_tables_lem, table-drop_tables,
  has_extension-drop_tables,
}
use nestjs_stay_api.Migrations.Tables.{created, taken_back, made_held}
use nestjs_stay_api.Migrations.Extensions.{
  IsApart, with_both, uuid_ossp_lem, postgis_lem, able, postgis_dropped, uuid_ossp_dropped,
}

module _ (server : Server) where
  open server use {
    State, table, extension_table, has_extension, brings, requires, create_extension,
    create_extension_lem, brings_uuid_ossp, postgis_requires, uuid_ossp_requires,
    table-drop_function, has_extension-drop_function, drop_extension_lem, drop_function, drop_table,
    table-drop_table, extension_table-drop_table, has_extension-drop_table,
  }

  -- In a database apart from them, the first migration is taken.
  up_lem :
      (s : State)
      → IsApart server s
      → (s' : State) × (up server s ≡ some s')
        × ((k : String) → table k s' ≡ made public_schema k (table k s))
        × ((k : String) → holds k created ≡ true → extension_table k s' ≡ false)
        × ((e : String) → has_extension e s' ≡ with_both server e s)
  unfolding up
  up_lem s apart =
      let (s0, e0, tables0, own0, extensions0) = uuid_ossp_lem server s apart in
      let (s1, e1, (tables1, own1, extensions1)) =
        postgis_lem server s s0 apart tables0 own0 extensions0 in
      let (s', e, tables', own', extensions') =
        create_tables_lem server ("postgis" ∷ "uuid-ossp" ∷ []) [] public_schema s1 refl
          (λ k h.
            let listed = covers-holds k created (names public_schema) refl h in
            (tables1 k ∙ (apart.fresh k listed).0, own1 k listed))
          (λ r h. absurd (ground (arith, h))) (λ x h. able server s s1 x (extensions1 x) h) in
      (
        s',
        rw (e0, e1, up) e,
        λ k. tables' k ∙ ap (made public_schema k) (tables1 k),
        λ k h. own' k ∙ own1 k h,
        λ x. extensions' x ∙ extensions1 x,
      )

  -- And then the second.
  migrate_lem :
      (s : State)
      → IsApart server s
      → (s' : State) × (migrate server s ≡ some s')
        × ((k : String) → table k s' ≡ made security_log k (made public_schema k (table k s)))
        × ((k : String) → holds k created ≡ true → extension_table k s' ≡ false)
        × ((e : String) → has_extension e s' ≡ with_both server e s)
  unfolding migrate up_security_log
  migrate_lem s apart =
      let (s1, e1, tables1, own1, extensions1) = up_lem s apart in
      let (s2, e2, tables2, own2, extensions2) =
        create_tables_lem server ("postgis" ∷ "uuid-ossp" ∷ []) ("users" ∷ []) security_log s1 refl
          (λ k h.
            let same : "security_logs" ≡ k = ground (arith, h, eq_iff "security_logs" k) in
            (
              ap (λ x. table x s1) (sym same)
                  ∙ tables1 "security_logs"
                  ∙ (apart.fresh "security_logs" refl).0,
              ap (λ x. extension_table x s1) (sym same) ∙ own1 "security_logs" refl,
            ))
          (λ r h.
            let same : "users" ≡ r = ground (arith, h, eq_iff "users" r) in
            ap (λ x. is_some (table x s1)) (sym same) ∙ ap is_some (tables1 "users"))
          (λ x h. able server s s1 x (extensions1 x) h) in
      (
        s2,
        rw (e1, migrate) e2,
        λ k. tables2 k ∙ ap (made security_log k) (tables1 k),
        λ k h. own2 k ∙ own1 k h,
        λ e. extensions2 e ∙ extensions1 e,
      )

  -- What is left after the tables of both migrations were dropped
  unmigrated :
      (s s' : State)
      → IsApart server s
      → ((k : String) → table k s' ≡ made security_log k (made public_schema k (table k s)))
      → ((k : String) → holds k created ≡ true → extension_table k s' ≡ false)
      → (k : String)
      → table k (
          drop_function "update_updated_time_column"
            (drop_tables server tables (down_security_log server s')))
        ≡ table k s
  unfolding down_security_log
  unmigrated s s' apart migrated own k =
      table-drop_function k _ _
      ∙ table-drop_tables server tables k (drop_table "security_logs" s')
          (λ n h. extension_table-drop_table n "security_logs" s' ∙ own n (ground (arith, h)))
      ∙ ap (dropped tables k) (table-drop_table k "security_logs" s' (own "security_logs" refl))
      ∙ ap (dropped created k) (migrated k)
      ∙ taken_back k (table k s) (λ h. (apart.fresh k h).0) (λ t e. (apart.unlinked_to k t e).0)

  extensions_left :
      (e : String) (s : State)
      → has_extension e (
          drop_function "update_updated_time_column"
            (drop_tables server tables (down_security_log server s)))
        ≡ has_extension e s
  unfolding down_security_log
  extensions_left e s =
      has_extension-drop_function e _ _
      ∙ has_extension-drop_tables server tables e _
      ∙ has_extension-drop_table e "security_logs" s

  -- What both extensions are dropped from
  abbrev emptied : State → State
  emptied s =
      drop_function "update_updated_time_column"
        (drop_tables server tables (down_security_log server s))

  -- On a database with both extensions available, in which no table has the name of one of the
  -- migrations' or references one or a table of PostGIS, no table uses PostGIS or uuid-ossp, no other
  -- extension requires one, PostGIS brings none of those names, and either PostGIS is there or the names
  -- that it brings are free: both migrations are taken and then taken back, neither being refused; in
  -- between each of their tables is there, and afterwards every table that is no extension's is as it was
  -- before them, and so is every extension but those two, which are gone even if they were there.
  pub roll_back-migrate :
      (s : State)
      → IsApart server s
      → (s1 : State) × (s2 : State) × (migrate server s ≡ some s1)
        × (roll_back server s1 ≡ some s2)
        × ((k : String) → holds k created ≡ true → is_some (table k s1) ≡ true)
        × ((k : String) → table k s2 ≡ table k s)
        × ((e : String)
            → has_extension e s2 ≡ (
                if "uuid-ossp" == e
                then false
                else if "postgis" == e
                then false
                else has_extension e s))
  unfolding roll_back down
  roll_back-migrate s apart =
      let (s1, e1, tables1, own1, extensions1) = migrate_lem s apart in
      let (s3, e3, tables3, extensions3) =
        postgis_dropped server s (emptied s1) apart (unmigrated s s1 apart tables1 own1)
          (λ e. extensions_left e s1 ∙ extensions1 e) in
      let (s2, e2, tables2, extensions2) =
        uuid_ossp_dropped server s s3 apart tables3 extensions3 in
      (
        s1,
        s2,
        e1,
        rw (e3, down) e2,
        λ k h. ap is_some (tables1 k) ∙ made_held k (table k s) h,
        tables2,
        extensions2,
      )
