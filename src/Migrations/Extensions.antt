-- ===== src/Migrations/Extensions.antt =====
-- The extensions that the first migration makes and that taking it back drops, on the interface `Server`
use nestjs_stay_api.Common.{
  Bool, ◌⊎◌, inl, inr, Bool-cases, holds, ◌≡◌, sym, ap, ◌∙◌, true, false, none, some, [], ◌∷◌,
  String, ◌==◌, eq_iff, if◌then◌else◌, arith,
}
use nestjs_stay_api.Migrations.{Table, Server}
use nestjs_stay_api.Migrations.Tables.{created, dropped_both}

-- A database with both extensions available, in which no table has the name of one of the migrations or
-- references one or a table of PostGIS, no table uses one of the two extensions, and no other extension
-- requires one; PostGIS brings none of these names, and where it is not there, those that it brings are
-- free.
pub record IsApart (server : Server) (s : server.State) : Type 0 where
  pub available : (server.is_available "postgis" ≡ true) × (server.is_available "uuid-ossp" ≡ true)
  pub fresh :
      (k : String)
      → holds k created ≡ true
      → (server.table k s ≡ none) × (server.extension_table k s ≡ false)
  pub unnamed : (k : String) → holds k created ≡ true → holds k (server.brings "postgis") ≡ false
  pub unlinked_to :
      (k : String) (t : Table)
      → server.table k s ≡ some t
      → ((r : String) → holds r created ≡ true → holds r t.references ≡ false)
        × ((r : String) → holds r (server.brings "postgis") ≡ true → holds r t.references ≡ false)
  pub without_extensions :
      (k : String) (t : Table)
      → server.table k s ≡ some t
      → (holds "postgis" t.extensions ≡ false) × (holds "uuid-ossp" t.extensions ≡ false)
  pub unrequired :
      (d : String)
      → server.has_extension d s ≡ true
      → (server.requires d "postgis" ≡ false) × (server.requires d "uuid-ossp" ≡ false)
  pub room :
      (server.has_extension "postgis" s ≡ true)
      ⊎ ((k : String)
          → holds k (server.brings "postgis") ≡ true
          → (server.table k s ≡ none) × (server.extension_table k s ≡ false))

module _ (server : Server) where
  open server use {
    State, table, extension_table, has_extension, brings, requires, create_extension,
    create_extension_lem, brings_uuid_ossp, postgis_requires, uuid_ossp_requires,
    table-drop_function, has_extension-drop_function, drop_extension_lem, drop_function, drop_table,
    table-drop_table, extension_table-drop_table, has_extension-drop_table,
  }

  abbrev pub with_both : String → State → Bool
  with_both e s =
      if "postgis" == e then true else if "uuid-ossp" == e then true else has_extension e s

  -- Both extensions are made.
  abbrev pub Prepared : State → State → Type 0
  Prepared s s' =
      ((k : String) → table k s' ≡ table k s)
      × ((k : String) → holds k created ≡ true → extension_table k s' ≡ false)
      × ((e : String) → has_extension e s' ≡ with_both e s)

  pub uuid_ossp_lem :
      (s : State)
      → IsApart server s
      → (s' : State) × (create_extension "uuid-ossp" s ≡ some s')
        × ((k : String) → table k s' ≡ table k s)
        × ((k : String) → extension_table k s' ≡ extension_table k s)
        × ((d : String)
            → has_extension d s' ≡ (if "uuid-ossp" == d then true else has_extension d s))
  uuid_ossp_lem s apart =
      let nothing : (k : String) → holds k (brings "uuid-ossp") ≡ false =
        λ k. ap (holds k) brings_uuid_ossp in
      let (s', e, tables', own', extensions') =
        create_extension_lem "uuid-ossp" s apart.available.1
          (λ d h. absurd (ground (arith, h, uuid_ossp_requires d)))
          (inr (λ k h. absurd (ground (arith, h, nothing k)))) in
      (s', e, tables', λ k. own' k ∙ ground (arith, nothing k), extensions')

  pub postgis_lem :
      (s s0 : State)
      → IsApart server s
      → ((k : String) → table k s0 ≡ table k s)
      → ((k : String) → extension_table k s0 ≡ extension_table k s)
      → ((d : String) → has_extension d s0 ≡ (if "uuid-ossp" == d then true else has_extension d s))
      → (s' : State) × (create_extension "postgis" s0 ≡ some s') × Prepared s s'
  postgis_lem s s0 apart tables0 own0 extensions0 =
      let (s', e, tables', own', extensions') =
        create_extension_lem "postgis" s0 apart.available.0
          (λ d h. absurd (ground (arith, h, postgis_requires d)))
          (elim apart.room [
            | inl there ↦ inl (extensions0 "postgis" ∙ there)
            | inr free ↦ inr (λ k h. let now = free k h in (tables0 k ∙ now.0, own0 k ∙ now.1))
          ]) in
      (
        s',
        e,
        (
          λ k. tables' k ∙ tables0 k,
          λ k h. own' k ∙ ground (arith, apart.unnamed k h, own0 k, apart.fresh k h),
          λ d. extensions' d ∙ ap (λ b. if "postgis" == d then true else b) (extensions0 d),
        ),
      )

  pub able :
      (s s' : State) (e : String)
      → has_extension e s' ≡ with_both e s
      → holds e ("postgis" ∷ "uuid-ossp" ∷ []) ≡ true
      → has_extension e s' ≡ true
  able s s' e both h = ground (arith, h, both)

  -- The extensions are not refused: no table uses one, and no other extension requires one.
  pub postgis_dropped :
      (s s' : State)
      → IsApart server s
      → ((k : String) → table k s' ≡ table k s)
      → ((e : String) → has_extension e s' ≡ with_both e s)
      → (s3 : State) × (server.drop_extension "postgis" s' ≡ some s3)
        × ((k : String) → table k s3 ≡ table k s)
        × ((d : String) → has_extension d s3 ≡ (if "postgis" == d then false else with_both d s))
  postgis_dropped s s' apart left both =
      let (s3, e3, tables3, extensions3) =
        drop_extension_lem "postgis" s'
          (λ k t e. (
            (apart.without_extensions k t (sym (left k) ∙ e)).0,
            λ r h. (apart.unlinked_to k t (sym (left k) ∙ e)).1 r h,
          ))
          (λ d other h. elim (Bool-cases ("uuid-ossp" == d)) [
            | inl same ↦
                ap (λ x. requires x "postgis") (sym ((eq_iff "uuid-ossp" d).0 same))
                ∙ uuid_ossp_requires "postgis"
            | inr apart_too ↦ (apart.unrequired d (ground (arith, h, both d, other, apart_too))).0
          ]) in
      (
        s3,
        e3,
        λ k. tables3 k ∙ left k,
        λ d. extensions3 d ∙ ap (λ b. if "postgis" == d then false else b) (both d),
      )

  pub uuid_ossp_dropped :
      (s s3 : State)
      → IsApart server s
      → ((k : String) → table k s3 ≡ table k s)
      → ((d : String) → has_extension d s3 ≡ (if "postgis" == d then false else with_both d s))
      → (s2 : State) × (server.drop_extension "uuid-ossp" s3 ≡ some s2)
        × ((k : String) → table k s2 ≡ table k s)
        × ((d : String)
            → has_extension d s2 ≡ (
                if "uuid-ossp" == d
                then false
                else if "postgis" == d
                then false
                else has_extension d s))
  uuid_ossp_dropped s s3 apart left both =
      let (s2, e2, tables2, extensions2) =
        drop_extension_lem "uuid-ossp" s3
          (λ k t e. (
            (apart.without_extensions k t (sym (left k) ∙ e)).1,
            λ r h. absurd (ground (arith, h, ap (holds r) brings_uuid_ossp)),
          ))
          (λ d other h.
            (apart.unrequired d (elim (Bool-cases ("postgis" == d)) [
              | inl same ↦ absurd (ground (arith, h, both d, same))
              | inr apart_too ↦ ground (arith, h, both d, other, apart_too)
            ])).1) in
      (
        s2,
        e2,
        λ k. tables2 k ∙ left k,
        λ d.
            extensions2 d
            ∙ ap (λ b. if "uuid-ossp" == d then false else b) (both d)
            ∙ dropped_both ("uuid-ossp" == d) ("postgis" == d) (has_extension d s),
      )
