-- ===== src/Migrations.antt =====
-- database/psql/migrations: the two migrations, on the tables that the SQL files of
-- database/psql/schemas make. A table is what other tables and the extensions need to know of it;
-- columns, indexes and the two rows of the first user are left out. `Server` is the database.
pub mod Files
pub mod Tables
pub mod Extensions
pub mod Rollback
use nestjs_stay_api.Common.{
  holds, ◌≡◌, ◌⊎◌, Bool, true, false, Option, none, some, List, [], ◌∷◌, String, ◌==◌, ◌||◌, not,
  is_some, if◌then◌else◌,
}

-- The tables that a table references, and the extensions that its columns or defaults use.
pub record Table : Type 0 where
  pub references : List String
  pub extensions : List String

abbrev pub table_of : List String → List String → Table
table_of refs extensions = record { references = refs; extensions = extensions }

-- What is left of a list without a text
unfoldable pub without : String → List String → List String
without x [] = []
without x (y ∷ ys) = let rest = without x ys in if y == x then rest else y ∷ rest

-- A table whose foreign keys to another one were dropped
unfoldable pub unlinked : String → Option Table → Option Table
unfolding without
unlinked n none = none
unlinked n (some t) = some (record t { references = without n t.references })

-- The tables of a database and its extensions. `table` is a table that belongs to no extension. An
-- extension takes the names of the tables, views and types that it `brings`, which come and go with it
-- (`extension_table`); uuid-ossp brings functions only. An extension is made, if it does not exist, where
-- it is available, what it requires is there and the names that it brings are free. A table is made where its name is free and what it needs is there; a table that is no extension's
-- is dropped, if it exists, with the foreign keys to it. An extension is dropped, if it exists, where no
-- table uses it or references one of its own, and no other extension requires it. Other objects, such as
-- views and functions, are not there.
pub record Server : Type 1 where
  pub State : Type 0
  pub table : String → State → Option Table
  pub extension_table : String → State → Bool
  pub has_extension : String → State → Bool
  pub is_available : String → Bool
  pub brings : String → List String
  pub requires : String → String → Bool
  pub create_extension : String → State → Option State
  pub create_table : String → Table → State → Option State
  pub drop_table : String → State → State
  pub drop_function : String → State → State
  pub drop_extension : String → State → Option State
  pub brings_uuid_ossp : brings "uuid-ossp" ≡ []
  pub postgis_requires : (d : String) → requires "postgis" d ≡ false
  pub uuid_ossp_requires : (d : String) → requires "uuid-ossp" d ≡ false
  pub create_extension_lem :
      (e : String) (s : State)
      → is_available e ≡ true
      → ((d : String) → requires e d ≡ true → has_extension d s ≡ true)
      → (has_extension e s ≡ true)
        ⊎ ((k : String)
            → holds k (brings e) ≡ true
            → (table k s ≡ none) × (extension_table k s ≡ false))
      → (s' : State) × (create_extension e s ≡ some s')
        × ((k : String) → table k s' ≡ table k s)
        × ((k : String) → extension_table k s' ≡ (holds k (brings e) || extension_table k s))
        × ((d : String) → has_extension d s' ≡ (if e == d then true else has_extension d s))
  pub create_table_lem :
      (n : String) (t : Table) (s : State)
      → table n s ≡ none
      → extension_table n s ≡ false
      → ((r : String) → holds r t.references ≡ true → is_some (table r s) ≡ true)
      → ((e : String) → holds e t.extensions ≡ true → has_extension e s ≡ true)
      → (s' : State) × (create_table n t s ≡ some s')
        × ((k : String) → table k s' ≡ (if n == k then some t else table k s))
        × ((k : String) → extension_table k s' ≡ extension_table k s)
        × ((e : String) → has_extension e s' ≡ has_extension e s)
  pub table-drop_table :
      (k n : String) (s : State)
      → extension_table n s ≡ false
      → table k (drop_table n s) ≡ (if n == k then none else unlinked n (table k s))
  pub extension_table-drop_table :
      (k n : String) (s : State) → extension_table k (drop_table n s) ≡ extension_table k s
  pub has_extension-drop_table :
      (e n : String) (s : State) → has_extension e (drop_table n s) ≡ has_extension e s
  pub table-drop_function : (k f : String) (s : State) → table k (drop_function f s) ≡ table k s
  pub has_extension-drop_function :
      (e f : String) (s : State) → has_extension e (drop_function f s) ≡ has_extension e s
  pub drop_extension_lem :
      (e : String) (s : State)
      → ((k : String) (t : Table)
          → table k s ≡ some t
          → (holds e t.extensions ≡ false)
            × ((r : String) → holds r (brings e) ≡ true → holds r t.references ≡ false))
      → ((d : String) → (e == d) ≡ false → has_extension d s ≡ true → requires d e ≡ false)
      → (s' : State) × (drop_extension e s ≡ some s')
        × ((k : String) → table k s' ≡ table k s)
        × ((d : String) → has_extension d s' ≡ (if e == d then false else has_extension d s))

-- 01_public_schema.sql, in its order
abbrev pub public_schema : List (String × Table)
public_schema =
    ("users", table_of ([]) ("uuid-ossp" ∷ []))
    ∷ ("user_profiles", table_of ("users" ∷ []) ([]))
    ∷ ("user_roles", table_of ("users" ∷ []) ("uuid-ossp" ∷ []))
    ∷ ("user_settings", table_of ("users" ∷ []) ([]))
    ∷ ("email_verifications", table_of ("users" ∷ []) ("uuid-ossp" ∷ []))
    ∷ ("phone_verifications", table_of ("users" ∷ []) ("uuid-ossp" ∷ []))
    ∷ ("properties", table_of ("users" ∷ []) ("uuid-ossp" ∷ "postgis" ∷ []))
    ∷ ("property_amenities", table_of ("properties" ∷ []) ("uuid-ossp" ∷ []))
    ∷ ("property_media", table_of ("properties" ∷ []) ("uuid-ossp" ∷ []))
    ∷ ("property_pricing", table_of ("properties" ∷ []) ("uuid-ossp" ∷ []))
    ∷ ("property_availability", table_of ("properties" ∷ []) ("uuid-ossp" ∷ []))
    ∷ ("property_policies", table_of ("properties" ∷ []) ("uuid-ossp" ∷ []))
    ∷ ("bookings", table_of ("properties" ∷ "users" ∷ []) ("uuid-ossp" ∷ []))
    ∷ ("booking_price_breakdown", table_of ("bookings" ∷ []) ("uuid-ossp" ∷ []))
    ∷ ("payment_outbox", table_of ("bookings" ∷ "users" ∷ []) ("uuid-ossp" ∷ []))
    ∷ ("payments", table_of ("bookings" ∷ "users" ∷ []) ("uuid-ossp" ∷ []))
    ∷ ("payment_methods", table_of ("users" ∷ []) ("uuid-ossp" ∷ []))
    ∷ ("host_payouts", table_of ("users" ∷ "bookings" ∷ []) ("uuid-ossp" ∷ []))
    ∷ ("coupons", table_of ("users" ∷ []) ("uuid-ossp" ∷ []))
    ∷ ("coupon_usage", table_of ("coupons" ∷ "users" ∷ "bookings" ∷ []) ("uuid-ossp" ∷ []))
    ∷ ("reviews", table_of ("bookings" ∷ "users" ∷ "properties" ∷ []) ("uuid-ossp" ∷ []))
    ∷ ("review_responses", table_of ("reviews" ∷ []) ("uuid-ossp" ∷ []))
    ∷ ("conversations", table_of ("bookings" ∷ "users" ∷ "properties" ∷ []) ("uuid-ossp" ∷ []))
    ∷ ("messages", table_of ("conversations" ∷ "users" ∷ []) ("uuid-ossp" ∷ []))
    ∷ ("wishlists", table_of ("users" ∷ []) ("uuid-ossp" ∷ []))
    ∷ ("wishlist_items", table_of ("wishlists" ∷ "properties" ∷ []) ("uuid-ossp" ∷ []))
    ∷ (
      "notifications",
      table_of ("users" ∷ "bookings" ∷ "messages" ∷ "reviews" ∷ []) ("uuid-ossp" ∷ []),
    )
    ∷ ("admin_actions", table_of ("users" ∷ []) ("uuid-ossp" ∷ []))
    ∷ []

-- 02_security_log.sql
abbrev pub security_log : List (String × Table)
security_log = ("security_logs", table_of ("users" ∷ []) ("uuid-ossp" ∷ [])) ∷ []

-- `tables` of `down`
abbrev pub tables : List String
tables =
    "admin_actions" ∷ "notifications" ∷ "wishlist_items" ∷ "wishlists" ∷ "messages"
    ∷ "conversations" ∷ "review_responses" ∷ "reviews" ∷ "coupon_usage" ∷ "coupons" ∷ "host_payouts"
    ∷ "payment_methods" ∷ "payments" ∷ "payment_outbox" ∷ "booking_price_breakdown" ∷ "bookings"
    ∷ "property_policies" ∷ "property_availability" ∷ "property_pricing" ∷ "property_media"
    ∷ "property_amenities" ∷ "properties" ∷ "phone_verifications" ∷ "email_verifications"
    ∷ "user_settings" ∷ "user_roles" ∷ "user_profiles" ∷ "users" ∷ []

module _ (server : Server) where
  open server use {State, create_extension, create_table, drop_table, drop_function, drop_extension}

  -- The tables of a file, one after another; `none` is an error.
  unfoldable pub create_tables : List (String × Table) → State → Option State
  create_tables [] s = some s
  create_tables ((n, t) ∷ ts) s = elim (create_table n t s) [
    | none ↦ none
    | some s' ↦ create_tables ts s'
  ]

  unfoldable pub drop_tables : List String → State → State
  drop_tables [] s = s
  drop_tables (n ∷ ns) s = drop_tables ns (drop_table n s)

  -- `up` of 1732113000000_public-schema.js
  unfoldable pub up : State → Option State
  unfolding create_tables
  up s = elim (create_extension "uuid-ossp" s) [
    | none ↦ none
    | some s' ↦ elim (create_extension "postgis" s') [
      | none ↦ none
      | some s'' ↦ create_tables public_schema s''
    ]
  ]

  -- `down` of 1732113000000_public-schema.js
  unfoldable pub down : State → Option State
  unfolding drop_tables
  down s =
      let s' = drop_function "update_updated_time_column" (drop_tables tables s) in
      elim (drop_extension "postgis" s') [ none ↦ none | some s'' ↦ drop_extension "uuid-ossp" s'' ]

  -- `up` of 1763442086106_security-log.js
  unfoldable pub up_security_log : State → Option State
  unfolding create_tables
  up_security_log = create_tables security_log

  -- `down` of 1763442086106_security-log.js
  unfoldable pub down_security_log : State → State
  down_security_log = drop_table "security_logs"

  -- Both migrations, in the order of their numbers
  unfoldable pub migrate : State → Option State
  unfolding up up_security_log
  migrate s = elim (up s) [ none ↦ none | some s' ↦ up_security_log s' ]

  -- Both migrations taken back, the later one first
  unfoldable pub roll_back : State → Option State
  unfolding down down_security_log
  roll_back s = down (down_security_log s)
