-- ===== src/Tests/Addresses.antt =====
-- The connection string on a concrete configuration, with delimiters in the user and the password.
use nestjs_stay_api.Common.{ℕ, ◌≡◌, refl, true, none, some, List, split, Option}
use Prim.Native.String.{◌++◌}
use nestjs_stay_api.Postgres.{
  PgConfig, read_only, encode_uri_component, decimal, auth, location, build_connection_string,
}
use nestjs_stay_api.Postgres.Pool.{PgSlonik, pg_slonik, on_module_init, pool}
use nestjs_stay_api.Texts.{without_slash, cloud_front_url, access_log}
use nestjs_stay_api.Postgres.Parts.{split-build_connection_string}

-- The size of the pool that a library opens whose pools are their sizes
abbrev opened_size : Option (PgSlonik ℕ) → Option ℕ
opened_size none = none
opened_size (some u) = pool (on_module_init (λ address options. some options.maximum_pool_size) u).0

abbrev config : PgConfig
config = record {
  host = some "db";
  port = some 5432;
  user = some "a@b";
  password = some "p:é";
  database = some "stay";
  ssl = true;
  connection_timeout_millis = none;
  idle_timeout_millis = none;
  max = some 50;
  search_path = none;
}

connection_text :
    build_connection_string config ≡ "postgres://a%40b:p%3A%C3%A9@db:5432/stay?sslmode=require"
unfolding build_connection_string
connection_text = refl

-- The pool is opened with ten connections, whatever the configuration says.
ten_connections : opened_size (pg_slonik (some config) 5000 read_only) ≡ some 10
unfolding pg_slonik on_module_init pool
ten_connections = refl

split-build_connection_string_example :
    (split b'@' (build_connection_string config)
      ≡ List.◌∷◌ ("postgres://" ++ auth config) (split b'@' (location config)))
    × (split b':' ("postgres://" ++ auth config)
        ≡ List.◌∷◌ "postgres" (
            List.◌∷◌
              ("//" ++ encode_uri_component "a@b")
              (List.◌∷◌ (encode_uri_component "p:é") List.[])))
split-build_connection_string_example = split-build_connection_string config

cloud_front : cloud_front_url "https://cdn.example.com/" "a.png" ≡ "https://cdn.example.com/a.png"
unfolding cloud_front_url without_slash
cloud_front = refl

access_line : access_log "GET" 404 "/users" "::1" none ≡ "GET 404 - /users - ::1 - "
unfolding access_log decimal
access_line = refl
