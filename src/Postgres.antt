-- ===== src/Postgres.antt =====
-- src/utils/db/types/pg.slonik.ts: the configuration of the PostgreSQL pool and its connection string.
-- The pool belongs to the library. A template shows undefined as "undefined".
pub mod Parts
pub mod Pool
pub mod Repository
use Prim.Native.Char.{code}
use Prim.Native.String.{[], ◌∷◌, ◌++◌}
use nestjs_stay_api.Common.{
  ℕ, zero, suc, ◌+◌, ◌/◌, ◌%◌, Bool, true, false, Option, none, some, String, leb, ltb, nat_eq,
  ◌||◌, ◌&&◌, or_else, if◌then◌else◌, List,
}

-- `ssl` is whether the setting is there and is not false.
pub record PgConfig : Type 0 where
  pub host : Option String
  pub port : Option ℕ
  pub user : Option String
  pub password : Option String
  pub database : Option String
  pub ssl : Bool
  pub connection_timeout_millis : Option ℕ
  pub idle_timeout_millis : Option ℕ
  pub max : Option ℕ
  pub search_path : Option String

pub data PgConnectMode : Type 0 where
  read_only read_write : PgConnectMode

-- An interceptor of the pool: its name, and the queries that it runs on each new connection.
pub record Interceptor : Type 0 where
  pub name : String
  pub after_pool_connection : List String

pub record DbConfig : Type 0 where
  pub connection_string : String
  pub idle_timeout : ℕ
  pub connection_timeout_ms : Option ℕ
  pub maximum_pool_size : Option ℕ
  pub statement_timeout_ms : Option ℕ
  pub interceptors : Option (List Interceptor)

-- The characters that `encodeURIComponent` leaves as they are, by their codes.
unfoldable pub is_unreserved : ℕ → Bool
is_unreserved c =
    (leb 65 c && leb c 90)
    || (leb 97 c && leb c 122)
    || (leb 48 c && leb c 57)
    || nat_eq c 45
    || nat_eq c 95
    || nat_eq c 46
    || nat_eq c 33
    || nat_eq c 126
    || nat_eq c 42
    || nat_eq c 39
    || nat_eq c 40
    || nat_eq c 41

-- The character at an index, as a text
unfoldable pub char_at : ℕ → String → String
char_at n [] = ""
char_at zero (c ∷ s) = c ∷ []
char_at (suc n) (c ∷ s) = char_at n s

unfoldable pub hex_digit : ℕ → String
unfolding char_at
hex_digit n = char_at n "0123456789ABCDEF"

unfoldable pub percent : ℕ → String
unfolding hex_digit
percent byte = "%" ++ (hex_digit (byte / 16) ++ hex_digit (byte % 16))

-- The bytes of a code point in UTF-8, each percent-encoded.
unfoldable pub percent_utf8 : ℕ → String
unfolding percent
percent_utf8 n =
    if ltb n 128
    then percent n
    else (if ltb n 2048
        then percent (192 + n / 64) ++ percent (128 + n % 64)
        else (if ltb n 65536
            then percent (224 + n / 4096) ++ (percent (128 + n / 64 % 64) ++ percent (128 + n % 64))
            else percent (240 + n / 262144)
              ++ (percent (128 + n / 4096 % 64)
                  ++ (percent (128 + n / 64 % 64) ++ percent (128 + n % 64)))))

-- `encodeURIComponent`
unfoldable pub encode_uri_component : String → String
unfolding is_unreserved percent_utf8
encode_uri_component [] = ""
encode_uri_component (c ∷ s) =
    let rest = encode_uri_component s in
    if is_unreserved (code c) then c ∷ rest else percent_utf8 (code c) ++ rest

-- The decimal text of a number of at most `fuel + 1` digits
unfoldable pub decimal : ℕ → ℕ → String
unfolding hex_digit
decimal zero n = hex_digit (n % 10)
decimal (suc fuel) n =
    let front = decimal fuel (n / 10) in
    if ltb n 10 then hex_digit n else front ++ hex_digit (n % 10)

unfoldable pub show_port : Option ℕ → String
unfolding decimal
show_port none = "undefined"
show_port (some n) = decimal n n

-- `host:port/database`, and what follows it
unfoldable pub location : PgConfig → String
unfolding show_port
location config =
    or_else config.host "undefined"
    ++ (":"
        ++ (show_port config.port
            ++ ("/"
                ++ (or_else config.database "undefined"
                    ++ (if config.ssl then "?sslmode=require" else "")))))

-- `auth`
unfoldable pub auth : PgConfig → String
unfolding encode_uri_component
auth config =
    encode_uri_component (or_else config.user "undefined")
    ++ (":" ++ encode_uri_component (or_else config.password "undefined"))

-- `buildConnectionString`
unfoldable pub build_connection_string : PgConfig → String
unfolding auth location
build_connection_string config = "postgres://" ++ (auth config ++ ("@" ++ location config))

-- `roInterceptor`; the queries are without the white space around them.
unfoldable pub ro_interceptor : PgConnectMode → Option Interceptor
ro_interceptor read_write = none
ro_interceptor read_only = some (record {
  name = "read-only-enforcer";
  after_pool_connection =
      List.◌∷◌ "SET SESSION CHARACTERISTICS AS TRANSACTION READ ONLY"
        (List.◌∷◌ "SET default_transaction_read_only = on" List.[]);
})

-- `dbConfig`, as the constructor sets it; a missing configuration is an error (`none`).
unfoldable pub db_config : Option PgConfig → ℕ → PgConnectMode → Option DbConfig
unfolding build_connection_string ro_interceptor
db_config none idle_timeout mode = none
db_config (some config) idle_timeout mode = some (record {
  connection_string = build_connection_string config;
  idle_timeout = idle_timeout;
  connection_timeout_ms = none;
  maximum_pool_size = none;
  statement_timeout_ms = none;
  interceptors = elim (ro_interceptor mode) [ none ↦ none | some i ↦ some (List.◌∷◌ i List.[]) ];
})
