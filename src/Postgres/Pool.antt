-- ===== src/Postgres/Pool.antt =====
-- The pool of `PgSlonik` in src/utils/db/types/pg.slonik.ts: what `onModuleInit` asks the library for,
-- and what `onModuleDestroy` ends. `P` is the library's pool. Console output is left out, save for the
-- count of errors that were logged.
use nestjs_stay_api.Common.{
  ℕ, suc, Bool, true, false, Option, none, some, List, [], ◌∷◌, ◌++◌, String, or_else, ◌≡◌, refl,
}
use nestjs_stay_api.Postgres.{
  PgConfig, PgConnectMode, Interceptor, DbConfig, db_config, build_connection_string,
}

-- The options of `createPool`; a statement timeout of `none` is DISABLE_TIMEOUT, which is also the
-- one for idle transactions.
pub record ClientConfigurationInput : Type 0 where
  pub capture_stack_trace : Bool
  pub connection_retry_limit : ℕ
  pub connection_timeout : ℕ
  pub idle_in_transaction_session_timeout : Option ℕ
  pub idle_timeout : ℕ
  pub interceptors : Option (List Interceptor)
  pub maximum_pool_size : ℕ
  pub statement_timeout : Option ℕ

-- `opts` of `onModuleInit`, save for the library's own parsers of types
unfoldable pub opts : DbConfig → ClientConfigurationInput
opts cfg = record {
  capture_stack_trace = true;
  connection_retry_limit = 5;
  connection_timeout = or_else cfg.connection_timeout_ms 5000;
  idle_in_transaction_session_timeout = none;
  idle_timeout = cfg.idle_timeout;
  interceptors = cfg.interceptors;
  maximum_pool_size = or_else cfg.maximum_pool_size 10;
  statement_timeout = cfg.statement_timeout_ms;
}

-- `ended` has the pools that were ended.
pub record PgSlonik (P : Type 0) : Type 0 where
  pub mode : PgConnectMode
  pub pg_config : PgConfig
  pub db_config : DbConfig
  pub slonik_pool : Option P
  pub ended : List P
  pub failures : ℕ

module _ {P : Type 0} where
  -- The constructor; `none` is its error.
  unfoldable pub pg_slonik : Option PgConfig → ℕ → PgConnectMode → Option (PgSlonik P)
  unfolding db_config
  pg_slonik none idle_timeout mode = none
  pg_slonik (some config) idle_timeout mode = elim (db_config (some config) idle_timeout mode) [
    | none ↦ none
    | some db ↦ some (record {
      mode = mode;
      pg_config = config;
      db_config = db;
      slonik_pool = none;
      ended = [];
      failures = 0;
    })
  ]

  -- `onModuleInit`, with the library's `createPool`; the second part is whether it returned and did not
  -- throw.
  unfoldable pub on_module_init :
      (String → ClientConfigurationInput → Option P) → PgSlonik P → PgSlonik P × Bool
  unfolding opts
  on_module_init create_pool u =
      elim (create_pool u.db_config.connection_string (opts u.db_config)) [
        | some p ↦ (record u { slonik_pool = some p }, true)
        | none ↦ (record u { failures = suc u.failures }, false)
      ]

  -- `onModuleDestroy`
  unfoldable pub on_module_destroy : PgSlonik P → PgSlonik P
  on_module_destroy u = elim u.slonik_pool [
    | none ↦ u
    | some p ↦ record u { ended = u.ended ++ p ∷ [] }
  ]

  -- `pool`
  unfoldable pub pool : PgSlonik P → Option P
  pool u = u.slonik_pool

-- The sizes and times of the configuration do not reach the pool: it is set up from the connection
-- string alone.
db_config_ignores :
    (c d : PgConfig) (idle_timeout : ℕ) (mode : PgConnectMode)
    → build_connection_string c ≡ build_connection_string d
    → db_config (some c) idle_timeout mode ≡ db_config (some d) idle_timeout mode
unfolding db_config
db_config_ignores c d idle_timeout mode same = rw same refl
