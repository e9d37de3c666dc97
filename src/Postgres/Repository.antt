-- ===== src/Postgres/Repository.antt =====
-- src/utils/db/db.repository.ts: the base class of the repositories. `P` is a pool of the library.
use nestjs_stay_api.Common.{Option, none, some}
use nestjs_stay_api.Postgres.Pool.{PgSlonik, pool}

pub record DbRepository (P : Type 0) : Type 0 where
  pub pg_slonik : PgSlonik P
  pub ro_pg_slonik : PgSlonik P

-- `transaction`, with the pool's own `transaction`; an error of it, and the TypeError where there is no
-- pool, are `none`.
unfoldable pub transaction : {P F R : Type 0} → (P → F → Option R) → F → DbRepository P → Option R
unfolding pool
transaction run fn r = elim (pool r.pg_slonik) [ none ↦ none | some p ↦ run p fn ]
