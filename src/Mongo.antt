-- ===== src/Mongo.antt =====
-- src/utils/db/types/mg.mongoose.ts: the wrapper of a MongoDB connection. `Connection` is the library's
-- connection, as far as `getModel` uses it: the models that it holds, and `model`, which makes one.
-- Console output is left out, save for the count of errors that were logged.
pub mod Models
use nestjs_stay_api.Common.{
  List, [], ◌∷◌, ◌++◌, ℕ, suc, ◌≡◌, refl, ap, ◌∙◌, sym, Bool, true, false, Option, none, some,
  String, ◌==◌, is_some, Option-cases, inl, inr, arith,
}

-- A connection and a model are opaque; `model` throws where the schema is refused.
pub record Mongoose : Type 1 where
  pub Schema : Type 0
  pub Model : Type 0
  pub Connection : Type 0
  pub models : Connection → String → Option Model
  pub model : String → Schema → Connection → Option (Connection × Model)
  pub models-model :
      (name : String) (schema : Schema) (c c' : Connection) (m : Model)
      → model name schema c ≡ some (c', m)
      → models c' name ≡ some m
  pub models-model_other :
      (name other : String) (schema : Schema) (c c' : Connection) (m : Model)
      → model name schema c ≡ some (c', m)
      → (name == other) ≡ false
      → models c' other ≡ models c other

pub record WriteConcern : Type 0 where
  pub w : ℕ
  pub j : Bool

pub record MongoConfig : Type 0 where
  pub uri : String
  pub database : String
  pub max_pool_size : ℕ
  pub min_pool_size : ℕ
  pub server_selection_timeout_ms : ℕ
  pub socket_timeout_ms : ℕ
  pub write_concern : WriteConcern

pub data MongoError : Type 0 where
  configuration_not_found connection_not_initialized connection_failed model_refused : MongoError

pub data Outcome (A : Type 0) : Type 0 where
  returned : A → Outcome A
  thrown : MongoError → Outcome A

-- `closed` has the connections that were closed, `failures` counts the errors that were logged.
pub record MongoUtil (C : Type 0) : Type 0 where
  pub mongo_config : MongoConfig
  pub connection : Option C
  pub closed : List C
  pub failures : ℕ

-- The constructor
unfoldable pub mongo_util : {C : Type 0} → Option MongoConfig → Outcome (MongoUtil C)
mongo_util none = thrown configuration_not_found
mongo_util (some config) =
    returned (record { mongo_config = config; connection = none; closed = []; failures = 0 })

module _ {C : Type 0} where
  -- `onModuleInit`, with the connection that `createConnection` gives, or its failure
  unfoldable pub connect : Option C → MongoUtil C → MongoUtil C × Outcome (Unit {0})
  connect none u = (record u { failures = suc u.failures }, thrown connection_failed)
  connect (some c) u = (record u { connection = some c }, returned tt)

  -- `onModuleDestroy`
  unfoldable pub disconnect : MongoUtil C → MongoUtil C
  disconnect u = elim u.connection [ none ↦ u | some c ↦ record u { closed = u.closed ++ c ∷ [] } ]

  -- Calls of `onModuleInit`, one after another, with what `createConnection` gives each of them
  unfoldable pub connect_all : List (Option C) → MongoUtil C → MongoUtil C
  unfolding connect
  connect_all [] u = u
  connect_all (c ∷ cs) u = connect_all cs (connect c u).0

  unfoldable pub get_connection : MongoUtil C → Outcome C
  get_connection u = elim u.connection [
    | none ↦ thrown connection_not_initialized
    | some c ↦ returned c
  ]

module _ (mongoose : Mongoose) where
  open mongoose use {Schema, Model, Connection, models, model}

  -- `getModel`
  unfoldable pub get_model :
      String → Schema → MongoUtil Connection → MongoUtil Connection × Outcome Model
  get_model name schema u = elim u.connection [
    | none ↦ (u, thrown connection_not_initialized)
    | some c ↦ elim (models c name) [
      | some m ↦ (u, returned m)
      | none ↦ elim (model name schema c) [
        | none ↦ (u, thrown model_refused)
        | some (c', m) ↦ (record u { connection = some c' }, returned m)
      ]
    ]
  ]

  -- Calls of `getModel`, one after another
  unfoldable pub get_models : List (String × Schema) → MongoUtil Connection → MongoUtil Connection
  unfolding get_model
  get_models [] u = u
  get_models ((name, schema) ∷ calls) u = get_models calls (get_model name schema u).0
