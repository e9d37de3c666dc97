-- ===== src/Bull.antt =====
-- src/utils/queue/bullmq/bullmq.util.ts: the wrapper of a BullMQ queue. `Queue` is the queue library
-- with its Redis store, as an interface. Console output is left out, save for the count of errors
-- that were logged.
pub mod Jobs
use nestjs_stay_api.Common.{
  ℕ, suc, ◌≡◌, ◌⊎◌, Bool, true, false, Option, none, some, List, String, ◌==◌, is_some,
}

pub record Job (D : Type 0) : Type 0 where
  pub id : String
  pub name : String
  pub job_data : D

-- What the service answers to a call, or the failure of the call.
pub data Answer (A : Type 0) : Type 0 where
  answered : A → Answer A
  failed : Answer A

-- The calls of `Queue` and `Job` for jobs with data in `D` and options in `O`, and their documented
-- behaviour; `jobs` is what the store holds. Removing a job also removes the jobs below it in a flow
-- (`removeChildren` is true by default): `is_below s i j` is whether `j` is one below `i` in the store `s`.
pub record Queue (D O : Type 0) : Type 1 where
  pub Store : Type 0
  pub jobs : Store → String → Option (Job D)
  pub is_below : Store → String → String → Bool
  pub add : String → D → Option O → Store → Store × Answer (Job D)
  pub add_bulk : List (String × D × Option O) → Store → Store × Answer (List (Job D))
  pub find : String → Store → Answer (Option (Job D))
  pub remove : Job D → Store → Store × Answer (Unit {0})
  pub find_lem : (i : String) (s : Store) → (find i s ≡ answered (jobs s i)) ⊎ (find i s ≡ failed)
  pub id-jobs : (i : String) (s : Store) (j : Job D) → jobs s i ≡ some j → j.id ≡ i
  pub jobs-remove :
      (j : Job D) (s : Store) → (remove j s).1 ≡ answered tt → jobs (remove j s).0 j.id ≡ none
  pub jobs-remove_other :
      (j : Job D) (s : Store) (i : String)
      → (j.id == i) ≡ false
      → is_below s j.id i ≡ false
      → jobs (remove j s).0 i ≡ jobs s i

pub data BackoffType : Type 0 where
  exponential fixed : BackoffType

-- `boolean | number`
pub data Removal : Type 0 where
  always : Bool → Removal
  beyond : ℕ → Removal

pub record DefaultJobOptions : Type 0 where
  pub attempts : ℕ
  pub backoff_type : BackoffType
  pub backoff_delay : ℕ
  pub remove_on_complete : Removal
  pub remove_on_fail : Removal

pub record Connection : Type 0 where
  pub host : String
  pub port : ℕ
  pub password : Option String
  pub db : Option ℕ

pub record BullMqConfig : Type 0 where
  pub redis : Connection
  pub default_job_options : Option DefaultJobOptions

pub record QueueOptions : Type 0 where
  pub connection : Connection
  pub default_job_options : Option DefaultJobOptions

-- `queue` is the name and the options that the queue was made with.
pub record BullMqUtil : Type 0 where
  pub queue : Option (String × QueueOptions)
  pub queue_name : String
  pub bull_mq_config : BullMqConfig

-- The object, whether its queue was closed, the number of errors logged, and the store.
pub record World (S : Type 0) : Type 0 where
  pub util : BullMqUtil
  pub closed : Bool
  pub failures : ℕ
  pub store : S

pub data BullError : Type 0 where
  configuration_required queue_not_initialized call_failed type_error : BullError

pub data Outcome (A : Type 0) : Type 0 where
  returned : A → Outcome A
  thrown : BullError → Outcome A

-- The constructor
unfoldable pub bull_mq_util : Option BullMqConfig → String → Outcome BullMqUtil
bull_mq_util none name = thrown configuration_required
bull_mq_util (some config) name =
    returned (record { queue = none; queue_name = name; bull_mq_config = config })

unfoldable pub queue_options : BullMqConfig → QueueOptions
queue_options config = record {
  connection = record {
    host = config.redis.host;
    port = config.redis.port;
    password = config.redis.password;
    db = config.redis.db;
  };
  default_job_options = config.default_job_options;
}

module _ {S : Type 0} where
  -- `onModuleInit`
  unfoldable pub on_module_init : World S → World S
  unfolding queue_options
  on_module_init w = record w {
    util = record w.util { queue = some (w.util.queue_name, queue_options w.util.bull_mq_config) };
  }

  -- `onModuleDestroy`; reading `close` of undefined throws.
  unfoldable pub on_module_destroy : World S → World S × Outcome (Unit {0})
  on_module_destroy w = elim w.util.queue [
    | none ↦ (w, thrown type_error)
    | some q ↦ (record w { closed = true }, returned tt)
  ]

  unfoldable pub get_queue : World S → Outcome (String × QueueOptions)
  get_queue w = elim w.util.queue [ none ↦ thrown queue_not_initialized | some q ↦ returned q ]

  -- The `try` of a call: an error is logged and thrown again.
  unfoldable pub attempt : {A : Type 0} → World S → S × Answer A → World S × Outcome A
  attempt w (s, answered a) = (record w { store = s }, returned a)
  attempt w (s, failed) = (record w { store = s; failures = suc w.failures }, thrown call_failed)

  -- An `await` outside a `try`
  unfoldable pub await_call : {A : Type 0} → World S → S × Answer A → World S × Outcome A
  await_call w (s, answered a) = (record w { store = s }, returned a)
  await_call w (s, failed) = (record w { store = s }, thrown call_failed)

module _ {D O : Type 0} (queue : Queue D O) where
  open queue use {Store, add, add_bulk, find, remove}

  -- `addJob`
  unfoldable pub add_job : String → D → Option O → World Store → World Store × Outcome (Job D)
  unfolding attempt
  add_job name data_of options w = elim w.util.queue [
    | none ↦ (w, thrown queue_not_initialized)
    | some q ↦ attempt w (add name data_of options w.store)
  ]

  -- `addBulkJobs`
  unfoldable pub add_bulk_jobs :
      List (String × D × Option O) → World Store → World Store × Outcome (List (Job D))
  unfolding attempt
  add_bulk_jobs inputs w = elim w.util.queue [
    | none ↦ (w, thrown queue_not_initialized)
    | some q ↦ attempt w (add_bulk inputs w.store)
  ]

  -- `getJob`; reading `getJob` of undefined throws.
  unfoldable pub get_job : String → World Store → Outcome (Option (Job D))
  get_job job_id w = elim w.util.queue [
    | none ↦ thrown type_error
    | some q ↦ elim (find job_id w.store) [
      | answered found ↦ returned found
      | failed ↦ thrown call_failed
    ]
  ]

  -- `removeJob`
  unfoldable pub remove_job : String → World Store → World Store × Outcome (Unit {0})
  unfolding get_job await_call
  remove_job job_id w = elim (get_job job_id w) [
    | thrown e ↦ (w, thrown e)
    | returned none ↦ (w, returned tt)
    | returned (some job) ↦ await_call w (remove job w.store)
  ]
