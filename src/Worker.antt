-- ===== src/Worker.antt =====
-- src/workers/mail.worker.ts with src/modules/message/mail/mail.service.ts: the worker of the mail
-- queue, on the queue of Bull.antt. `MailService` has no method, and job data are not read before a
-- job fails, so they are left out, as is console output.
use nestjs_stay_api.Common.{
  Bool, true, List, [], Option, none, some, ℕ, ◌≡◌, refl, ◌≢◌, String, ◌==◌, if◌then◌else◌,
  Bool-cases, inl, inr, arith,
}
use nestjs_stay_api.Bull.{
  Connection, QueueOptions, World, Outcome, returned, thrown, get_queue, queue_options,
}
use nestjs_stay_api.Bull

-- The worker of the library: the name of its queue, its connection and its concurrency.
pub record Worker : Type 0 where
  pub name : String
  pub connection : Connection
  pub concurrency : ℕ

-- `onModuleInit`, on the state of the queue's wrapper
unfoldable pub start_worker : {S : Type 0} → World S → Outcome Worker
unfolding get_queue
start_worker w = elim (get_queue w) [
  | thrown e ↦ thrown e
  | returned (name, opts) ↦
      returned (record { name = name; connection = opts.connection; concurrency = 5 })
]

-- `onModuleDestroy`: the worker that is closed. Where `onModuleInit` threw there is none, and reading it
-- is a TypeError (`none`).
unfoldable pub stop_worker : Outcome Worker → Option Worker
stop_worker (thrown e) = none
stop_worker (returned w) = some w

-- How a job ends. Reading the undeclared name `data` is a ReferenceError, and so comes before the
-- call of a method that is not there, which is a TypeError.
pub data JobResult : Type 0 where
  completed : JobResult
  reference_error : JobResult
  type_error : JobResult
  unknown_job_type : String → JobResult

-- `processJob`
unfoldable pub process_job : String → JobResult
process_job name =
    if name == "send-welcome-email"
    then reference_error
    else (if name == "send-verification-email" then type_error else unknown_job_type name)

-- Once the queue's wrapper is initialised, the worker takes the jobs of the same queue from the same
-- server, five at a time.
start_worker-on_module_init :
    {S : Type 0} (w : World S)
    → start_worker (Bull.on_module_init w)
      ≡ returned (record {
        name = w.util.queue_name;
        connection = w.util.bull_mq_config.redis;
        concurrency = 5;
      })
unfolding start_worker get_queue Bull.on_module_init queue_options
start_worker-on_module_init w = refl

-- No job is ever completed, whatever its name.
process_job_fails : (name : String) → process_job name ≢ completed
unfolding process_job
process_job_fails name h = elim (Bool-cases (name == "send-welcome-email")) [
  | inl e ↦ absurd (ground (arith, h, e))
  | inr e ↦ absurd (ground (arith, h, e))
]

-- src/workers/smtp.ts: whatever it is asked for, it answers that the mail was sent, and an object without
-- members as its status.
unfoldable pub send_mail : String → Bool
send_mail type = true

unfoldable pub get_status : String → List (String × String)
get_status id = []
