-- ===== src/Logging.antt =====
-- src/modules/logging/logging.service.ts with its schemas. `insertMany` and `create` belong to
-- MongoDB: a batch handed to `insertMany` is in flight until the environment says how it ended, and
-- on a failure which of its documents were written all the same (`ordered: false`). Mongoose checks the
-- entries against the schema.
pub mod Runs
pub mod Buffer
pub mod Order
use nestjs_stay_api.Common.{
  ℕ, suc, Bool, true, false, Option, none, some, List, [], ◌∷◌, ◌++◌, String, leb, length, take,
  or_else, ◌||◌, ◌&&◌, not, ◌==◌, if◌then◌else◌,
}

pub data LogLevel : Type 0 where
  info warn error debug : LogLevel

abbrev pub is_error : LogLevel → Bool
is_error error = true
is_error _ = false

-- An object of strings.
abbrev pub Fields : Type 0
Fields = List (String × String)

-- ApplicationLog, as callers pass it
pub record ApplicationLog : Type 0 where
  pub level : LogLevel
  pub service : String
  pub user_id : Option String
  pub session_id : Option String
  pub action : String
  pub metadata : Option Fields
  pub message : String
  pub stack_trace : Option String

pub record LogEntry : Type 0 where
  pub timestamp : ℕ
  pub level : LogLevel
  pub service : String
  pub user_id : Option String
  pub session_id : Option String
  pub action : String
  pub metadata : Fields
  pub message : String
  pub stack_trace : Option String

pub record AuditLog : Type 0 where
  pub actor : String
  pub action : String
  pub target : String
  pub before : Option Fields
  pub after : Option Fields
  pub reason : Option String
  pub ip_address : String

pub record AuditEntry : Type 0 where
  pub timestamp : ℕ
  pub log : AuditLog

pub record PerformanceMetric : Type 0 where
  pub endpoint : String
  pub method : String
  pub duration : ℕ
  pub status_code : ℕ
  pub user_id : Option String
  pub query_count : Option ℕ
  pub cache_hits : Option ℕ
  pub cache_misses : Option ℕ

pub record MetricEntry : Type 0 where
  pub timestamp : ℕ
  pub endpoint : String
  pub method : String
  pub duration : ℕ
  pub status_code : ℕ
  pub user_id : Option String
  pub query_count : ℕ
  pub cache_hits : ℕ
  pub cache_misses : ℕ

abbrev pub buffer_size : ℕ
buffer_size = 100

-- The service, with the three collections that it writes to. `failures` counts what the logger was
-- told; `timer` is whether the flush timer runs.
pub record LoggingService : Type 0 where
  pub logs : List LogEntry
  pub in_flight : List (List LogEntry)
  pub application_logs : List LogEntry
  pub audit_logs : List AuditEntry
  pub metrics : List MetricEntry
  pub failures : ℕ
  pub timer : Bool

unfoldable pub log_entry : ℕ → ApplicationLog → LogEntry
log_entry now entry = record {
  timestamp = now;
  level = entry.level;
  service = entry.service;
  user_id = entry.user_id;
  session_id = entry.session_id;
  action = entry.action;
  metadata = or_else entry.metadata [];
  message = entry.message;
  stack_trace = entry.stack_trace;
}

-- `flushLogs` up to its `await`
unfoldable pub flush_logs : LoggingService → LoggingService
flush_logs s = elim s.logs [
  | [] ↦ s
  | first ∷ rest ↦ record s { logs = []; in_flight = s.in_flight ++ (first ∷ rest) ∷ [] }
]

-- What the schema requires: `required` of a text refuses the empty one. The time is always there, and
-- the level is one of the four of its `enum`.
unfoldable pub is_valid : LogEntry → Bool
is_valid e = not (e.service == "") && (not (e.action == "") && not (e.message == ""))

-- What `insertMany` with `ordered: false` writes of a batch: it leaves out the entries that the schema
-- refuses, and does not fail for them.
unfoldable pub accepted : List LogEntry → List LogEntry
unfolding is_valid
accepted [] = []
accepted (e ∷ es) = let rest = accepted es in if is_valid e then e ∷ rest else rest

-- The entries of a batch that the schema refuses
unfoldable pub refused : List LogEntry → List LogEntry
unfolding is_valid
refused [] = []
refused (e ∷ es) = let rest = refused es in if is_valid e then rest else e ∷ rest

-- `flushLogs` from its `await` on: the batch is written
unfoldable pub batch_inserted : List LogEntry → LoggingService → LoggingService
unfolding accepted
batch_inserted batch s = record s { application_logs = s.application_logs ++ accepted batch }

-- and the batch fails, with some of it written
unfoldable pub batch_failed : List LogEntry → List LogEntry → LoggingService → LoggingService
batch_failed batch written s = record s {
  application_logs = s.application_logs ++ written;
  failures = suc s.failures;
  logs = take buffer_size batch ++ s.logs;
}

unfoldable pub application_log : ℕ → ApplicationLog → LoggingService → LoggingService
unfolding flush_logs log_entry
application_log now entry s =
    let pushed : LoggingService = record s { logs = s.logs ++ log_entry now entry ∷ [] } in
    if leb buffer_size (length pushed.logs) || is_error entry.level
    then flush_logs pushed
    else pushed

-- `auditLog`, with whether `create` succeeds
unfoldable pub audit_log : Bool → ℕ → AuditLog → LoggingService → LoggingService
audit_log created now log s =
    if created
    then record s { audit_logs = s.audit_logs ++ record { timestamp = now; log = log } ∷ [] }
    else record s { failures = suc s.failures }

unfoldable pub metric_entry : ℕ → PerformanceMetric → MetricEntry
metric_entry now metric = record {
  timestamp = now;
  endpoint = metric.endpoint;
  method = metric.method;
  duration = metric.duration;
  status_code = metric.status_code;
  user_id = metric.user_id;
  query_count = or_else metric.query_count 0;
  cache_hits = or_else metric.cache_hits 0;
  cache_misses = or_else metric.cache_misses 0;
}

-- `performanceMetric`, with whether `create` succeeds
unfoldable pub performance_metric : Bool → ℕ → PerformanceMetric → LoggingService → LoggingService
unfolding metric_entry
performance_metric created now metric s =
    if created
    then record s { metrics = s.metrics ++ metric_entry now metric ∷ [] }
    else record s { failures = suc s.failures }

-- The constructor starts the flush timer.
abbrev pub start : LoggingService
start = record {
  logs = [];
  in_flight = [];
  application_logs = [];
  audit_logs = [];
  metrics = [];
  failures = 0;
  timer = true;
}

-- `onModuleDestroy`
unfoldable pub on_module_destroy : LoggingService → LoggingService
unfolding flush_logs
on_module_destroy s = flush_logs (record s { timer = false })
