-- ===== src/Tests/Logs.antt =====
-- The logging service on two entries.
use nestjs_stay_api.Common.{
  ◌+◌, ◌*◌, ◌<◌, ◌≡◌, refl, none, some, List, [], ◌∷◌, ◌++◌, arith, length,
}
use nestjs_stay_api.Logging.{
  LogLevel, info, error, ApplicationLog, LogEntry, LoggingService, buffer_size, log_entry,
  flush_logs, batch_inserted, batch_failed, application_log, start, accepted, is_valid,
}
use nestjs_stay_api.Logging.Runs.{Run, logs, fails, total, held, Run-held}
use nestjs_stay_api.Logging.Buffer.{Run-length}
use nestjs_stay_api.Logging.Order.{InOrder, history, InOrder-history}

logging : Unit {0}
unfolding application_log flush_logs log_entry batch_inserted batch_failed accepted is_valid
logging = tt

abbrev entry_of : LogLevel → ApplicationLog
entry_of level = record {
  level = level;
  service = "auth";
  user_id = some "u1";
  session_id = none;
  action = "login";
  metadata = none;
  message = "m";
  stack_trace = none;
}

abbrev waiting : LoggingService
waiting = application_log 1 (entry_of info) start

abbrev handed_over : LoggingService
handed_over = application_log 2 (entry_of error) waiting

abbrev both : List LogEntry
both = log_entry 1 (entry_of info) ∷ log_entry 2 (entry_of error) ∷ []

one_batch : (handed_over.logs ≡ []) × (handed_over.in_flight ≡ both ∷ [])
unfolding logging
one_batch = (refl, refl)

-- The batch fails, and its first entry was written all the same: the entry comes again.
abbrev failed : LoggingService
failed =
    batch_failed both (log_entry 1 (entry_of info) ∷ []) (record handed_over { in_flight = [] })

failed_again : failed.logs ≡ both
unfolding logging
failed_again = refl

failed-Run : Run start both [] (log_entry 1 (entry_of info) ∷ []) failed
unfolding logging
failed-Run =
    Run.next (Run.next (Run.next Run.here (logs 1 (entry_of info))) (logs 2 (entry_of error)))
      (fails [] [] both (log_entry 1 (entry_of info) ∷ []) refl)

Run-held_example :
    held (λ e. e.timestamp) failed + 0
    ≡ held (λ e. e.timestamp) start
      + total (λ e. e.timestamp) both
      + total (λ e. e.timestamp) (log_entry 1 (entry_of info) ∷ [])
Run-held_example = Run-held (λ e. e.timestamp) failed-Run

Run-length_example : length failed.logs < buffer_size * (failed.failures + 1)
Run-length_example = Run-length failed-Run (omega arith)

abbrev written : LoggingService
written = batch_inserted both (record handed_over { in_flight = [] })

written-InOrder : InOrder start both written
unfolding logging
written-InOrder =
    InOrder.succeeds both [] refl
      (InOrder.logs 2 (entry_of error) (InOrder.logs 1 (entry_of info) InOrder.here))

InOrder-history_example : history written ≡ history start ++ accepted both
InOrder-history_example = InOrder-history written-InOrder

-- An entry without a message is left out of the collection, and nothing fails.
left_out :
    (batch_inserted
      (record (log_entry 1 (entry_of info)) { message = "" } ∷ [])
      start).application_logs
    ≡ []
unfolding logging
left_out = refl
