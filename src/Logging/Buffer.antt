-- ===== src/Logging/Buffer.antt =====
-- The size of the buffer, what an error does, and the order of writing when no batch fails.
use nestjs_stay_api.Common.{
  ℕ, ◌+◌, ◌*◌, ◌≤◌, ◌<◌, ◌≡◌, refl, ap, inl, inr, false, List, [], ◌∷◌, ◌++◌, arith, length,
  length-append, length-take, take, ◌⊎◌,
}
use nestjs_stay_api.Logging.{
  error, ApplicationLog, LogEntry, LoggingService, buffer_size, log_entry, flush_logs,
  batch_inserted, batch_failed, application_log, on_module_destroy,
}
use nestjs_stay_api.Logging.Runs.{Step, logs, ticks, stops, succeeds, fails, Run, here, next}

List-cases :
    (xs : List LogEntry) → (xs ≡ []) ⊎ ((x : LogEntry) × (r : List LogEntry) × (xs ≡ x ∷ r))
List-cases [] = inl refl
List-cases (x ∷ xs) = inr (x, xs, refl)

-- A flush empties the buffer.
flush_logs-logs : (s : LoggingService) → (flush_logs s).logs ≡ []
unfolding flush_logs
flush_logs-logs s = ground arith

-- A buffer that holds something is handed over as one batch.
flush_logs-in_flight :
    (s : LoggingService) (xs : List LogEntry) (x : LogEntry)
    → (flush_logs (record s { logs = xs ++ x ∷ [] })).in_flight ≡ s.in_flight ++ (xs ++ x ∷ []) ∷ []
unfolding flush_logs
flush_logs-in_flight s [] x = refl
flush_logs-in_flight s (y ∷ xs) x = refl

length-application_log :
    (now : ℕ) (l : ApplicationLog) (s : LoggingService)
    → length (application_log now l s).logs < buffer_size
unfolding application_log
length-application_log now l s =
    let pushed : LoggingService = record s { logs = s.logs ++ log_entry now l ∷ [] } in
    ground (arith, flush_logs-logs pushed)

-- An error entry is handed over at once, with everything that waited before it, in order; an entry
-- that fills the buffer too.
application_log_flushes :
    (now : ℕ) (l : ApplicationLog) (s : LoggingService)
    → (l.level ≡ error) ⊎ (buffer_size ≤ length s.logs + 1)
    → ((application_log now l s).logs ≡ [])
      × ((application_log now l s).in_flight ≡ s.in_flight ++ (s.logs ++ log_entry now l ∷ []) ∷ [])
unfolding application_log
application_log_flushes now l s due =
    let pushed : LoggingService = record s { logs = s.logs ++ log_entry now l ∷ [] } in
    ground (
      arith,
      flush_logs-logs pushed,
      flush_logs-in_flight s s.logs (log_entry now l),
      length-append s.logs (log_entry now l ∷ []),
    )

Step-length :
    {s u : LoggingService} {l d a : List LogEntry}
    → Step s l d a u
    → length s.logs < buffer_size * (s.failures + 1)
    → length u.logs < buffer_size * (u.failures + 1)
unfolding batch_inserted batch_failed on_module_destroy
Step-length {s} (logs now l) h = omega (arith, length-application_log now l s)
Step-length {s} ticks h = omega (arith, ap length (flush_logs-logs s))
Step-length {s} stops h = omega (arith, ap length (flush_logs-logs (record s { timer = false })))
Step-length {s} (succeeds before after batch e) h = h
Step-length {s} (fails before after batch written e) h =
    omega (arith, length-append (take buffer_size batch) s.logs, length-take buffer_size batch)

-- However calls and failures are interleaved, the buffer holds fewer than a hundred entries for each
-- failed batch, and a hundred more: an unbounded buffer needs unboundedly many failures.
pub Run-length :
    {s u : LoggingService} {logged lost again : List LogEntry}
    → Run s logged lost again u
    → length s.logs < buffer_size * (s.failures + 1)
    → length u.logs < buffer_size * (u.failures + 1)
Run-length here h = h
Run-length (next r st) h = Step-length st (Run-length r h)
