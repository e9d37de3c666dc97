-- ===== src/Logging/Runs.antt =====
-- The logging service under any order of calls, timer rounds and ends of batches: no entry
-- disappears unaccounted for, the buffer's size, and the order in which entries are written.
use nestjs_stay_api.Common.{
  ℕ, ◌+◌, ◌≡◌, sym, ap, ◌∙◌, false, List, [], ◌∷◌, ◌++◌, arith, take, drop, take-append-drop,
}
use nestjs_stay_api.Logging.{
  ApplicationLog, LogEntry, LoggingService, buffer_size, log_entry, flush_logs, batch_inserted,
  batch_failed, application_log, on_module_destroy, accepted, refused,
}

-- One event. Its indices are the entries logged, the entries given up, and the entries written by a
-- batch that failed.
pub data Step (s : LoggingService)
    : List LogEntry → List LogEntry → List LogEntry → LoggingService → Type 0 where
  logs :
      (now : ℕ) (l : ApplicationLog) → Step s (log_entry now l ∷ []) [] [] (application_log now l s)
  ticks : Step s [] [] [] (flush_logs s)
  stops : Step s [] [] [] (on_module_destroy s)
  succeeds :
      (before after : List (List LogEntry)) (batch : List LogEntry)
      → s.in_flight ≡ before ++ batch ∷ after
      → Step s []
          (refused batch)
          []
          (batch_inserted batch (record s { in_flight = before ++ after }))
  fails :
      (before after : List (List LogEntry)) (batch written : List LogEntry)
      → s.in_flight ≡ before ++ batch ∷ after
      → Step s []
          (drop buffer_size batch)
          written
          (batch_failed batch written (record s { in_flight = before ++ after }))

pub data Run (s : LoggingService)
    : List LogEntry → List LogEntry → List LogEntry → LoggingService → Type 0 where
  here : Run s [] [] [] s
  next :
      {logged lost again l d a : List LogEntry} {t u : LoggingService}
      → Run s logged lost again t
      → Step t l d a u
      → Run s (logged ++ l) (lost ++ d) (again ++ a) u

module _ (f : LogEntry → ℕ) where
  -- The weight of a list, and of a list of batches: with every weight the same, two lists hold the
  -- same entries as often.
  abbrev pub total : List LogEntry → ℕ
  total [] = 0
  total (x ∷ xs) = f x + total xs

  abbrev pub total_batches : List (List LogEntry) → ℕ
  total_batches [] = 0
  total_batches (b ∷ bs) = total b + total_batches bs

  total-append : (xs ys : List LogEntry) → total (xs ++ ys) ≡ total xs + total ys
  total-append [] ys = omega arith
  total-append (x ∷ xs) ys = omega (arith, total-append xs ys)

  total_batches-append :
      (bs cs : List (List LogEntry))
      → total_batches (bs ++ cs) ≡ total_batches bs + total_batches cs
  total_batches-append [] cs = omega arith
  total_batches-append (b ∷ bs) cs = omega (arith, total_batches-append bs cs)

  -- What the service still holds or has written.
  abbrev pub held : LoggingService → ℕ
  held s = total s.logs + total_batches s.in_flight + total s.application_logs

  held-flush_logs : (s : LoggingService) → held (flush_logs s) ≡ held s
  unfolding flush_logs
  held-flush_logs s = ground (arith, total_batches-append s.in_flight (s.logs ∷ []))

  total-take-drop : (n : ℕ) (xs : List LogEntry) → total (take n xs) + total (drop n xs) ≡ total xs
  total-take-drop n xs =
      sym (total-append (take n xs) (drop n xs)) ∙ ap total (take-append-drop n xs)

  held-application_log :
      (now : ℕ) (l : ApplicationLog) (s : LoggingService)
      → held (application_log now l s) ≡ held s + f (log_entry now l)
  unfolding application_log
  held-application_log now l s =
      let pushed : LoggingService = record s { logs = s.logs ++ log_entry now l ∷ [] } in
      ground (arith, held-flush_logs pushed, total-append s.logs (log_entry now l ∷ []))

  total-accepted-refused :
      (xs : List LogEntry) → total (accepted xs) + total (refused xs) ≡ total xs
  unfolding accepted refused
  total-accepted-refused [] = omega arith
  total-accepted-refused (x ∷ xs) = ground (arith, total-accepted-refused xs)

  -- A batch taken out of those in flight.
  total_batches_middle :
      (before after bs : List (List LogEntry)) (b : List LogEntry)
      → bs ≡ before ++ b ∷ after
      → total_batches bs ≡ total b + total_batches (before ++ after)
  total_batches_middle before after bs b e = omega (
    arith,
    ap total_batches e,
    total_batches-append before (b ∷ after),
    total_batches-append before after,
  )

  Step-held :
      {s u : LoggingService} {l d a : List LogEntry}
      → Step s l d a u
      → held u + total d ≡ held s + total l + total a
  unfolding batch_inserted batch_failed on_module_destroy
  Step-held {s} (logs now l) = omega (arith, held-application_log now l s)
  Step-held {s} ticks = omega (arith, held-flush_logs s)
  Step-held {s} stops = omega (arith, held-flush_logs (record s { timer = false }))
  Step-held {s} (succeeds before after batch e) = omega (
    arith,
    total_batches_middle before after s.in_flight batch e,
    total-append s.application_logs (accepted batch),
    total-accepted-refused batch,
  )
  Step-held {s} (fails before after batch written e) = omega (
    arith,
    total_batches_middle before after s.in_flight batch e,
    total-append s.application_logs written,
    total-append (take buffer_size batch) s.logs,
    total-take-drop buffer_size batch,
  )

  -- Conservation, whatever the order of calls, timer rounds and ends of batches: as multisets, what
  -- the service holds or has written, with the entries given up, is what it began with and what was
  -- logged, with the entries that failed batches wrote (those are written again later). Given up are only
  -- the part of a failed batch past its first hundred entries, and the entries of a written batch that the
  -- schema refuses.
  pub Run-held :
      {s u : LoggingService} {logged lost again : List LogEntry}
      → Run s logged lost again u
      → held u + total lost ≡ held s + total logged + total again
  Run-held here = omega arith
  Run-held (next {logged} {lost} {again} {l} {d} {a} r st) = omega (
    arith,
    Run-held r,
    Step-held st,
    total-append logged l,
    total-append lost d,
    total-append again a,
  )
