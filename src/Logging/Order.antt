-- ===== src/Logging/Order.antt =====
-- The order of writing when no batch fails: the service refines an append-only log.
use nestjs_stay_api.Common.{
  ℕ, ◌≡◌, refl, sym, ap, ◌∙◌, inl, inr, false, Bool-cases, List, [], ◌∷◌, ◌++◌, arith, append-nil,
  append_assoc, leb, length, ◌||◌,
}
use nestjs_stay_api.Logging.{
  is_error, ApplicationLog, LogEntry, LoggingService, buffer_size, log_entry, flush_logs,
  batch_inserted, application_log, on_module_destroy, accepted,
}

accepted-append : (xs ys : List LogEntry) → accepted (xs ++ ys) ≡ accepted xs ++ accepted ys
unfolding accepted
accepted-append [] ys = refl
accepted-append (x ∷ xs) ys = ground (arith, accepted-append xs ys)

abbrev flatten : List (List LogEntry) → List LogEntry
flatten [] = []
flatten (b ∷ bs) = b ++ flatten bs

flatten-append :
    (bs : List (List LogEntry)) (b : List LogEntry) → flatten (bs ++ b ∷ []) ≡ flatten bs ++ b
flatten-append [] b = append-nil b
flatten-append (c ∷ bs) b = ap (◌++◌ c) (flatten-append bs b) ∙ sym (append_assoc c (flatten bs) b)

-- What waits, oldest first: in flight, and in the buffer
abbrev waiting : LoggingService → List LogEntry
waiting s = flatten s.in_flight ++ s.logs

-- Every entry so far that the schema takes, oldest first: written, in flight, and in the buffer.
abbrev pub history : LoggingService → List LogEntry
history s = s.application_logs ++ accepted (waiting s)

waiting-flush_logs : (s : LoggingService) → waiting (flush_logs s) ≡ waiting s
unfolding flush_logs
waiting-flush_logs s = ground (
  arith,
  flatten-append s.in_flight s.logs,
  append-nil (flatten (s.in_flight ++ s.logs ∷ [])),
  append-nil (flatten s.in_flight),
)

written-flush_logs : (s : LoggingService) → (flush_logs s).application_logs ≡ s.application_logs
unfolding flush_logs
written-flush_logs s = ground arith

history-flush_logs : (s : LoggingService) → history (flush_logs s) ≡ history s
history-flush_logs s =
    ap (λ l. l ++ accepted (waiting (flush_logs s))) (written-flush_logs s)
    ∙ ap (λ l. s.application_logs ++ accepted l) (waiting-flush_logs s)

-- A run in which no batch fails and batches are written in the order in which they were handed over.
pub data InOrder (s : LoggingService) : List LogEntry → LoggingService → Type 0 where
  here : InOrder s [] s
  logs :
      {logged : List LogEntry} {t : LoggingService} (now : ℕ) (l : ApplicationLog)
      → InOrder s logged t
      → InOrder s (logged ++ log_entry now l ∷ []) (application_log now l t)
  ticks :
      {logged : List LogEntry} {t : LoggingService}
      → InOrder s logged t
      → InOrder s logged (flush_logs t)
  stops :
      {logged : List LogEntry} {t : LoggingService}
      → InOrder s logged t
      → InOrder s logged (on_module_destroy t)
  succeeds :
      {logged : List LogEntry} {t : LoggingService} (batch : List LogEntry)
      (after : List (List LogEntry))
      → t.in_flight ≡ batch ∷ after
      → InOrder s logged t
      → InOrder s logged (batch_inserted batch (record t { in_flight = after }))

history-application_log :
    (now : ℕ) (l : ApplicationLog) (s : LoggingService)
    → history (application_log now l s) ≡ history s ++ accepted (log_entry now l ∷ [])
unfolding application_log
history-application_log now l s =
    let pushed : LoggingService = record s { logs = s.logs ++ log_entry now l ∷ [] } in
    let grown : history pushed ≡ history s ++ accepted (log_entry now l ∷ []) =
      ap (λ es. s.application_logs ++ accepted es)
        (sym (append_assoc (flatten s.in_flight) s.logs (log_entry now l ∷ [])))
      ∙ ap (λ es. s.application_logs ++ es) (accepted-append (waiting s) (log_entry now l ∷ []))
      ∙ sym (
          append_assoc s.application_logs (accepted (waiting s))
            (accepted (log_entry now l ∷ []))) in
    elim (Bool-cases (leb buffer_size (length pushed.logs) || is_error l.level)) [
      | inl due ↦ rw (due, application_log) (history-flush_logs pushed ∙ grown)
      | inr early ↦ rw (early, application_log) grown
    ]

written :
    (batch : List LogEntry) (after : List (List LogEntry)) (t : LoggingService)
    → t.in_flight ≡ batch ∷ after
    → history (batch_inserted batch (record t { in_flight = after })) ≡ history t
unfolding batch_inserted
written batch after t e =
    append_assoc t.application_logs (accepted batch) (accepted (flatten after ++ t.logs))
    ∙ ap (◌++◌ t.application_logs) (sym (accepted-append batch (flatten after ++ t.logs)))
    ∙ ap (λ es. t.application_logs ++ accepted es) (sym (append_assoc batch (flatten after) t.logs))
    ∙ ap (λ bs. t.application_logs ++ accepted (flatten bs ++ t.logs)) (sym e)

-- Refinement of an append-only log: in a run in which no batch fails and batches are written in the
-- order in which they were handed over, the collection, and then what the schema takes of the batches in
-- flight and of the buffer, are together the history so far with the logged entries that the schema takes
-- appended, in the order of the calls.
pub InOrder-history :
    {s u : LoggingService} {logged : List LogEntry}
    → InOrder s logged u
    → history u ≡ history s ++ accepted logged
unfolding batch_inserted on_module_destroy accepted
InOrder-history {s} here = sym (append-nil (history s))
InOrder-history {s} (logs {logged} {t} now l r) =
    history-application_log now l t
    ∙ ap (λ h. h ++ accepted (log_entry now l ∷ [])) (InOrder-history r)
    ∙ append_assoc (history s) (accepted logged) (accepted (log_entry now l ∷ []))
    ∙ ap (◌++◌ (history s)) (sym (accepted-append logged (log_entry now l ∷ [])))
InOrder-history (ticks {t} r) = history-flush_logs t ∙ InOrder-history r
InOrder-history (stops {t} r) = history-flush_logs (record t { timer = false }) ∙ InOrder-history r
InOrder-history (succeeds {t} batch after e r) = written batch after t e ∙ InOrder-history r
