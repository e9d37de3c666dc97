-- ===== src/Sqs/Batches.antt =====
-- The batches of an SqsUtil: what it receives, and what it asks the service to delete.
use nestjs_stay_api.Common.{
  ℕ, suc, ◌≤◌, ◌<◌, ◌≡◌, refl, ap, sym, ◌∙◌, ◌≢◌, false, Option, none, some, List, [], ◌∷◌, arith,
  length, map, All,
}
use nestjs_stay_api.Aws.{
  Message, Entry, DeleteMessageBatchCommandInput, Answer, answered, failed, Aws,
}
use nestjs_stay_api.Sqs.{
  World, returned, is_development, attempt, received, map_outcome, setup_receive_options,
  entries_from, delete_params, receive_messages, delete_messages,
}

-- The ids of the entries are the numbers from `index` on.
ids_above :
    (low index : ℕ) (ms : List Message)
    → low ≤ index
    → All (λ e. low ≤ e.id) (entries_from index ms)
unfolding entries_from
ids_above low index [] h = tt
ids_above low index (m ∷ ms) h = (h, ids_above low (suc index) ms (omega arith))

-- No two entries have the same id.
abbrev pub DistinctIds : List Entry → Type 0
DistinctIds [] = Unit
DistinctIds (e ∷ es) = All (λ f. e.id ≢ f.id) es × DistinctIds es

id_other : (e : Entry) (es : List Entry) → All (λ f. suc e.id ≤ f.id) es → All (λ f. e.id ≢ f.id) es
id_other e [] h = tt
id_other e (f ∷ es) (h, hs) = (λ same. absurd (omega arith), id_other e es hs)

entries_from-DistinctIds : (index : ℕ) (ms : List Message) → DistinctIds (entries_from index ms)
unfolding entries_from
entries_from-DistinctIds index [] = tt
entries_from-DistinctIds index (m ∷ ms) = (
  id_other (record { id = index; receipt_handle = m.receipt_handle }) (entries_from (suc index) ms)
      (ids_above (suc index) (suc index) ms (omega arith)),
  entries_from-DistinctIds (suc index) ms,
)

handles_from :
    (index : ℕ) (ms : List Message)
    → map (λ e. e.receipt_handle) (entries_from index ms) ≡ map (λ m. m.receipt_handle) ms
unfolding entries_from
handles_from index [] = refl
handles_from index (m ∷ ms) = ap (◌∷◌ m.receipt_handle) (handles_from (suc index) ms)

length-entries_from : (index : ℕ) (ms : List Message) → length (entries_from index ms) ≡ length ms
unfolding entries_from
length-entries_from index [] = refl
length-entries_from index (m ∷ ms) = ap suc (length-entries_from (suc index) ms)

-- A batch that the service takes: one to ten entries, with distinct ids.
abbrev pub ValidBatch : DeleteMessageBatchCommandInput → Type 0
ValidBatch input =
    (0 < length input.entries) × (length input.entries ≤ 10) × DistinctIds input.entries

module _ (aws : Aws) (client : ℕ) (w : World aws.Server) where
  open aws use {Server, receive, delete_batch, length-receive}

  received_bound :
      (a : Server × Answer (Option (List Message))) (ms : List Message)
      → map_outcome received (attempt w a).1 ≡ returned (some ms)
      → (0 < length ms) × (a.1 ≡ answered (some ms))
  unfolding map_outcome received attempt
  received_bound (s, answered none) ms h = absurd (ground arith)
  received_bound (s, answered (some [])) ms h = absurd (ground arith)
  received_bound (s, answered (some (m ∷ r))) ms h = ground arith
  received_bound (s, failed) ms h = absurd (ground arith)

  util-attempt : {A : Type 0} (a : Server × Answer A) → (attempt w a).0.util ≡ w.util
  unfolding attempt
  util-attempt (s, answered a) = refl
  util-attempt (s, failed) = refl

  receive_messages_sends :
      is_development w.util.sqs_config ≡ false
      → receive_messages aws (some client) w ≡ (
          let (w', outcome) = attempt w (receive client w.util.receive_option w.server) in
          (w', map_outcome received outcome))
  unfolding receive_messages
  receive_messages_sends d = rw (receive_messages, d) refl

  delete_messages_sends :
      (ms : List Message)
      → is_development w.util.sqs_config ≡ false
      → 0 < length ms
      → delete_messages aws (some client) (some ms) w
        ≡ attempt w (delete_batch client (delete_params w.util.sqs_config ms) w.server)
  unfolding delete_messages
  delete_messages_sends [] d h = absurd (omega arith)
  delete_messages_sends (m ∷ ms) d h = rw (delete_messages, d) refl

module _ (aws : Aws) (client : ℕ) (w : World aws.Server) where
  open aws use {Server, receive, delete_batch, length-receive}

  -- Outside the development mode, of the options that the constructor sets up: messages that
  -- `receiveMessages` returned, handed to `deleteMessages`, are one command to the service, a valid
  -- batch of one to ten entries with distinct ids and the receipt handles of the messages in order.
  pub delete_messages-receive_messages :
      (ms : List Message)
      → is_development w.util.sqs_config ≡ false
      → w.util.receive_option ≡ setup_receive_options w.util.sqs_config
      → (receive_messages aws (some client) w).1 ≡ returned (some ms)
      → let w' = (receive_messages aws (some client) w).0 in
        (input : DeleteMessageBatchCommandInput) × ValidBatch input
        × (map (λ e. e.receipt_handle) input.entries ≡ map (λ m. m.receipt_handle) ms)
        × (delete_messages aws (some client) (some ms) w'
            ≡ attempt w' (delete_batch client input w'.server))
  unfolding delete_params setup_receive_options
  delete_messages-receive_messages ms d o h =
      let u = (receive_messages aws (some client) w).0 in
      let a = receive client w.util.receive_option w.server in
      let sends = receive_messages_sends aws client w d in
      let (some_left, e) = received_bound aws client w a ms (ap (λ p. p.1) (sym sends) ∙ h) in
      let most = length-receive client w.util.receive_option w.server ms e in
      let ten = ap (λ r. r.max_number_of_messages) o in
      let same = ap (λ p. p.0.util) sends ∙ util-attempt aws client w a in
      let handed =
        delete_messages_sends aws client u ms (ap (λ v. is_development v.sqs_config) same ∙ d)
          some_left in
      (
        delete_params w.util.sqs_config ms,
        (
          rw (length-entries_from 0 ms) some_left,
          omega (arith, length-entries_from 0 ms, ten, most),
          entries_from-DistinctIds 0 ms,
        ),
        handles_from 0 ms,
        handed
            ∙ ap (λ v. attempt u (delete_batch client (delete_params v.sqs_config ms) u.server))
                same,
      )
