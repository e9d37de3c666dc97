-- ===== src/Sqs.antt =====
-- src/utils/aws/sqs/sqs.util.ts: the wrapper of an SQS queue. An SQSClient object is a number, given
-- in the order of creation. Console output is left out, save for the count of errors logged.
pub mod Lifecycle
pub mod Batches
pub mod Sending
pub mod Development
use nestjs_stay_api.Aws.{
  Message, ReceiveMessageCommandInput, Entry, DeleteMessageBatchCommandInput, Answer, answered,
  failed, Aws,
}
use nestjs_stay_api.Common.{
  ℕ, zero, suc, ◌+◌, Bool, Option, none, some, List, [], ◌∷◌, ◌++◌, String, ◌==◌, or_else, ◌||◌,
  if◌then◌else◌,
}

pub record AwsSqsConfig : Type 0 where
  pub queue_url : Option String
  pub region : Option String
  pub visibility_timeout : ℕ
  pub mode : Option String

pub record SqsUtil : Type 0 where
  pub sqs_config : AwsSqsConfig
  pub send_sqs_client : Option ℕ
  pub receive_sqs_client_pool : Option (List ℕ)
  pub receive_option : ReceiveMessageCommandInput
  pub pool_count : ℕ

-- The object, the number of clients that were created, those that were destroyed, the number of
-- errors logged, and the service.
pub record World (S : Type 0) : Type 0 where
  pub util : SqsUtil
  pub clients : ℕ
  pub destroyed : List ℕ
  pub failures : ℕ
  pub server : S

pub data SqsError : Type 0 where
  configuration_required configuration_error : SqsError
  send_client_not_initialized receive_pool_not_initialized client_required : SqsError
  not_serializable command_failed : SqsError

pub data Outcome (A : Type 0) : Type 0 where
  returned : A → Outcome A
  thrown : SqsError → Outcome A

abbrev pub max_messages_per_receive : ℕ
max_messages_per_receive = 10

-- `setupReceiveOptions`
unfoldable pub setup_receive_options : AwsSqsConfig → ReceiveMessageCommandInput
setup_receive_options config = record {
  attribute_names = "All" ∷ [];
  max_number_of_messages = max_messages_per_receive;
  message_attribute_names = "All" ∷ [];
  queue_url = config.queue_url;
  visibility_timeout = config.visibility_timeout;
  wait_time_seconds = 10;
}

-- The constructor
unfoldable pub sqs_util : Option AwsSqsConfig → Option ℕ → Outcome SqsUtil
unfolding setup_receive_options
sqs_util none pool_count = thrown configuration_required
sqs_util (some config) pool_count = returned (record {
  sqs_config = config;
  send_sqs_client = none;
  receive_sqs_client_pool = none;
  receive_option = setup_receive_options config;
  pool_count = or_else pool_count 1;
})

unfoldable pub is_development : AwsSqsConfig → Bool
is_development config = or_else config.mode "" == "development"

-- A text that the source's `!` holds of: missing or empty.
unfoldable pub is_blank : Option String → Bool
is_blank text = or_else text "" == ""

-- What is stringified: the message alone, or as the `data` of an `SqsMessage`.
pub data Payload (T : Type 0) : Type 0 where
  message sqs_message : T → Payload T

-- The loop of `init`, with the number of rounds that are left: the clients it creates.
unfoldable pub new_clients : ℕ → ℕ → List ℕ
new_clients first zero = []
new_clients first (suc n) = first ∷ new_clients (suc first) n

-- `Entries` of the command, from an index on
unfoldable pub entries_from : ℕ → List Message → List Entry
entries_from index [] = []
entries_from index (m ∷ ms) =
    record { id = index; receipt_handle = m.receipt_handle } ∷ entries_from (suc index) ms

unfoldable pub delete_params : AwsSqsConfig → List Message → DeleteMessageBatchCommandInput
unfolding entries_from
delete_params config messages = record {
  queue_url = config.queue_url;
  entries = entries_from 0 messages;
}

module _ {S : Type 0} where
  -- `validateConfig` and `init`
  unfoldable pub init : World S → World S × Outcome (Unit {0})
  unfolding is_blank new_clients
  init w =
      if is_blank w.util.sqs_config.queue_url || is_blank w.util.sqs_config.region
      then (w, thrown configuration_error)
      else (
        record w {
          util = record w.util {
            send_sqs_client = some w.clients;
            receive_sqs_client_pool = some (new_clients (suc w.clients) w.util.pool_count);
          };
          clients = suc w.clients + w.util.pool_count;
        },
        returned tt,
      )

  -- `onModuleInit`
  unfoldable pub on_module_init : World S → World S × Outcome (Unit {0})
  unfolding init is_development
  on_module_init w = if is_development w.util.sqs_config then (w, returned tt) else init w

  -- `onModuleDestroy`
  unfoldable pub on_module_destroy : World S → World S
  on_module_destroy w = record w {
    destroyed =
        w.destroyed
        ++ (elim w.util.send_sqs_client [ none ↦ [] | some c ↦ c ∷ [] ]
            ++ or_else w.util.receive_sqs_client_pool []);
  }

  unfoldable pub get_send_client : World S → Outcome ℕ
  get_send_client w = elim w.util.send_sqs_client [
    | none ↦ thrown send_client_not_initialized
    | some client ↦ returned client
  ]

  unfoldable pub get_receive_client_pool : World S → Outcome (List ℕ)
  get_receive_client_pool w = elim w.util.receive_sqs_client_pool [
    | none ↦ thrown receive_pool_not_initialized
    | some pool ↦ returned pool
  ]

  -- The `try` of a command: an error is logged and thrown again.
  unfoldable pub attempt : {A : Type 0} → World S → S × Answer A → World S × Outcome A
  attempt w (s, answered a) = (record w { server = s }, returned a)
  attempt w (s, failed) =
      (record w { server = s; failures = suc w.failures }, thrown command_failed)

-- What `receiveMessages` returns of an answer
unfoldable pub received : Option (List Message) → Option (List Message)
received none = none
received (some []) = none
received (some (m ∷ ms)) = some (m ∷ ms)

unfoldable pub map_outcome : {A B : Type 0} → (A → B) → Outcome A → Outcome B
map_outcome f (returned a) = returned (f a)
map_outcome f (thrown e) = thrown e

module _ (aws : Aws) {T : Type 0} (stringify : Payload T → Option String) where
  open aws use {Server, send}

  -- `sendMessage`; `stringify` is `JSON.stringify`, and gives none where that throws.
  unfoldable pub send_message : T → World Server → World Server × Outcome (Option String)
  unfolding is_development attempt
  send_message m w =
      if is_development w.util.sqs_config
      then elim (stringify (message m)) [
        | none ↦ (w, thrown not_serializable)
        | some text ↦ (w, returned (some "dev-mode-message-id"))
      ]
      else elim w.util.send_sqs_client [
        | none ↦ (w, thrown send_client_not_initialized)
        | some client ↦ elim (stringify (sqs_message m)) [
          | none ↦ (record w { failures = suc w.failures }, thrown not_serializable)
          | some body ↦ attempt w (
              send client
                (record {
                  delay_seconds = 1;
                  message_body = body;
                  queue_url = w.util.sqs_config.queue_url;
                })
                w.server)
        ]
      ]

module _ (aws : Aws) where
  open aws use {Server, receive, delete_batch}

  -- `receiveMessages`
  unfoldable pub receive_messages :
      Option ℕ → World Server → World Server × Outcome (Option (List Message))
  unfolding is_development attempt received map_outcome
  receive_messages sqs_client w =
      if is_development w.util.sqs_config then (w, returned none) else elim sqs_client [
        | none ↦ (w, thrown client_required)
        | some client ↦
            let (w', outcome) = attempt w (receive client w.util.receive_option w.server) in
            (w', map_outcome received outcome)
      ]

  -- `deleteMessages`
  unfoldable pub delete_messages :
      Option ℕ → Option (List Message) → World Server → World Server × Outcome (Unit {0})
  unfolding is_development attempt delete_params
  delete_messages sqs_client none w = (w, returned tt)
  delete_messages sqs_client (some []) w = (w, returned tt)
  delete_messages sqs_client (some (m ∷ ms)) w =
      if is_development w.util.sqs_config then (w, returned tt) else elim sqs_client [
        | none ↦ (w, thrown client_required)
        | some client ↦
            attempt w (delete_batch client (delete_params w.util.sqs_config (m ∷ ms)) w.server)
      ]
