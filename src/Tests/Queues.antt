-- ===== src/Tests/Queues.antt =====
-- The queue wrappers and the mail provider on concrete inputs, with services in memory.
use nestjs_stay_api.Common.{◌↔◌}
use nestjs_stay_api.Common.{
  ℕ, ◌≤◌, ◌≡◌, refl, ap, Option, none, some, List, [], ◌∷◌, ◌++◌, String, arith, length, take, drop,
  length-take, map, All,
}
use nestjs_stay_api.Aws.{Message, DeleteMessageBatchCommandInput, Answer, answered, Aws}
use nestjs_stay_api.Sqs.{
  AwsSqsConfig, World, Payload, returned, thrown, setup_receive_options, is_development, is_blank,
  on_module_init, on_module_destroy, get_send_client, get_receive_client_pool, receive_messages,
  delete_messages, attempt, received, map_outcome, configuration_error,
}
use nestjs_stay_api.Sqs.{init, send_message, sqs_message}
use nestjs_stay_api.Sqs.Sending.{command, send_message_iff}
use nestjs_stay_api.Sqs.Lifecycle.{
  AllDistinct, on_module_destroy-on_module_init, on_module_init_rejects,
}
use nestjs_stay_api.Sqs.Batches.{ValidBatch, delete_messages-receive_messages}
use nestjs_stay_api.Sqs.Development.{
  Call, perform_all, perform_all_development, initialises, sends, receives, deletes, ends,
}

abbrev messages_of : Answer (Option (List Message)) → List Message
messages_of (answered (some ms)) = ms
messages_of _ = []

take_bound :
    (n : ℕ) (s ms : List Message)
    → ◌≡◌ {A = Answer (Option (List Message))} (answered (some (take n s))) (answered (some ms))
    → length ms ≤ n
take_bound n s ms e = let same = ap messages_of e in omega (arith, ap length same, length-take n s)

-- A queue in memory that never hides a message.
abbrev in_memory : Aws
in_memory = record {
  Server = List Message;
  send = λ client input s. (
    s ++ record { message_id = none; receipt_handle = none; body = some input.message_body } ∷ [],
    answered none,
  );
  receive = λ client input s. (s, answered (some (take input.max_number_of_messages s)));
  delete_batch = λ client input s. (drop (length input.entries) s, answered tt);
  length-receive = λ client input s ms e. take_bound input.max_number_of_messages s ms e;
}

abbrev config : String → String → AwsSqsConfig
config mode region = record {
  queue_url = some "https://sqs/stay";
  region = some region;
  visibility_timeout = 30;
  mode = some mode;
}

abbrev two : List Message
two =
    record { message_id = some "1"; receipt_handle = some "a"; body = some "{}" }
    ∷ record { message_id = some "2"; receipt_handle = some "b"; body = some "{}" }
    ∷ []

abbrev world : AwsSqsConfig → World (List Message)
unfolding setup_receive_options
world c = record {
  util = record {
    sqs_config = c;
    send_sqs_client = none;
    receive_sqs_client_pool = none;
    receive_option = setup_receive_options c;
    pool_count = 2;
  };
  clients = 0;
  destroyed = [];
  failures = 0;
  server = two;
}

on_module_destroy-on_module_init_example :
    let w = world (config "deployment" "eu-west-1") in
    ((on_module_init w).1 ≡ returned tt)
    × (c : ℕ) × (cs : List ℕ) × (get_send_client (on_module_init w).0 ≡ returned c)
    × (get_receive_client_pool (on_module_init w).0 ≡ returned cs)
    × (length cs ≡ 2)
    × AllDistinct (c ∷ cs)
    × All (λ d. 0 ≤ d) (c ∷ cs)
    × ((on_module_destroy (on_module_init w).0).destroyed ≡ [] ++ c ∷ cs)
unfolding is_development is_blank world
on_module_destroy-on_module_init_example =
    on_module_destroy-on_module_init (world (config "deployment" "eu-west-1")) refl refl refl

on_module_init_without_region :
    on_module_init (world (config "deployment" ""))
    ≡ (world (config "deployment" ""), thrown configuration_error)
unfolding is_development is_blank world
on_module_init_without_region = on_module_init_rejects (world (config "deployment" "")) refl refl

delete_messages-receive_messages_example :
    let w = world (config "deployment" "eu-west-1") in
    let w' = (receive_messages in_memory (some 7) w).0 in
    (input : DeleteMessageBatchCommandInput) × ValidBatch input
    × (map (λ e. e.receipt_handle) input.entries ≡ some "a" ∷ some "b" ∷ [])
    × (delete_messages in_memory (some 7) (some two) w'
        ≡ attempt w' (in_memory.delete_batch 7 input w'.server))
unfolding world is_development setup_receive_options receive_messages attempt received map_outcome
delete_messages-receive_messages_example =
    delete_messages-receive_messages in_memory 7 (world (config "deployment" "eu-west-1")) two refl
      refl refl

abbrev quoted : Payload String → Option String
quoted _ = some "text"

abbrev calls : List (Call String)
calls = initialises ∷ sends "hello" ∷ receives none ∷ deletes none (some two) ∷ ends ∷ []

perform_all_development_example :
    perform_all in_memory quoted calls (world (config "development" "eu-west-1"))
    ≡ world (config "development" "eu-west-1")
unfolding is_development world
perform_all_development_example =
    perform_all_development in_memory quoted calls (world (config "development" "eu-west-1")) refl
      refl refl

send_message_iff_example :
    let w = (on_module_init (world (config "deployment" "eu-west-1"))).0 in
    ((send_message in_memory quoted "hello" w).1 ≡ returned none) ↔ (
      (client : ℕ) × (body : String) × (w.util.send_sqs_client ≡ some client)
      × (quoted (sqs_message "hello") ≡ some body)
      × ((in_memory.send client (command in_memory quoted w "hello" body) w.server).1
          ≡ answered none))
unfolding on_module_init init is_development is_blank world
send_message_iff_example =
    send_message_iff in_memory quoted (on_module_init (world (config "deployment" "eu-west-1"))).0
      "hello" none refl
