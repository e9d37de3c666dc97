-- ===== src/Aws.antt =====
-- The client library of AWS SQS with the service behind it, as an interface: the three commands that
-- src/utils/aws/sqs/sqs.util.ts sends, and the documented bound it relies on. A client object is a
-- number.
use nestjs_stay_api.Common.{ℕ, ◌≤◌, ◌≡◌, Option, some, List, String, length}

pub record Message : Type 0 where
  pub message_id : Option String
  pub receipt_handle : Option String
  pub body : Option String

pub record SendMessageCommandInput : Type 0 where
  pub delay_seconds : ℕ
  pub message_body : String
  pub queue_url : Option String

pub record ReceiveMessageCommandInput : Type 0 where
  pub attribute_names : List String
  pub max_number_of_messages : ℕ
  pub message_attribute_names : List String
  pub queue_url : Option String
  pub visibility_timeout : ℕ
  pub wait_time_seconds : ℕ

-- `id` is the number whose decimal text the entry has as its id.
pub record Entry : Type 0 where
  pub id : ℕ
  pub receipt_handle : Option String

pub record DeleteMessageBatchCommandInput : Type 0 where
  pub queue_url : Option String
  pub entries : List Entry

-- What the service answers to a command, or the failure of the command.
pub data Answer (A : Type 0) : Type 0 where
  answered : A → Answer A
  failed : Answer A

-- `send` of SQSClient for the three commands, each with the client that sends it, and the documented
-- bound on the messages of one answer.
pub record Aws : Type 1 where
  pub Server : Type 0
  pub send : ℕ → SendMessageCommandInput → Server → Server × Answer (Option String)
  pub receive : ℕ → ReceiveMessageCommandInput → Server → Server × Answer (Option (List Message))
  pub delete_batch : ℕ → DeleteMessageBatchCommandInput → Server → Server × Answer (Unit {0})
  pub length-receive :
      (client : ℕ) (input : ReceiveMessageCommandInput) (s : Server) (messages : List Message)
      → (receive client input s).1 ≡ answered (some messages)
      → length messages ≤ input.max_number_of_messages
