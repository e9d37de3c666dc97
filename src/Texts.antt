-- ===== src/Texts.antt =====
-- The texts that three small parts put together: the address of a file in src/utils/aws/s3/s3.service.ts,
-- the message of src/utils/slack/slack.service.ts, and the line that src/middleware/logger.middleware.ts
-- logs when a response is finished.
use Prim.Native.Char.{code}
use Prim.Native.String.{[], ◌∷◌, ◌++◌}
use nestjs_stay_api.Common.{ℕ, Option, String, nat_eq, or_else, if◌then◌else◌}
use nestjs_stay_api.Postgres.{decimal}

-- The text without a slash at its end
unfoldable pub without_slash : String → String
without_slash [] = ""
without_slash (c ∷ []) = if nat_eq (code c) b'/' then "" else c ∷ []
without_slash (c ∷ d ∷ s) = let rest = without_slash (d ∷ s) in c ∷ rest

-- The address of a key, with `cloudFrontDomain` of the configuration
unfoldable pub cloud_front_url : String → String → String
unfolding without_slash
cloud_front_url cloud_front_domain key = without_slash cloud_front_domain ++ ("/" ++ key)

-- What `sendMessage` hands to `axios.post`: the address, the text, and the text of the one block.
pub record SlackRequest : Type 0 where
  pub webhook_url : String
  pub text : String
  pub error_log : String

-- `sendMessage`; the constructor leaves `webhookUrl` empty.
unfoldable pub slack_request : String → String → String → SlackRequest
slack_request message error_message error_stack = record {
  webhook_url = "";
  text = message;
  error_log = "```" ++ (error_message ++ ("\n " ++ (error_stack ++ "\n```")));
}

-- The line of the access log; a missing user agent is the empty text.
unfoldable pub access_log : String → ℕ → String → String → Option String → String
unfolding decimal
access_log method status_code original_url ip user_agent =
    method
    ++ (" "
        ++ (decimal status_code status_code
            ++ (" - " ++ (original_url ++ (" - " ++ (ip ++ (" - " ++ or_else user_agent "")))))))
