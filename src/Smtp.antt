-- ===== src/Smtp.antt =====
-- src/modules/message/mail/mail-provider/client/smtp-client.ts, the one mail gateway, with the types of
-- mail-provider.type.ts and the delay of src/utils/tools/tools.util.ts. The environment variable
-- DEVELOPMENT_MODE is an argument. Console output is left out.
use nestjs_stay_api.Common.{
  holds, ℕ, Bool, true, false, Option, none, some, List, String, or_else, ◌||◌, ◌&&◌, not, nat_eq,
  leb, if◌then◌else◌,
}
use Prim.Native.Char.{code}
use Prim.Native.String.{[], ◌∷◌}

pub data MailSendStatus : Type 0 where
  pending queued failed delivered bounced opened : MailSendStatus

pub record MailSendParams : Type 0 where
  pub provider : Option String
  pub domain : Option String
  pub from : String
  pub to : List String
  pub bcc : Option String
  pub subject : String
  pub content : String

pub record MailProviderResponse : Type 0 where
  pub code : String
  pub result : String
  pub message : String

pub record MailSendResponse : Type 0 where
  pub id : Option String
  pub result : Bool
  pub response : MailProviderResponse
  pub status : MailSendStatus

pub record MailSendStatusParams : Type 0 where
  pub domain_name : String
  pub provider_ref_id : String

pub record StatusItem : Type 0 where
  pub event : String
  pub message_id : String
  pub status_code : ℕ
  pub message : String
  pub description : String

abbrev pub MailProviderStatusResponse : Type 0
MailProviderStatusResponse = List StatusItem

pub record SmtpAuth : Type 0 where
  pub user : String
  pub pass : String

pub record SmtpConfig : Type 0 where
  pub host : String
  pub port : ℕ
  pub secure : Bool
  pub domain : String
  pub auth : SmtpAuth
  pub pool : Option Bool
  pub max_connections : Option ℕ
  pub max_messages : Option ℕ
  pub rate_delta : Option ℕ
  pub rate_limit : Option ℕ

-- What a call returns, undefined as `none`, or the error that it throws.
pub data Outcome (A : Type 0) : Type 0 where
  returned : Option A → Outcome A
  type_error : Outcome A
  config_required : Outcome A

-- White space that `parseInt` leaves out, by its code.
unfoldable pub is_space : ℕ → Bool
is_space c =
    (leb 9 c && leb c 13)
    || nat_eq c 32
    || nat_eq c 160
    || nat_eq c 5760
    || (leb 8192 c && leb c 8202)
    || nat_eq c 8232
    || nat_eq c 8233
    || nat_eq c 8239
    || nat_eq c 8287
    || nat_eq c 12288
    || nat_eq c 65279

unfoldable pub is_digit : Bool → ℕ → Bool
is_digit hex c =
    (leb 48 c && leb c 57) || (hex && ((leb 65 c && leb c 70) || (leb 97 c && leb c 102)))

-- Whether the digits that the text begins with are a number other than zero.
unfoldable pub is_nonzero : Bool → String → Bool
unfolding is_digit
is_nonzero hex [] = false
is_nonzero hex (c ∷ s) =
    let rest = is_nonzero hex s in is_digit hex (code c) && (not (nat_eq (code c) 48) || rest)

-- After the sign: "0x" begins a hexadecimal number.
unfoldable pub is_nonzero_number : String → Bool
unfolding is_nonzero
is_nonzero_number (z ∷ x ∷ s) =
    if nat_eq (code z) 48 && (nat_eq (code x) 120 || nat_eq (code x) 88)
    then is_nonzero true s
    else is_nonzero false (z ∷ x ∷ s)
is_nonzero_number s = is_nonzero false s

-- Whether `parseInt` gives a number that is neither zero nor NaN.
unfoldable pub parses_nonzero : String → Bool
unfolding is_space is_nonzero_number
parses_nonzero [] = false
parses_nonzero (c ∷ s) =
    let rest = parses_nonzero s in
    if is_space (code c)
    then rest
    else if nat_eq (code c) 43 || nat_eq (code c) 45
    then is_nonzero_number s
    else is_nonzero_number (c ∷ s)

-- `parseInt(process.env.DEVELOPMENT_MODE)` as a condition; a missing variable is "undefined".
unfoldable pub development_mode : Option String → Bool
unfolding parses_nonzero
development_mode variable = parses_nonzero (or_else variable "undefined")

-- SmtpClient
pub record SmtpClient : Type 0 where
  pub smtp_config : SmtpConfig
  pub domain_list : List String

-- Its constructor; the address of the HTTP client is the host and the port of `smtp_config`.
unfoldable pub smtp_client : Option SmtpConfig → Outcome SmtpClient
smtp_client none = config_required
smtp_client (some config) = returned (some (record { smtp_config = config; domain_list = List.[] }))

unfoldable pub get_support_domain : SmtpClient → List String
get_support_domain client = client.domain_list

unfoldable pub check_provider_domain : String → SmtpClient → Bool
check_provider_domain domain client = if holds domain client.domain_list then true else false

-- The answer of the development mode
abbrev pub accepted : MailSendResponse
accepted = record {
  id = some "<aaaaaaaaaaa-id@example.com>";
  result = true;
  response = record { code = "250"; result = "queued"; message = "No Error" };
  status = queued;
}

-- The answer where the delay of the development mode is rejected, with the error as JSON
abbrev pub function_failed : String → MailSendResponse
function_failed error = record {
  id = some "Function-Failed";
  result = false;
  response = record { code = "999"; result = "Function-Failed"; message = error };
  status = failed;
}

-- `processRequest`. How the delay ends is an argument: resolved, or rejected with an error, given by
-- its JSON.
unfoldable pub smtp_process_request :
    Option String → Option String → MailSendParams → Option MailSendResponse
unfolding development_mode
smtp_process_request variable delay_error params =
    if development_mode variable
    then elim delay_error [ none ↦ some accepted | some error ↦ some (function_failed error) ]
    else none

-- The one item of a status
abbrev pub status_item : String → String → ℕ → String → MailProviderStatusResponse
status_item event message_id status_code message =
    List.◌∷◌
      (record {
        event = event;
        message_id = message_id;
        status_code = status_code;
        message = message;
        description = "Message delivered successfully";
      })
      List.[]

-- `getSendStatus`
unfoldable pub smtp_get_send_status :
    Option String → Option String → String → String → Option MailProviderStatusResponse
unfolding development_mode
smtp_get_send_status variable delay_error domain_name provider_ref_id =
    if development_mode variable
    then elim delay_error [
      | none ↦ some (status_item "delivered" "aaaaaaaaaaa-id@example.com" 250 "OK")
      | some error ↦ some (status_item "failed" "<aaaaaaaaaaa-id@example.com>" 999 "failed")
    ]
    else none
