-- ===== src/Mail.antt =====
-- src/modules/message/mail/mail-provider/mail-provider.service.ts: the registry of mail gateways. The
-- SMTP client of Smtp.antt is the one gateway. Console output is left out.
pub mod Providers
use nestjs_stay_api.Common.{
  Bool, true, false, Option, none, some, List, String, or_else, ◌==◌, if◌then◌else◌,
}
use Prim.Native.String.{◌++◌}
use nestjs_stay_api.Redis.{lookup}
use nestjs_stay_api.Gateway.{is_inherited}
use nestjs_stay_api.Smtp.{
  MailSendParams, MailSendResponse, MailSendStatusParams, MailProviderStatusResponse, failed,
  Outcome, returned, type_error, SmtpClient, smtp_process_request, smtp_get_send_status,
}

-- A text of `MailProviderName`
abbrev pub mail_provider_smtp_server : String
mail_provider_smtp_server = "smtp_server"

-- `platformGateways`, a plain object
abbrev pub PlatformGateways : Type 0
PlatformGateways = List (String × SmtpClient)

-- `registerGateway`: an own property is replaced in place, a new one goes last.
unfoldable pub register_gateway : String → SmtpClient → PlatformGateways → PlatformGateways
register_gateway send_method gateway List.[] = List.◌∷◌ (send_method, gateway) List.[]
register_gateway send_method gateway (List.◌∷◌ (m, g) gs) =
    let rest = register_gateway send_method gateway gs in
    if m == send_method then List.◌∷◌ (m, gateway) gs else List.◌∷◌ (m, g) rest

-- `onModuleInit`, on the empty object that the class starts with
unfoldable pub registered_gateways : SmtpClient → PlatformGateways
unfolding register_gateway
registered_gateways client = register_gateway mail_provider_smtp_server client List.[]

-- The answer where no gateway is registered
unfoldable pub no_validation_method : String → MailSendResponse
no_validation_method provider = record {
  id = none;
  result = false;
  response = record {
    code = "999";
    result = "failed";
    message = "No Validation Method Set " ++ provider;
  };
  status = failed;
}

-- `processRequest`. What a plain object inherits is no gateway: calling its missing method throws.
unfoldable pub process_request :
    PlatformGateways → Option String → Option String → MailSendParams → Outcome MailSendResponse
unfolding lookup is_inherited smtp_process_request no_validation_method
process_request gateways variable delay_error params =
    let provider = or_else params.provider "undefined" in
    elim (lookup provider gateways) [
      | some client ↦ returned (smtp_process_request variable delay_error params)
      | none ↦
          if is_inherited provider
          then type_error
          else returned (some (no_validation_method provider))
    ]

-- `getSendStatus`
unfoldable pub get_send_status :
    PlatformGateways
    → Option String
    → Option String
    → Option String
    → MailSendStatusParams
    → Outcome MailProviderStatusResponse
unfolding lookup is_inherited smtp_get_send_status
get_send_status gateways variable delay_error provider_name params =
    let provider = or_else provider_name "undefined" in
    elim (lookup provider gateways) [
      | some client ↦
          returned
            (smtp_get_send_status variable delay_error params.domain_name params.provider_ref_id)
      | none ↦ if is_inherited provider then type_error else returned none
    ]
