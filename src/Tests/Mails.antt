-- ===== src/Tests/Mails.antt =====
-- The mail provider on concrete inputs.
use nestjs_stay_api.Common.{◌≡◌, refl, ◌↔◌, true, false, Option, none, some, [], ◌∷◌, String}
use nestjs_stay_api.Smtp.{
  MailSendParams, MailSendResponse, returned, SmtpClient, development_mode, parses_nonzero,
}
use nestjs_stay_api.Mail.{registered_gateways, process_request}
use nestjs_stay_api.Mail.Providers.{process_request_succeeds_iff}

parses_nonzero_texts :
    (development_mode (some "1") ≡ true)
    × (development_mode (some " -12px") ≡ true)
    × (development_mode (some "0x0a") ≡ true)
    × (development_mode (some "00") ≡ false)
    × (development_mode (some "true") ≡ false)
    × (development_mode none ≡ false)
unfolding development_mode parses_nonzero
parses_nonzero_texts = (refl, refl, refl, refl, refl, refl)

abbrev client : SmtpClient
client = record {
  smtp_config = record {
    host = "smtp.example.com";
    port = 587;
    secure = false;
    domain = "example.com";
    auth = record { user = "stay"; pass = "secret" };
    pool = none;
    max_connections = none;
    max_messages = none;
    rate_delta = none;
    rate_limit = none;
  };
  domain_list = [];
}

abbrev to_guest : String → MailSendParams
to_guest provider = record {
  provider = some provider;
  domain = none;
  from = "stay@example.com";
  to = "guest@example.com" ∷ [];
  bcc = none;
  subject = "Welcome";
  content = "Hello";
}

process_request_succeeds_iff_example :
    ((r : MailSendResponse) × (process_request
          (registered_gateways client)
          (some "1")
          none
          (to_guest "smtp_server")
        ≡ returned (some r))
      × (r.result ≡ true))
    ↔ ((◌≡◌ {A = Option String} (some "smtp_server") (some "smtp_server"))
        × (development_mode (some "1") ≡ true)
        × (◌≡◌ {A = Option String} none none))
process_request_succeeds_iff_example =
    process_request_succeeds_iff client (some "1") none (to_guest "smtp_server")
