-- ===== src/Mail/Providers.antt =====
-- What the mail provider service answers, for every provider and every environment.
use nestjs_stay_api.Common.{
  ◌≡◌, refl, ◌≢◌, ◌↔◌, ◌⊎◌, true, false, Option, none, some, List, String, or_else, ◌==◌, arith,
  eq_iff, Bool-cases, Option-cases, inl, inr, if◌then◌else◌, sym, ap, ◌∙◌,
}
use nestjs_stay_api.Redis.{lookup}
use nestjs_stay_api.Gateway.{is_inherited}
use nestjs_stay_api.Smtp.{
  MailSendParams, MailSendResponse, failed, returned, type_error, SmtpClient, development_mode,
  smtp_process_request, accepted, function_failed,
}
use nestjs_stay_api.Mail.{
  mail_provider_smtp_server, PlatformGateways, register_gateway, registered_gateways,
  process_request, no_validation_method,
}

lookup-register_gateway :
    (m k : String) (g : SmtpClient) (gs : PlatformGateways)
    → lookup k (register_gateway m g gs) ≡ (if m == k then some g else lookup k gs)
unfolding lookup register_gateway
lookup-register_gateway m k g List.[] = refl
lookup-register_gateway m k g (List.◌∷◌ (n, h) gs) =
    ground (arith, lookup-register_gateway m k g gs, eq_iff n k, eq_iff n m, eq_iff m k)

own_provider :
    (p : Option String)
    → (mail_provider_smtp_server == or_else p "undefined") ≡ true
    → p ≡ some mail_provider_smtp_server
own_provider none h = absurd (ground arith)
own_provider (some q) h = ap some (sym ((eq_iff _ _).0 h))

other_provider :
    (p : Option String)
    → (mail_provider_smtp_server == or_else p "undefined") ≡ false
    → p ≢ some mail_provider_smtp_server
other_provider none h e = cc
other_provider (some q) h e = absurd (ground (arith, eq_iff mail_provider_smtp_server q))

module _ (client : SmtpClient) (variable delay_error : Option String)
    (params : MailSendParams) where
  answer_of_smtp :
      params.provider ≡ some mail_provider_smtp_server
      → process_request (registered_gateways client) variable delay_error params
        ≡ returned (smtp_process_request variable delay_error params)
  unfolding process_request registered_gateways register_gateway lookup
  answer_of_smtp e = simp (process_request, e)

  answer_of_other :
      (mail_provider_smtp_server == or_else params.provider "undefined") ≡ false
      → process_request (registered_gateways client) variable delay_error params ≡ (
          if is_inherited (or_else params.provider "undefined")
          then type_error
          else returned (some (no_validation_method (or_else params.provider "undefined"))))
  unfolding process_request registered_gateways register_gateway lookup
  answer_of_other e = simp (process_request, e)

  answer-cases :
      ((params.provider ≡ some mail_provider_smtp_server)
        × (process_request (registered_gateways client) variable delay_error params
            ≡ returned (smtp_process_request variable delay_error params)))
      ⊎ ((params.provider ≢ some mail_provider_smtp_server)
          × ((process_request (registered_gateways client) variable delay_error params ≡ type_error)
              ⊎ (process_request (registered_gateways client) variable delay_error params
                  ≡ returned (some (no_validation_method (or_else params.provider "undefined"))))))
  answer-cases =
      elim (Bool-cases (mail_provider_smtp_server == or_else params.provider "undefined")) [
        | inl same ↦ let e = own_provider params.provider same in inl (e, answer_of_smtp e)
        | inr apart ↦ inr (
          other_provider params.provider apart,
          elim (Bool-cases (is_inherited (or_else params.provider "undefined"))) [
            | inl b ↦ inl (answer_of_other apart ∙ rw b refl)
            | inr b ↦ inr (answer_of_other apart ∙ rw b refl)
          ],
        )
      ]

  smtp-cases :
      ((development_mode variable ≡ true)
        × (delay_error ≡ none)
        × (smtp_process_request variable delay_error params ≡ some accepted))
      ⊎ ((development_mode variable ≡ true)
          × (error : String) × (delay_error ≡ some error)
          × (smtp_process_request variable delay_error params ≡ some (function_failed error)))
      ⊎ ((development_mode variable ≡ false)
          × (smtp_process_request variable delay_error params ≡ none))
  unfolding smtp_process_request
  smtp-cases = elim (Bool-cases (development_mode variable)) [
    | inl dev ↦ elim (Option-cases delay_error) [
      | inl d ↦ inl (dev, d, simp (smtp_process_request, dev, d))
      | inr (error, d) ↦ inr (inl (dev, error, d, simp (smtp_process_request, dev, d)))
    ]
    | inr dev ↦ inr (inr (dev, simp (smtp_process_request, dev)))
  ]

  -- After `onModuleInit`, a request succeeds exactly if its provider is the SMTP server,
  -- DEVELOPMENT_MODE is a number other than zero, and the delay of that mode is not rejected.
  pub process_request_succeeds_iff :
      ((r : MailSendResponse) × (process_request
            (registered_gateways client)
            variable
            delay_error
            params
          ≡ returned (some r))
        × (r.result ≡ true))
      ↔ ((params.provider ≡ some mail_provider_smtp_server)
          × (development_mode variable ≡ true)
          × (delay_error ≡ none))
  unfolding no_validation_method
  process_request_succeeds_iff = elim answer-cases [
    | inl (e, a) ↦ elim smtp-cases [
      | inl (dev, d, b) ↦ (λ h. (e, dev, d), λ h. (accepted, a ∙ ap returned b, refl))
      | inr (inl (dev, error, d, b)) ↦ (
        λ h. absurd (ground (arith, sym h.1 ∙ a, b, h.2)),
        λ h. absurd (ground (arith, sym h.2 ∙ d)),
      )
      | inr (inr (dev, b)) ↦
          (λ h. absurd (ground (arith, sym h.1 ∙ a, b)), λ h. absurd (ground (arith, h.1, dev)))
    ]
    | inr (n, inl a) ↦ (λ h. absurd (ground (arith, sym h.1 ∙ a)), λ h. absurd (n h.0))
    | inr (n, inr a) ↦ (λ h. absurd (ground (arith, sym h.1 ∙ a, h.2)), λ h. absurd (n h.0))
  ]

  -- After `onModuleInit`, a request is answered by undefined exactly if its provider is the SMTP
  -- server and DEVELOPMENT_MODE is not a number other than zero.
  process_request_silent_iff :
      (process_request (registered_gateways client) variable delay_error params ≡ returned none)
      ↔ ((params.provider ≡ some mail_provider_smtp_server) × (development_mode variable ≡ false))
  process_request_silent_iff = elim answer-cases [
    | inl (e, a) ↦ elim smtp-cases [
      | inl (dev, d, b) ↦
          (λ h. absurd (ground (arith, sym h ∙ a, b)), λ h. absurd (ground (arith, h.1, dev)))
      | inr (inl (dev, error, d, b)) ↦
          (λ h. absurd (ground (arith, sym h ∙ a, b)), λ h. absurd (ground (arith, h.1, dev)))
      | inr (inr (dev, b)) ↦ (λ h. (e, dev), λ h. a ∙ ap returned b)
    ]
    | inr (n, inl a) ↦ (λ h. absurd (ground (arith, sym h ∙ a)), λ h. absurd (n h.0))
    | inr (n, inr a) ↦ (λ h. absurd (ground (arith, sym h ∙ a)), λ h. absurd (n h.0))
  ]

  -- After `onModuleInit`, a request with another provider is neither a success nor silent: it
  -- throws, or it fails with code 999 and the status failed.
  process_request_of_other :
      params.provider ≢ some mail_provider_smtp_server
      → (process_request (registered_gateways client) variable delay_error params ≡ type_error)
        ⊎ ((r : MailSendResponse) × (process_request
                (registered_gateways client)
                variable
                delay_error
                params
              ≡ returned (some r))
            × (r.result ≡ false)
            × (r.status ≡ failed)
            × (r.response.code ≡ "999"))
  unfolding no_validation_method
  process_request_of_other n = elim answer-cases [
    | inl (e, a) ↦ absurd (n e)
    | inr (m, inl a) ↦ inl a
    | inr (m, inr a) ↦ inr (_, a, refl, refl, refl)
  ]
