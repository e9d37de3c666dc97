-- ===== src/Sqs/Sending.antt =====
-- What it takes for an SqsUtil to send a message.
use nestjs_stay_api.Common.{
  ℕ, ◌≡◌, sym, ap, ◌∙◌, ◌↔◌, false, Option, some, String, arith, Option-cases, inl, inr,
}
use nestjs_stay_api.Aws.{SendMessageCommandInput, Answer, answered, failed, Aws}
use nestjs_stay_api.Sqs.{
  World, Payload, returned, thrown, is_development, attempt, send_message, sqs_message,
  not_serializable, send_client_not_initialized,
}

module _ (aws : Aws) {T : Type 0} (stringify : Payload T → Option String) (w : World aws.Server)
    (m : T) where
  open aws use {Server, send}

  -- The command of a message with this text
  abbrev pub command : String → SendMessageCommandInput
  command body = record {
    delay_seconds = 1;
    message_body = body;
    queue_url = w.util.sqs_config.queue_url;
  }

  answer_of_attempt :
      (a : Server × Answer (Option String)) (id : Option String)
      → ((attempt w a).1 ≡ returned id) ↔ (a.1 ≡ answered id)
  unfolding attempt
  answer_of_attempt (s, answered i) id = (λ h. ground (arith, h), λ h. ground (arith, h))
  answer_of_attempt (s, failed) id =
      (λ h. absurd (ground (arith, h)), λ h. absurd (ground (arith, h)))

  -- Outside the development mode, `sendMessage` returns an id exactly if the send client is there, the
  -- message can be put into JSON as the `data` of an object, and the service answers that id to the
  -- command with this text, a delay of one second and the queue's address.
  pub send_message_iff :
      (id : Option String)
      → is_development w.util.sqs_config ≡ false
      → ((send_message aws stringify m w).1 ≡ returned id) ↔ (
          (client : ℕ) × (body : String) × (w.util.send_sqs_client ≡ some client)
          × (stringify (sqs_message m) ≡ some body)
          × ((send client (command body) w.server).1 ≡ answered id))
  unfolding send_message
  send_message_iff id d = elim (Option-cases w.util.send_sqs_client) [
    | inl e ↦
        let all : send_message aws stringify m w ≡ (w, thrown send_client_not_initialized) =
          simp (send_message, d, e) in
        (
          λ h. absurd (ground (arith, ap (λ p. p.1) (sym all) ∙ h)),
          λ (client, body, f, g, h). absurd (ground (arith, sym e ∙ f)),
        )
    | inr (c, e) ↦ elim (Option-cases (stringify (sqs_message m))) [
      | inl g ↦
          let all : (send_message aws stringify m w).1 ≡ thrown not_serializable =
            simp (send_message, d, e, g) in
          (
            λ h. absurd (ground (arith, sym all ∙ h)),
            λ (client, body, f, k, h). absurd (ground (arith, sym g ∙ k)),
          )
      | inr (b, g) ↦
          let all : send_message aws stringify m w ≡ attempt w (send c (command b) w.server) =
            simp (send_message, d, e, g) in
          let answer = answer_of_attempt (send c (command b) w.server) id in
          (
            λ h. (c, b, e, g, answer.0 (ap (λ p. p.1) (sym all) ∙ h)),
            λ (client, body, f, k, h).
                let same : client ≡ c = ground (arith, sym f ∙ e) in
                let text : body ≡ b = ground (arith, sym k ∙ g) in
                ap (λ p. p.1) all
                ∙ answer.1 (
                    ap (λ x. (send x (command b) w.server).1) (sym same)
                    ∙ ap (λ x. (send client (command x) w.server).1) (sym text)
                    ∙ h),
          )
    ]
  ]
