-- ===== src/Sqs/Development.antt =====
-- The development mode of an SqsUtil: whatever is called, in any order.
use nestjs_stay_api.Common.{
  ℕ, ◌≡◌, refl, true, Option, none, some, List, [], ◌∷◌, String, Option-cases, inl, inr, append-nil,
}
use nestjs_stay_api.Aws.{Message, Aws}
use nestjs_stay_api.Sqs.{
  World, Payload, is_development, on_module_init, on_module_destroy, send_message, receive_messages,
  delete_messages,
}

-- A call of a public method that changes the object, its clients or the service.
pub data Call (T : Type 0) : Type 0 where
  initialises : Call T
  ends : Call T
  sends : T → Call T
  receives : Option ℕ → Call T
  deletes : Option ℕ → Option (List Message) → Call T

module _ (aws : Aws) {T : Type 0} (stringify : Payload T → Option String) where
  open aws use {Server}

  unfoldable pub perform : Call T → World Server → World Server
  unfolding on_module_init on_module_destroy send_message receive_messages delete_messages
  perform initialises w = (on_module_init w).0
  perform ends w = on_module_destroy w
  perform (sends m) w = (send_message aws stringify m w).0
  perform (receives client) w = (receive_messages aws client w).0
  perform (deletes client ms) w = (delete_messages aws client ms w).0

  unfoldable pub perform_all : List (Call T) → World Server → World Server
  unfolding perform
  perform_all [] w = w
  perform_all (call ∷ calls) w = perform_all calls (perform call w)

  perform_development :
      (call : Call T) (w : World Server)
      → is_development w.util.sqs_config ≡ true
      → w.util.send_sqs_client ≡ none
      → w.util.receive_sqs_client_pool ≡ none
      → perform call w ≡ w
  unfolding perform on_module_init on_module_destroy send_message receive_messages delete_messages
  perform_development initialises w d s r = rw (perform, on_module_init, d) refl
  perform_development ends w d s r = rw (perform, on_module_destroy, s, r, append-nil) refl
  perform_development (sends m) w d s r = elim (Option-cases (stringify (Payload.message m))) [
    | inl e ↦ rw (perform, send_message, d, e) refl
    | inr (t, e) ↦ rw (perform, send_message, d, e) refl
  ]
  perform_development (receives client) w d s r = rw (perform, receive_messages, d) refl
  perform_development (deletes client none) w d s r = refl
  perform_development (deletes client (some [])) w d s r = refl
  perform_development (deletes client (some (m ∷ ms))) w d s r =
      rw (perform, delete_messages, d) refl

  -- In the development mode, of an object without clients, no sequence of calls makes or destroys a
  -- client, reaches the service or logs an error.
  pub perform_all_development :
      (calls : List (Call T)) (w : World Server)
      → is_development w.util.sqs_config ≡ true
      → w.util.send_sqs_client ≡ none
      → w.util.receive_sqs_client_pool ≡ none
      → perform_all calls w ≡ w
  unfolding perform_all
  perform_all_development [] w d s r = refl
  perform_all_development (call ∷ calls) w d s r =
      rw (perform_development call w d s r, perform_all_development calls w d s r) refl
