-- ===== src/Mongo/Models.antt =====
-- The models of a connection: each name is made once.
use nestjs_stay_api.Common.{
  ◌≡◌, sym, ap, ◌∙◌, ◌⊎◌, inl, inr, none, some, List, [], ◌∷◌, String, ◌==◌, arith, Option-cases,
  Bool-cases, eq_iff,
}
use nestjs_stay_api.Mongo.{
  Mongoose, MongoUtil, MongoError, returned, thrown, connection_not_initialized, model_refused,
  get_model, get_models,
}

module _ (mongoose : Mongoose) where
  open mongoose use {Schema, Model, Connection, models, model, models-model, models-model_other}

  -- The connection is there and has the model under the name.
  abbrev Holds : String → Model → MongoUtil Connection → Type 0
  Holds name m u = (c : Connection) × (u.connection ≡ some c) × (models c name ≡ some m)

  get_model_of_held :
      (name : String) (schema : Schema) (m : Model) (u : MongoUtil Connection)
      → Holds name m u
      → get_model mongoose name schema u ≡ (u, returned m)
  unfolding get_model
  get_model_of_held name schema m u (c, e, k) = simp (get_model, e, k)

  get_model-cases :
      (name : String) (schema : Schema) (u : MongoUtil Connection)
      → ((e : MongoError) × (get_model mongoose name schema u ≡ (u, thrown e)))
        ⊎ ((m : Model) × Holds name m u × (get_model mongoose name schema u ≡ (u, returned m)))
        ⊎ ((c c' : Connection) × (m : Model) × (u.connection ≡ some c)
            × (models c name ≡ none)
            × (model name schema c ≡ some (c', m))
            × (get_model mongoose name schema u ≡ (record u { connection = some c' }, returned m)))
  unfolding get_model
  get_model-cases name schema u = elim (Option-cases u.connection) [
    | inl e ↦ inl (connection_not_initialized, simp (get_model, e))
    | inr (c, e) ↦ elim (Option-cases (models c name)) [
      | inr (m, k) ↦ inr (inl (m, (c, e, k), simp (get_model, e, k)))
      | inl k ↦ elim (Option-cases (model name schema c)) [
        | inl f ↦ inl (model_refused, simp (get_model, e, k, f))
        | inr ((c', m), f) ↦ inr (inr (c, c', m, e, k, f, simp (get_model, e, k, f)))
      ]
    ]
  ]

  held_after :
      (name : String) (schema : Schema) (m : Model) (u : MongoUtil Connection)
      → (get_model mongoose name schema u).1 ≡ returned m
      → Holds name m (get_model mongoose name schema u).0
  held_after name schema m u h = elim (get_model-cases name schema u) [
    | inl (e, g) ↦ absurd (ground (arith, ap (λ p. p.1) (sym g) ∙ h))
    | inr (inl (m0, (c, e, k), g)) ↦
        let same : m0 ≡ m = ground (arith, ap (λ p. p.1) (sym g) ∙ h) in
        (c, ap (λ p. p.0.connection) g ∙ e, k ∙ ap some same)
    | inr (inr (c, c', m0, e, k, f, g)) ↦
        let same : m0 ≡ m = ground (arith, ap (λ p. p.1) (sym g) ∙ h) in
        (c', ap (λ p. p.0.connection) g, models-model name schema c c' m0 f ∙ ap some same)
  ]

  held_still :
      (name : String) (m : Model) (other : String) (schema : Schema) (u : MongoUtil Connection)
      → Holds name m u
      → Holds name m (get_model mongoose other schema u).0
  held_still name m other schema u (d, l, n) = elim (get_model-cases other schema u) [
    | inl (e, g) ↦ (d, ap (λ p. p.0.connection) g ∙ l, n)
    | inr (inl (m0, h, g)) ↦ (d, ap (λ p. p.0.connection) g ∙ l, n)
    | inr (inr (c, c', m0, e, k, f, g)) ↦
        let same : c ≡ d = ground (arith, sym e ∙ l) in
        let there : models c name ≡ some m = ap (λ x. models x name) same ∙ n in
        elim (Bool-cases (other == name)) [
          | inl equal ↦
              absurd (ground (arith, sym k ∙ ap (models c) ((eq_iff other name).0 equal) ∙ there))
          | inr o ↦ (
            c',
            ap (λ p. p.0.connection) g,
            models-model_other other name schema c c' m0 f o ∙ there,
          )
        ]
  ]

  held_on :
      (name : String) (m : Model) (calls : List (String × Schema)) (u : MongoUtil Connection)
      → Holds name m u
      → Holds name m (get_models mongoose calls u)
  unfolding get_models
  held_on name m [] u held = held
  held_on name m ((other, schema) ∷ calls) u held =
      held_on name m calls (get_model mongoose other schema u).0
        (held_still name m other schema u held)

  -- Once `getModel` has returned a model, every later call for that name returns the same one and
  -- changes nothing, whatever schema it is given, as long as no method but `getModel` was called in between,
  -- which it may have been any number of times, with any names and schemas.
  pub get_model-get_models :
      (name : String) (schema schema' : Schema) (m : Model) (calls : List (String × Schema))
      (u : MongoUtil Connection)
      → (get_model mongoose name schema u).1 ≡ returned m
      → let later = get_models mongoose calls (get_model mongoose name schema u).0 in
        get_model mongoose name schema' later ≡ (later, returned m)
  get_model-get_models name schema schema' m calls u h =
      get_model_of_held name schema' m
        (get_models mongoose calls (get_model mongoose name schema u).0)
        (held_on name m calls (get_model mongoose name schema u).0 (held_after name schema m u h))
