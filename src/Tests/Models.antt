-- ===== src/Tests/Models.antt =====
-- The MongoDB wrapper with connections in memory.
use nestjs_stay_api.Common.{
  ℕ, ◌≡◌, refl, sym, ap, ◌∙◌, false, Option, none, some, [], ◌∷◌, String, ◌==◌, eq_refl,
  if◌then◌else◌,
}
use nestjs_stay_api.Mongo.{Mongoose, MongoUtil, returned, get_model, get_models}
use nestjs_stay_api.Mongo.Models.{get_model-get_models}

abbrev Models : Type 0
Models = String → Option ℕ

abbrev made : String → ℕ → Models → Models
made name schema c k = if name == k then some schema else c k

-- The model of a schema is its number; every schema is taken.
abbrev result : String → ℕ → Models → Option (Models × ℕ)
result name schema c = some (made name schema c, schema)

abbrev model_of : Option (Models × ℕ) → ℕ
model_of none = 0
model_of (some (c, m)) = m

abbrev found : String → Option (Models × ℕ) → Option ℕ
found k none = none
found k (some (c, m)) = c k

made_here :
    (name : String) (schema : ℕ) (c c' : Models) (m : ℕ)
    → result name schema c ≡ some (c', m)
    → c' name ≡ some m
made_here name schema c c' m e =
    let here : made name schema c name ≡ some schema = rw (eq_refl name) refl in
    sym (ap (found name) e) ∙ here ∙ ap some (ap model_of e)

made_elsewhere :
    (name other : String) (schema : ℕ) (c c' : Models) (m : ℕ)
    → result name schema c ≡ some (c', m)
    → (name == other) ≡ false
    → c' other ≡ c other
made_elsewhere name other schema c c' m e o =
    let there : made name schema c other ≡ c other = rw o refl in sym (ap (found other) e) ∙ there

abbrev in_memory : Mongoose
in_memory = record {
  Schema = ℕ;
  Model = ℕ;
  Connection = Models;
  models = λ c k. c k;
  model = result;
  models-model = made_here;
  models-model_other = made_elsewhere;
}

abbrev connected : MongoUtil Models
connected = record {
  mongo_config = record {
    uri = "mongodb://localhost";
    database = "stay";
    max_pool_size = 10;
    min_pool_size = 1;
    server_selection_timeout_ms = 5000;
    socket_timeout_ms = 45000;
    write_concern = record { w = 1; j = false };
  };
  connection = some (λ k. none);
  closed = [];
  failures = 0;
}

get_model-get_models_example :
    let later =
      get_models in_memory
        (("AuditLog", 2) ∷ [])
        (get_model in_memory "ApplicationLog" 1 connected).0 in
    get_model in_memory "ApplicationLog" 3 later ≡ (later, returned 1)
unfolding get_model
get_model-get_models_example =
    get_model-get_models in_memory "ApplicationLog" 1 3 1 (("AuditLog", 2) ∷ []) connected refl
