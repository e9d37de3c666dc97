-- ===== src/Tests/Keys.antt =====
-- A configuration file with an anchor for shared values.
use nestjs_stay_api.Common.{
  ℕ, ◌≡◌, refl, none, some, List, [], ◌∷◌, String, starts_with, ◌==◌, false, if◌then◌else◌,
}
use nestjs_stay_api.Redis.{lookup}
use nestjs_stay_api.Configuration.{
  Loaded, unreadable, mapping, exited, thrown, returned, configuration, copy_keys, assign,
}
use nestjs_stay_api.Configuration.Keys.{lookup-configuration}

abbrev raw : List (String × ℕ)
raw = ("x-redis", 1) ∷ ("stayConfig", 2) ∷ []

abbrev files : String → Loaded ℕ
files name = if starts_with name "./config.yml" then mapping raw else unreadable

usage : configuration [] none files ≡ exited
unfolding configuration
usage = refl

no_file : configuration ("stay-server-api" ∷ []) (some "other.yml") files ≡ thrown
unfolding configuration
no_file = refl

one_key : configuration ("stay-server-api" ∷ []) none files ≡ returned (("stayConfig", 2) ∷ [])
unfolding configuration copy_keys assign
one_key = refl

lookup-configuration_example :
    (config : List (String × ℕ)) × (configuration ("stay-server-api" ∷ []) none files
      ≡ returned config)
    × ((k : String)
        → (k == "__proto__") ≡ false
        → lookup k config ≡ (if starts_with k "x-" then none else lookup k raw))
    × (lookup "__proto__" config ≡ none)
unfolding lookup
lookup-configuration_example =
    lookup-configuration ("stay-server-api" ∷ []) none files raw refl refl refl
