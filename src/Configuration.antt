-- ===== src/Configuration.antt =====
-- src/config/configuration.ts: the arguments of the program, and the configuration file. `commander`
-- and `js-yaml` are the libraries': the arguments that are no options, the value of --config where it is
-- a text, and what reading and parsing a file gives are arguments here. `V` is a value of the file.
pub mod Keys
use nestjs_stay_api.Common.{
  Bool, true, false, Option, none, some, List, [], ◌∷◌, ◌++◌, String, ◌==◌, starts_with, nat_eq,
  or_else, length, if◌then◌else◌,
}

-- Reading and parsing a file: an error, an empty document, or a mapping, whose keys are distinct.
pub data Loaded (V : Type 0) : Type 0 where
  unreadable : Loaded V
  empty : Loaded V
  mapping : List (String × V) → Loaded V

-- How `configuration` ends: `process.exit(1)`, an error that is thrown, or the configuration.
pub data Outcome (V : Type 0) : Type 0 where
  exited : Outcome V
  thrown : Outcome V
  returned : List (String × V) → Outcome V

abbrev pub default_filename : String
default_filename = "./config.yml"

module _ {V : Type 0} where
  unfoldable pub put : String → V → List (String × V) → List (String × V)
  put k v [] = (k, v) ∷ []
  put k v ((j, u) ∷ acc) = if j == k then (k, v) ∷ acc else (j, u) ∷ put k v acc

  -- `acc[k] = rawConfig[k]` on a plain object, as far as its own keys go: assigning to `__proto__` makes
  -- none.
  unfoldable pub assign : String → V → List (String × V) → List (String × V)
  unfolding put
  assign k v acc = if k == "__proto__" then acc else put k v acc

  -- The filter and the `reduce`, from what was put together before
  unfoldable pub copy_keys : List (String × V) → List (String × V) → List (String × V)
  unfolding assign
  copy_keys acc [] = acc
  copy_keys acc ((k, v) ∷ raw) =
      let kept = copy_keys (assign k v acc) raw in
      let left_out = copy_keys acc raw in if starts_with k "x-" then left_out else kept

  unfoldable pub configuration : List String → Option String → (String → Loaded V) → Outcome V
  unfolding copy_keys
  configuration args config_option load =
      if nat_eq (length args) 1
      then elim (load (or_else config_option default_filename)) [
        | unreadable ↦ thrown
        | empty ↦ thrown
        | mapping raw ↦ returned (copy_keys [] raw)
      ]
      else exited
