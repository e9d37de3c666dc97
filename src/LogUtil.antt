-- ===== src/LogUtil.antt =====
-- src/utils/log/log.modules.ts: the loggers by option and what a call of one hands to winston. An
-- option is an object, so it is a reference with what the object holds; `none` is null. A logger is
-- known by the number of its creation. `format` is `util.format` of Node.
pub mod Identity
pub mod Methods
use nestjs_stay_api.Common.{
  ℕ, suc, Bool, true, false, Option, none, some, List, [], ◌∷◌, ◌++◌, String, nat_eq, if◌then◌else◌,
}

pub data LogLevel : Type 0 where
  emerg alert crit error warning notice info debug : LogLevel

-- The outer `Option` of `console` is whether it is there, the inner one its `minlevel`.
pub record LogConfig : Type 0 where
  pub console : Option (Option LogLevel)
  pub files : List (String × Option LogLevel)

-- The level of each console transport, in the order in which they were added.
pub record LogUtil : Type 0 where
  pub id : ℕ
  pub transports : List (Option LogLevel)

-- `instances`, and how many loggers were made
pub record Instances : Type 0 where
  pub entries : List (Option ℕ × LogUtil)
  pub made : ℕ

abbrev pub no_instances : Instances
no_instances = record { entries = []; made = 0 }

-- The transports that the constructor adds
unfoldable pub new_transports : Option LogConfig → List (Option LogLevel)
new_transports none = some info ∷ []
new_transports (some option) = elim option.console [ none ↦ [] | some minlevel ↦ minlevel ∷ [] ]

abbrev pub key_of : Option (ℕ × LogConfig) → Option ℕ
key_of none = none
key_of (some (reference, config)) = some reference

abbrev pub config_of : Option (ℕ × LogConfig) → Option LogConfig
config_of none = none
config_of (some (reference, config)) = some config

abbrev pub same_key : Option ℕ → Option ℕ → Bool
same_key none none = true
same_key (some a) (some b) = nat_eq a b
same_key _ _ = false

-- `instances.get(option)`
unfoldable pub find_instance : Option ℕ → List (Option ℕ × LogUtil) → Option LogUtil
find_instance k [] = none
find_instance k ((j, u) ∷ entries) = if same_key j k then some u else find_instance k entries

-- `getInstance`; undefined was made null.
unfoldable pub get_instance : Option (ℕ × LogConfig) → Instances → Instances × LogUtil
unfolding find_instance new_transports
get_instance option s = elim (find_instance (key_of option) s.entries) [
  | some u ↦ (s, u)
  | none ↦
      let u : LogUtil = record { id = s.made; transports = new_transports (config_of option) } in
      (record { entries = s.entries ++ (key_of option, u) ∷ []; made = suc s.made }, u)
]

-- Calls of `getInstance`, one after another
unfoldable pub get_instances : List (Option (ℕ × LogConfig)) → Instances → Instances
unfolding get_instance
get_instances [] s = s
get_instances (option ∷ options) s = get_instances options (get_instance option s).0

-- What is logged: a value, or an error with its stack.
pub data LogMessage : Type 0 where
  value : String → LogMessage
  error_message : String → Option String → LogMessage

-- A call of the winston logger: a level with a text, or an error with its stack.
pub data LogCall : Type 0 where
  written : LogLevel → String → LogCall
  with_stack : LogLevel → LogMessage → Option String → LogCall

-- The loop of `log` over the messages
unfoldable pub stacks : List LogMessage → List LogCall
stacks [] = []
stacks (value text ∷ msgs) = stacks msgs
stacks (error_message text stack ∷ msgs) =
    with_stack debug (error_message text stack) stack ∷ stacks msgs

-- `log`, and `emerg` to `debug` at their levels
unfoldable pub log : (List LogMessage → String) → LogLevel → List LogMessage → List LogCall
unfolding stacks
log format level msgs = written level (format msgs) ∷ stacks msgs
