-- ===== src/Logging.antt =====
-- `configure_logging` of workers/ocr/app/logger.py and workers/embedder/app/logger.py, which differ
-- in the worker's name only. Log records themselves are not modelled.
use digital_cip.Prelude.{
  arith, ◌≡◌, ℕ, Bool, false, String, Option, none, some, List, [], ◌∷◌, ◌++◌, ◌==◌, if◌then◌else◌,
}
use digital_cip.Error.{Outcome, returned, ◌>>=◌}

-- A stream handler with its formatter.
pub record Handler : Type 0 where
  pub stream : String
  pub format : String
  pub rename_fields : List (String × String)

pub record Logger : Type 0 where
  pub level : ℕ
  pub handlers : List Handler
  pub propagate : Bool

-- What `logging.getLogger` knows, by name.
abbrev pub Loggers : Type 0
Loggers = String → Logger

-- What Python's library gives: `str.upper`, the attributes of the module `logging`, the level
-- `INFO`, and the level that `setLevel` makes of an attribute, or its exception.
pub record Library : Type 1 where
  pub Attribute : Type 0
  pub upper : String → String
  pub attribute : String → Option Attribute
  pub info : Attribute
  pub check_level : Attribute → Outcome ℕ

abbrev pub json_handler : Handler
json_handler = record {
  stream = "stdout";
  format = "%(asctime)s %(levelname)s %(name)s %(message)s";
  rename_fields = ("asctime", "ts") ∷ ("levelname", "level") ∷ ("name", "service") ∷ [];
}

abbrev store : String → Logger → Loggers → Loggers
store name logger loggers other = if other == name then logger else loggers other

module _ (lib : Library) where
  open lib use {Attribute, upper, attribute, info, check_level}

  -- `getattr(logging, name, logging.INFO)`
  unfoldable pub level_named : String → Attribute
  level_named name = elim (attribute name) [ none ↦ info | some a ↦ a ]

  -- from `level = …` on
  unfoldable pub set_up : (log_level : String) → Logger → Outcome Logger
  unfolding level_named
  set_up log_level logger = do
    level ← check_level (level_named (upper log_level))
    returned record {
      level = level;
      handlers = logger.handlers ++ (json_handler ∷ []);
      propagate = false;
    }

  unfoldable pub configure_logger : (log_level : String) → Logger → Outcome Logger
  unfolding set_up
  configure_logger log_level logger = elim logger.handlers [
    | [] ↦ set_up log_level logger
    | h ∷ hs ↦ returned logger
  ]

  unfoldable pub configure_logging : (service_name log_level : String) → Loggers → Outcome Loggers
  unfolding configure_logger
  configure_logging service_name log_level loggers = do
    logger ← configure_logger log_level (loggers service_name)
    returned (store service_name logger loggers)

  -- A second call keeps what the first has set up, so no line is written twice.
  configure_logger_idem :
      (log_level other : String) (before after : Logger)
      → configure_logger log_level before ≡ returned after
      → configure_logger other after ≡ returned after
  unfolding configure_logger set_up
  configure_logger_idem log_level other before after h = ground arith
