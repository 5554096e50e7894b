-- ===== src/Logging.antt =====
-- app/core/logging_config.py with app/core/request_context.py: the loggers that `setup_logger` configures,
-- as the state of Python's `logging`, and what a call of a logger writes. The time and the text of an
-- exception are given with a log record; `upper` is `str.upper`.
pub mod Laws
use deribit_price_collector.Prelude.{
  ℕ, String, Bool, true, false, Option, none, some, List, [], ◌∷◌, ◌++◌, map, str_eq, leb,
  if◌then◌else◌,
}
use deribit_price_collector.Exceptions.{Result, ok, err, value_error}
use deribit_price_collector.Config.{Config}

-- logging.LogRecord, as far as the formatters read it.
pub record LogRecord : Type 0 where
  pub name : String
  pub levelname : String
  pub levelno : ℕ
  pub message : String
  pub exc_info : Option String

-- JsonFormatter, or logging.Formatter with its format.
pub data Formatter : Type 0 where
  json_formatter : Formatter
  formatter : String → Formatter

-- A stream handler with its formatter.
pub record Handler : Type 0 where
  pub formatter : Formatter

pub record Logger : Type 0 where
  pub name : String
  pub level : ℕ
  pub propagate : Bool

-- The handlers of the root logger, its level, and the other loggers, the last one configured first.
pub record Logging : Type 0 where
  pub handlers : List Handler
  pub root_level : ℕ
  pub loggers : List Logger

-- What `logging` starts with: no handlers, and the level WARNING.
abbrev pub initial : Logging
initial = record { handlers = []; root_level = 30; loggers = [] }

-- logging.getLevelName, for a name; `setLevel` refuses what it returns for an unknown one.
unfoldable pub level_of : String → Result ℕ
level_of name =
    if str_eq name "CRITICAL"
    then ok 50
    else if str_eq name "FATAL"
    then ok 50
    else if str_eq name "ERROR"
    then ok 40
    else if str_eq name "WARN"
    then ok 30
    else if str_eq name "WARNING"
    then ok 30
    else if str_eq name "INFO"
    then ok 20
    else if str_eq name "DEBUG"
    then ok 10
    else if str_eq name "NOTSET"
    then ok 0
    else err value_error

-- JsonFormatter.format: the payload that json.dumps writes, its entries in their order.
unfoldable pub format_json : String → String → LogRecord → List (String × String)
format_json now request_id r =
    ("timestamp", now)
    ∷ ("logger", r.name)
    ∷ ("level", r.levelname)
    ∷ ("message", r.message)
    ∷ ("request_id", request_id)
    ∷ (elim r.exc_info [ none ↦ [] | some text ↦ ("exception", text) ∷ [] ])

unfoldable pub plain_format : String
plain_format = "%(asctime)s - %(name)s - %(levelname)s - %(message)s"

unfoldable pub formatter_of : Config → Formatter
unfolding plain_format
formatter_of c = if c.log_json then json_formatter else formatter plain_format

-- root_logger.setLevel(...), after the handler was added: a level that is refused leaves it in place.
abbrev set_root_level : Result ℕ → Logging → Result (Unit {0}) × Logging
set_root_level (ok level) s = (ok tt, record s { root_level = level })
set_root_level (err exc) s = (err exc, s)

-- The root logger's part of `setup_logger`, by the handlers that there are.
abbrev setup_handlers :
    Config → (String → String) → List Handler → Logging → Result (Unit {0}) × Logging
setup_handlers c upper [] s =
    set_root_level (level_of (upper c.log_level))
      (record s { handlers = record { formatter = formatter_of c } ∷ [] })
setup_handlers c upper (h ∷ hs) s = (ok tt, s)

unfoldable pub setup_root : Config → (String → String) → Logging → Result (Unit {0}) × Logging
setup_root c upper s = setup_handlers c upper s.handlers s

-- The part for the logger that is named.
abbrev set_level : String → Result ℕ → Logging → Result Logger × Logging
set_level name (ok level) s =
    let logger : Logger = record { name = name; level = level; propagate = true } in
    (ok logger, record s { loggers = logger ∷ s.loggers })
set_level name (err exc) s = (err exc, s)

unfoldable pub setup_named :
    Config → (String → String) → String → Result (Unit {0}) × Logging → Result Logger × Logging
setup_named c upper name (ok u, s) = set_level name (level_of (upper c.log_level)) s
setup_named c upper name (err exc, s) = (err exc, s)

-- setup_logger(name)
unfoldable pub setup_logger :
    Config → (String → String) → String → Logging → Result Logger × Logging
unfolding setup_root setup_named
setup_logger c upper name s = setup_named c upper name (setup_root c upper s)

-- What a handler writes: the payload as JSON, or the record in the format of `logging`.
pub data Line : Type 0 where
  json_line : List (String × String) → Line
  plain_line : String → String → LogRecord → Line

abbrev pub write : String → String → LogRecord → Handler → Line
write now request_id r h = elim h.formatter [
  | json_formatter ↦ json_line (format_json now request_id r)
  | formatter text ↦ plain_line text now r
]

-- A call of a logger: below its level it writes nothing; above, the record goes to the handlers of the
-- root logger, whose level is not asked.
unfoldable pub emit : String → String → Logger → LogRecord → Logging → List Line
emit now request_id logger r s =
    if leb logger.level r.levelno
    then (if logger.propagate then map (write now request_id r) s.handlers else [])
    else []
