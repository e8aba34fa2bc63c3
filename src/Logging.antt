-- ===== src/Logging.antt =====
-- app/core/logging.py: the two formatters of log records and `configure_logging`. What the logging
-- package, datetime and json do is a parameter.
pub mod Payload
pub mod Calls
use secure_file_service.Prelude.{
  zero, none, suc, some, starts_with, true, ◌&&◌, ◌||◌, text_eq, not, false, ◌∷◌, if◌then◌else◌,
  ◌++◌, [], Bool, codes, Option, ℕ, Text, List,
}
use secure_file_service.Prelude.Dict.{Dict, set}

unfoldable pub reserved : List Text
reserved =
    codes "name"
    ∷ codes "msg"
    ∷ codes "args"
    ∷ codes "levelname"
    ∷ codes "levelno"
    ∷ codes "pathname"
    ∷ codes "filename"
    ∷ codes "module"
    ∷ codes "exc_info"
    ∷ codes "exc_text"
    ∷ codes "stack_info"
    ∷ codes "lineno"
    ∷ codes "funcName"
    ∷ codes "created"
    ∷ codes "msecs"
    ∷ codes "relativeCreated"
    ∷ codes "thread"
    ∷ codes "threadName"
    ∷ codes "processName"
    ∷ codes "process"
    ∷ codes "message"
    ∷ codes "taskName"
    ∷ []

-- `key in names`
unfoldable pub is_one_of : Text → List Text → Bool
is_one_of key [] = false
is_one_of key (name ∷ names) = text_eq name key || is_one_of key names

-- The test of both formatters for what a caller passed in `extra`.
unfoldable pub is_extra : Text → Bool
is_extra key = not (is_one_of key reserved) && not (starts_with (codes "_") key)

-- A log record: the attributes that are read by name, and `__dict__`, with them and the others.
pub record LogRecord (V E : Type 0) : Type 0 where
  pub created : ℕ
  pub levelname : Text
  pub name : Text
  pub message : Text
  pub exc_info : Option E
  pub attributes : Dict V

-- The context variables
pub record LogContext : Type 0 where
  pub request_id : Option Text
  pub user_id : Option Text

abbrev set_truthy : {V : Type 0} → (Text → V) → Text → Option Text → Dict V → Dict V
set_truthy text key none payload = payload
set_truthy text key (some []) payload = payload
set_truthy text key (some (c ∷ s)) payload = set key (text (c ∷ s)) payload

module _ {V : Type 0} where
  -- The loop over `record.__dict__.items()`.
  unfoldable pub set_extras : Dict V → Dict V → Dict V
  set_extras [] payload = payload
  set_extras ((key, value) ∷ attributes) payload =
      set_extras attributes (if is_extra key then set key value payload else payload)

module _ {V E : Type 0} (text : Text → V) (isoformat : ℕ → Text) (format_exception : E → Text) where
  -- The payload as it is first written.
  abbrev pub plain_fields : Text → Text → LogRecord V E → Dict V
  plain_fields service environment record' =
      (codes "timestamp", text (isoformat record'.created))
      ∷ (codes "level", text record'.levelname)
      ∷ (codes "logger", text record'.name)
      ∷ (codes "service", text service)
      ∷ (codes "environment", text environment)
      ∷ (codes "message", text record'.message)
      ∷ []

  -- With the ids of the request and the user.
  unfoldable pub base_payload : Text → Text → LogContext → LogRecord V E → Dict V
  base_payload service environment context record' =
      let fields = plain_fields service environment record' in
      set_truthy text (codes "user_id") context.user_id
        (set_truthy text (codes "request_id") context.request_id fields)

  abbrev set_exception : Option E → Dict V → Dict V
  set_exception none payload = payload
  set_exception (some e) payload = set (codes "exception") (text (format_exception e)) payload

  -- `JsonFormatter.format`, up to `json.dumps`.
  unfoldable pub json_payload : Text → Text → LogContext → LogRecord V E → Dict V
  json_payload service environment context record' =
      set_exception record'.exc_info
        (set_extras record'.attributes (base_payload service environment context record'))

-- f"{s:<width}"
unfoldable pub pad_right : ℕ → Text → Text
pad_right zero s = s
pad_right (suc width) [] = b' ' ∷ pad_right width []
pad_right (suc width) (c ∷ s) = c ∷ pad_right width s

module _ {V E : Type 0} (str : V → Text) (format_exception : E → Text) where
  -- The parts that are joined with spaces, each behind one.
  unfoldable pub extras_text : Dict V → Text
  extras_text [] = []
  extras_text ((key, value) ∷ attributes) =
      let rest = extras_text attributes in
      if is_extra key then codes " " ++ key ++ codes "=" ++ str value ++ rest else rest

  abbrev or_dash : Option Text → Text
  or_dash none = codes "-"
  or_dash (some []) = codes "-"
  or_dash (some (c ∷ s)) = c ∷ s

  abbrev exception_text : Option E → Text
  exception_text none = []
  exception_text (some e) = codes "\n" ++ format_exception e

  -- `ConsoleFormatter.format`
  unfoldable pub console_line : LogContext → LogRecord V E → Text
  console_line context record' =
      pad_right 7 record'.levelname
      ++ codes " "
      ++ record'.name
      ++ codes " ["
      ++ or_dash context.request_id
      ++ codes "] "
      ++ record'.message
      ++ extras_text record'.attributes
      ++ exception_text record'.exc_info

-- The handlers that write to the output, by their formatters, and those of others.
pub data LogHandler : Type 0 where
  json_handler : Text → Text → LogHandler
  console_handler : LogHandler
  other_handler : ℕ → LogHandler

-- The loggers that `configure_logging` changes: the root and two of Uvicorn's.
pub record Loggers : Type 0 where
  pub root_handlers : List LogHandler
  pub root_level : Text
  pub access_disabled : Bool
  pub error_propagate : Bool
  pub error_handlers : List LogHandler

unfoldable pub configure_logging : Text → Text → Text → Text → Loggers → Loggers
configure_logging level fmt service environment loggers = record {
  root_handlers =
      (if text_eq fmt (codes "json") then json_handler service environment else console_handler)
      ∷ [];
  root_level = level;
  access_disabled = true;
  error_propagate = true;
  error_handlers = [];
}
