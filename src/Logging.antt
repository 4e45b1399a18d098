-- ===== src/Logging.antt =====
-- include/logging.hpp and src/internal/logging.cpp: the level that the environment selects, the
-- deprecation notice and what a level lets through. A line is written without its time stamp.
pub mod Levels
mod Tests
use qdmi_on_iqm.Base.{
  ℕ, Bool, true, false, ◌&&◌, not, Option, none, some, List, [], ◌∷◌, ◌++◌, Bytes, codes, bytes_eq,
  leb, is_some, is_empty, if◌then◌else◌,
}

-- NONE, ERROR, INFO and DEBUG.
pub data LogLevel : Type 0 where
  silent error info debug : LogLevel

-- The order of the enumerators.
unfoldable pub rank : LogLevel → ℕ
rank silent = 0
rank error = 1
rank info = 2
rank debug = 3

pub record Line : Type 0 where
  pub level : LogLevel
  pub text : Bytes

abbrev log_level_variable : Bytes
log_level_variable = codes "IQM_LOG_LEVEL"

abbrev deprecated_log_level_variable : Bytes
deprecated_log_level_variable = codes "IQM_CPP_API_LOG_LEVEL"

abbrev nonempty : Option Bytes → Option Bytes
nonempty none = none
nonempty (some []) = none
nonempty (some (c ∷ s)) = some (c ∷ s)

-- `Non_empty_env`, over the environment as `std::getenv` reads it.
non_empty_env : (Bytes → Option Bytes) → Bytes → Option Bytes
non_empty_env env key = nonempty (env key)

pub level_from_name : Bytes → LogLevel
level_from_name name =
    if bytes_eq name (codes "ERROR")
    then error
    else if bytes_eq name (codes "INFO")
    then info
    else if bytes_eq name (codes "DEBUG")
    then debug
    else silent

abbrev first_named : Option Bytes → Option Bytes → LogLevel
first_named (some level) deprecated = level_from_name level
first_named none (some level) = level_from_name level
first_named none none = error

pub level_from_environment : (Bytes → Option Bytes) → LogLevel
unfolding non_empty_env level_from_name
level_from_environment env =
    first_named (non_empty_env env log_level_variable)
      (non_empty_env env deprecated_log_level_variable)

abbrev notice_text : Bytes
notice_text =
    codes "IQM_CPP_API_LOG_LEVEL is deprecated and will be removed in a future release; set "
    ++ codes "IQM_LOG_LEVEL instead"

pub deprecation_notice : (Bytes → Option Bytes) → Bytes
unfolding non_empty_env
deprecation_notice env =
    if is_some (non_empty_env env log_level_variable)
    then []
    else if not (is_some (non_empty_env env deprecated_log_level_variable))
    then []
    else notice_text

-- The logger with what it has written, the last line first.
pub record Logger : Type 0 where
  pub current_level : LogLevel
  pub output : List Line

-- `error`, `info` and `debug` are this at their own level.
write : LogLevel → Bytes → Logger → Logger
unfolding rank
write level message logger =
    if leb (rank level) (rank logger.current_level)
    then record logger { output = record { level = level; text = message } ∷ logger.output }
    else logger

pub set_level : LogLevel → Logger → Logger
set_level level logger = record logger { current_level = level }

-- The constructor: the notice, where there is one, goes through the new logger.
pub new_logger : (Bytes → Option Bytes) → Logger
unfolding level_from_environment deprecation_notice write
new_logger env =
    let logger : Logger = record { current_level = level_from_environment env; output = [] } in
    let notice = deprecation_notice env in
    if not (is_empty notice) then write error notice logger else logger
