-- ===== src/Log.antt =====
-- `LogCacic` (src/logcacic.cpp): the levels of a message, their names and their files.
-- `QLogger`, which appends the lines, is a copy of another project and is not modelled.
pub mod Laws
use cacic_agente.Base.{String, ◌<>◌, ◌===◌, if◌then◌else◌}

-- `LogCacic::CacicLogLevel`
pub data Level : Type 0 where
  trace debug info warn error fatal message unknown : Level

-- `QLogger::LogLevel`, less the levels that `LogCacic` never asks for.
pub data LoggerLevel : Type 0 where
  trace debug info warn error fatal : LoggerLevel

-- `LogCacic::resolverEnderecoArquivo`
unfoldable pub log_path : String → Level → String
log_path dir Level.trace = dir <> "/cacic_trace.log"
log_path dir Level.debug = dir <> "/cacic_debug.log"
log_path dir Level.info = dir <> "/cacic.log"
log_path dir Level.warn = dir <> "/cacic_warn.log"
log_path dir Level.error = dir <> "/cacic_error.log"
log_path dir Level.fatal = dir <> "/cacic_fatalerror.log"
log_path dir Level.message = dir <> "/cacic_messages.log"
log_path dir Level.unknown = dir <> "/cacic.log"

-- `LogCacic::resolverLevel`
unfoldable pub logger_level : Level → LoggerLevel
logger_level Level.trace = LoggerLevel.trace
logger_level Level.debug = LoggerLevel.debug
logger_level Level.info = LoggerLevel.info
logger_level Level.warn = LoggerLevel.warn
logger_level Level.error = LoggerLevel.error
logger_level Level.fatal = LoggerLevel.fatal
logger_level Level.message = LoggerLevel.info
logger_level Level.unknown = LoggerLevel.info

-- `LogCacic::getLevelEmString`
unfoldable pub level_name : Level → String
level_name Level.trace = "TraceLevel"
level_name Level.debug = "DebugLevel"
level_name Level.info = "InfoLevel"
level_name Level.warn = "WarnLevel"
level_name Level.error = "ErrorLevel"
level_name Level.fatal = "FatalLevel"
level_name Level.message = "InfoLevel"
level_name Level.unknown = "InfoLevel"

-- `LogCacic::levelName2Value`
unfoldable pub level_of_name : String → Level
level_of_name name =
    if name === "TraceLevel"
    then Level.trace
    else if name === "DebugLevel"
    then Level.debug
    else if name === "InfoLevel"
    then Level.info
    else if name === "WarnLevel"
    then Level.warn
    else if name === "ErrorLevel"
    then Level.error
    else if name === "FatalLevel"
    then Level.fatal
    else Level.unknown
