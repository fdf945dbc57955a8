-- ===== src/Ocr/Logger.antt =====
-- workers/ocr/app/logger.py.
use digital_cip.Error.{Outcome}
use digital_cip.Logging
use digital_cip.Logging.{Library, Loggers}
use digital_cip.Ocr.Config.{Config, service_name}

-- `LOG = configure_logging()`, when the module is loaded
unfoldable pub configure_logging : Library → Config → Loggers → Outcome Loggers
unfolding Logging.configure_logging
configure_logging lib config = Logging.configure_logging lib service_name config.log_level
