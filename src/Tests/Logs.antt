-- ===== src/Tests/Logs.antt =====
-- Loggers that are set up twice.
use deribit_price_collector.Prelude.{◌≡◌, refl, String, [], ◌∷◌}
use deribit_price_collector.Exceptions.{err, value_error}
use deribit_price_collector.Config.{default_config}
use deribit_price_collector.Logging.{
  Logging, initial, level_of, setup_logger, setup_root, setup_named, format_json,
}
use deribit_price_collector.Logging.Laws.{start, call, SetUp, setup_logger_lem}
use deribit_price_collector.Prelude.{some}

abbrev upper : String → String
upper s = s

abbrev once : Logging
once = (setup_logger default_config upper "app.core.db" initial).1

setup_logger_example :
    SetUp default_config upper "app.main" once (level_of (upper default_config.log_level))
setup_logger_example =
    setup_logger_lem default_config upper "app.main" once (call "app.core.db" start)

-- The payload of an exception's record, outside of any request.
payload :
    format_json "2026-01-01T00:00:00+00:00" "-" (record {
      name = "app.main";
      levelname = "ERROR";
      levelno = 40;
      message = "Unhandled application error | path=/";
      exc_info = some "Traceback";
    })
    ≡ ("timestamp", "2026-01-01T00:00:00+00:00")
      ∷ ("logger", "app.main")
      ∷ ("level", "ERROR")
      ∷ ("message", "Unhandled application error | path=/")
      ∷ ("request_id", "-")
      ∷ ("exception", "Traceback")
      ∷ []
unfolding format_json
payload = refl

-- A level that `logging` does not know.
unknown_level :
    (setup_logger (record default_config { log_level = "LOUD" }) upper "app.main" initial).0
    ≡ err value_error
unfolding setup_logger setup_root setup_named level_of
unknown_level = refl
