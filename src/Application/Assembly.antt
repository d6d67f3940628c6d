-- ===== src/Application/Assembly.antt =====
-- main.py: what create_app puts together before it returns. `scheme` is urlsplit(endpoint).scheme,
-- which may raise.
pub mod Piped
use pyfr_m8_verify.Base.{true, false, Text, List, Option, Bool, codes, none, some, ◌∷◌, ◌++◌, []}
use pyfr_m8_verify.Settings.{Settings}
use pyfr_m8_verify.Observability.Otel.{
  LoggerProvider, Providers, Installed, configure_otel, is_some,
}
use pyfr_m8_verify.Observability.Otel.Instrument.{Process, instrument_fastapi}
use pyfr_m8_verify.Observability.Logging.Routing.{Loggers, configure_logging}
use pyfr_m8_verify.Errors.{Result, ok}
use pyfr_m8_verify.Errors.Exec.{Exec, continue}

pub data Middleware : Type 0 where
  access_log_middleware correlation_id_middleware open_telemetry_middleware : Middleware

pub data Router : Type 0 where
  health_router v1_router : Router

-- The application object: its middlewares from the outermost to the innermost, its routers with their
-- prefixes in the order in which a path is looked up.
pub record FastApi : Type 0 where
  pub title : Text
  pub version : Text
  pub error_handlers : Bool
  pub routers : List (Text × Router)
  pub middleware : List Middleware
  pub otel : Option Providers

-- The process: the loggers, the environment with the instrumented libraries, and the global providers.
pub record World : Type 0 where
  pub loggers : Loggers
  pub process : Process
  pub installed : List Installed

-- Starlette makes the middleware that is added last the outermost one.
abbrev pub add_middleware : Middleware → FastApi → FastApi
add_middleware m app = record app { middleware = m ∷ app.middleware }

abbrev pub include_router : Text → Router → FastApi → FastApi
include_router prefix router app = record app { routers = app.routers ++ ((prefix, router) ∷ []) }

abbrev pub has_logger_provider : Option Providers → Bool
has_logger_provider none = false
has_logger_provider (some runtime) = is_some runtime.logger_provider

abbrev pub instrumented : Option Providers → FastApi × World → FastApi × World
instrumented none (app, world) = (app, world)
instrumented (some runtime) (app, world) = (
  add_middleware open_telemetry_middleware app,
  record world { process = instrument_fastapi runtime world.process },
)

abbrev Telemetry : Type 0
Telemetry = Option Providers × List Installed

-- The world after configure_otel has returned, and configure_logging behind it.
unfoldable pub configured : Telemetry → Settings → World → World
unfolding configure_logging
configured otel resolved world = record world {
  installed = world.installed ++ otel.1;
  loggers =
      configure_logging resolved.environment resolved.log.level resolved.log.levels
        (has_logger_provider otel.0) world.loggers;
}

-- create_app, behind configure_otel
unfoldable pub assembled : Text → Settings → Telemetry → World → FastApi × World
unfolding configured
assembled version resolved otel world =
    let app : FastApi = record {
      title = resolved.service_name;
      version = version;
      error_handlers = true;
      routers = [];
      middleware = [];
      otel = otel.0;
    } in
    let routed = include_router (codes "/api/v1") v1_router (include_router [] health_router app) in
    instrumented otel.0 (
      add_middleware correlation_id_middleware (add_middleware access_log_middleware routed),
      configured otel resolved world,
    )

abbrev pub returning : FastApi × World → Result FastApi × World
returning (app, world) = (ok app, world)

-- create_app, of the settings
unfoldable pub create_app : (Text → Result Text) → Text → Settings → Exec World FastApi
unfolding assembled configure_otel
create_app scheme version resolved world =
    continue (configure_otel scheme resolved version)
      (λ otel w. returning (assembled version resolved otel w)) world
