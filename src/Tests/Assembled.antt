-- ===== src/Tests/Assembled.antt =====
-- observability/otel.py and create_app of main.py, of the configuration of Startup.
use pyfr_m8_verify.Tests.Startup.{configuration, no_query, configuration-accepted, otel_settings}
use pyfr_m8_verify.Base.{
  Text, contains, text_eq, Option, true, ◌∷◌, codes, ◌≡◌, [], false, none, some, refl, partition,
  has, if◌then◌else◌, find,
}
use pyfr_m8_verify.Settings.{production, Settings}
use pyfr_m8_verify.Application.Assembly.{World, create_app, configured}
use pyfr_m8_verify.Application.Assembly.Piped.{create_app-IsAssembled, IsCreated}
use pyfr_m8_verify.Observability.Logging.Routing.{
  other_handler, reached, ancestors, legs, configure_logging,
}
use pyfr_m8_verify.Observability.Otel.{configure_otel}
use pyfr_m8_verify.Observability.Otel.Exported.{configure_otel-IsExporting, IsConfigured}
use pyfr_m8_verify.Errors.{raised, Result, value_error, ok}

-- urlsplit(url).scheme of a URL without a colon before its scheme ends; a bracket that is open makes it
-- raise.
unfoldable scheme : Text → Result Text
unfolding has partition
scheme url = if has b'[' url then raised value_error else ok (before (partition (b':' ∷ []) url))
  where
    before : Option (Text × Text) → Text
    before found = elim found [ none ↦ [] | some p ↦ p.0 ]

configure_otel-IsExporting_example :
    IsConfigured scheme configuration (configure_otel scheme configuration (codes "1.0.0"))
configure_otel-IsExporting_example =
    configure_otel-IsExporting no_query scheme configuration configuration (codes "1.0.0")
      configuration-accepted

-- An endpoint that the settings accept and urlsplit does not.
abbrev bracketed : Settings
bracketed = record configuration {
  otel = record otel_settings { endpoint = some (codes "http://[") };
}

bracketed_test : (configure_otel scheme bracketed (codes "1.0.0") ≡ raised value_error)
unfolding configure_otel scheme
bracketed_test = refl

-- The root logger has a handler already, and uvicorn's pass nothing on.
abbrev world : World
world = record {
  loggers = record {
    root = record { handlers = other_handler 0 ∷ []; propagate = true; level = none };
    named = λ name. record { handlers = other_handler 1 ∷ []; propagate = false; level = none };
  };
  process = record { environ = []; calls = [] };
  installed = [];
}

create_app-IsAssembled_example :
    IsCreated scheme configuration world (create_app scheme (codes "1.0.0") configuration world)
create_app-IsAssembled_example =
    create_app-IsAssembled no_query scheme (codes "1.0.0") configuration configuration world
      configuration-accepted

uvicorn_test :
    reached
      (create_app scheme (codes "1.0.0") configuration world).1.loggers
      (ancestors (codes "uvicorn.error"))
    ≡ legs production false
unfolding ancestors contains text_eq create_app configured scheme configure_logging find partition
    has reached
uvicorn_test = refl
