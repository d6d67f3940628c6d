-- ===== src/Application/Assembly/Piped.antt =====
-- An application that is put together: its logs, its middlewares, and what telemetry that is off leaves.
use pyfr_m8_verify.Base.{
  Text, List, All, ◌∷◌, ◌≡◌, [], if◌then◌else◌, ◌∙◌, inl, false, ap, inr, refl, Option, sym,
  append_none, some, none, ◌≢◌, true,
}
use pyfr_m8_verify.Errors.{ok, Result, Exception, raised}
use pyfr_m8_verify.Settings.{Settings, new_settings}
use pyfr_m8_verify.Settings.Startup.{new_settings-exports}
use pyfr_m8_verify.Observability.Otel.{Providers, Installed, is_some, installed}
use pyfr_m8_verify.Observability.Logging.Routing.{reached, ancestors, legs, Loggers}
use pyfr_m8_verify.Observability.Logging.Routing.Reached.{IsOpen, configure_logging-one_pipeline}
use pyfr_m8_verify.Application.Assembly.{
  FastApi, World, create_app, configured, Middleware, access_log_middleware,
  correlation_id_middleware, open_telemetry_middleware, has_logger_provider, instrumented,
  assembled,
}
use pyfr_m8_verify.Observability.Otel.Exported.{
  configure_otel-IsExporting, IsUnsplit, off, exports, unsplit,
}
use pyfr_m8_verify.Errors.Exec.{continue}

abbrev inner : List Middleware
inner = correlation_id_middleware ∷ access_log_middleware ∷ []

-- What a new application is like, in the world that it leaves of `world`.
pub record IsAssembled (t : Settings) (world : World) (r : FastApi × World) : Type 0 where
  pub middleware :
      r.0.middleware ≡ (if t.otel.enabled then open_telemetry_middleware ∷ inner else inner)
  pub untouched :
      t.otel.enabled ≡ false → (r.1.process ≡ world.process) × (r.1.installed ≡ world.installed)
  pub logged :
      (name : Text)
      → All (IsOpen world.loggers) (ancestors name)
      → reached r.1.loggers (ancestors name) ≡ legs t.environment t.otel.logs_enabled

instrumented-loggers :
    (o : Option Providers) (r : FastApi × World) → (instrumented o r).1.loggers ≡ r.1.loggers
instrumented-loggers none r = refl
instrumented-loggers (some runtime) r = refl

-- Where the provider of logs that configure_otel builds is the one that the settings ask for.
logged-with :
    (version : Text) (otel : Option Providers × List Installed) (t : Settings) (world : World)
    (name : Text)
    → has_logger_provider otel.0 ≡ t.otel.logs_enabled
    → All (IsOpen world.loggers) (ancestors name)
    → reached (assembled version t otel world).1.loggers (ancestors name)
      ≡ legs t.environment t.otel.logs_enabled
unfolding configured assembled
logged-with version otel t world name e h =
    ap (λ (ls : Loggers). reached ls (ancestors name)) (instrumented-loggers otel.0 _)
    ∙ (configure_logging-one_pipeline t.environment t.log.level t.log.levels
          (has_logger_provider otel.0) world.loggers name h
        ∙ ap (legs t.environment) e)

false-ne_true : false ≢ true
false-ne_true h = cc

off-IsAssembled :
    (version : Text) (t : Settings) (world : World)
    → t.otel.enabled ≡ false
    → t.otel.logs_enabled ≡ false
    → IsAssembled t world (assembled version t (none, []) world)
off-IsAssembled version t world e no_logs = record {
  middleware = unfold assembled in rw e refl;
  untouched = λ h. unfold assembled configured in (refl, append_none world.installed);
  logged = λ name k. logged-with version (none, []) t world name (sym no_logs) k;
}

on-IsAssembled :
    (version : Text) (t : Settings) (world : World) (p : Providers)
    → t.otel.enabled ≡ true
    → is_some p.logger_provider ≡ t.otel.logs_enabled
    → IsAssembled t world (assembled version t (some p, installed p) world)
on-IsAssembled version t world p on logs = record {
  middleware = unfold assembled in rw on refl;
  untouched = λ h. absurd (false-ne_true (sym h ∙ on));
  logged = λ name k. logged-with version (some p, installed p) t world name logs k;
}

-- How create_app ends in `world`: with an application, or because urlsplit raised of the endpoint.
pub data IsCreated (scheme : Text → Result Text) (t : Settings) (world : World)
    (r : Result FastApi × World) : Type 0 where
  created :
      (app : FastApi) (after : World)
      → r ≡ (ok app, after)
      → IsAssembled t world (app, after)
      → IsCreated scheme t world r
  not_created :
      (e : Exception)
      → t.otel.enabled ≡ true
      → IsUnsplit scheme t e
      → r ≡ (raised e, world)
      → IsCreated scheme t world r

-- Of settings that are accepted, create_app makes an application in which the instrumentation, if
-- telemetry is on, is outside of the correlation identifier, and that outside of the access log. With
-- telemetry off no library is instrumented and no provider installed. Each record of uvicorn's loggers,
-- and of every logger without a handler on its way, reaches the standard output once and, exactly where
-- the settings ask for exported logs, the OTLP handler once, and no other handler. Only where telemetry
-- is on and urlsplit raises of the endpoint, create_app raises the same, and has changed nothing.
pub create_app-IsAssembled :
    (query_names : Text → List Text) (scheme : Text → Result Text) (version : Text) (s t : Settings)
    (world : World)
    → new_settings query_names s ≡ ok t
    → IsCreated scheme t world (create_app scheme version t world)
unfolding create_app
create_app-IsAssembled query_names scheme version s t world h =
    elim (configure_otel-IsExporting query_names scheme s t version h) [
      | off e r ↦
          rw (r, continue) (created _ _ refl (off-IsAssembled version t world e (no_logs e)))
      | exports p e x r ↦
          rw (r, continue) (created _ _ refl (on-IsAssembled version t world p e x.logs))
      | unsplit e on u r ↦ rw (r, continue) (not_created e on u refl)
    ]
  where
    no_logs : t.otel.enabled ≡ false → t.otel.logs_enabled ≡ false
    no_logs disabled = elim (new_settings-exports query_names s t h) [
      | inl e ↦ e.1
      | inr e ↦ absurd (false-ne_true (sym disabled ∙ e.0))
    ]
