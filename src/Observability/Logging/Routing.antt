-- ===== src/Observability/Logging/Routing.antt =====
-- Which handlers a record reaches: the loggers of the standard library, and configure_logging.
pub mod Reached
use pyfr_m8_verify.Base.{
  none, true, false, Text, List, Option, codes, Bool, ℕ, ◌∷◌, some, if◌then◌else◌, [], ◌==◌, ◌++◌,
  text_eq, true, ◌||◌,
}
use pyfr_m8_verify.Settings.{local, staging, production, LogLevel, Environment, local, staging}

pub data Renderer : Type 0 where
  console_renderer json_renderer : Renderer

-- The stdout handler, the OTLP handler, and one that something else installed. The first two format a
-- record by shared_processors; `redacted` is the filter that masks the attributes.
pub data Handler : Type 0 where
  stream_handler : Renderer → Handler
  otlp_handler : (redacted : Bool) → Renderer → Handler
  other_handler : ℕ → Handler

pub record Logger : Type 0 where
  pub handlers : List Handler
  pub propagate : Bool
  pub level : Option LogLevel

-- The root logger, and every other one by its name.
pub record Loggers : Type 0 where
  pub root : Logger
  pub named : Text → Logger

abbrev pub prepended : ℕ → List Text → List Text
prepended c [] = []
prepended c (n ∷ ns) = (c ∷ n) ∷ prepended c ns

-- A dotted name and the names above it: "a.b" and "a".
unfoldable pub ancestors : Text → List Text
ancestors [] = [] ∷ []
ancestors (c ∷ s) =
    let longer = prepended c (ancestors s) in if c == b'.' then longer ++ ([] ∷ []) else longer

-- Logger.callHandlers, along the names of the logger and of those above it.
unfoldable pub reached : Loggers → List Text → List Handler
reached ls [] = ls.root.handlers
reached ls (n ∷ ns) =
    let above = reached ls ns in
    (ls.named n).handlers ++ (if (ls.named n).propagate then above else [])

abbrev pub level_or : Option LogLevel → Option LogLevel → Option LogLevel
level_or (some level) above = some level
level_or none above = above

-- Logger.getEffectiveLevel
unfoldable pub effective_level : Loggers → List Text → Option LogLevel
effective_level ls [] = ls.root.level
effective_level ls (n ∷ ns) = level_or (ls.named n).level (effective_level ls ns)

abbrev pub update : Text → (Logger → Logger) → Loggers → Loggers
update name f ls = record ls { named = λ n. if text_eq n name then f (ls.named n) else ls.named n }

-- handlers.clear(), propagate = True
abbrev pub opened : Logger → Logger
opened l = record l { handlers = []; propagate = true }

abbrev pub uvicorn_loggers : List Text
uvicorn_loggers = codes "uvicorn" ∷ codes "uvicorn.error" ∷ codes "uvicorn.access" ∷ []

-- The loop over the three loggers.
unfoldable pub open_loggers : List Text → Loggers → Loggers
open_loggers [] ls = ls
open_loggers (name ∷ rest) ls = open_loggers rest (update name opened ls)

abbrev pub with_level : LogLevel → Logger → Logger
with_level level l = record l { level = some level }

-- logging.getLogger(name).setLevel(level): both "" and "root" name the root logger.
unfoldable pub set_level : Text → LogLevel → Loggers → Loggers
set_level name level ls =
    if text_eq name [] || text_eq name (codes "root")
    then record ls { root = with_level level ls.root }
    else update name (with_level level) ls

unfoldable pub set_levels : List (Text × LogLevel) → Loggers → Loggers
unfolding set_level
set_levels [] ls = ls
set_levels ((name, level) ∷ rest) ls = set_levels rest (set_level name level ls)

abbrev pub renderer_of : Environment → Renderer
renderer_of local = console_renderer
renderer_of staging = json_renderer
renderer_of production = json_renderer

-- The handlers of the root logger: the second where a logger provider is configured.
abbrev pub legs : Environment → Bool → List Handler
legs environment true =
    stream_handler (renderer_of environment) ∷ otlp_handler true json_renderer ∷ []
legs environment false = stream_handler (renderer_of environment) ∷ []

-- configure_logging
unfoldable pub configure_logging :
    Environment → LogLevel → List (Text × LogLevel) → Bool → Loggers → Loggers
unfolding set_levels open_loggers
configure_logging environment level levels with_provider ls =
    let root = record ls.root { handlers = legs environment with_provider; level = some level } in
    set_levels levels (open_loggers uvicorn_loggers (record ls { root = root }))
