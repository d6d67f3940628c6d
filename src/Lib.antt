-- ===== src/Lib.antt =====
-- The order service, verified: src/pyfr_m8_verify.
--
-- The service takes orders over HTTP. A request is validated (api/v1/schemas.py), turned into a
-- command (api/v1/mappers.py) and given to a use case (services/), which builds the order
-- (domain/order.py), has its payment authorised and saves it. The ports of domain/ are implemented in
-- infrastructure/: PostgreSQL behind a Redis cache for orders, an S3-compatible store for receipts,
-- an HTTP payment provider behind retries and a circuit breaker, and dicts in memory for all three.
-- What is raised ends in api/errors.py as a problem response.
--
-- How it is modelled. An exception is a value of Errors.Exception, a fallible computation a Result,
-- and code that calls the outside an Exec: a function from a world to a Result and a world. A port is
-- a record of operations over a world, as the Protocol classes of domain/ are; the world stays
-- abstract, and what a theorem needs of an implementation is a record of laws. Constructing a
-- pydantic model is a function that runs its validators (new_order for Order, and so on) and answers
-- validation_error where they refuse. A Decimal within a Money is its value in hundredths and its
-- number of decimal places, of which at most two count, because Money allows no more and because
-- places are seen in JSON; a sum or a product keeps as many places as the 28 digits of the decimal context
-- leave; a UUID is a number, whose text is given by a parameter; a str is its list of code points. A
-- native number has no upper bound, as an int of Python has none.
--
-- The files:
--   Errors            domain/errors.py, infrastructure/errors.py, services/errors.py
--   Json              JSON values
--   Domain/Order      domain/order.py; Places, Totals and Valid: what total_of and Order accept
--   Domain/Ports      domain/payments.py, domain/repositories.py, domain/receipts.py;
--                     Stripped
--   Domain/Receipt    domain/receipt_render.py; Allowlist: what a receipt depends on
--   Services/Command  services/order.py, PlaceOrderLine and PlaceOrderCommand; Valid: what they accept
--   Services/PlaceOrder  services/order.py, PlaceOrder.__call__ (place_order) and GetOrder.__call__
--                     (get_order); Assembly and Outcomes: what PlaceOrder does with a valid command
--   Services/GetReceipt  services/receipt.py, GetReceipt.__call__ (get_receipt); Stored
--   Infrastructure/Breaker  infrastructure/http/breaker.py: `call` is entered (enter), awaits, and is
--                     left (leave); Laws on whole calls, Interleaving on calls that overlap,
--                     Recovery: the way back to a closed breaker
--   Infrastructure/PaymentGateway  infrastructure/http/payment_gateway.py and is_retryable of
--                     infrastructure/http/client.py; Reading, Answers, Delivery
--   Infrastructure/Cache  infrastructure/cache/order_repository.py; Laws: what it relies on;
--                     FailOpen, Coherence, and OverPostgres: both repositories together
--   Infrastructure/Database  infrastructure/db/mappers.py, models.py and order_repository.py;
--                     RoundTrip, Repository, Reading, Adapter
--   Infrastructure/Memory  infrastructure/memory/
--   Infrastructure/ReceiptStore  infrastructure/storage/receipt_store.py; Laws
--   Api/Schemas       api/v1/schemas.py; Mirrors: how it agrees with the command's validators
--   Api/Orders        api/v1/mappers.py and api/v1/router.py; Mapping, Endpoint
--   Api/Errors        api/errors.py; Answers
--   Api/Middleware    api/middleware.py; Template, Filled
--   Api/Deps          api/deps.py
--   Observability/Redaction  observability/redaction.py; Masking, Filter
--   Observability/Logging  observability/logging.py: Event: what a record carries, with Correlated and Masked;
--                     Routing: which handlers it reaches, with Reached
--   Observability/Otel  observability/otel.py; Exported, Shutdown; Instrument: the instrumentors, with
--                     Agreed
--   Observability/Slo  observability/slo.py
--   Observability/Metrics  observability/metrics.py; Stopped, Probed
--   Settings          settings.py; Numbers: numbers and their bounds; Validated, Startup: what holds of
--                     settings that were accepted
--   Infrastructure/Clients  infrastructure/db/engine.py, infrastructure/cache/client.py,
--                     infrastructure/storage/client.py and build_http_client; Dsn
--   Container         container.py, build_container and close_container; Readiness: the registry;
--                     Selection, Closing
--   Api/Health        api/health.py; Gating: what makes an instance unready
--   Application       main.py, the lifespan of create_app; Shutdown; Assembly: what create_app puts
--                     together, with Piped
--   ConfigCheck       config_check.py; Hiding: what is masked
--   Seed              seed.py; Idempotent, Recorded, Rerun: one run, and the run after it
--   Scripts/Contract  scripts/check_contract_compatibility.py (of the repository's root); Subject, Gate
--   Scripts/ConfigDocs  scripts/generate_config_docs.py: Labels with Sorted, Walk, Plain with Wrapped,
--                     Table with Cells, EnvExample with Commented, and Document with Idempotent
--   Scripts/DocsUpdated  scripts/check_docs_updated.py; Gate
--   Scripts/DocsFreshness  scripts/check_docs_freshness.py
--   Scripts/DocExamples  scripts/check_doc_examples.py; Verdict
--   Base              lists, dicts, text and Boolean tests that the parts share
--   Tests             the theorems at concrete inputs, and runs
-- All other paths of the program are under src/pyfr_m8_verify/.
--
-- No function runs on fuel: every loop of the modelled code goes down a list, a text, a tree or
-- the width of a number; the probe of the event loop is given its turns. How often stamina tries a
-- request is not bounded in the model.
--
-- A duration of the settings is a double: negative, infinite, or a whole number of 2^-1074 seconds, the
-- smallest double; NaN is left out. The clock of the circuit breaker counts in the same unit, and the
-- difference of two times is exact, where Python rounds it. A container is what its members are constructed with, since how
-- adapters behave is the subject of Infrastructure. The checks of the readiness registry are known by
-- how long they take and what they raise.
--
-- Parameters of the model, since their code is elsewhere: the Redis and S3 clients, SQLAlchemy's
-- session, httpx and stamina, pydantic's JSON, json.dumps, `str` of a UUID, an int, a float and a
-- Decimal, str.lower, urllib's urlsplit, urlunsplit and parse_qs, what the constructors
-- of the clients raise (and urlsplit of the telemetry endpoint), the close calls of the clients, the
-- calls of the OpenTelemetry SDK and structlog's own processors, for the seed the HTTP client and the
-- state file, and for the scripts what oasdiff, git and bash end with, what yaml.safe_load reads and
-- str.upper.
--
-- The event loop of observability/metrics.py has a clock of natural numbers. An identifier of a span has
-- the 128 or 64 bits that OpenTelemetry gives it. The loggers of the standard library are a root and a
-- map by name; a logger that nobody configured has no handler and passes its records on.
--
-- Not modelled: the reading of the environment and the text of the errors of load_settings, log lines,
-- what the programs print, and the migrations.
pub mod Base
pub mod Errors
pub mod Json
pub mod Domain
pub mod Services
pub mod Infrastructure
pub mod Settings
pub mod Container
pub mod Api
pub mod Observability
pub mod Application
pub mod ConfigCheck
pub mod Seed
pub mod Scripts
pub mod Tests
