-- ===== src/Errors.antt =====
-- domain/errors.py, services/errors.py and infrastructure/errors.py, with the third-party
-- exceptions that the code tells apart. A call that may raise returns a `Result`; a call that also
-- changes the outside world is an `Exec`, which keeps what was done before the exception.
pub mod Exec
use pyfr_m8_verify.Base.{ℕ, Text, Option}

-- Classes of business-rule violations, with what their instances carry.
pub data DomainError : Type 0 where
  order_not_found : (order_id : ℕ) → DomainError
  payment_declined : (order_id : ℕ) (reason : Text) → DomainError

pub data InfrastructureError : Type 0 where
  corrupt_persisted_data : (order_id : ℕ) → InfrastructureError
  storage_constraint_violated : (summary : Text) → InfrastructureError
  payment_unavailable : InfrastructureError
  storage_unavailable : InfrastructureError

-- httpx's exceptions, as far as `is_retryable` and `authorise` distinguish them.
pub data HttpError : Type 0 where
  connect_error connect_timeout pool_timeout read_timeout write_timeout : HttpError
  http_status_error : (status_code : ℕ) → HttpError
  other_http_error : HttpError

-- What `getattr` finds on the driver's exception, and the text that the server composed, which may
-- hold values of the rejected row.
pub record DriverError : Type 0 where
  pub sqlstate : Option Text
  pub table_name : Option Text
  pub constraint_name : Option Text
  pub detail : Text

pub data Exception : Type 0 where
  domain : DomainError → Exception
  infrastructure : InfrastructureError → Exception
  service_defect : Exception
  validation_error : Exception
  value_error key_error type_error attribute_error : Exception
  circuit_open : Exception
  http : HttpError → Exception
  invalid_url : Exception
  integrity_error : DriverError → Exception
  client_error : (code : Text) → Exception
  boto_core_error : Exception
  seed_error : Exception
  runtime_error : Exception
  other : Exception

pub data Result {ℓ} (A : Type ℓ) : Type ℓ where
  ok : A → Result A
  raised : Exception → Result A
