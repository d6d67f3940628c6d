-- ===== src/Api/Errors.antt =====
-- api/errors.py: RFC 9457 answers. The texts of pydantic's and Starlette's errors come with the
-- exceptions; what a handler raises itself is answered by the handler of `Exception`; `str` of a UUID is an argument; the log lines are not modelled. Starlette calls the
-- handler of the nearest class of an exception.
pub mod Answers
use pyfr_m8_verify.Settings.Numbers.{Float, below_zero, finite, infinite, one}
use pyfr_m8_verify.Errors.{storage_unavailable, Result, ok, raised, other}
use pyfr_m8_verify.Base.{
  ℕ, Option, List, Text, String, none, codes, some, ◌∷◌, ◌++◌, [], ◌+◌, ◌/◌, ◌-◌,
}
use pyfr_m8_verify.Errors.{
  DomainError, Exception, domain, order_not_found, infrastructure, payment_declined,
  validation_error, payment_unavailable,
}
use pyfr_m8_verify.Errors.Exec.{bind_result}

-- The classes that `_STATUS_BY_ERROR` and the resolution order of a domain error range over;
-- `subclass` stands for any class that a later version adds.
pub data ErrorClass : Type 0 where
  order_not_found_error payment_declined_error domain_error exception object : ErrorClass
  subclass : ℕ → ErrorClass

abbrev pub status_by_error : ErrorClass → Option ℕ
status_by_error order_not_found_error = some 404
status_by_error payment_declined_error = some 402
status_by_error _ = none

-- `type(error).__mro__`
abbrev pub mro : DomainError → List ErrorClass
mro (order_not_found order_id) = order_not_found_error ∷ domain_error ∷ exception ∷ object ∷ []
mro (payment_declined order_id reason) =
    payment_declined_error ∷ domain_error ∷ exception ∷ object ∷ []

or_status : Option ℕ → ℕ → ℕ
or_status none rest = rest
or_status (some status) rest = status

unfoldable pub status_for : List ErrorClass → ℕ
unfolding or_status
status_for [] = 422
status_for (error_class ∷ rest) = or_status (status_by_error error_class) (status_for rest)

pub record ProblemDetail : Type 0 where
  pub type_ : Text
  pub title : Text
  pub status : ℕ
  pub detail : Option Text
  pub instance_ : Text

pub record ProblemResponse : Type 0 where
  pub problem : ProblemDetail
  pub retry_after : Option ℕ
  pub correlation_id : Option Text

-- What is raised at a route: one of this service's exceptions, or one of the framework's own.
pub data Raised : Type 0 where
  exception : Exception → Raised
  http_exception : (status_code : ℕ) → (detail : Text) → Raised
  request_validation_error : (errors : Text) → Raised

-- What the handlers read of the request, of the settings (where they are there) and of the exception's texts.
pub record Context : Type 0 where
  pub path : Text
  pub correlation_id : Option Text
  pub breaker_reset_after : Option Float
  pub uuid_text : ℕ → Text
  pub validation_errors : Text

abbrev pub retry_after_default : ℕ
retry_after_default = 30

-- math.ceil of n / d
unfoldable pub ceil : ℕ → ℕ → ℕ
ceil n d = (n + (d - 1)) / d

-- math.ceil of infinity is an OverflowError. (The settings accept no negative duration.)
retry_after_of : Option Float → Result ℕ
unfolding ceil
retry_after_of none = ok retry_after_default
retry_after_of (some below_zero) = ok 0
retry_after_of (some (finite n)) = ok (ceil n one)
retry_after_of (some infinite) = raised other

unfoldable pub retry_after_seconds : Context → Result ℕ
unfolding retry_after_of
retry_after_seconds request = retry_after_of request.breaker_reset_after

abbrev pub problem_type : String → Text
problem_type code = codes "https://errors.example.com/" ++ codes code

abbrev plain : ProblemDetail → ProblemResponse
plain problem = record { problem = problem; retry_after = none; correlation_id = none }

abbrev code_of : DomainError → String
code_of (order_not_found order_id) = "order_not_found"
code_of (payment_declined order_id reason) = "payment_declined"

abbrev title_of : DomainError → String
title_of (order_not_found order_id) = "Order not found"
title_of (payment_declined order_id reason) = "Payment declined"

-- `str(exc)`
abbrev message_of : Context → DomainError → Text
message_of request (order_not_found order_id) =
    codes "no order with id " ++ request.uuid_text order_id
message_of request (payment_declined order_id reason) =
    codes "payment for order "
    ++ (request.uuid_text order_id ++ (codes " was declined: " ++ reason))

unfoldable pub domain_problem : Context → DomainError → ProblemResponse
unfolding status_for
domain_problem request exc = plain (record {
  type_ = problem_type (code_of exc);
  title = codes (title_of exc);
  status = status_for (mro exc);
  detail = some (message_of request exc);
  instance_ = request.path;
})

unfoldable pub payment_unavailable_answer : Context → ℕ → ProblemResponse
payment_unavailable_answer request seconds = record {
  problem = record {
    type_ = problem_type "payment_unavailable";
    title = codes "Payment provider unavailable";
    status = 503;
    detail = some (codes "The payment provider could not be reached. Try again.");
    instance_ = request.path;
  };
  retry_after = some seconds;
  correlation_id = none;
}

unfoldable pub payment_unavailable_problem : Context → Result ProblemResponse
unfolding retry_after_seconds payment_unavailable_answer
payment_unavailable_problem request =
    bind_result (retry_after_seconds request)
      λ seconds. ok (payment_unavailable_answer request seconds)

unfoldable pub storage_unavailable_problem : Context → ProblemResponse
storage_unavailable_problem request = record {
  problem = record {
    type_ = problem_type "storage_unavailable";
    title = codes "Receipt storage unavailable";
    status = 503;
    detail = some (codes "Receipt storage could not be reached. Try again.");
    instance_ = request.path;
  };
  retry_after = some retry_after_default;
  correlation_id = none;
}

-- The handlers of RequestValidationError and of pydantic's ValidationError.
unfoldable pub validation_problem : Context → Text → ProblemResponse
validation_problem request errors = plain (record {
  type_ = problem_type "validation_error";
  title = codes "Request validation failed";
  status = 422;
  detail = some errors;
  instance_ = request.path;
})

unfoldable pub http_problem : Context → ℕ → Text → ProblemResponse
http_problem request status_code detail = plain (record {
  type_ = problem_type "http_error";
  title = detail;
  status = status_code;
  detail = none;
  instance_ = request.path;
})

unfoldable pub unexpected_problem : Context → ProblemResponse
unexpected_problem request = record {
  problem = record {
    type_ = problem_type "internal_error";
    title = codes "Internal server error";
    status = 500;
    detail = none;
    instance_ = request.path;
  };
  retry_after = none;
  correlation_id = request.correlation_id;
}

-- What a handler raises itself is answered like any exception without a handler.
unfoldable pub handled : Context → Result ProblemResponse → ProblemResponse
unfolding unexpected_problem
handled request (ok answer) = answer
handled request (raised e) = unexpected_problem request

unfoldable pub respond : Context → Raised → ProblemResponse
unfolding domain_problem payment_unavailable_problem storage_unavailable_problem validation_problem
    http_problem unexpected_problem handled
respond request (exception (domain exc)) = domain_problem request exc
respond request (exception (infrastructure payment_unavailable)) =
    handled request (payment_unavailable_problem request)
respond request (exception (infrastructure storage_unavailable)) =
    storage_unavailable_problem request
respond request (exception validation_error) = validation_problem request request.validation_errors
respond request (exception e) = unexpected_problem request
respond request (http_exception status_code detail) = http_problem request status_code detail
respond request (request_validation_error errors) = validation_problem request errors
