-- ===== src/Infrastructure/PaymentGateway.antt =====
-- infrastructure/http/payment_gateway.py and client.py: breaker(retry(one HTTP request)). httpx's
-- client, stamina's retrying caller and `str` are arguments.
pub mod Reading
pub mod Answers
pub mod Delivery
use pyfr_m8_verify.Base.{
  ℕ, Bool, true, false, ◌||◌, Option, none, some, ◌==◌, if◌then◌else◌, take, Text, codes,
}
use pyfr_m8_verify.Errors.{
  Exception, HttpError, domain, infrastructure, http, invalid_url, circuit_open, payment_declined,
  payment_unavailable, value_error, key_error, type_error, attribute_error, validation_error,
  connect_error, connect_timeout, pool_timeout, http_status_error, Result, ok, raised,
}
use pyfr_m8_verify.Errors.Exec.{Exec, pure, raise, lift, try_with, ◌>>=◌, bind_result}
use pyfr_m8_verify.Json.{Json, obj, str, get_field, Fields}
use pyfr_m8_verify.Domain.Order.{Decimal, Money}
use pyfr_m8_verify.Domain.Ports.{Authorisation, new_authorisation, PaymentGateway}
use pyfr_m8_verify.Infrastructure.Breaker.{CircuitBreaker, call}

-- RETRYABLE_STATUS
abbrev pub retryable_status : ℕ → Bool
retryable_status s = (s == 429) || (s == 503)

unfoldable pub is_retryable : Exception → Bool
is_retryable (http connect_error) = true
is_retryable (http connect_timeout) = true
is_retryable (http pool_timeout) = true
is_retryable (http (http_status_error status)) = retryable_status status
is_retryable e = false

-- _ANSWER_STATUSES
abbrev pub answer_status : ℕ → Bool
answer_status s = (s == 200) || (s == 201) || (s == 402)

-- `body` is what `response.json()` returns or raises.
pub record Response : Type 0 where
  pub status_code : ℕ
  pub body : Result Json

pub record Post : Type 0 where
  pub path : Text
  pub order_id : Text
  pub amount : Text
  pub currency : Text
  pub idempotency_key : Text

-- Of a response: its `reason` field, or "unknown".
reason_of : Json → Result Json
reason_of (obj fields) = elim (get_field (codes "reason") fields) [
  | none ↦ ok (str (codes "unknown"))
  | some v ↦ ok v
]
reason_of _ = raised attribute_error

id_of : Json → Result Json
id_of (obj fields) = elim (get_field (codes "id") fields) [
  | none ↦ raised key_error
  | some v ↦ ok v
]
id_of _ = raised type_error

-- Authorisation(id=…): only a `str` is accepted, and not a blank one.
authorisation_of : Json → Result Authorisation
authorisation_of (str id) = new_authorisation id
authorisation_of _ = raised validation_error

-- except (ValueError, KeyError, TypeError, AttributeError); a ValidationError is a ValueError.
unfoldable pub unreadable : Exception → Exception
unreadable value_error = infrastructure payment_unavailable
unreadable validation_error = infrastructure payment_unavailable
unreadable key_error = infrastructure payment_unavailable
unreadable type_error = infrastructure payment_unavailable
unreadable attribute_error = infrastructure payment_unavailable
unreadable e = e

-- except CircuitOpenError; except (httpx.HTTPError, httpx.InvalidURL)
unfoldable pub unanswered : Exception → Exception
unanswered circuit_open = infrastructure payment_unavailable
unanswered (http e) = infrastructure payment_unavailable
unanswered invalid_url = infrastructure payment_unavailable
unanswered e = e

or_unreadable : Result Authorisation → Result Authorisation
or_unreadable (ok a) = ok a
or_unreadable (raised e) = raised (unreadable e)

-- A body that has an authorisation.
read_authorisation : Result Json → Result Authorisation
unfolding id_of authorisation_of
read_authorisation body =
    bind_result body λ json. bind_result (id_of json) λ id. authorisation_of id

module _ (text_of : Json → Text) where
  -- A body that says why the payment was declined.
  read_decline : ℕ → Result Json → Result Authorisation
  unfolding reason_of
  read_decline order_id body = bind_result body λ json.
      bind_result (reason_of json)
        λ raw_reason. raised (domain (payment_declined order_id (take 200 (text_of raw_reason))))

  -- The second `try` of `authorise`.
  unfoldable pub read_answer : ℕ → Response → Result Authorisation
  unfolding read_decline read_authorisation unreadable or_unreadable
  read_answer order_id response = or_unreadable (
      if response.status_code == 402
      then read_decline order_id response.body
      else read_authorisation response.body)

pub record HttpClient (W : Type 0) : Type 0 where
  pub post : Post → Exec W Response
  pub clock : W → ℕ
  -- stamina's caller: runs the operation, and again while the test allows it.
  pub retrying : (Exception → Bool) → Exec W Response → Exec W Response
  -- `str` of a UUID, of a Decimal and of a JSON value
  pub uuid_text : ℕ → Text
  pub decimal_text : Decimal → Text
  pub text_of : Json → Text

unfoldable pub check_status : {W : Type 0} → Response → Exec W Response
check_status response =
    if answer_status response.status_code
    then pure response
    else raise (http (http_status_error response.status_code))

module _ {W : Type 0} (client : HttpClient W) where
  unfoldable pub send : ℕ → Money → Exec W Response
  unfolding check_status
  send order_id total = do
    response ← client.post (record {
      path = codes "/authorisations";
      order_id = client.uuid_text order_id;
      amount = client.decimal_text total.amount;
      currency = total.currency;
      idempotency_key = client.uuid_text order_id;
    })
    check_status response

  -- HttpPaymentGateway.authorise
  unfoldable pub authorise : ℕ → Money → Exec (CircuitBreaker × W) Authorisation
  unfolding read_answer unanswered send
  authorise order_id total =
      try_with (call client.clock (client.retrying is_retryable (send order_id total)))
        (λ response. lift (read_answer client.text_of order_id response))
        (λ e. raise (unanswered e))

  abbrev pub http_payment_gateway : PaymentGateway (CircuitBreaker × W)
  http_payment_gateway = record { authorise = authorise }
