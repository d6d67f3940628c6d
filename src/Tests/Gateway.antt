-- ===== src/Tests/Gateway.antt =====
-- infrastructure/http/payment_gateway.py at a concrete provider.
use pyfr_m8_verify.Tests.Breaker.{fresh}
use pyfr_m8_verify.Tests.Orders.{eur}
use pyfr_m8_verify.Base.{
  ℕ, Bool, codes, arith, if◌then◌else◌, ◌≤◌, ◌≡◌, ◌==◌, refl, ◌+◌, Bool-cases, inl, inr, text_eq,
}
use pyfr_m8_verify.Infrastructure.PaymentGateway.{
  Post, HttpClient, authorise, send, Response, check_status, is_retryable,
}
use pyfr_m8_verify.Errors.{Exception, ok, Result, raised}
use pyfr_m8_verify.Errors.Exec.{Exec}
use pyfr_m8_verify.Infrastructure.PaymentGateway.Delivery.{
  IsHonest, Attempts, authorise-delivered, last, again,
}
use pyfr_m8_verify.Infrastructure.Breaker.{call}
use pyfr_m8_verify.Domain.Order.Totals.{money}
use pyfr_m8_verify.Json.{obj, field, str, end, get_field}
use pyfr_m8_verify.Domain.Ports.{new_authorisation, strip}

-- A provider that turns its first request away with 503 and then authorises; the world is the number
-- of requests it has seen and the number it has taken.
abbrev answer : ℕ → Response
answer status = record {
  status_code = status;
  body = ok (obj (field (codes "id") (str (codes "auth_1")) end));
}

post_once : Post → Exec (ℕ × ℕ) Response
post_once p (seen, taken) =
    if seen == 0
    then (ok (answer 503), (seen + 1, taken))
    else (ok (answer 201), (seen + 1, taken + 1))

retry_once :
    (Exception → Bool)
    → Exec (ℕ × ℕ) Response
    → Result Response × (ℕ × ℕ)
    → Result Response × (ℕ × ℕ)
retry_once test m (ok a, w) = (ok a, w)
retry_once test m (raised e, w) = if test e then m w else (raised e, w)

unfoldable provider : HttpClient (ℕ × ℕ)
unfolding post_once retry_once
provider = record {
  post = post_once;
  clock = λ w. w.0;
  retrying = λ test m w. retry_once test m (m w);
  uuid_text = λ n. codes "7";
  decimal_text = λ d. codes "2.50";
  text_of = λ j. codes "reason";
}

abbrev taken : ℕ × ℕ → ℕ
taken w = w.1

retried :
    (m : Exec (ℕ × ℕ) Response) (w : ℕ × ℕ) (q : Result Response × (ℕ × ℕ))
    → q ≡ m w
    → Attempts taken is_retryable m w (retry_once is_retryable m q)
unfolding retry_once
retried m w (ok a, s) e = rw e (last w)
retried m w (raised x, s) e = elim (Bool-cases (is_retryable x)) [
  | inl t ↦ rw t (again w s x (cc e) t (cc e) (last s))
  | inr f ↦ rw (f, e) (last w)
]

provider-IsHonest : IsHonest taken provider
unfolding provider post_once
provider-IsHonest = record {
  at_most = λ p w. ground arith;
  nothing = λ p w h. ground arith;
  attempts = λ m w. retried m w (m w) refl;
}

authorise-delivered_example : (authorise provider 7 (money 250 2 eur) (fresh, (0, 0))).1.1.1 ≤ 1
authorise-delivered_example =
    authorise-delivered taken provider provider-IsHonest 7 (money 250 2 eur) fresh (0, 0)

authorise_runs :
    (authorise provider 7 (money 250 2 eur) (fresh, (0, 0))).0 ≡ ok (record { id = codes "auth_1" })
unfolding authorise provider post_once retry_once send check_status is_retryable call get_field
    text_eq new_authorisation strip
authorise_runs = refl
