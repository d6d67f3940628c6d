-- ===== src/Api/Errors/Answers.antt =====
-- What the answers to errors give away, and what they promise.
use native.Mathlib.Nat.{div-add-mod, mod-lt, mul_comm}
use pyfr_m8_verify.Settings.Numbers.{below_zero, Float, finite, infinite, one, positive}
use pyfr_m8_verify.Errors.{storage_unavailable, raised, other}
use pyfr_m8_verify.Errors.{
  DomainError, Exception, domain, order_not_found, infrastructure, payment_declined,
  validation_error, corrupt_persisted_data, payment_unavailable, storage_constraint_violated,
}
use pyfr_m8_verify.Api.Errors.{
  status_for, respond, retry_after_seconds, Context, exception, subclass, unexpected_problem, mro,
  payment_unavailable_answer, payment_unavailable_problem, handled, ceil, ProblemResponse,
}
use pyfr_m8_verify.Base.{
  ℕ, List, map, ◌≡◌, some, ◌++◌, ◌≤◌, ◌*◌, ◌∷◌, ◌<◌, refl, ◌+◌, [], arith, none, ◌-◌, ltb→lt,
  Option, ◌/◌, ◌^◌, ◌≢◌, ap, true,
}

abbrev pub status_of : DomainError → ℕ
status_of (order_not_found order_id) = 404
status_of (payment_declined order_id reason) = 402

-- A class derived, however deeply, from one of the two domain errors is answered with the status of
-- that error and not with the default.
pub status_for-subclass :
    (classes : List ℕ) (e : DomainError) → status_for (map subclass classes ++ mro e) ≡ status_of e
unfolding status_for
status_for-subclass [] (order_not_found n) = refl
status_for-subclass [] (payment_declined n r) = refl
status_for-subclass (c ∷ cs) e = status_for-subclass cs e

-- The exceptions that no handler is registered for.
abbrev pub IsInternal : Exception → Type 0
IsInternal (domain e) = ⊥
IsInternal (infrastructure payment_unavailable) = ⊥
IsInternal (infrastructure storage_unavailable) = ⊥
IsInternal validation_error = ⊥
IsInternal _ = Unit {0}

-- n / d, rounded up.
ceil-bounds : (n d : ℕ) → 0 < d → (n ≤ d * ceil n d) × (d * ceil n d < n + d)
unfolding ceil
ceil-bounds n d h =
    let e = div-add-mod (n + (d - 1)) d in
    let l = mod-lt (n + (d - 1)) h in
    (
      omega (arith, e, l, mul_comm d ((n + (d - 1)) / d)),
      omega (arith, e, l, mul_comm d ((n + (d - 1)) / d)),
    )

one_positive : 0 < one
unfolding one
one_positive = ltb→lt 0 (2 ^ 1074) refl

finite-seconds :
    (request : Context) (n : ℕ)
    → request.breaker_reset_after ≡ some (finite n)
    → respond request (exception (infrastructure payment_unavailable))
      ≡ payment_unavailable_answer request (ceil n one)
unfolding respond payment_unavailable_problem retry_after_seconds handled
finite-seconds request n h = rw h refl

infinite-raises :
    (request : Context)
    → request.breaker_reset_after ≡ some infinite
    → payment_unavailable_problem request ≡ raised other
unfolding payment_unavailable_problem retry_after_seconds
infinite-raises request h = rw h refl

infinite-seconds :
    (request : Context)
    → request.breaker_reset_after ≡ some infinite
    → respond request (exception (infrastructure payment_unavailable)) ≡ unexpected_problem request
unfolding respond payment_unavailable_problem retry_after_seconds handled
infinite-seconds request h = rw h refl

-- The answer to PaymentUnavailable.
abbrev pub unavailable_answer : Context → ProblemResponse
unavailable_answer request = respond request (exception (infrastructure payment_unavailable))

-- What a client is told while the provider cannot be reached, by the window of the breaker.
abbrev pub IsTold : Context → Float → Type 0
IsTold request below_zero = ⊥
IsTold request (finite n) =
    (s : ℕ) × (n ≤ one * s)
    × (one * s < n + one)
    × ((unavailable_answer request).problem.status ≡ 503)
    × ((unavailable_answer request).retry_after ≡ some s)
IsTold request infinite =
    (payment_unavailable_problem request ≡ raised other)
    × ((unavailable_answer request).problem.status ≡ 500)
    × ((unavailable_answer request).retry_after ≡ none)

-- Of a window of the breaker that the settings accept: where it is finite, the 503 that answers
-- PaymentUnavailable tells the client to wait for a whole number of seconds that covers the window and is
-- less than a second longer. Where it is infinite, the handler itself raises, and the answer is a 500 that
-- names no time.
pub retry_after_seconds_bounds :
    (request : Context) (window : Float)
    → request.breaker_reset_after ≡ some window
    → positive window ≡ true
    → IsTold request window
unfolding payment_unavailable_answer unexpected_problem
retry_after_seconds_bounds request below_zero h p = cc
retry_after_seconds_bounds request (finite n) h p =
    let (lower, upper) = ceil-bounds n one one_positive in
    (
      ceil n one,
      lower,
      upper,
      ap (λ (q : ProblemResponse). q.problem.status) (finite-seconds request n h),
      ap (λ (q : ProblemResponse). q.retry_after) (finite-seconds request n h),
    )
retry_after_seconds_bounds request infinite h p = (
  infinite-raises request h,
  ap (λ (q : ProblemResponse). q.problem.status) (infinite-seconds request h),
  ap (λ (q : ProblemResponse). q.retry_after) (infinite-seconds request h),
)

-- The status of the answer to PaymentUnavailable, by the window of the breaker.
abbrev pub status_unavailable : Option Float → ℕ
status_unavailable (some infinite) = 500
status_unavailable _ = 503

-- The status of the answer, by exception and by the window of the breaker.
pub status_of_exception : Option Float → Exception → ℕ
status_of_exception window (domain e) = status_of e
status_of_exception window (infrastructure payment_unavailable) = status_unavailable window
status_of_exception window (infrastructure storage_unavailable) = 503
status_of_exception window validation_error = 422
status_of_exception window _ = 500

unavailable-status :
    (request : Context) (window : Option Float)
    → request.breaker_reset_after ≡ window
    → (respond request (exception (infrastructure payment_unavailable))).problem.status
      ≡ status_unavailable window
unfolding respond payment_unavailable_problem retry_after_seconds handled
unavailable-status request none h = rw h refl
unavailable-status request (some below_zero) h = rw h refl
unavailable-status request (some (finite n)) h = rw h refl
unavailable-status request (some infinite) h = rw h refl

-- Every exception of the service is answered: 404 or 402 for a domain error, 503 for a dependency
-- that is down, 422 for a ValidationError, and 500 for anything else, which a PaymentUnavailable is
-- too where the window of the breaker is infinite.
pub respond-status :
    (request : Context) (e : Exception)
    → (respond request (exception e)).problem.status
      ≡ status_of_exception request.breaker_reset_after e
unfolding respond status_of_exception
respond-status request (domain (order_not_found n)) = refl
respond-status request (domain (payment_declined n r)) = refl
respond-status request (infrastructure payment_unavailable) =
    unavailable-status request request.breaker_reset_after refl
respond-status request (infrastructure storage_unavailable) = refl
respond-status request (infrastructure (corrupt_persisted_data n)) = refl
respond-status request (infrastructure (storage_constraint_violated t)) = refl
respond-status request validation_error = refl
respond-status request _ = refl

unavailable-validation : (window : Option Float) → status_unavailable window ≢ 422
unavailable-validation none h = omega arith
unavailable-validation (some below_zero) h = omega arith
unavailable-validation (some (finite n)) h = omega arith
unavailable-validation (some infinite) h = omega arith

-- Only a ValidationError is answered 422.
pub status-validation :
    (window : Option Float) (e : Exception)
    → status_of_exception window e ≡ 422
    → e ≡ validation_error
unfolding status_of_exception
status-validation window (domain (order_not_found n)) h = absurd (omega arith)
status-validation window (domain (payment_declined n r)) h = absurd (omega arith)
status-validation window (infrastructure payment_unavailable) h =
    absurd (unavailable-validation window h)
status-validation window (infrastructure storage_unavailable) h = absurd (omega arith)
status-validation window (infrastructure (corrupt_persisted_data n)) h = absurd (omega arith)
status-validation window (infrastructure (storage_constraint_violated t)) h = absurd (omega arith)
status-validation window validation_error h = refl
status-validation window _ h = absurd (omega arith)
