-- ===== src/Infrastructure/PaymentGateway/Delivery.antt =====
-- One call of `authorise` puts at most one payment request before the provider.
use pyfr_m8_verify.Base.{ℕ, ◌+◌, ◌≤◌, ◌≡◌, refl, true, arith, Bool, ◌⊎◌}
use pyfr_m8_verify.Errors.{
  Exception, Result, ok, raised, http, http_status_error, connect_error, connect_timeout,
  pool_timeout,
}
use pyfr_m8_verify.Infrastructure.PaymentGateway.{
  Response, HttpClient, retryable_status, Post, check_status, send, authorise, is_retryable,
  read_answer, unanswered,
}
use pyfr_m8_verify.Errors.Exec.{Exec, handle, continue, lift, raise}
use pyfr_m8_verify.Infrastructure.Breaker.{call, CircuitBreaker}
use pyfr_m8_verify.Domain.Order.{Money}

module _ {W : Type 0} (delivered : W → ℕ) where
  -- What stamina documents of its caller: it makes the call; where the call raised what the test
  -- allows to be retried, it may wait and go on; and it ends as its last call ended.
  pub data Attempts {A : Type 0} (test : Exception → Bool) (m : Exec W A)
      : W → Result A × W → Type 0 where
    last : (w : W) → Attempts test m w (m w)
    again :
        (w v : W) {q : Result A × W} (e : Exception)
        → (m w).0 ≡ raised e
        → test e ≡ true
        → delivered v ≡ delivered (m w).1
        → Attempts test m v q
        → Attempts test m w q

  -- Calls whose retryable failures delivered nothing.
  pub record DeliversOnce {A : Type 0} (test : Exception → Bool) (m : Exec W A) : Type 0 where
    pub at_most : (w : W) → delivered (m w).1 ≤ delivered w + 1
    pub nothing :
        (w : W) (e : Exception)
        → (m w).0 ≡ raised e
        → test e ≡ true
        → delivered (m w).1 ≡ delivered w

  Attempts-delivered :
      {A : Type 0} (test : Exception → Bool) (m : Exec W A) {w : W} {q : Result A × W}
      → DeliversOnce test m
      → Attempts test m w q
      → delivered q.1 ≤ delivered w + 1
  Attempts-delivered test m d (last w) = d.at_most w
  Attempts-delivered test m d (again w v e h k p a) =
      omega (arith, d.nothing w e h k, p, Attempts-delivered test m d a)

  -- Turned away at the edge, before anything was taken.
  abbrev pub TurnedAway : ℕ → Type 0
  TurnedAway status = (status ≡ 429) ⊎ (status ≡ 503)

  -- How a request can fail to reach the provider: no connection was made, or none was free, or it was
  -- turned away.
  abbrev pub Undelivered : Result Response → Type 0
  Undelivered (ok response) = TurnedAway response.status_code
  Undelivered (raised (http connect_error)) = Unit {0}
  Undelivered (raised (http connect_timeout)) = Unit {0}
  Undelivered (raised (http pool_timeout)) = Unit {0}
  Undelivered (raised (http (http_status_error status))) = TurnedAway status
  Undelivered (raised e) = ⊥

  retryable-TurnedAway : (status : ℕ) → retryable_status status ≡ true → TurnedAway status
  retryable-TurnedAway status h = ground arith

  retryable-Undelivered : (x : Exception) → is_retryable x ≡ true → Undelivered (raised x)
  unfolding is_retryable
  retryable-Undelivered (http connect_error) k = tt
  retryable-Undelivered (http connect_timeout) k = tt
  retryable-Undelivered (http pool_timeout) k = tt
  retryable-Undelivered (http (http_status_error status)) k = retryable-TurnedAway status k
  retryable-Undelivered x k = absurd (ground arith)

  -- What the HTTP client does: one request is delivered at most once, and not at all when no
  -- connection was made or the answer is that it was turned away.
  pub record IsHonest (client : HttpClient W) : Type 0 where
    pub at_most : (p : Post) (w : W) → delivered (client.post p w).1 ≤ delivered w + 1
    pub nothing :
        (p : Post) (w : W)
        → Undelivered (client.post p w).0
        → delivered (client.post p w).1 ≡ delivered w
    pub attempts :
        (m : Exec W Response) (w : W) → Attempts is_retryable m w (client.retrying is_retryable m w)

  module _ (client : HttpClient W) (honest : IsHonest client) where
    status-Undelivered :
        (r : Result Response) (s : W) (e : Exception)
        → (continue r check_status s).0 ≡ raised e
        → is_retryable e ≡ true
        → Undelivered r
    unfolding check_status is_retryable
    status-Undelivered (ok response) s e h k =
        retryable-TurnedAway response.status_code (ground arith)
    status-Undelivered (raised x) s e h k = retryable-Undelivered x (ground arith)

    check-world : (r : Result Response) (s : W) → (continue r check_status s).1 ≡ s
    unfolding check_status
    check-world (ok response) s = ground arith
    check-world (raised x) s = refl

    send-DeliversOnce : (n : ℕ) (total : Money) → DeliversOnce is_retryable (send client n total)
    unfolding send
    send-DeliversOnce n total = record {
      at_most = λ w. rw check-world (honest.at_most _ w);
      nothing = λ w e h k. rw check-world (honest.nothing _ w (status-Undelivered _ _ e h k));
    }

    call-delivered :
        {A : Type 0} (m : Exec W A) (b : CircuitBreaker) (w : W)
        → delivered (m w).1 ≤ delivered w + 1
        → delivered (call client.clock m (b, w)).1.1 ≤ delivered w + 1
    unfolding call
    call-delivered m b w h = ground arith

    handled :
        {A B X : Type 0} (r : Result A) (f : A → Result B) (g : Exception → Exception) (s : X)
        → (handle r (λ a. lift (f a)) (λ e. raise (g e)) s).1 ≡ s
    handled (ok a) f g s = refl
    handled (raised e) f g s = refl

    -- With a client that delivers a request at most once, and not at all where no connection was
    -- made or the answer is 429 or 503, and with retries that go on only where `is_retryable`
    -- allows it: one call of `authorise` delivers at most one payment request, however often it
    -- is tried, whatever the breaker does.
    pub authorise-delivered :
        (n : ℕ) (total : Money) (b : CircuitBreaker) (w : W)
        → delivered (authorise client n total (b, w)).1.1 ≤ delivered w + 1
    unfolding authorise
    authorise-delivered n total b w =
        let m = client.retrying is_retryable (send client n total) in
        let c = call client.clock m (b, w) in
        rw (handled c.0 (read_answer client.text_of n) unanswered c.1) (
          call-delivered m b w (
            Attempts-delivered is_retryable (send client n total) (send-DeliversOnce n total)
              (honest.attempts (send client n total) w)))
