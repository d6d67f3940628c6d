-- ===== src/Infrastructure/PaymentGateway/Answers.antt =====
-- What a caller of the gateway can be told.
use pyfr_m8_verify.Base.{ℕ, ◌≡◌, refl, none, arith, Bool}
use pyfr_m8_verify.Errors.{Result, ok, raised}
use pyfr_m8_verify.Errors.Exec.{Exec, handle, lift, raise}
use pyfr_m8_verify.Json.{Json}
use pyfr_m8_verify.Infrastructure.PaymentGateway.{
  read_answer, Response, unanswered, HttpClient, authorise, is_retryable, send,
}
use pyfr_m8_verify.Infrastructure.Breaker.{call, CircuitBreaker, enter, leave}
use pyfr_m8_verify.Domain.Order.{Money}
use pyfr_m8_verify.Infrastructure.PaymentGateway.Reading.{IsBody, IsTransport}

abbrev pub Expected : Result Response → Type 0
Expected (ok response) = IsBody response.body
Expected (raised e) = IsTransport e

call_ok :
    {W A : Type 0} (clock : W → ℕ) (operation : Exec W A) (b : CircuitBreaker) (w : W) (p : Bool)
    (a : A)
    → (enter b (clock w)).0 ≡ ok p
    → (operation w).0 ≡ ok a
    → ((call clock operation (b, w)).1.0.opened_at ≡ none)
      × ((call clock operation (b, w)).1.0.consecutive_failures ≡ 0)
unfolding call leave
call_ok clock operation b w p a e k = ground arith

module _ {W : Type 0} (client : HttpClient W) where
  answered :
      (n : ℕ) (r : Result Response) (s : CircuitBreaker × W)
      → (handle r
          (λ response. lift (read_answer client.text_of n response))
          (λ e. raise (unanswered e))
          s).1
        ≡ s
  answered n (ok response) s = refl
  answered n (raised e) s = refl

  -- When the breaker admits the call and the attempts end in a response, the breaker is closed
  -- and its count cleared, whatever the response says: neither a decline nor an unreadable
  -- answer counts as a failure of the provider.
  pub authorise_answer_closes :
      (n : ℕ) (total : Money) (b : CircuitBreaker) (w : W) (p : Bool) (response : Response)
      → (enter b (client.clock w)).0 ≡ ok p
      → (client.retrying is_retryable (send client n total) w).0 ≡ ok response
      → ((authorise client n total (b, w)).1.0.opened_at ≡ none)
        × ((authorise client n total (b, w)).1.0.consecutive_failures ≡ 0)
  unfolding authorise
  authorise_answer_closes n total b w p response e k =
      let operation = client.retrying is_retryable (send client n total) in
      let c = call client.clock operation (b, w) in
      rw (answered n c.0 c.1) (call_ok client.clock operation b w p response e k)
