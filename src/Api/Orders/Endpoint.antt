-- ===== src/Api/Orders/Endpoint.antt =====
-- The route that places an order, with the answers to what it raises.
use pyfr_m8_verify.Api.Orders.{
  Success, created, order_found, receipt, place_order_route, OrderResponse,
}
use pyfr_m8_verify.Api.Errors.{Context, ProblemResponse, respond, exception}
use pyfr_m8_verify.Base.{
  ℕ, Text, ◌≡◌, ◌≢◌, codes, ◌++◌, arith, sym, ap, ◌∙◌, refl, map, subst, List,
}
use pyfr_m8_verify.Domain.Ports.{OrderRepository, PaymentGateway}
use pyfr_m8_verify.Errors.{Result, ok, raised, validation_error, Exception}
use pyfr_m8_verify.Api.Schemas.{PlaceOrderRequest}
use pyfr_m8_verify.Domain.Order.{Order, Money, OrderLine}
use pyfr_m8_verify.Api.Schemas.Mirrors.{IsValidRequest, as_line}
use pyfr_m8_verify.Services.PlaceOrder.{place_order}
use pyfr_m8_verify.Api.Orders.Mapping.{
  command_of, sum_subtotals, to_command-total, command_of-IsValidCommand, to_response-adds_up,
  Shows,
}
use pyfr_m8_verify.Errors.Exec.{continue}
use pyfr_m8_verify.Api.Errors.Answers.{status-validation, respond-status}
use pyfr_m8_verify.Services.PlaceOrder.Outcomes.{
  place_order-WasPlaced, place_order-ne_validation_error,
}
use pyfr_m8_verify.Services.PlaceOrder.Assembly.{order_line}

-- What a client receives.
pub data Answer : Type 0 where
  success : Success → Answer
  problem_answer : ProblemResponse → Answer

abbrev pub answer_of : Context → Result Success → Answer
answer_of request (ok s) = success s
answer_of request (raised e) = problem_answer (respond request (exception e))

abbrev pub status_code : Answer → ℕ
status_code (success (created location r)) = 201
status_code (success (order_found r)) = 200
status_code (success (receipt b)) = 200
status_code (problem_answer p) = p.problem.status

module _ {S : Type 0} (orders : OrderRepository S) (payments : PaymentGateway S)
    (uuid_text : ℕ → Text) where
  -- POST /api/v1/orders, from a validated request to the answer.
  abbrev pub post_order : Context → ℕ → PlaceOrderRequest → S → Answer
  post_order context fresh request s =
      answer_of context (place_order_route orders payments uuid_text fresh request s).0

  abbrev pub location : Order → Text
  location order = codes "/api/v1/orders/" ++ uuid_text order.id

  -- A validated request whose order was placed is answered 201 with that order: the location is under
  -- the order's identifier, and the body shows the identifier that was given, the customer of the
  -- request, every line of the request in its order, with price times quantity for its subtotal, and the
  -- total of the order, to which the subtotals sum.
  pub place_order_route-created :
      (n : ℕ) (request : PlaceOrderRequest) (s t : S) (o : Order)
      → IsValidRequest request
      → place_order orders payments n (command_of request) s ≡ (ok o, t)
      → (r : OrderResponse) × (place_order_route orders payments uuid_text n request s
          ≡ (ok (created (location o) r), t))
        × (sum_subtotals r.lines ≡ r.total.amount.hundredths)
        × (r.id ≡ n)
        × (r.customer_id ≡ request.customer_id)
        × (r.total.amount ≡ o.total.amount)
        × (r.total.currency ≡ o.total.currency)
        × Shows (map order_line (map as_line request.lines)) r.lines
  unfolding place_order_route
  place_order_route-created n request s t o v e =
      let w =
        place_order-WasPlaced orders payments n (command_of request) s t o
          (command_of-IsValidCommand request v) e in
      let (r, p, q, i, k, amount, currency, shown) = to_response-adds_up o w.is_valid.total in
      (
        r,
        rw (to_command-total request v, continue) (rw (e, continue) (rw (p, continue))),
        q,
        i ∙ w.identity,
        k ∙ w.customer,
        amount,
        currency,
        subst (λ (ls : List OrderLine). Shows ls r.lines) w.lines shown,
      )

  -- And where PlaceOrder raises, the route raises the same and has done no more.
  pub place_order_route-raised :
      (n : ℕ) (request : PlaceOrderRequest) (s t : S) (e : Exception)
      → IsValidRequest request
      → place_order orders payments n (command_of request) s ≡ (raised e, t)
      → place_order_route orders payments uuid_text n request s ≡ (raised e, t)
  unfolding place_order_route
  place_order_route-raised n request s t e v h =
      rw (to_command-total request v, continue) (rw (h, continue))

  status-ne :
      (context : Context) (e : Exception)
      → e ≢ validation_error
      → (respond context (exception e)).problem.status ≢ 422
  status-ne context e ne h =
      ne (status-validation context.breaker_reset_after e (sym (respond-status context e) ∙ h))

  ended :
      (n : ℕ) (request : PlaceOrderRequest) (s : S) (context : Context) (q : Result Order × S)
      → IsValidRequest request
      → place_order orders payments n (command_of request) s ≡ q
      → q.0 ≢ raised validation_error
      → status_code (post_order context n request s) ≢ 422
  ended n request s context (ok o, t) v e ne h =
      let x = place_order_route-created n request s t o v e in
      let p = x.1 in created-ne (location o) x.0 (rw p at h)
    where
      created-ne : (x : Text) (r : OrderResponse) → status_code (success (created x r)) ≢ 422
      created-ne x r k = omega arith
  ended n request s context (raised e, t) v p ne h =
      status-ne context e (λ k. ne (ap raised k))
        (rw (place_order_route-raised n request s t e v p) at h)

  -- A valid request is never answered 422 unless the gateway or the repository itself raises a
  -- ValidationError: after validation no failure is blamed on the caller's input.
  pub post_order-ne_422 :
      (n : ℕ) (request : PlaceOrderRequest) (s : S) (context : Context)
      → IsValidRequest request
      → ((total : Money) (u : S) → (payments.authorise n total u).0 ≢ raised validation_error)
      → ((o : Order) (u : S) → (orders.save o u).0 ≢ raised validation_error)
      → status_code (post_order context n request s) ≢ 422
  post_order-ne_422 n request s context v pay save =
      ended n request s context _ v refl
        (place_order-ne_validation_error orders payments n (command_of request) s pay save)
