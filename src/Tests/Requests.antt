-- ===== src/Tests/Requests.antt =====
-- The API at concrete inputs.
use pyfr_m8_verify.Settings.Numbers.{finite, one, positive}
use pyfr_m8_verify.Api.Middleware.{start, body, Scope, Sent}
use pyfr_m8_verify.Api.Schemas.{
  OrderLineIn, PlaceOrderRequest, new_request, lines_must_share_one_currency,
  total_must_fit_in_money, currencies_in, sum_amounts_in,
}
use pyfr_m8_verify.Services.Command.{check_amount, new_command, insert_currency}
use pyfr_m8_verify.Domain.Order.{
  sku_ok, amount_ok, quantity_ok, currency_ok, Order, add_decimal, mul_decimal,
}
use pyfr_m8_verify.Api.Errors.{Context, retry_after_seconds, ceil}
use pyfr_m8_verify.Base.{
  ℕ, codes, ◌∷◌, Text, map, ◌*◌, some, none, false, [], ◌≡◌, refl, ◌≢◌, ap, ◌^◌, true,
}
use pyfr_m8_verify.Api.Orders.{OrderResponse, place_order_route, created}
use pyfr_m8_verify.Api.Orders.Endpoint.{
  status_code, post_order, location, post_order-ne_422, place_order_route-created,
}
use pyfr_m8_verify.Api.Errors.Answers.{retry_after_seconds_bounds, IsTold}
use pyfr_m8_verify.Tests.Orders.{counting, eur, generous, tea_command, tea_command-IsValidCommand}
use pyfr_m8_verify.Api.Schemas.Mirrors.{
  as_line, IsValidLineIn, new_command-new_request, IsValidRequest,
}
use pyfr_m8_verify.Errors.{ok}
use pyfr_m8_verify.Api.Orders.Mapping.{sum_subtotals, Shows}
use pyfr_m8_verify.Services.PlaceOrder.Assembly.{order_of, order_line}
use pyfr_m8_verify.Errors.Exec.{Exec}
use pyfr_m8_verify.Services.PlaceOrder.Outcomes.{place_order-refines}

abbrev tea_in : OrderLineIn
tea_in = record {
  sku = codes "TEA";
  quantity = 3;
  unit_amount = record { negative = false; coefficient = 250; places = 2 };
  currency = eur;
}

abbrev tea_request : PlaceOrderRequest
tea_request = record { customer_id = 1; lines = tea_in ∷ [] }

tea_in-checked : check_amount tea_in.unit_amount ≡ some (record { hundredths = 250; places = 2 })
unfolding check_amount amount_ok
tea_in-checked = refl

tea_in-IsValidLineIn : IsValidLineIn tea_in
unfolding sku_ok quantity_ok currency_ok
tea_in-IsValidLineIn = record {
  sku = refl;
  quantity = refl;
  amount = tea_in-checked;
  currency = refl;
}

tea_request-IsValidRequest : IsValidRequest tea_request
unfolding new_request lines_must_share_one_currency total_must_fit_in_money currencies_in
    insert_currency sum_amounts_in add_decimal mul_decimal
tea_request-IsValidRequest = record { lines = (tea_in-IsValidLineIn, tt); accepted = refl }

abbrev context : Context
context = record {
  path = codes "/api/v1/orders";
  correlation_id = none;
  breaker_reset_after = some (finite (61 * 2 ^ 1073));
  uuid_text = λ n. codes "7";
  validation_errors = codes "bad";
}

abbrev uuid_text : ℕ → Text
uuid_text n = codes "7"

place_order_route-created_example :
    (r : OrderResponse) × (place_order_route counting generous uuid_text 7 tea_request 0 ≡ (
      ok (
          created
            (location counting generous uuid_text
              (order_of 7 tea_command (record { id = codes "auth_1" })))
            r),
      1,
    ))
    × (sum_subtotals r.lines ≡ r.total.amount.hundredths)
    × (r.id ≡ 7)
    × (r.customer_id ≡ 1)
    × (r.total.amount ≡ (order_of 7 tea_command (record { id = codes "auth_1" })).total.amount)
    × (r.total.currency ≡ eur)
    × Shows (map order_line (map as_line (tea_in ∷ []))) r.lines
place_order_route-created_example =
    place_order_route-created counting generous uuid_text 7 tea_request 0 1
      (order_of 7 tea_command (record { id = codes "auth_1" })) tea_request-IsValidRequest
      (ap (λ (m : Exec ℕ Order). m 0)
        (place_order-refines counting generous 7 tea_command tea_command-IsValidCommand))

post_order-ne_422_example :
    status_code (post_order counting generous uuid_text context 7 tea_request 0) ≢ 422
post_order-ne_422_example =
    post_order-ne_422 counting generous uuid_text 7 tea_request 0 context tea_request-IsValidRequest
      (λ t u e. cc) (λ o u e. cc)

new_command-new_request_example :
    new_command (record { customer_id = 1; lines = map as_line (tea_in ∷ []) })
    ≡ ok (record { customer_id = 1; lines = map as_line (tea_in ∷ []) })
new_command-new_request_example =
    new_command-new_request tea_request tea_request-IsValidRequest.accepted

abbrev window : ℕ
window = 61 * 2 ^ 1073

window-positive : positive (finite window) ≡ true
window-positive = refl

retry_after_seconds_bounds_example : IsTold context (finite window)
retry_after_seconds_bounds_example =
    retry_after_seconds_bounds context (finite window) refl window-positive

-- 30.5 s are rounded up.
retry_after_test : retry_after_seconds context ≡ ok 31
unfolding retry_after_seconds ceil one
retry_after_test = refl

abbrev scope : Scope
scope = record {
  route = none;
  path = codes "/";
  path_params = [];
  method = codes "GET";
  request_id = some (codes "abc");
}

abbrev sent : Sent
sent = record { messages = start 200 none ∷ body (codes "{}") ∷ []; outcome = ok tt }
