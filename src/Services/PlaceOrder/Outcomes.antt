-- ===== src/Services/PlaceOrder/Outcomes.antt =====
-- What PlaceOrder does, whatever the repository and the gateway do.
use mathlib.Core.Path.{fun_ext}
use pyfr_m8_verify.Base.{ℕ, ◌≡◌, refl, some, arith, sym, ap, ◌≢◌, ◌∙◌, map}
use pyfr_m8_verify.Errors.{Result, ok, raised, Exception, validation_error}
use pyfr_m8_verify.Errors.Exec.{continue-ne_raised, Exec, pure, ◌>>=◌, ◌>>◌, continue, lift}
use pyfr_m8_verify.Domain.Order.{Order, Money}
use pyfr_m8_verify.Domain.Order.Valid.{IsValidOrder}
use pyfr_m8_verify.Domain.Ports.{OrderRepository, PaymentGateway, Authorisation}
use pyfr_m8_verify.Services.Command.{PlaceOrderCommand}
use pyfr_m8_verify.Services.PlaceOrder.{
  authorised_order, place_order, as_defect, defects, assemble, Priced,
}
use pyfr_m8_verify.Services.PlaceOrder.Assembly.{
  IsValidCommand, price, priced_of, order_of, assemble-ok, authorised_order-ok,
  order_of-IsValidOrder, order_line,
}

as_defect-ne : (e : Exception) → as_defect e ≢ validation_error
unfolding as_defect
as_defect-ne e h = ground arith

defects-ne : {A : Type 0} (r : Result A) → defects r ≢ raised validation_error
unfolding defects
defects-ne (ok a) h = cc
defects-ne (raised e) h = as_defect-ne e (ground arith)

assemble-ne : (c : PlaceOrderCommand) → assemble c ≢ raised validation_error
unfolding assemble
assemble-ne c = defects-ne _

authorised_order-ne :
    (n : ℕ) (c : PlaceOrderCommand) (p : Priced) (a : Authorisation)
    → authorised_order n c p a ≢ raised validation_error
unfolding authorised_order
authorised_order-ne n c p a = defects-ne _

module _ {S : Type 0} (orders : OrderRepository S) (payments : PaymentGateway S) where
  -- The use case as one would specify it: authorise the price, save the order, return it.
  abbrev pub authorise_then_save : ℕ → PlaceOrderCommand → Exec S Order
  authorise_then_save n c = do
    a ← payments.authorise n (price c.lines)
    orders.save (order_of n c a)
    pure (order_of n c a)

  after_payment :
      (n : ℕ) (c : PlaceOrderCommand)
      → IsValidCommand c
      → (r : Result Authorisation) (s : S)
      → continue r
          (λ a. lift (authorised_order n c (priced_of c) a) >>= λ o. orders.save o >> pure o)
          s
        ≡ continue r (λ a. orders.save (order_of n c a) >> pure (order_of n c a)) s
  after_payment n c v (ok a) s = rw (authorised_order-ok n c a v)
  after_payment n c v (raised e) s = refl

  -- On a valid command PlaceOrder authorises the price of the command, then saves the order that
  -- the command stands for, carrying the authorisation, then returns it; it fails only where one
  -- of the two calls fails, with that exception, and a failed authorisation saves nothing.
  pub place_order-refines :
      (n : ℕ) (c : PlaceOrderCommand)
      → IsValidCommand c
      → place_order orders payments n c ≡ authorise_then_save n c
  unfolding place_order
  place_order-refines n c v = fun_ext λ s. rw (assemble-ok c v) (
      after_payment n c v (payments.authorise n (price c.lines) s).0
        (payments.authorise n (price c.lines) s).1)

  -- What holds of an order that PlaceOrder returned from `s`, leaving `t`.
  pub record WasPlaced (n : ℕ) (c : PlaceOrderCommand) (s t : S) (o : Order) : Type 0 where
    pub is_valid : IsValidOrder o
    pub authorisation : Authorisation
    pub paid : S
    pub authorised : payments.authorise n o.total s ≡ (ok authorisation, paid)
    pub carries : o.authorisation_id ≡ some authorisation.id
    pub saved : orders.save o paid ≡ (ok tt, t)
    pub identity : o.id ≡ n
    pub customer : o.customer_id ≡ c.customer_id
    pub lines : o.lines ≡ map order_line c.lines

  save-inv :
      (o p : Order) (q : Result (Unit {0}) × S) (t : S)
      → continue q.0 (λ _. pure o) q.1 ≡ (ok p, t)
      → (q ≡ (ok tt, t)) × (p ≡ o)
  save-inv o p (ok x, u) t h = (ground arith, ground arith)
  save-inv o p (raised e, u) t h = cc

  placed :
      (n : ℕ) (c : PlaceOrderCommand) (s t : S) (o : Order)
      → IsValidCommand c
      → (p : Result Authorisation × S) → payments.authorise n (price c.lines) s ≡ p
      → continue p.0 (λ a. orders.save (order_of n c a) >> pure (order_of n c a)) p.1 ≡ (ok o, t)
      → WasPlaced n c s t o
  placed n c s t o v (raised e, u) k h = cc
  placed n c s t o v (ok a, u) k h =
      let i = save-inv (order_of n c a) o (orders.save (order_of n c a) u) t h in
      rw i.1 (record {
        is_valid = order_of-IsValidOrder n c a v;
        authorisation = a;
        paid = u;
        authorised = k;
        carries = refl;
        saved = i.0;
        identity = refl;
        customer = refl;
        lines = refl;
      })

  -- An order that PlaceOrder returns for a valid command is a valid order under the fresh
  -- identifier, whose own total was authorised before it was saved, and which carries that
  -- authorisation.
  pub place_order-WasPlaced :
      (n : ℕ) (c : PlaceOrderCommand) (s t : S) (o : Order)
      → IsValidCommand c
      → place_order orders payments n c s ≡ (ok o, t)
      → WasPlaced n c s t o
  place_order-WasPlaced n c s t o v h =
      placed n c s t o v _ refl
        (sym (ap (λ (m : Exec S Order). m s) (place_order-refines n c v)) ∙ h)

  -- Whatever the command, a ValidationError comes out of PlaceOrder only if the gateway or the
  -- repository raised it: the caller is not blamed for how the order was assembled.
  pub place_order-ne_validation_error :
      (n : ℕ) (c : PlaceOrderCommand) (s : S)
      → ((total : Money) (u : S) → (payments.authorise n total u).0 ≢ raised validation_error)
      → ((o : Order) (u : S) → (orders.save o u).0 ≢ raised validation_error)
      → (place_order orders payments n c s).0 ≢ raised validation_error
  unfolding place_order
  place_order-ne_validation_error n c s pay save = continue-ne_raised _ _ _ s (assemble-ne c) λ p t.
      continue-ne_raised _ _ _ _ (pay p.total t) λ a u.
        continue-ne_raised _ _ _ u (authorised_order-ne n c p a)
          λ o v. continue-ne_raised _ _ _ _ (save o v) λ _ w e. cc
