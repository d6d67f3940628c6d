-- ===== src/Services/GetReceipt/Stored.antt =====
-- A receipt, once stored, is what is served.
use pyfr_m8_verify.Domain.Ports.{ReceiptStore, OrderRepository, Bytes}
use pyfr_m8_verify.Domain.Receipt.{Rendering, render_receipt}
use pyfr_m8_verify.Base.{ℕ, Option, ◌≡◌, some, ◌≢◌, ◌∙◌, none, sym, refl}
use pyfr_m8_verify.Errors.{ok, Result, raised, domain, order_not_found}
use pyfr_m8_verify.Errors.Exec.{continue, pure, ◌>>◌}
use pyfr_m8_verify.Services.GetReceipt.{serve, of_order, get_receipt}
use pyfr_m8_verify.Domain.Order.{Order}

-- What a receipt store promises, where `stored` is what it holds; a put that raises may or may not
-- have stored its content.
pub record ReceiptStoreLaws {S : Type 0} (receipts : ReceiptStore S) : Type 0 where
  pub stored : S → ℕ → Option Bytes
  pub get_reads : (n : ℕ) (s : S) (b : Option Bytes) → (receipts.get n s).0 ≡ ok b → b ≡ stored s n
  pub get_keeps : (n : ℕ) (s : S) (m : ℕ) → stored (receipts.get n s).1 m ≡ stored s m
  pub put_stores :
      (n : ℕ) (b : Bytes) (s : S)
      → (receipts.put n b s).0 ≡ ok tt
      → stored (receipts.put n b s).1 n ≡ some b
  pub put_keeps :
      (n : ℕ) (b : Bytes) (s : S) (m : ℕ) → m ≢ n → stored (receipts.put n b s).1 m ≡ stored s m

module _ {S : Type 0} (rendering : Rendering) (orders : OrderRepository S)
    (receipts : ReceiptStore S) (laws : ReceiptStoreLaws receipts)
    (apart : (n : ℕ) (s : S) (m : ℕ) → laws.stored (orders.get n s).1 m ≡ laws.stored s m) where
  -- A call that answered answered what is now stored.
  abbrev pub AnswersStored : ℕ → Result Bytes × S → Type 0
  AnswersStored n (ok b, s) = laws.stored s n ≡ some b
  AnswersStored n (raised e, s) = Unit

  put-AnswersStored :
      (n : ℕ) (c : Bytes) (q : Result (Unit {0}) × S)
      → (q.0 ≡ ok tt → laws.stored q.1 n ≡ some c)
      → AnswersStored n (continue q.0 (λ _. pure c) q.1)
  put-AnswersStored n c (ok x, s) h = h refl
  put-AnswersStored n c (raised e, s) h = tt

  render-AnswersStored :
      (n : ℕ) (r : Result Bytes) (s : S)
      → AnswersStored n (continue r (λ c. receipts.put n c >> pure c) s)
  render-AnswersStored n (ok c) s =
      put-AnswersStored n c (receipts.put n c s) (λ e. laws.put_stores n c s e)
  render-AnswersStored n (raised e) s = tt

  found-AnswersStored :
      (n : ℕ) (o : Order) (q : Result (Option Bytes) × S)
      → ((b : Option Bytes) → q.0 ≡ ok b → b ≡ laws.stored q.1 n)
      → AnswersStored n (continue q.0 (serve rendering orders receipts n o) q.1)
  unfolding serve
  found-AnswersStored n o (ok (some b), s) h = sym (h (some b) refl)
  found-AnswersStored n o (ok none, s) h = render-AnswersStored n (render_receipt rendering o) s
  found-AnswersStored n o (raised e, s) h = tt

  order-AnswersStored :
      (n : ℕ) (q : Result (Option Order) × S)
      → AnswersStored n (continue q.0 (of_order rendering orders receipts n) q.1)
  unfolding of_order
  order-AnswersStored n (ok (some o), s) =
      found-AnswersStored n o (receipts.get n s)
        (λ b e. laws.get_reads n s b e ∙ sym (laws.get_keeps n s n))
  order-AnswersStored n (ok none, s) = tt
  order-AnswersStored n (raised e, s) = tt

  -- Over a receipt store that keeps its promises, and orders apart from it: whenever GetReceipt
  -- answers, the bytes that it answers are then stored under the order.
  pub get_receipt-AnswersStored :
      (n : ℕ) (s : S) → AnswersStored n (get_receipt rendering orders receipts n s)
  unfolding get_receipt
  get_receipt-AnswersStored n s = order-AnswersStored n (orders.get n s)

  -- The receipt `b` is still there, and nothing else was answered.
  abbrev pub StillServes : ℕ → Bytes → Result Bytes × S → Type 0
  StillServes n b (ok c, s) = (c ≡ b) × (laws.stored s n ≡ some b)
  StillServes n b (raised e, s) = laws.stored s n ≡ some b

  found-StillServes :
      (n : ℕ) (o : Order) (b : Bytes) (q : Result (Option Bytes) × S)
      → laws.stored q.1 n ≡ some b
      → ((c : Option Bytes) → q.0 ≡ ok c → c ≡ laws.stored q.1 n)
      → StillServes n b (continue q.0 (serve rendering orders receipts n o) q.1)
  unfolding serve
  found-StillServes n o b (ok (some c), s) k h = (cc (h (some c) refl), k)
  found-StillServes n o b (ok none, s) k h = cc (h none refl)
  found-StillServes n o b (raised e, s) k h = k

  order-StillServes :
      (n : ℕ) (b : Bytes) (q : Result (Option Order) × S)
      → laws.stored q.1 n ≡ some b
      → StillServes n b (continue q.0 (of_order rendering orders receipts n) q.1)
  unfolding of_order
  order-StillServes n b (ok (some o), s) k =
      found-StillServes n o b (receipts.get n s) (laws.get_keeps n s n ∙ k)
        (λ c e. laws.get_reads n s c e ∙ sym (laws.get_keeps n s n))
  order-StillServes n b (ok none, s) k = k
  order-StillServes n b (raised e, s) k = k

  -- Over a receipt store that keeps its promises, and orders apart from it, a receipt that is
  -- stored is never replaced: GetReceipt answers those bytes or fails, whatever the order has
  -- become, and they stay stored.
  pub get_receipt-StillServes :
      (n : ℕ) (b : Bytes) (s : S)
      → laws.stored s n ≡ some b
      → StillServes n b (get_receipt rendering orders receipts n s)
  unfolding get_receipt
  get_receipt-StillServes n b s k = order-StillServes n b (orders.get n s) (apart n s n ∙ k)

module _ {S : Type 0} (rendering : Rendering) (orders : OrderRepository S)
    (receipts : ReceiptStore S) where
  -- For an order that does not exist the answer is OrderNotFoundError, and the receipt store is not
  -- asked: the world is as the look-up of the order left it.
  pub get_receipt-unknown :
      (n : ℕ) (s t : S)
      → orders.get n s ≡ (ok none, t)
      → get_receipt rendering orders receipts n s ≡ (raised (domain (order_not_found n)), t)
  unfolding get_receipt
  get_receipt-unknown n s t h = rw (h, of_order)
