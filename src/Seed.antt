-- ===== src/Seed.antt =====
-- seed.py: creating a fixed set of orders through the HTTP API. The HTTP client and the state file are
-- arguments; printing the table is not modelled.
pub mod Idempotent
pub mod Recorded
pub mod Rerun
use pyfr_m8_verify.Base.{
  Text, String, List, ℕ, Option, codes, ◌∷◌, Bool, [], ◌++◌, if◌then◌else◌, some, find, ◌==◌, none,
  true, assign, false,
}
use pyfr_m8_verify.Errors.Exec.{Exec, ◌>>=◌, ◌>>◌, pure, lift, raise}
use pyfr_m8_verify.Errors.{Result, seed_error}

pub record SeedLine : Type 0 where
  pub sku : Text
  pub quantity : ℕ
  pub unit_amount : Text
  pub currency : Text

pub record Payload : Type 0 where
  pub customer_id : Text
  pub lines : List SeedLine

abbrev seed_line : String → ℕ → String → String → SeedLine
seed_line sku quantity unit_amount currency = record {
  sku = codes sku;
  quantity = quantity;
  unit_amount = codes unit_amount;
  currency = codes currency;
}

abbrev seed_order : String → String → List SeedLine → Text × Payload
seed_order key customer lines = (codes key, record { customer_id = codes customer; lines = lines })

abbrev pub seed_orders : List (Text × Payload)
seed_orders =
    seed_order "espresso-beans" "0f1d2c3b-4a59-4e6f-8a7b-9c0d1e2f3a4b"
      (seed_line "beans-1kg" 2 "18.50" "EUR" ∷ [])
    ∷ seed_order "filter-papers" "0f1d2c3b-4a59-4e6f-8a7b-9c0d1e2f3a4b"
        (seed_line "filter-100" 3 "4.25" "EUR" ∷ [])
    ∷ seed_order "grinder" "7e6d5c4b-3a29-4180-9f8e-7d6c5b4a3928"
        (seed_line "grinder-pro" 1 "249.00" "EUR" ∷ [])
    ∷ seed_order "mixed-basket" "7e6d5c4b-3a29-4180-9f8e-7d6c5b4a3928"
        (seed_line "mug-ceramic" 4 "9.90" "EUR" ∷ seed_line "spoon-set" 1 "12.40" "EUR" ∷ [])
    ∷ seed_order "bulk-order" "c1b2a394-8576-4e6f-a0b1-c2d3e4f5a6b7"
        (seed_line "beans-1kg" 25 "18.50" "USD" ∷ [])
    ∷ []

pub record SeededOrder : Type 0 where
  pub key : Text
  pub order_id : Text
  pub total : Text
  pub created : Bool

-- An answer of the service, with what is read of its JSON body.
pub record Reply : Type 0 where
  pub status_code : ℕ
  pub id : Result Text
  pub total : Result Text

-- The client, and the `orders` of the state file: `none` where there is no file.
pub record SeedEnvironment (S : Type 0) : Type 0 where
  pub get : Text → Exec S Reply
  pub post : Text → Payload → Exec S Reply
  pub read_state : Exec S (Option (List (Text × Text)))
  pub write_state : List (Text × Text) → Exec S (Unit {0})

abbrev pub orders_path : Text
orders_path = codes "/api/v1/orders"

abbrev pub or_empty : Option (List (Text × Text)) → List (Text × Text)
or_empty none = []
or_empty (some known) = known

module _ {S : Type 0} (env : SeedEnvironment S) where
  abbrev pub order_path : Text → Text
  order_path order_id = orders_path ++ (b'/' ∷ order_id)

  unfoldable pub check_receipt : Reply → Exec S (Unit {0})
  check_receipt receipt = if receipt.status_code == 200 then pure tt else raise seed_error

  unfoldable pub ensure_receipt : Text → Exec S (Unit {0})
  unfolding check_receipt
  ensure_receipt order_id = do
    receipt ← env.get (order_path order_id ++ codes "/receipt")
    check_receipt receipt

  -- After `_save_state`.
  unfoldable pub finish :
      Text → Reply → Text → List (Text × Text) → Exec S (SeededOrder × List (Text × Text))
  finish key reply order_id known = do
    ensure_receipt order_id
    total ← lift reply.total
    pure (record { key = key; order_id = order_id; total = total; created = true }, known)

  unfoldable pub record_order :
      Text → List (Text × Text) → Reply → Exec S (SeededOrder × List (Text × Text))
  record_order key known reply = do
    order_id ← lift reply.id
    env.write_state (assign key order_id known)
    finish key reply order_id (assign key order_id known)

  unfoldable pub create :
      Text → Payload → List (Text × Text) → Exec S (SeededOrder × List (Text × Text))
  create key payload known = do
    reply ← env.post orders_path payload
    if reply.status_code == 201 then record_order key known reply else raise seed_error

  unfoldable pub report_existing :
      Text → Text → List (Text × Text) → Reply → Exec S (SeededOrder × List (Text × Text))
  report_existing key order_id known existing = do
    ensure_receipt order_id
    total ← lift existing.total
    pure (record { key = key; order_id = order_id; total = total; created = false }, known)

  unfoldable pub check_existing :
      Text → Payload → Text → List (Text × Text) → Reply → Exec S (SeededOrder × List (Text × Text))
  check_existing key payload order_id known existing =
      if existing.status_code == 200
      then report_existing key order_id known existing
      else if existing.status_code == 404
      then create key payload known
      else raise seed_error

  unfoldable pub seed_known :
      Text → Payload → List (Text × Text) → Option Text → Exec S (SeededOrder × List (Text × Text))
  seed_known key payload known none = create key payload known
  seed_known key payload known (some order_id) = do
    existing ← env.get (order_path order_id)
    check_existing key payload order_id known existing

  -- One round of the loop: what it reports, and `known` after it.
  unfoldable pub seed_one :
      List (Text × Text) → Text × Payload → Exec S (SeededOrder × List (Text × Text))
  seed_one known (key, payload) = seed_known key payload known (find key known)

  -- The rounds after one round.
  unfoldable pub and_rest :
      (List (Text × Text) → Exec S (List SeededOrder × List (Text × Text)))
      → SeededOrder × List (Text × Text)
      → Exec S (List SeededOrder × List (Text × Text))
  and_rest rest (one, known) = do more ← rest known; pure (one ∷ more.0, more.1)

  unfoldable pub seed_all :
      List (Text × Payload) → List (Text × Text) → Exec S (List SeededOrder × List (Text × Text))
  unfolding and_rest
  seed_all [] known = pure ([], known)
  seed_all (order ∷ rest) known = seed_one known order >>= and_rest (seed_all rest)

  unfoldable pub seed : Exec S (List SeededOrder)
  unfolding seed_all
  seed = do state ← env.read_state; done ← seed_all seed_orders (or_empty state); pure done.0
