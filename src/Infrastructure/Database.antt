-- ===== src/Infrastructure/Database.antt =====
-- infrastructure/db/: the rows of models.py, the mappers, and the PostgreSQL repository. The session
-- (SQLAlchemy over PostgreSQL) is an argument.
pub mod RoundTrip
pub mod Repository
pub mod Reading
pub mod Adapter
use pyfr_m8_verify.Base.{ℕ, List, Text, Option, ◌∷◌, codes, ◌+◌, [], ◌++◌, some, none}
use pyfr_m8_verify.Domain.Order.{Order, Decimal, OrderLine, new_money, new_order_line, new_order}
use pyfr_m8_verify.Errors.{
  Result, DriverError, Exception, infrastructure, integrity_error, ok, corrupt_persisted_data,
  storage_constraint_violated, validation_error, raised,
}
use pyfr_m8_verify.Domain.Ports.{OrderRepository}
use pyfr_m8_verify.Errors.Exec.{bind_result, Exec, pure, ◌>>=◌, ◌>>◌, try_with, raise, lift}

pub record OrderRow : Type 0 where
  pub id : ℕ
  pub customer_id : ℕ
  pub total_amount : Decimal
  pub total_currency : Text
  pub internal_note : Option Text
  pub authorisation_id : Option Text

pub record OrderLineRow : Type 0 where
  pub order_id : ℕ
  pub line_number : ℕ
  pub sku : Text
  pub quantity : ℕ
  pub unit_amount : Decimal
  pub unit_currency : Text

unfoldable pub order_values : Order → OrderRow
order_values order = record {
  id = order.id;
  customer_id = order.customer_id;
  total_amount = order.total.amount;
  total_currency = order.total.currency;
  internal_note = order.internal_note;
  authorisation_id = order.authorisation_id;
}

-- The comprehension over `enumerate(order.lines)`, from a line number on.
unfoldable pub number_lines : ℕ → ℕ → List OrderLine → List OrderLineRow
number_lines order_id line_number [] = []
number_lines order_id line_number (line ∷ rest) =
    record {
      order_id = order_id;
      line_number = line_number;
      sku = line.sku;
      quantity = line.quantity;
      unit_amount = line.unit_price.amount;
      unit_currency = line.unit_price.currency;
    }
    ∷ number_lines order_id (line_number + 1) rest

unfoldable pub line_values : Order → List OrderLineRow
unfolding number_lines
line_values order = number_lines order.id 0 order.lines

unfoldable pub line_to_domain : OrderLineRow → Result OrderLine
line_to_domain line =
    bind_result (new_money line.unit_amount line.unit_currency)
      λ unit_price. new_order_line line.sku line.quantity unit_price

unfoldable pub lines_to_domain : List OrderLineRow → Result (List OrderLine)
unfolding line_to_domain
lines_to_domain [] = ok []
lines_to_domain (line ∷ rest) =
    bind_result (line_to_domain line) λ l. bind_result (lines_to_domain rest) λ ls. ok (l ∷ ls)

unfoldable pub to_domain : OrderRow → List OrderLineRow → Result Order
unfolding lines_to_domain
to_domain row lines = bind_result (lines_to_domain lines) λ ls.
    bind_result (new_money row.total_amount row.total_currency) λ total. new_order (record {
      id = row.id;
      customer_id = row.customer_id;
      lines = ls;
      total = total;
      internal_note = row.internal_note;
      authorisation_id = row.authorisation_id;
    })

-- One field of _SAFE_ERROR_FIELDS, left out where it is missing or empty.
described : Text → Option Text → List Text
described name none = []
described name (some []) = []
described name (some (c ∷ cs)) = (name ++ (codes "=" ++ (c ∷ cs))) ∷ []

-- ", ".join
join : List Text → Text
join [] = []
join (t ∷ []) = t
join (t ∷ u ∷ ts) = t ++ (codes ", " ++ join (u ∷ ts))

or_default : List Text → Text
unfolding join
or_default [] = codes "no constraint metadata available"
or_default (t ∷ ts) = join (t ∷ ts)

unfoldable pub constraint_summary : DriverError → Text
unfolding described or_default
constraint_summary exc = or_default (
    described (codes "sqlstate") exc.sqlstate
    ++ (described (codes "table_name") exc.table_name
        ++ described (codes "constraint_name") exc.constraint_name))

-- The statements of one session. `transaction` is `session.begin()`; `select_lines` has its ORDER BY.
pub record Session (D : Type 0) : Type 0 where
  pub select_order : ℕ → Exec D (Option OrderRow)
  pub select_lines : ℕ → Exec D (List OrderLineRow)
  pub upsert_order : OrderRow → Exec D (Unit {0})
  pub delete_lines : ℕ → Exec D (Unit {0})
  pub insert_lines : List OrderLineRow → Exec D (Unit {0})
  pub transaction : Exec D (Unit {0}) → Exec D (Unit {0})

-- except PydanticValidationError
unfoldable pub as_corrupt : ℕ → Exception → Exception
as_corrupt order_id validation_error = infrastructure (corrupt_persisted_data order_id)
as_corrupt order_id e = e

unfoldable pub corrupt_or : ℕ → Result Order → Result (Option Order)
unfolding as_corrupt
corrupt_or order_id (ok order) = ok (some order)
corrupt_or order_id (raised e) = raised (as_corrupt order_id e)

-- except IntegrityError
unfoldable pub as_violation : Exception → Exception
as_violation (integrity_error exc) =
    infrastructure (storage_constraint_violated (constraint_summary exc))
as_violation e = e

module _ {D : Type 0} (session : Session D) where
  unfoldable pub load : ℕ → Option OrderRow → Exec D (Option Order)
  unfolding corrupt_or
  load order_id none = pure none
  load order_id (some row) = do
    lines ← session.select_lines order_id
    lift (corrupt_or order_id (to_domain row lines))

  -- PostgresOrderRepository.get
  unfoldable pub get : ℕ → Exec D (Option Order)
  unfolding load
  get order_id = do row ← session.select_order order_id; load order_id row

  unfoldable pub replace : Order → Exec D (Unit {0})
  replace order = do
    session.upsert_order (order_values order)
    session.delete_lines order.id
    session.insert_lines (line_values order)

  -- PostgresOrderRepository.save
  unfoldable pub save : Order → Exec D (Unit {0})
  unfolding replace as_violation
  save order =
      try_with (session.transaction (replace order)) (λ x. pure x) (λ e. raise (as_violation e))

  abbrev pub postgres_order_repository : OrderRepository D
  postgres_order_repository = record { get = get; save = save }
