-- ===== src/Api/Deps.antt =====
-- api/deps.py: what the routes get of the container that the lifespan built. A use case is known by the
-- adapters that it is constructed with.
use pyfr_m8_verify.Container.{Container, OrdersAdapter, PaymentsAdapter, ReceiptsAdapter}

pub record PlaceOrder : Type 0 where
  pub orders : OrdersAdapter
  pub payments : PaymentsAdapter

pub record GetOrder : Type 0 where
  pub orders : OrdersAdapter

pub record GetReceipt : Type 0 where
  pub orders : OrdersAdapter
  pub receipts : ReceiptsAdapter

abbrev pub get_orders : Container → OrdersAdapter
get_orders container = container.orders

abbrev pub get_payments : Container → PaymentsAdapter
get_payments container = container.payments

abbrev pub get_receipts : Container → ReceiptsAdapter
get_receipts container = container.receipts

abbrev pub get_place_order : Container → PlaceOrder
get_place_order container = record {
  orders = get_orders container;
  payments = get_payments container;
}

abbrev pub get_get_order : Container → GetOrder
get_get_order container = record { orders = get_orders container }

abbrev pub get_get_receipt : Container → GetReceipt
get_get_receipt container = record {
  orders = get_orders container;
  receipts = get_receipts container;
}
