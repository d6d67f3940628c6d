-- ===== src/Services/GetReceipt.antt =====
-- services/receipt.py: serve a stored receipt, rendering it the first time.
pub mod Stored
use pyfr_m8_verify.Domain.Receipt.{Rendering, render_receipt}
use pyfr_m8_verify.Domain.Ports.{OrderRepository, ReceiptStore, Bytes}
use pyfr_m8_verify.Base.{ℕ, Option, some, none}
use pyfr_m8_verify.Domain.Order.{Order}
use pyfr_m8_verify.Errors.Exec.{Exec, ◌>>=◌, raise, lift, pure, ◌>>◌}
use pyfr_m8_verify.Errors.{domain, order_not_found}

module _ {S : Type 0} (rendering : Rendering) (orders : OrderRepository S)
    (receipts : ReceiptStore S) where
  render_and_put : ℕ → Order → Exec S Bytes
  render_and_put order_id order = do
    content ← lift (render_receipt rendering order)
    receipts.put order_id content
    pure content

  serve : ℕ → Order → Option Bytes → Exec S Bytes
  unfolding render_and_put
  serve order_id order (some stored) = pure stored
  serve order_id order none = render_and_put order_id order

  of_order : ℕ → Option Order → Exec S Bytes
  unfolding serve
  of_order order_id none = raise (domain (order_not_found order_id))
  of_order order_id (some order) = do stored ← receipts.get order_id; serve order_id order stored

  -- GetReceipt.__call__
  unfoldable pub get_receipt : ℕ → Exec S Bytes
  unfolding of_order
  get_receipt order_id = do order ← orders.get order_id; of_order order_id order
