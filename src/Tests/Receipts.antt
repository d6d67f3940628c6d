-- ===== src/Tests/Receipts.antt =====
-- services/receipt.py with the dicts of infrastructure/memory/.
use pyfr_m8_verify.Services.GetReceipt
use pyfr_m8_verify.Infrastructure.Memory.{get_receipt, put_receipt, in_memory_receipt_store}
use pyfr_m8_verify.Tests.Orders.{breakfast, breakfast-Matches}
use pyfr_m8_verify.Domain.Receipt.{Rendering, render_receipt}
use pyfr_m8_verify.Domain.Ports.{Bytes, OrderRepository}
use pyfr_m8_verify.Base.{
  ℕ, codes, List, ◌≡◌, Option, lookup, [], ◌∷◌, some, arith, lookup-insert, refl,
}
use pyfr_m8_verify.Services.GetReceipt.Stored.{
  ReceiptStoreLaws, StillServes, get_receipt-StillServes,
}
use pyfr_m8_verify.Errors.{ok}
use pyfr_m8_verify.Domain.Receipt.Allowlist.{render_receipt-total}

abbrev rendering : Rendering
rendering = record {
  uuid_text = λ n. codes "7";
  decimal_text = λ d. codes "9.90";
  dumps = λ j. codes "{}";
}

render_receipt-total_example : (b : Bytes) × (render_receipt rendering breakfast ≡ ok b)
render_receipt-total_example = render_receipt-total rendering breakfast breakfast-Matches

-- Every order is breakfast; the world is the dict of receipts.
abbrev menu : OrderRepository (List (ℕ × Bytes))
menu = record { get = λ n s. (ok (some breakfast), s); save = λ o s. (ok tt, s) }

get_receipt-reads :
    (n : ℕ) (s : List (ℕ × Bytes)) (b : Option Bytes) → (get_receipt n s).0 ≡ ok b → b ≡ lookup n s
unfolding get_receipt
get_receipt-reads n s b h = ground arith

in_memory_receipts : ReceiptStoreLaws in_memory_receipt_store
unfolding get_receipt put_receipt
in_memory_receipts = record {
  stored = λ s n. lookup n s;
  get_reads = get_receipt-reads;
  get_keeps = λ n s m. refl;
  put_stores = λ n b s h. ground (arith, lookup-insert n n b s);
  put_keeps = λ n b s m ne. ground (arith, lookup-insert n m b s);
}

get_receipt-StillServes_example :
    StillServes rendering menu in_memory_receipt_store in_memory_receipts
      (λ n s m. refl)
      7
      (codes "{old}")
      (pyfr_m8_verify.Services.GetReceipt.get_receipt rendering menu in_memory_receipt_store 7
        ((7, codes "{old}") ∷ []))
unfolding in_memory_receipts lookup
get_receipt-StillServes_example =
    get_receipt-StillServes rendering menu in_memory_receipt_store in_memory_receipts
      (λ n s m. refl) 7 (codes "{old}") ((7, codes "{old}") ∷ []) refl
