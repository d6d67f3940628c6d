-- ===== src/Infrastructure/Memory.antt =====
-- infrastructure/memory/: the adapters that hold everything in dicts of the process. `uuid4().hex` is
-- an argument.
use pyfr_m8_verify.Base.{
  ℕ, List, Text, [], lookup, Option, arith, insert, lookup-insert, codes, refl, ◌++◌, ◌≡◌, some,
}
use pyfr_m8_verify.Domain.Order.{Order, Money}
use pyfr_m8_verify.Domain.Ports.{
  OrderRepository, ReceiptStore, Bytes, Authorisation, new_authorisation,
}
use pyfr_m8_verify.Infrastructure.Cache.Laws.{RepositoryLaws}
use pyfr_m8_verify.Errors.Exec.{Exec}
use pyfr_m8_verify.Errors.{ok}

unfoldable pub get_order : ℕ → Exec (List (ℕ × Order)) (Option Order)
get_order order_id orders = (ok (lookup order_id orders), orders)

unfoldable pub save_order : Order → Exec (List (ℕ × Order)) (Unit {0})
save_order order orders = (ok tt, insert order.id order orders)

abbrev pub in_memory_order_repository : OrderRepository (List (ℕ × Order))
in_memory_order_repository = record { get = get_order; save = save_order }

unfoldable pub get_receipt : ℕ → Exec (List (ℕ × Bytes)) (Option Bytes)
get_receipt order_id receipts = (ok (lookup order_id receipts), receipts)

unfoldable pub put_receipt : ℕ → Bytes → Exec (List (ℕ × Bytes)) (Unit {0})
put_receipt order_id content receipts = (ok tt, insert order_id content receipts)

abbrev pub in_memory_receipt_store : ReceiptStore (List (ℕ × Bytes))
in_memory_receipt_store = record { get = get_receipt; put = put_receipt }

-- InMemoryOrderRepository.clear and InMemoryReceiptStore.clear
unfoldable pub clear : {V : Type 0} → List (ℕ × V) → List (ℕ × V)
clear m = []

module _ {S : Type 0} (fresh_hex : S → Text) where
  -- InMemoryPaymentGateway.authorise
  unfoldable pub authorise_all : ℕ → Money → Exec S Authorisation
  authorise_all order_id total s = (new_authorisation (codes "auth_" ++ fresh_hex s), s)

pub get_order-reads :
    (n : ℕ) (d : List (ℕ × Order)) (o : Option Order) → (get_order n d).0 ≡ ok o → o ≡ lookup n d
unfolding get_order
get_order-reads n d o h = ground arith

-- The dict is a repository: it gives back what was saved last under an identifier.
unfoldable pub in_memory_laws : RepositoryLaws in_memory_order_repository
unfolding get_order save_order
in_memory_laws = record {
  stored = λ orders n. lookup n orders;
  as_stored = λ o. some o;
  get_reads = get_order-reads;
  get_keeps = λ n d m. refl;
  save_stores = λ o d m h. lookup-insert o.id m o d;
  save_fails = λ o d m e h. cc;
}
