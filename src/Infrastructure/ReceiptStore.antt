-- ===== src/Infrastructure/ReceiptStore.antt =====
-- infrastructure/storage/receipt_store.py: receipts in an S3-compatible store. The S3 client and `str`
-- of a UUID are arguments.
pub mod Laws
use pyfr_m8_verify.Base.{
  Text, ℕ, codes, Bool, ◌++◌, text_eq, Option, ◌||◌, if◌then◌else◌, some, none,
}
use pyfr_m8_verify.Errors.{
  Exception, Result, client_error, infrastructure, storage_unavailable, ok, boto_core_error, raised,
}
use pyfr_m8_verify.Errors.Exec.{Exec, try_with, pure, raise, lift}
use pyfr_m8_verify.Domain.Ports.{Bytes, ReceiptStore}

abbrev pub key_prefix : Text
key_prefix = codes "receipts/v1/"

pub record S3 (W : Type 0) : Type 0 where
  pub get_object : (key : Text) → Exec W Bytes
  pub put_object : (key : Text) → (body : Bytes) → (content_type : Text) → Exec W (Unit {0})

-- The codes that mean "not there".
abbrev pub is_absent : Text → Bool
is_absent code = text_eq code (codes "NoSuchKey") || text_eq code (codes "404")

-- The `except` clauses of `get`.
unfoldable pub get_failed : Exception → Result (Option Bytes)
get_failed (client_error code) =
    if is_absent code then ok none else raised (infrastructure storage_unavailable)
get_failed boto_core_error = raised (infrastructure storage_unavailable)
get_failed e = raised e

-- The `except` clause of `put`.
unfoldable pub put_failed : Exception → Exception
put_failed (client_error code) = infrastructure storage_unavailable
put_failed boto_core_error = infrastructure storage_unavailable
put_failed e = e

module _ {W : Type 0} (s3 : S3 W) (uuid_text : ℕ → Text) where
  unfoldable pub receipt_key : ℕ → Text
  receipt_key order_id = key_prefix ++ (uuid_text order_id ++ codes ".json")

  -- S3ReceiptStore.get
  unfoldable pub get : ℕ → Exec W (Option Bytes)
  unfolding receipt_key get_failed
  get order_id =
      try_with (s3.get_object (receipt_key order_id)) (λ body. pure (some body))
        (λ e. lift (get_failed e))

  -- S3ReceiptStore.put
  unfoldable pub put : ℕ → Bytes → Exec W (Unit {0})
  unfolding receipt_key put_failed
  put order_id content =
      try_with (s3.put_object (receipt_key order_id) content (codes "application/json"))
        (λ x. pure x) (λ e. raise (put_failed e))

  abbrev pub s3_receipt_store : ReceiptStore W
  s3_receipt_store = record { get = get; put = put }
