-- ===== src/Infrastructure/ReceiptStore/Laws.antt =====
-- The store is a receipt store, and an outage is not taken for an empty bucket.
use mathlib.Core.List.{append_cancel_right}
use pyfr_m8_verify.Infrastructure.ReceiptStore.{
  S3, get_failed, is_absent, get, receipt_key, put, s3_receipt_store, put_failed, key_prefix,
}
use pyfr_m8_verify.Base.{
  Text, Option, ◌++◌, ℕ, ◌≡◌, some, true, none, ◌≢◌, arith, sym, ◌∙◌, codes, refl, ap,
  append-cancel_left,
}
use pyfr_m8_verify.Domain.Ports.{Bytes}
use pyfr_m8_verify.Errors.{ok, client_error, Result, raised, Exception, boto_core_error}
use pyfr_m8_verify.Errors.Exec.{handle, pure, lift, raise}
use pyfr_m8_verify.Services.GetReceipt.Stored.{ReceiptStoreLaws}

-- What S3 promises, where `objects` is what the bucket holds. A put that fails may have stored.
pub record S3Laws {W : Type 0} (s3 : S3 W) : Type 0 where
  pub objects : W → Text → Option Bytes
  pub get_found :
      (k : Text) (w : W) (b : Bytes) → (s3.get_object k w).0 ≡ ok b → objects w k ≡ some b
  pub get_absent :
      (k : Text) (w : W) (code : Text)
      → (s3.get_object k w).0 ≡ raised (client_error code)
      → is_absent code ≡ true
      → objects w k ≡ none
  pub get_keeps : (k : Text) (w : W) (j : Text) → objects (s3.get_object k w).1 j ≡ objects w j
  pub put_stores :
      (k : Text) (b : Bytes) (c : Text) (w : W)
      → (s3.put_object k b c w).0 ≡ ok tt
      → objects (s3.put_object k b c w).1 k ≡ some b
  pub put_keeps :
      (k : Text) (b : Bytes) (c : Text) (w : W) (j : Text)
      → j ≢ k
      → objects (s3.put_object k b c w).1 j ≡ objects w j

get_failed-ok :
    (x : Exception) (b : Option Bytes)
    → get_failed x ≡ ok b
    → (code : Text) × (x ≡ client_error code) × (is_absent code ≡ true) × (b ≡ none)
unfolding get_failed
get_failed-ok (client_error code) b h = (code, refl, ground arith, ground arith)
get_failed-ok boto_core_error b h = cc
get_failed-ok _ b h = cc

module _ {W : Type 0} (s3 : S3 W) (uuid_text : ℕ → Text) (laws : S3Laws s3) where
  read :
      (k : Text) (w u : W) (b : Option Bytes) (r : Result Bytes)
      → (s3.get_object k w).0 ≡ r
      → (handle r (λ body. pure (some body)) (λ e. lift (get_failed e)) u).0 ≡ ok b
      → b ≡ laws.objects w k
  read k w u b (ok body) e h = sym (laws.get_found k w body e ∙ ground arith)
  read k w u b (raised x) e h =
      let (code, p, a, q) = get_failed-ok x b h in
      q ∙ sym (laws.get_absent k w code (e ∙ ap raised p) a)

  -- What `get` answers is what the bucket holds under the order's key: it answers "no receipt" only
  -- when there is none, never because the bucket or the network failed.
  pub get-objects :
      (n : ℕ) (w : W) (b : Option Bytes)
      → (get s3 uuid_text n w).0 ≡ ok b
      → b ≡ laws.objects w (receipt_key s3 uuid_text n)
  unfolding get
  get-objects n w b h = read (receipt_key s3 uuid_text n) w _ b _ refl h

  handled :
      {A B : Type 0} (r : Result A) (f : A → Result B) (g : Exception → Result B) (u : W)
      → (handle r (λ a. lift (f a)) (λ e. lift (g e)) u).1 ≡ u
  handled (ok a) f g u = refl
  handled (raised e) f g u = refl

  receipt_key-injective :
      ((n m : ℕ) → uuid_text n ≡ uuid_text m → n ≡ m)
      → (n m : ℕ) → receipt_key s3 uuid_text n ≡ receipt_key s3 uuid_text m
      → n ≡ m
  unfolding receipt_key
  receipt_key-injective distinct n m h = distinct n m (
      append_cancel_right _ _ (codes ".json") (
        append-cancel_left key_prefix (uuid_text n ++ codes ".json") (uuid_text m ++ codes ".json")
          h))

  put-ok :
      (n : ℕ) (b : Bytes) (w : W)
      → (put s3 uuid_text n b w).0 ≡ ok tt
      → (s3.put_object (receipt_key s3 uuid_text n) b (codes "application/json") w).0 ≡ ok tt
  unfolding put
  put-ok n b w h = put_result _ _ h
    where
      put_result :
          (r : Result (Unit {0})) (u : W)
          → (handle r (λ x. pure x) (λ e. raise (put_failed e)) u).0 ≡ ok tt
          → r ≡ ok tt
      put_result (ok x) u k = refl
      put_result (raised e) u k = cc

  -- With identifiers that are written apart, the adapter keeps every promise of a receipt store.
  pub s3_receipt_store_laws :
      ((n m : ℕ) → uuid_text n ≡ uuid_text m → n ≡ m)
      → ReceiptStoreLaws (s3_receipt_store s3 uuid_text)
  s3_receipt_store_laws distinct = record {
    stored = λ w n. laws.objects w (receipt_key s3 uuid_text n);
    get_reads = get-objects;
    get_keeps = λ n w m.
        unfold get in rw (handled _ (λ body. ok (some body)) get_failed _) (laws.get_keeps _ w _);
    put_stores = λ n b w h.
        unfold put in
        rw (handled _ (λ x. ok x) (λ e. raised (put_failed e)) _)
          (laws.put_stores _ b _ w (unfold put in put-ok n b w h));
    put_keeps = λ n b w m ne.
        unfold put in
        rw (handled _ (λ x. ok x) (λ e. raised (put_failed e)) _)
          (laws.put_keeps _ b _ w _ (λ e. ne (receipt_key-injective distinct m n e)));
  }
