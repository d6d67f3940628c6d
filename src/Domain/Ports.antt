-- ===== src/Domain/Ports.antt =====
-- domain/repositories.py, domain/payments.py and domain/receipts.py: what the services need of the
-- outside world `S`. A port is a record of calls; an adapter is a value of it.
pub mod Stripped
use pyfr_m8_verify.Base.{
  ℕ, Bool, ◌&&◌, ◌||◌, Option, List, [], ◌∷◌, reverse, leb, ◌==◌, length, if◌then◌else◌, Text,
}
use pyfr_m8_verify.Errors.{validation_error, Result, ok, raised}
use pyfr_m8_verify.Errors.Exec.{Exec}
use pyfr_m8_verify.Domain.Order.{Money, Order}

pub record OrderRepository (S : Type 0) : Type 0 where
  pub get : ℕ → Exec S (Option Order)
  pub save : Order → Exec S (Unit {0})

pub record Authorisation : Type 0 where
  pub id : Text

-- The white space that `strip_whitespace` takes off.
abbrev pub is_space : ℕ → Bool
is_space c =
    (leb 9 c && leb c 13)
    || (c == 32)
    || (c == 133)
    || (c == 160)
    || (c == 5760)
    || (leb 8192 c && leb c 8202)
    || (c == 8232)
    || (c == 8233)
    || (c == 8239)
    || (c == 8287)
    || (c == 12288)

unfoldable pub strip_left : Text → Text
strip_left [] = []
strip_left (c ∷ cs) = let rest = strip_left cs in if is_space c then rest else c ∷ cs

unfoldable pub strip : Text → Text
unfolding strip_left
strip t = reverse (strip_left (reverse (strip_left t)))

unfoldable pub new_authorisation : Text → Result Authorisation
new_authorisation id =
    if leb 1 (length (strip id)) then ok (record { id = strip id }) else raised validation_error

pub record PaymentGateway (S : Type 0) : Type 0 where
  pub authorise : (order_id : ℕ) → (total : Money) → Exec S Authorisation

-- A receipt is an opaque string of bytes; `none` means that none has been stored.
abbrev pub Bytes : Type 0
Bytes = List ℕ

pub record ReceiptStore (S : Type 0) : Type 0 where
  pub get : ℕ → Exec S (Option Bytes)
  pub put : ℕ → Bytes → Exec S (Unit {0})
