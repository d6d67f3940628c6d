-- ===== src/Errors/Exec.antt =====
-- Python calls that act on a world `S`: the world comes back beside the result or the exception.
use pyfr_m8_verify.Base.{◌≡◌, refl, ◌⊎◌, inl, inr, ◌≢◌, arith}
use pyfr_m8_verify.Errors.{Exception, Result, ok, raised}

abbrev pub Exec : Type 0 → Type 0 → Type 0
Exec S A = S → Result A × S

module _ {S A : Type 0} where
  abbrev pub pure : A → Exec S A
  pure a s = (ok a, s)

  abbrev pub raise : Exception → Exec S A
  raise e s = (raised e, s)

  -- A pure computation that may raise.
  abbrev pub lift : Result A → Exec S A
  lift r s = (r, s)

module _ {S A B : Type 0} where
  abbrev pub continue : Result A → (A → Exec S B) → Exec S B
  continue (ok a) f s = f a s
  continue (raised e) f s = (raised e, s)

  infixl 10 ◌>>=◌ ◌>>◌
  abbrev pub ◌>>=◌ : Exec S A → (A → Exec S B) → Exec S B
  ◌>>=◌ m f s = continue (m s).0 f (m s).1

  abbrev pub ◌>>◌ : Exec S A → Exec S B → Exec S B
  m >> n = m >>= λ _. n

  -- `try … except`: the handler runs in the world that the exception left.
  abbrev pub handle : Result A → (A → Exec S B) → (Exception → Exec S B) → Exec S B
  handle (ok a) f h s = f a s
  handle (raised e) f h s = h e s

  -- `try: x = m … except`, with the code after the `try` in `f`.
  abbrev pub try_with : Exec S A → (A → Exec S B) → (Exception → Exec S B) → Exec S B
  try_with m f h s = handle (m s).0 f h (m s).1

-- What a `finally` block leaves of the block before it: its own exception goes first.
abbrev pub overrule : {A : Type 0} → Result A → Result (Unit {0}) → Result A
overrule r (ok x) = r
overrule r (raised e) = raised e

-- `try: m finally: n`: the second block runs in any case.
abbrev pub try_finally : {S A : Type 0} → Exec S A → Exec S (Unit {0}) → Exec S A
try_finally m n s = (overrule (m s).0 (n (m s).1).0, (n (m s).1).1)

-- The same for pure calls.
abbrev pub bind_result : {A B : Type 0} → Result A → (A → Result B) → Result B
bind_result (ok a) f = f a
bind_result (raised e) f = raised e

-- What holds of a value that is returned, or of the exception that is raised.
abbrev pub Ends : {A : Type 0} → (A → Type 0) → (Exception → Type 0) → Result A → Type 0
Ends P X (ok a) = P a
Ends P X (raised e) = X e

pub Ends-bind_result :
    {A B : Type 0} (P : A → Type 0) (Q : B → Type 0) (X Y : Exception → Type 0) (r : Result A)
    (f : A → Result B)
    → Ends P X r
    → ((e : Exception) → X e → Y e)
    → ((a : A) → P a → Ends Q Y (f a))
    → Ends Q Y (bind_result r f)
Ends-bind_result P Q X Y (ok a) f h x k = k a h
Ends-bind_result P Q X Y (raised e) f h x k = x e h

pub Result-cases :
    {A : Type 0} (r : Result A) → ((a : A) × (r ≡ ok a)) ⊎ ((e : Exception) × (r ≡ raised e))
Result-cases (ok a) = inl (a, refl)
Result-cases (raised e) = inr (e, refl)

-- Inversion of a chain that succeeded.
pub bind_result-eq_ok :
    {A B : Type 0} (m : Result A) (f : A → Result B) {b : B}
    → bind_result m f ≡ ok b
    → (a : A) × (m ≡ ok a) × (f a ≡ ok b)
bind_result-eq_ok (ok a) f h = (a, refl, h)
bind_result-eq_ok (raised e) f h = cc

-- A chain whose calls all return returns.
pub bind_result-total :
    {A B : Type 0} (m : Result A) (f : A → Result B)
    → (a : A) × (m ≡ ok a)
    → ((a : A) → (b : B) × (f a ≡ ok b))
    → (b : B) × (bind_result m f ≡ ok b)
bind_result-total (ok a) f h k = k a
bind_result-total (raised e) f (a, h) k = cc

-- A chain raises only what one of its calls raises.
pub continue-ne_raised :
    {S A B : Type 0} (e : Exception) (r : Result A) (f : A → Exec S B) (s : S)
    → r ≢ raised e
    → ((a : A) (u : S) → (f a u).0 ≢ raised e)
    → (continue r f s).0 ≢ raised e
continue-ne_raised e (ok a) f s h k = k a s
continue-ne_raised e (raised x) f s h k = λ p. h (ground arith)
