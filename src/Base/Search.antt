-- ===== src/Base/Search.antt =====
-- Python's searches in a `str`: startswith, in, partition and rpartition.
use Prim.Native.Nat.{ℕ, ◌≤◌, ◌-◌}
use mathlib.Core.Path.{◌≡◌, refl, ap, sym}
use mathlib.Core.Bool.{Bool, true, false, ◌&&◌, ◌||◌}
use mathlib.Core.Option.{Option, none, some}
use mathlib.Core.List.{List, [], ◌∷◌, ◌++◌}
use native.Mathlib.Omega.{arith}
use pyfr_m8_verify.Base.Tests.{◌==◌, if◌then◌else◌, leb}
use pyfr_m8_verify.Base.Lists.{drop, length, length-append}
use pyfr_m8_verify.Base.Chars.{Text, text_eq}

-- t in names
unfoldable pub contains : Text → List Text → Bool
contains t [] = false
contains t (n ∷ ns) = text_eq t n || contains t ns

-- s.startswith(p)
unfoldable pub starts_with : Text → Text → Bool
starts_with [] s = true
starts_with (c ∷ p) [] = false
starts_with (c ∷ p) (d ∷ s) = (c == d) && starts_with p s

-- s.endswith(suffix)
unfoldable pub ends_with : Text → Text → Bool
ends_with s suffix =
    leb (length suffix) (length s) && text_eq (drop (length s - length suffix) s) suffix

-- c in s
unfoldable pub has : ℕ → Text → Bool
has c [] = false
has c (d ∷ s) = (c == d) || has c s

abbrev pub extend : ℕ → Option (Text × Text) → Option (Text × Text)
extend c none = none
extend c (some (a, b)) = some (c ∷ a, b)

-- s.partition(sep), for a separator that is not empty: `none` where it does not occur.
unfoldable pub partition : Text → Text → Option (Text × Text)
unfolding starts_with
partition sep [] = none
partition sep (c ∷ s) =
    let rest = partition sep s in
    if starts_with sep (c ∷ s) then some ([], drop (length sep) (c ∷ s)) else extend c rest

abbrev pub last_or : ℕ → ℕ → Text → Option (Text × Text) → Option (Text × Text)
last_or c d s (some (a, b)) = some (d ∷ a, b)
last_or c d s none = if c == d then some ([], s) else none

-- s.rpartition(c), for one character.
unfoldable pub rpartition : ℕ → Text → Option (Text × Text)
rpartition c [] = none
rpartition c (d ∷ s) = last_or c d s (rpartition c s)

pub append_assoc : (a b c : Text) → (a ++ b) ++ c ≡ a ++ (b ++ c)
append_assoc [] b c = refl
append_assoc (d ∷ a) b c = ap (λ r. d ∷ r) (append_assoc a b c)

pub starts_with-append : (p s : Text) → starts_with p (p ++ s) ≡ true
unfolding starts_with
starts_with-append [] s = refl
starts_with-append (c ∷ p) s = ground (arith, starts_with-append p s)

pub drop-append : (p s : Text) → drop (length p) (p ++ s) ≡ s
drop-append [] s = refl
drop-append (c ∷ p) s = drop-append p s

-- The separator is found where its first character occurs for the first time.
pub partition-append :
    (c : ℕ) (sep a b : Text)
    → has c a ≡ false
    → partition (c ∷ sep) (a ++ ((c ∷ sep) ++ b)) ≡ some (a, b)
unfolding partition has
partition-append c sep [] b h =
    rw (starts_with-append (c ∷ sep) b) (ap (λ r. some ([], r)) (drop-append (c ∷ sep) b))
partition-append c sep (d ∷ a) b h = ground (arith, partition-append c sep a b)

pub rpartition-none : (c : ℕ) (s : Text) → has c s ≡ false → rpartition c s ≡ none
unfolding rpartition has
rpartition-none c [] h = refl
rpartition-none c (d ∷ s) h = ground (arith, rpartition-none c s)

-- The split is at the last occurrence.
pub rpartition-append :
    (c : ℕ) (a b : Text) → has c b ≡ false → rpartition c (a ++ (c ∷ b)) ≡ some (a, b)
unfolding rpartition
rpartition-append c [] b h = rw (rpartition-none c b h) (ground arith)
rpartition-append c (d ∷ a) b h = rw (rpartition-append c a b h) refl

starts_with-longer :
    (p s t : Text) → length p ≤ length s → starts_with p s ≡ false → starts_with p (s ++ t) ≡ false
unfolding starts_with
starts_with-longer [] s t l h = h
starts_with-longer (c ∷ p) [] t l h = ground arith
starts_with-longer (c ∷ p) (d ∷ s) t l h = ground (arith, starts_with-longer p s t)

later_found :
    (b : Bool) (d : ℕ) (pre r : Text) (o : Option (Text × Text))
    → (if b then some ([], r) else extend d o) ≡ some (d ∷ pre, [])
    → (b ≡ false) × (o ≡ some (pre, []))
later_found true d pre r o h = cc
later_found false d pre r none h = cc
later_found false d pre r (some found) h = (refl, cc)

-- Where the separator is found does not depend on what follows it.
pub partition-behind :
    (sep pre rest : Text)
    → partition sep (pre ++ sep) ≡ some (pre, [])
    → partition sep (pre ++ (sep ++ rest)) ≡ some (pre, rest)
unfolding partition has
partition-behind [] [] rest h = cc
partition-behind (c ∷ sep) [] rest h = partition-append c sep [] rest refl
partition-behind sep (d ∷ pre) rest h =
    let q =
      later_found (starts_with sep (d ∷ (pre ++ sep))) d pre _ (partition sep (pre ++ sep)) h in
    let fits : length sep ≤ length (d ∷ (pre ++ sep)) = omega (arith, length-append pre sep) in
    let longer = starts_with-longer sep (d ∷ (pre ++ sep)) rest fits q.0 in
    rw
      (
        sym (append_assoc pre sep rest),
        longer,
        append_assoc pre sep rest,
        partition-behind sep pre rest q.1,
      )
      refl
