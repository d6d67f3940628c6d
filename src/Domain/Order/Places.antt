-- ===== src/Domain/Order/Places.antt =====
-- The places that a sum keeps, when each of its terms was cut to the digits of the context before.
use Prim.Native.Nat.{max}
use pyfr_m8_verify.Base.{
  ℕ, suc, zero, ◌*◌, ◌^◌, ◌≤◌, ◌≡◌, ◌∙◌, ◌⊎◌, inl, inr, sym, refl, ap, Bool-cases, true, false, ltb,
  arith,
}
use pyfr_m8_verify.Domain.Order.{clip}

clip-keeps : (h p : ℕ) → ltb (h * 10 ^ suc p) (10 ^ 30) ≡ true → clip h (suc p) ≡ suc p
unfolding clip
clip-keeps h p e = rw e

clip-cuts : (h p : ℕ) → ltb (h * 10 ^ suc p) (10 ^ 30) ≡ false → clip h (suc p) ≡ clip h p
unfolding clip
clip-cuts h p e = rw e

clip-zero : (h : ℕ) → clip h 0 ≡ 0
unfolding clip
clip-zero h = refl

cut_more : (h t k : ℕ) → h ≤ t → ltb (h * k) (10 ^ 30) ≡ false → ltb (t * k) (10 ^ 30) ≡ false
cut_more h t k l e = grind arith

clip-le : (h p : ℕ) → clip h p ≤ p
clip-le h zero = rw clip-zero (omega arith)
clip-le h (suc p) = elim (Bool-cases (ltb (h * 10 ^ suc p) (10 ^ 30))) [
  | inl e ↦ rw (clip-keeps h p e) (omega arith)
  | inr e ↦ rw (clip-cuts h p e) (omega (arith, clip-le h p))
]

-- Cutting for a smaller amount first changes nothing.
pub clip-clip : (h t p : ℕ) → h ≤ t → clip t (clip h p) ≡ clip t p
clip-clip h t zero l = ap (clip t) (clip-zero h)
clip-clip h t (suc p) l = elim (Bool-cases (ltb (h * 10 ^ suc p) (10 ^ 30))) [
  | inl e ↦ rw (clip-keeps h p e)
  | inr e ↦
      ap (clip t) (clip-cuts h p e)
      ∙ (clip-clip h t p l ∙ sym (clip-cuts t p (cut_more h t (10 ^ suc p) l e)))
]

clip_mono_suc : (t b : ℕ) → clip t b ≤ clip t (suc b)
clip_mono_suc t b = elim (Bool-cases (ltb (t * 10 ^ suc b) (10 ^ 30))) [
  | inl e ↦ rw (clip-keeps t b e) (omega (arith, clip-le t b))
  | inr e ↦ rw (clip-cuts t b e) (omega arith)
]

le_or_suc : (a b : ℕ) → a ≤ suc b → (a ≤ b) ⊎ (a ≡ suc b)
le_or_suc a b h = ground arith

clip_mono : (t a b : ℕ) → a ≤ b → clip t a ≤ clip t b
clip_mono t a zero h = let e : a ≡ 0 = omega arith in omega (arith, ap (clip t) e)
clip_mono t a (suc b) h = elim (le_or_suc a b h) [
  | inl k ↦ omega (arith, clip_mono t a b k, clip_mono_suc t b)
  | inr e ↦ omega (arith, ap (clip t) e)
]

pub clip-max : (t a b : ℕ) → clip t (max a b) ≡ max (clip t a) (clip t b)
clip-max t a b = elim (le-or-le a b) [
  | inl h ↦ ap (clip t) (max-right a b h) ∙ sym (max-right _ _ (clip_mono t a b h))
  | inr h ↦ ap (clip t) (max-left a b h) ∙ sym (max-left _ _ (clip_mono t b a h))
]
  where
    max-right : (a b : ℕ) → a ≤ b → max a b ≡ b
    max-right a b h = omega arith

    max-left : (a b : ℕ) → b ≤ a → max a b ≡ a
    max-left a b h = omega arith

    le-or-le : (a b : ℕ) → (a ≤ b) ⊎ (b ≤ a)
    le-or-le a b = ground arith

-- The term that comes next, and those that come after it.
pub clip-next :
    (r s t a b c : ℕ)
    → r ≤ t
    → s ≤ t
    → clip t (max (clip r (max a (clip s b))) c) ≡ clip t (max a (max b c))
clip-next r s t a b c hr hs =
    let x = clip-clip r t (max a (clip s b)) hr in
    let y = clip-clip s t b hs in
    omega (
      arith,
      clip-max t (clip r (max a (clip s b))) c,
      clip-max t a (clip s b),
      clip-max t a (max b c),
      clip-max t b c,
      x,
      y,
    )
