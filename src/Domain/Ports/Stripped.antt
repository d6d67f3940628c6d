-- ===== src/Domain/Ports/Stripped.antt =====
-- What stripping takes off a text.
use mathlib.Core.List.{reverse-append, reverse-reverse, reverse-cons}
use pyfr_m8_verify.Base.{
  Text, ℕ, Bool, [], ◌∷◌, ◌++◌, ◌≡◌, ◌∙◌, sym, ap, refl, reverse, all, true, false, ◌&&◌,
  Bool-cases, inl, inr, arith, subst,
}
use pyfr_m8_verify.Domain.Ports.{is_space, strip, strip_left}

-- The text does not start with white space.
abbrev pub StartsBlack : Text → Type 0
StartsBlack [] = Unit {0}
StartsBlack (c ∷ s) = is_space c ≡ false

-- `id` is `raw` without the white space at its two ends.
pub record IsStripped (raw id : Text) : Type 0 where
  pub before : Text
  pub after : Text
  pub splits : raw ≡ before ++ (id ++ after)
  pub before_space : all is_space before ≡ true
  pub after_space : all is_space after ≡ true
  pub starts : StartsBlack id
  pub ends : StartsBlack (reverse id)

strip_left-splits :
    (t : Text)
    → (b : Text) × (t ≡ b ++ strip_left t) × (all is_space b ≡ true) × StartsBlack (strip_left t)
unfolding strip_left
strip_left-splits [] = ([], refl, refl, tt)
strip_left-splits (c ∷ cs) = elim (Bool-cases (is_space c)) [
  | inl e ↦
      let (b, p, q, s) = strip_left-splits cs in
      rw e (c ∷ b, ap (λ t. c ∷ t) p, (rw (e, q) refl), s)
  | inr e ↦ rw e ([], refl, refl, e)
]

pub all-append :
    (p : ℕ → Bool) (s t : Text) → all p s ≡ true → all p t ≡ true → all p (s ++ t) ≡ true
all-append p [] t h k = k
all-append p (c ∷ s) t h k = ground (arith, all-append p s t)

all-reverse : (p : ℕ → Bool) (s : Text) → all p s ≡ true → all p (reverse s) ≡ true
all-reverse p [] h = refl
all-reverse p (c ∷ s) h =
    let (k, l) = both (p c) (all p s) h in
    subst (λ t. all p t ≡ true) (sym (reverse-cons c s))
      (all-append p (reverse s) (c ∷ []) (all-reverse p s l) (ground (arith, k)))
  where
    both : (a b : Bool) → (a && b) ≡ true → (a ≡ true) × (b ≡ true)
    both a b e = ground arith

StartsBlack-prefix : (s t : Text) → StartsBlack (s ++ t) → StartsBlack s
StartsBlack-prefix [] t h = tt
StartsBlack-prefix (c ∷ s) t h = h

pub strip-IsStripped : (t : Text) → IsStripped t (strip t)
unfolding strip
strip-IsStripped t =
    let (b, p, q, s) = strip_left-splits t in
    let (c, p', q', s') = strip_left-splits (reverse (strip_left t)) in
    let whole : strip_left t ≡ reverse (strip_left (reverse (strip_left t))) ++ reverse c =
      sym (reverse-reverse (strip_left t))
      ∙ (ap reverse p' ∙ reverse-append c (strip_left (reverse (strip_left t)))) in
    record {
      before = b;
      after = reverse c;
      splits = p ∙ ap (λ u. b ++ u) whole;
      before_space = q;
      after_space = all-reverse is_space c q';
      starts = StartsBlack-prefix _ (reverse c) (subst StartsBlack whole s);
      ends = subst StartsBlack (sym (reverse-reverse (strip_left (reverse (strip_left t))))) s';
    }
