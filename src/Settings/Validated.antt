-- ===== src/Settings/Validated.antt =====
-- What holds of settings that the validators have accepted.
use pyfr_m8_verify.Base.{Text, ℕ, ◌∷◌, ◌≡◌, all, true, [], and_true, ◌↔◌, refl, ◌≤◌, length, arith}
use pyfr_m8_verify.Settings.{bucket_tail, bucket_ok, is_alphanumeric, is_bucket_character}

unfoldable pub first : Text → ℕ
first [] = 0
first (c ∷ rest) = c

unfoldable pub last : Text → ℕ
last [] = 0
last (c ∷ []) = c
last (c ∷ d ∷ rest) = last (d ∷ rest)

alphanumeric-allowed : (c : ℕ) → is_alphanumeric c ≡ true → is_bucket_character c ≡ true
unfolding is_bucket_character
alphanumeric-allowed c h = rw h refl

bucket_tail-all :
    (name : Text)
    → bucket_tail name ≡ true
    → (all is_bucket_character name ≡ true) × (is_alphanumeric (last name) ≡ true)
unfolding bucket_tail last
bucket_tail-all [] h = cc
bucket_tail-all (c ∷ []) h = (rw (alphanumeric-allowed c h) refl, h)
bucket_tail-all (c ∷ d ∷ rest) h =
    let p = and_true (is_bucket_character c) (bucket_tail (d ∷ rest)) h in
    let q = bucket_tail-all (d ∷ rest) p.1 in (rw p.0 q.0, q.1)

all-bucket_tail :
    (c : ℕ) (rest : Text)
    → all is_bucket_character (c ∷ rest) ≡ true
    → is_alphanumeric (last (c ∷ rest)) ≡ true
    → bucket_tail (c ∷ rest) ≡ true
unfolding bucket_tail last
all-bucket_tail c [] h e = e
all-bucket_tail c (d ∷ rest) h e =
    let p = and_true (is_bucket_character c) (all is_bucket_character (d ∷ rest)) h in
    rw p.0 (all-bucket_tail d rest p.1 e)

bucket_ok-parts :
    (c : ℕ) (rest : Text)
    → bucket_ok (c ∷ rest) ≡ true
      ↔ (is_alphanumeric c ≡ true)
        × (2 ≤ length rest)
        × (length rest ≤ 62)
        × (bucket_tail rest ≡ true)
unfolding bucket_ok
bucket_ok-parts c rest = ground arith

-- The pattern accepts the names that S3 documents: of 3 to 63 characters, all of them lower-case
-- letters, digits, dots and hyphens, the first and the last a letter or a digit.
pub bucket_ok_iff :
    (name : Text)
    → bucket_ok name ≡ true
      ↔ (3 ≤ length name)
        × (length name ≤ 63)
        × (all is_bucket_character name ≡ true)
        × (is_alphanumeric (first name) ≡ true)
        × (is_alphanumeric (last name) ≡ true)
unfolding first last
bucket_ok_iff [] = (λ h. unfold bucket_ok in cc, λ h. ground arith)
bucket_ok_iff (c ∷ []) = (λ h. unfold bucket_ok in ground arith, λ h. ground arith)
bucket_ok_iff (c ∷ d ∷ rest) = (
  λ h.
      let (a, l, u, t) = (bucket_ok-parts c (d ∷ rest)).0 h in
      let (every, e) = bucket_tail-all (d ∷ rest) t in
      (omega (arith, l), omega (arith, u), rw (alphanumeric-allowed c a) every, a, e),
  λ (l, u, every, a, e).
      let p = and_true (is_bucket_character c) (all is_bucket_character (d ∷ rest)) every in
      (bucket_ok-parts c (d ∷ rest)).1
        (a, omega (arith, l), omega (arith, u), all-bucket_tail d rest p.1 e),
)
