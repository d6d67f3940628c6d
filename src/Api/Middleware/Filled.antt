-- ===== src/Api/Middleware/Filled.antt =====
-- What _fill makes of a template, and so what is logged of a request.
use pyfr_m8_verify.Base.{Text, has, ◌∷◌, all, ◌≡◌, false, true, []}
use pyfr_m8_verify.Api.Middleware.{starts_name, is_name}

-- What a name may be.
abbrev pub IsName : Text → Type 0
IsName [] = ⊥
IsName (c ∷ name) = (starts_name c ≡ true) × (all is_name (c ∷ name) ≡ true)

-- What may stand between a name and its closing bracket: nothing, or a colon and a converter.
abbrev pub IsConverter : Text → Type 0
IsConverter [] = Unit {0}
IsConverter (c ∷ []) = ⊥
IsConverter (c ∷ d ∷ converter) = (c ≡ b':') × (has b'}' (d ∷ converter) ≡ false)
