-- ===== src/Observability/Logging/Routing/Reached.antt =====
-- Every record takes the pipeline that configure_logging sets up.
use pyfr_m8_verify.Base.{
  Text, List, ◌≡◌, codes, All, text_eq, contains, [], ◌∷◌, Bool-cases, true, Bool, ◌||◌, ◌∙◌, ◌⊎◌,
  refl, inl, inr, false, some, subst,
}
use pyfr_m8_verify.Observability.Logging.Routing.{
  Loggers, Logger, reached, set_levels, set_level, configure_logging, ancestors, legs, opened,
  update, open_loggers, uvicorn_loggers,
}
use pyfr_m8_verify.Settings.{LogLevel, Environment}

-- A logger without handlers that passes its records on.
abbrev pub IsQuiet : Logger → Type 0
IsQuiet l = (l.handlers ≡ []) × (l.propagate ≡ true)

set_level-kept :
    (name n : Text) (level : LogLevel) (ls : Loggers)
    → ((set_level name level ls).root.handlers ≡ ls.root.handlers)
      × (IsQuiet (ls.named n) → IsQuiet ((set_level name level ls).named n))
unfolding set_level
set_level-kept name n level ls =
    elim (Bool-cases (text_eq name [] || text_eq name (codes "root"))) [
      | inl e ↦ rw e (refl, λ h. h)
      | inr e ↦
          rw e (refl, λ h. elim (Bool-cases (text_eq n name)) [ inl f ↦ rw f h | inr f ↦ rw f h ])
    ]

set_levels-kept :
    (levels : List (Text × LogLevel)) (n : Text) (ls : Loggers)
    → ((set_levels levels ls).root.handlers ≡ ls.root.handlers)
      × (IsQuiet (ls.named n) → IsQuiet ((set_levels levels ls).named n))
unfolding set_levels
set_levels-kept [] n ls = (refl, λ h. h)
set_levels-kept ((name, level) ∷ rest) n ls =
    let one = set_level-kept name n level ls in
    let all_of = set_levels-kept rest n (set_level name level ls) in
    (all_of.0 ∙ one.0, λ h. all_of.1 (one.1 h))

reached-quiet :
    (ls : Loggers) (ns : List Text)
    → All (λ n. IsQuiet (ls.named n)) ns
    → reached ls ns ≡ ls.root.handlers
unfolding reached
reached-quiet ls [] h = refl
reached-quiet ls (n ∷ ns) h = rw (h.0.0, h.0.1) (reached-quiet ls ns h.1)

opened-IsQuiet :
    (names : List Text) (n : Text) (ls : Loggers)
    → (contains n names ≡ true) ⊎ IsQuiet (ls.named n)
    → IsQuiet ((open_loggers names ls).named n)
unfolding open_loggers contains
opened-IsQuiet [] n ls (inl e) = cc
opened-IsQuiet [] n ls (inr h) = h
opened-IsQuiet (name ∷ rest) n ls h =
    opened-IsQuiet rest n (update name opened ls) (elim (Bool-cases (text_eq n name)) [
      | inl e ↦ inr (rw e (refl, refl))
      | inr e ↦ rw e (dropped e h)
    ])
  where
    dropped :
        text_eq n name ≡ false
        → (contains n (name ∷ rest) ≡ true) ⊎ IsQuiet (ls.named n)
        → (contains n rest ≡ true) ⊎ IsQuiet (ls.named n)
    dropped e (inl t) = inl (subst (λ b. (b || contains n rest) ≡ true) e t)
    dropped e (inr q) = inr q

open_loggers-root :
    (names : List Text) (ls : Loggers) → (open_loggers names ls).root.handlers ≡ ls.root.handlers
unfolding open_loggers
open_loggers-root [] ls = refl
open_loggers-root (name ∷ rest) ls = open_loggers-root rest (update name opened ls)

All-map {ℓ κ μ} :
    {A : Type ℓ} (P : A → Type κ) (Q : A → Type μ) (xs : List A)
    → ((x : A) → P x → Q x)
    → All P xs
    → All Q xs
All-map P Q [] f h = _
All-map P Q (x ∷ xs) f h = (f x h.0, All-map P Q xs f h.1)

-- A logger that configure_logging opens, or that had no handler of its own and passed its records on.
abbrev pub IsOpen : Loggers → Text → Type 0
IsOpen ls n = (contains n uvicorn_loggers ≡ true) ⊎ IsQuiet (ls.named n)

-- Whatever handlers the root logger and uvicorn's three loggers had: a record of any of these three, and
-- of every logger that has no handler of its own on its way to the root, reaches the standard output
-- once and, where a logger provider is configured, the OTLP handler once, and no other handler. Each
-- logger on its way is one of uvicorn's three, or it has no handler and passes its records on.
pub configure_logging-one_pipeline :
    (environment : Environment) (level : LogLevel) (levels : List (Text × LogLevel))
    (with_provider : Bool) (ls : Loggers) (name : Text)
    → All (IsOpen ls) (ancestors name)
    → reached (configure_logging environment level levels with_provider ls) (ancestors name)
      ≡ legs environment with_provider
unfolding configure_logging
configure_logging-one_pipeline environment level levels with_provider ls name h =
    let root : Logger = record ls.root {
      handlers = legs environment with_provider;
      level = some level;
    } in
    let rooted : Loggers = record ls { root = root } in
    let opened_ls = open_loggers uvicorn_loggers rooted in
    reached-quiet (set_levels levels opened_ls) (ancestors name) (
      All-map (IsOpen ls) _ (ancestors name)
        (λ n k. (set_levels-kept levels n opened_ls).1 (opened-IsQuiet uvicorn_loggers n rooted k))
        h)
    ∙ ((set_levels-kept levels name opened_ls).0 ∙ open_loggers-root uvicorn_loggers rooted)
