-- ===== src/Observability/Otel/Instrument/Agreed.antt =====
-- All instrumentors of HTTP find one convention.
use pyfr_m8_verify.Base.{
  Text, List, Option, some, find, Bool, ◌≡◌, false, true, ◌∷◌, Option-cases, All, none, ◌⊎◌, inl,
  ap, [], find-assign, inr, text_eq_refl, Bool-cases, refl, subst, sym, ◌∙◌,
}
use pyfr_m8_verify.Infrastructure.Clients.{AsyncEngine, AsyncClient}
use pyfr_m8_verify.Observability.Otel.{Providers}
use pyfr_m8_verify.Observability.Otel.Instrument.{
  Process, Call, instrument_fastapi, instrument_database, instrument_http_client, instrument_redis,
  opt_in_to_stable_semconv, stable_semconv_env_var, stable_semconv_value, instrument_app,
  instrument_engine, instrument_client, instrument_redis_library,
}

-- One call of this module.
pub data Step : Type 0 where
  of_fastapi : Providers → Step
  of_database : AsyncEngine → Providers → Step
  of_http_client : AsyncClient → Providers → Step
  of_redis : Providers → Step

abbrev pub held_or : Option Text → Text
held_or none = stable_semconv_value
held_or (some v) = v

-- The operator's value, or the default.
abbrev pub agreed : Process → Text
agreed p = held_or (find stable_semconv_env_var p.environ)

abbrev pub is_redis : Call → Bool
is_redis (instrument_app t m u) = false
is_redis (instrument_engine e t) = false
is_redis (instrument_client c t) = false
is_redis (instrument_redis_library t) = true

abbrev pub Saw : Text → Call × Option Text → Type 0
Saw v (c, value) = (is_redis c ≡ true) ⊎ (value ≡ some v)

module _ (instrumented : Process → Bool) where
  unfoldable pub step : Step → Process → Process
  step (of_fastapi runtime) p = instrument_fastapi runtime p
  step (of_database engine runtime) p = instrument_database engine runtime p
  step (of_http_client client runtime) p = instrument_http_client client runtime p
  step (of_redis runtime) p = instrument_redis instrumented runtime p

  unfoldable pub steps : List Step → Process → Process
  unfolding step
  steps [] p = p
  steps (s ∷ rest) p = steps rest (step s p)

opted-find :
    (p : Process)
    → find stable_semconv_env_var (opt_in_to_stable_semconv p).environ ≡ some (agreed p)
unfolding opt_in_to_stable_semconv
opted-find p = elim (Option-cases (find stable_semconv_env_var p.environ)) [
  | inl e ↦
      rw
        (
          e,
          find-assign stable_semconv_env_var stable_semconv_env_var stable_semconv_value p.environ,
          text_eq_refl stable_semconv_env_var,
        )
        refl
  | inr (v, e) ↦ rw (e, e) refl
]

module _ (instrumented : Process → Bool) where
  step-agreed :
      (s : Step) (p : Process)
      → All (Saw (agreed p)) p.calls
      → (agreed (step instrumented s p) ≡ agreed p)
        × All (Saw (agreed p)) (step instrumented s p).calls
  unfolding step instrument_fastapi instrument_database instrument_http_client instrument_redis
  step-agreed (of_fastapi runtime) p h = (ap held_or (opted-find p), (inr (opted-find p), h))
  step-agreed (of_database engine runtime) p h =
      (ap held_or (opted-find p), (inr (opted-find p), h))
  step-agreed (of_http_client client runtime) p h =
      (ap held_or (opted-find p), (inr (opted-find p), h))
  step-agreed (of_redis runtime) p h = elim (Bool-cases (instrumented p)) [
    | inl e ↦ rw e (refl, h)
    | inr e ↦ rw e (refl, (inl refl, h))
  ]

  steps-agreed :
      (ss : List Step) (v : Text) (p : Process)
      → agreed p ≡ v
      → All (Saw v) p.calls
      → All (Saw v) (steps instrumented ss p).calls
  unfolding steps
  steps-agreed [] v p e h = h
  steps-agreed (s ∷ rest) v p e h =
      let next = step-agreed s p (subst (λ w. All (Saw w) p.calls) (sym e) h) in
      steps-agreed rest v (step instrumented s p) (next.0 ∙ e)
        (subst (λ w. All (Saw w) (step instrumented s p).calls) e next.1)

  -- In a process in which nothing is instrumented yet, every call of the FastAPI, SQLAlchemy and HTTPX
  -- instrumentors, in whatever order and however often they come, is made when the variable of the
  -- conventions is set, and to one value: the operator's where there is one, else "http". So the first
  -- of these calls, whose value counts for the process, never decides for the legacy names by itself.
  pub steps-Saw :
      (ss : List Step) (p : Process)
      → p.calls ≡ []
      → All (Saw (agreed p)) (steps instrumented ss p).calls
  steps-Saw ss p e = steps-agreed ss (agreed p) p refl (subst (All (Saw (agreed p))) (sym e) _)
