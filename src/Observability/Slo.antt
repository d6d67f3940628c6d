-- ===== src/Observability/Slo.antt =====
-- observability/slo.py: the objective as numbers. A time is a number of ten-thousandths of a second, a
-- fraction one of thousandths.
use pyfr_m8_verify.Base.{Text, List, codes, join, ℕ, ◌∷◌, ◌-◌, []}

abbrev pub slo_availability_target : ℕ
slo_availability_target = 999

abbrev pub slo_window_days : ℕ
slo_window_days = 30

abbrev pub slo_latency_threshold_seconds : ℕ
slo_latency_threshold_seconds = 3000

-- round(1.0 - SLO_AVAILABILITY_TARGET, 10)
abbrev pub error_budget : ℕ
error_budget = 1000 - slo_availability_target

abbrev pub http_duration_bucket_boundaries : List ℕ
http_duration_bucket_boundaries =
    50 ∷ 100 ∷ 250 ∷ 500 ∷ 750 ∷ 1000 ∷ 2500 ∷ slo_latency_threshold_seconds ∷ 5000 ∷ 7500 ∷ 10000
    ∷ 25000 ∷ 50000 ∷ 75000 ∷ 100000 ∷ []

abbrev pub sli_excluded_routes : List Text
sli_excluded_routes = codes "/healthz" ∷ codes "/readyz" ∷ codes "/startupz" ∷ []

-- excluded_routes_pattern
unfoldable pub excluded_routes_pattern : Text
unfolding join
excluded_routes_pattern = join (b'|' ∷ []) sli_excluded_routes
