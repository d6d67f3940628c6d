-- ===== src/Container/Readiness.antt =====
-- container.py, ReadinessRegistry: checks in two tiers, run together. A check of type `C` is known by
-- how it answers; `float_text` is `str` of a float.
pub mod Report
use pyfr_m8_verify.Base.{
  ◌∷◌, Option, List, Text, Bool, [], ℕ, text_eq, all, assign, false, codes, if◌then◌else◌, some,
  map, ◌++◌, ltb, length, none, dict_of, take, drop,
}
use Prim.Native.Nat.{min, max}

-- What a check raises: a TimeoutError of its own, or another exception, by its class's name.
pub data CheckError : Type 0 where
  timeout_error : CheckError
  other_error : (name : Text) → CheckError

-- How a check answers when it runs: after how long, if ever, and with which exception, if any.
pub record CheckOutcome : Type 0 where
  pub after : Option ℕ
  pub exception : Option CheckError

pub record ReadinessReport : Type 0 where
  pub gating : List (Text × Text)
  pub informational : List (Text × Text)

abbrev pub is_ok : Text × Text → Bool
is_ok (name, result) = text_eq result (codes "ok")

-- ReadinessReport.healthy
unfoldable pub healthy : ReadinessReport → Bool
healthy self = all is_ok self.gating

pub record ReadinessRegistry (C : Type 0) : Type 0 where
  pub gating : List (Text × C)
  pub informational : List (Text × C)

abbrev pub new_registry : {C : Type 0} → ReadinessRegistry C
new_registry = record { gating = []; informational = [] }

module _ {C : Type 0} where
  unfoldable pub register : Text → C → ReadinessRegistry C → ReadinessRegistry C
  register name check self = record self { gating = assign name check self.gating }

  unfoldable pub register_informational : Text → C → ReadinessRegistry C → ReadinessRegistry C
  register_informational name check self = record self {
    informational = assign name check self.informational;
  }

-- asyncio.wait_for: whether the check ended before the timeout.
unfoldable pub in_time : ℕ → Option ℕ → Bool
in_time timeout none = false
in_time timeout (some after) = ltb after timeout

-- The second member of what `run_one` returns, after a check that ended in time; `timed_out` is the
-- message of its `except TimeoutError`.
unfoldable pub result_of : Text → Option CheckError → Text
result_of timed_out none = codes "ok"
result_of timed_out (some timeout_error) = timed_out
result_of timed_out (some (other_error name)) = codes "error: " ++ name

-- run_one, and how long it takes.
module _ {C : Type 0} (float_text : ℕ → Text) (timeout : ℕ) (answers : C → CheckOutcome) where
  unfoldable pub timed_out : Text
  timed_out = codes "error: timeout after " ++ (float_text timeout ++ codes "s")

  unfoldable pub run_one : Text × C → Text × Text
  unfolding in_time result_of timed_out
  run_one (name, check) = (
    name,
    if in_time timeout (answers check).after
        then result_of timed_out (answers check).exception
        else timed_out,
  )

  unfoldable pub takes : Option ℕ → ℕ
  takes none = timeout
  takes (some after) = min after timeout

  -- asyncio.gather: the results in the order of the checks.
  unfoldable pub run : ReadinessRegistry C → ReadinessReport
  run self =
      let results = map run_one self.gating ++ map run_one self.informational in
      let boundary = length self.gating in
      record {
        gating = dict_of [] (take boundary results);
        informational = dict_of [] (drop boundary results);
      }

  -- The checks run together, so the time of `run` is that of the slowest.
  unfoldable pub slowest : List (Text × C) → ℕ
  unfolding takes
  slowest [] = 0
  slowest ((name, check) ∷ rest) = max (takes (answers check).after) (slowest rest)

  unfoldable pub run_takes : ReadinessRegistry C → ℕ
  unfolding slowest
  run_takes self = slowest (self.gating ++ self.informational)
