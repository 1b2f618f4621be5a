-- ===== src/Cost/Work.antt =====
-- internal/cost/estimate.go: the weighted work of an estimate. float64 is a parameter.
use server_flow.Prelude.{ℕ, ◌+◌, ◌&&◌, ◌||◌, ltb, if◌then◌else◌}
use server_flow.Prelude.Float.{Float64}
use server_flow.Prelude.Int.{pos_part}

pub record Weights (F : Type 0) : Type 0 where
  pub input_weight : F
  pub output_fraction : F

module _ (fl : Float64) where
  open fl use {Float}

  unfoldable pub default_weights : Weights Float
  default_weights = record { input_weight = fl.of_int 1; output_fraction = fl.of_int 1 }

  -- Weights of the caller are finite and not negative, and at most 10,000.
  unfoldable pub sane : Float → Float → Float
  sane v default =
      if fl.is_nan v || fl.is_inf v || fl.fltb v (fl.of_int 0)
      then default
      else fl.fmin v (fl.lit 10000 0)

  -- int64(math.Ceil(x)) of a number that is not negative.
  abbrev pub round_up : Float → ℕ
  round_up x = pos_part (fl.ceil x)

  unfoldable pub work : ℕ → ℕ → Weights Float → ℕ
  work est_input est_output w =
      let input = round_up (fl.mul (sane w.input_weight (fl.of_int 1)) (fl.of_int est_input)) in
      let output =
        round_up (fl.mul (sane w.output_fraction (fl.of_int 1)) (fl.of_int est_output)) in
      if ltb (input + output) 1 && (ltb 0 est_input || ltb 0 est_output) then 1 else input + output
