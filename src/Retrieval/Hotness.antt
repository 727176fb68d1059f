-- ===== src/Retrieval/Hotness.antt =====
-- `context_agent/core/memory/hotness.py`. The functions of Python's `math` are parameters.
use context_agent.Prelude.{ℕ, ◌-◌, Option, none, some, Bool, true, false, if◌then◌else◌}
use context_agent.Prelude.Floats.{Floats}

pub record Maths (F : Type 0) : Type 0 where
  -- `-x`
  pub neg : F → F
  pub exp : F → F
  pub log : F → F
  pub log1p : F → F
  pub tanh : F → F

module _ {F : Type 0} (o : Floats F) (m : Maths F) where
  -- `a <= b` on floats that are not NaN
  abbrev pub le : F → F → Bool
  le a b = if o.lt b a then false else true

  sigmoid : F → F
  sigmoid x =
      if le o.zero x
      then o.div o.one (o.add o.one (m.exp (m.neg x)))
      else o.div (m.exp x) (o.add o.one (m.exp x))

  -- The days since the update, in floats; an update that is later than `now` counts as now.
  age_days : ℕ → Option ℕ → F
  age_days now none = o.zero
  age_days now (some updated_at) =
      o.div (o.div (o.of_int (now - updated_at)) (o.of_int 1000000)) (o.of_int 86400)

  count_of : Option ℕ → ℕ
  count_of none = 0
  count_of (some n) = n

  -- `none` where it raises a `ValueError`. An item's count is never negative.
  unfoldable pub compute_hotness : ℕ → Option ℕ → Option ℕ → F → Option F
  unfolding sigmoid age_days count_of
  compute_hotness now active_count updated_at half_life_days =
      if le half_life_days o.zero
      then none
      else some (
          o.mul (sigmoid (m.log1p (o.of_int (count_of active_count)))) (
            m.exp (
              o.mul (m.neg (o.div (m.log (o.of_int 2)) half_life_days)) (age_days now updated_at))))

  unfoldable pub hotness_blend : F → F → F → F
  hotness_blend semantic_score hotness alpha =
      o.add (o.mul (o.sub o.one alpha) semantic_score) (o.mul alpha hotness)
