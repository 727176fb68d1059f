-- ===== src/Examples/Checking.antt =====
-- The health of a context.
use context_agent.Prelude.{ℕ, ◌≡◌, ◌↔◌, none, true, false, ◌&&◌, [], ◌∷◌}
use context_agent.Models.Context.{ContextSnapshot, is_over_budget}
use context_agent.Health.Checker.{Thresholds, check, quick_check, check_clash, threshold}
use context_agent.Health.Reports.{check_iff}
use context_agent.Examples.Data.{cents, snapshot}

abbrev thresholds : Thresholds ℕ
thresholds = record {
  poisoning_threshold = 70;
  distraction_threshold = 60;
  confusion_threshold = 65;
  clash_threshold = 50;
}

abbrev degraded : ContextSnapshot ℕ
degraded = record snapshot { degraded_sources = "ltm" ∷ "jit" ∷ [] }

check_iff_example :
    (((check cents thresholds none degraded).is_healthy ≡ true)
      ↔ ((check cents thresholds none degraded).issues ≡ []))
    × (((check cents thresholds none degraded).recommendations ≡ []) ↔ (
        ((check cents thresholds none degraded).issues ≡ []) × (is_over_budget degraded ≡ false)))
    × (((quick_check cents thresholds degraded).is_healthy ≡ true)
        ↔ ((quick_check cents thresholds degraded).issues ≡ []))
    × ((check cents thresholds none degraded).is_healthy ≡ (
        (quick_check cents thresholds degraded).is_healthy
        && cents.lt
            (check_clash cents none degraded).score
            (threshold cents thresholds (check_clash cents none degraded).risk_type)))
check_iff_example = check_iff cents thresholds none degraded
