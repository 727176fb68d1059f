-- ===== src/Alerts/Cooldown.antt =====
-- When an alert fires.
use context_agent.Prelude.{
  String, ◌≡◌, ◌≢◌, refl, ◌∙◌, some, Bool, true, false, List, [], ◌∷◌, arith, ◌==◌, eq_iff, All,
  All-append, Bool-cases, if_ind, inl, inr,
}
use context_agent.Prelude.Dict.{get, get-put}
use context_agent.Prelude.Floats.{Floats}
use context_agent.Models.Metrics.{MetricRecord}
use context_agent.Alerts.Engine.{
  Alert, Readings, AlertEngine, checks, full_key, in_cooldown, check_one, run_checks, evaluate_one,
  evaluate_batch,
}

module _ {F : Type 0} (o : Floats F) (key : String) (last : F) (cooldown : F) where
  -- The key was fired at `last`, and the cooldown is this one.
  Fired : AlertEngine F → Type 0
  Fired e = (get e.cooldowns key ≡ some last) × (e.config.cooldown_s ≡ cooldown)

  -- The key is still the one that was fired at `last`, and no alert has it.
  Quiet : AlertEngine F × List Alert → Type 0
  unfolding Fired
  Quiet (e, alerts) = Fired e × All (λ a. full_key o a ≢ key) alerts

  -- A reading of the clock that falls into the cooldown.
  abbrev pub Within : F → Type 0
  Within now = o.lt (o.sub now last) cooldown ≡ true

  in_cooldown-Fired :
      (e : AlertEngine F) (now : F) → Fired e → Within now → in_cooldown o e key now ≡ true
  unfolding in_cooldown Fired
  in_cooldown-Fired e now h w = rw (h.0, h.1, w) refl

  in_cooldown_self :
      (e : AlertEngine F) (triggered : Bool) (a : Alert) (now : F)
      → Fired e
      → Within now
      → full_key o a ≡ key
      → in_cooldown o e (full_key o a) now ≡ true
  in_cooldown_self e triggered a now h w same = rw same (in_cooldown-Fired e now h w)

  check_one-Quiet :
      (e : AlertEngine F) (triggered : Bool) (a : Alert) (now : Readings F)
      → Fired e
      → Within now.checked_at
      → Quiet (check_one o e triggered a now)
  unfolding check_one Quiet Fired
  check_one-Quiet e triggered a now h w =
      if_ind Quiet triggered _ _
        (λ _. elim (Bool-cases (full_key o a == key)) [
          | inl q ↦
              rw
                (in_cooldown_self e triggered a now.checked_at h w
                  ((eq_iff (full_key o a) key).0 q))
                (h, tt)
          | inr q ↦
              if_ind Quiet (in_cooldown o e (full_key o a) now.checked_at) _ _ (λ _. (h, tt))
                (λ _. (
                  ((get-put e.cooldowns (full_key o a) key now.fired_at ∙ rw q (h.0)), h.1),
                  ((λ s. ground (arith, eq_iff (full_key o a) key)), tt),
                ))
        ])
        (λ _. (h, tt))

  run_checks-Quiet :
      (e : AlertEngine F) (checks : List (Bool × String)) (scope_id operation : String)
      (now : String → Readings F)
      → Fired e
      → ((k : String) → Within (now k).checked_at)
      → Quiet (run_checks o e checks scope_id operation now)
  unfolding run_checks Quiet
  run_checks-Quiet e [] scope_id operation now h w = (h, tt)
  run_checks-Quiet e ((triggered, k) ∷ rest) scope_id operation now h w =
      let a : Alert = record { alert_key = k; scope_id = scope_id; operation = operation } in
      let first = check_one-Quiet e triggered a (now k) h (w k) in
      let later =
        run_checks-Quiet (check_one o e triggered a (now k)).0 rest scope_id operation now first.0
          w in
      (later.0, All-append _ _ _ first.1 later.1)

  evaluate_batch-Quiet :
      (e : AlertEngine F) (batch : List (MetricRecord F × (String → Readings F)))
      → Fired e
      → All (λ r. (k : String) → Within (r.1 k).checked_at) batch
      → Quiet (evaluate_batch o e batch)
  unfolding evaluate_batch evaluate_one Quiet
  evaluate_batch-Quiet e [] h w = (h, tt)
  evaluate_batch-Quiet e ((r, now) ∷ batch) h w =
      let first = run_checks-Quiet e (checks o e.config r) r.scope_id r.operation now h w.0 in
      let later = evaluate_batch-Quiet (evaluate_one o e r now).0 batch first.0 w.1 in
      (later.0, All-append _ _ _ first.1 later.1)

  -- No alert of a key is fired while the key is in its cooldown: in a batch of records whose checks
  -- all read the clock before the cooldown has passed since the key was fired, no record fires it.
  pub evaluate_batch_cooling :
      (e : AlertEngine F) (batch : List (MetricRecord F × (String → Readings F)))
      → get e.cooldowns key ≡ some last
      → e.config.cooldown_s ≡ cooldown
      → All (λ r. (k : String) → Within (r.1 k).checked_at) batch
      → All (λ a. full_key o a ≢ key) (evaluate_batch o e batch).1
  unfolding Quiet Fired
  evaluate_batch_cooling e batch h c w = (evaluate_batch-Quiet e batch (h, c) w).1

-- A triggered check whose key is not in its cooldown fires its alert, and no alert of the same key is
-- fired by the batch that follows, as long as its checks read the clock within the cooldown.
pub check_one_once :
    {F : Type 0} (o : Floats F) (e : AlertEngine F) (a : Alert) (now : Readings F)
    (batch : List (MetricRecord F × (String → Readings F)))
    → in_cooldown o e (full_key o a) now.checked_at ≡ false
    → All
        (λ r.
          (k : String) → o.lt (o.sub (r.1 k).checked_at now.fired_at) e.config.cooldown_s ≡ true)
        batch
    → ((check_one o e true a now).1 ≡ a ∷ [])
      × All
          (λ b. full_key o b ≢ full_key o a)
          (evaluate_batch o (check_one o e true a now).0 batch).1
unfolding check_one
check_one_once o e a now batch free within = rw free (
  refl,
  evaluate_batch_cooling o (full_key o a) now.fired_at e.config.cooldown_s _ batch
      (get-put e.cooldowns (full_key o a) (full_key o a) now.fired_at
        ∙ rw ((eq_iff (full_key o a) (full_key o a)).1 refl) refl)
      refl within,
)
