-- ===== src/Compression/Registry.antt =====
-- `context_agent/strategies/registry.py`. A strategy is its id, whether it has an `_llm` attribute,
-- what that holds (an adapter, by its identity), and what its `compress` comes to.
use context_agent.Prelude.{
  ℕ, String, Option, none, some, Bool, true, false, List, [], ◌∷◌, eqb, if◌then◌else◌,
}
use context_agent.Prelude.Dict.{Dict, get, put, remove, keys, has}
use context_agent.Models.Context.{ContextSnapshot, ContextOutput}

-- How a call of `compress` ends: with an output, or with an exception, by its text.
pub data Attempt (F : Type 0) : Type 0 where
  output : ContextOutput F → Attempt F
  raised : String → Attempt F

pub record Strategy (F : Type 0) : Type 0 where
  pub strategy_id : String
  pub has_llm : Bool
  pub llm : Option ℕ
  pub compress : Option ℕ → ContextSnapshot F → Attempt F

abbrev pub Registry : Type 0 → Type 0
Registry F = Dict (Strategy F)

-- `ValueError`, and `StrategyNotFoundError`
pub data RegistryError : Type 0 where
  already_registered : String → RegistryError
  not_registered : String → RegistryError

pub data Result (A : Type 0) : Type 0 where
  ok : A → Result A
  err : RegistryError → Result A

infixl 5 ◌>>=◌
abbrev pub ◌>>=◌ : {A B : Type 0} → Result A → (A → Result B) → Result B
ok a >>= f = f a
err e >>= f = err e

-- `current_llm is llm_adapter`
same_adapter : Option ℕ → ℕ → Bool
same_adapter none a = false
same_adapter (some b) a = eqb b a

module _ {F : Type 0} where
  unfoldable pub register : Registry F → Strategy F → Result (Registry F)
  register r s =
      if has r s.strategy_id
      then err (already_registered s.strategy_id)
      else ok (put r s.strategy_id s)

  unfoldable pub find : Registry F → String → Result (Strategy F)
  find r strategy_id = elim (get r strategy_id) [
    | none ↦ err (not_registered strategy_id)
    | some s ↦ ok s
  ]

  unfoldable pub list_ids : Registry F → List String
  list_ids r = keys r

  unfoldable pub unregister : Registry F → String → Registry F
  unregister r strategy_id = remove r strategy_id

  -- `_refresh_strategy_llm_adapter`, which changes the registered object in place
  unfoldable pub refresh_llm_adapter : Strategy F → Option ℕ → Strategy F
  unfolding same_adapter
  refresh_llm_adapter s none = s
  refresh_llm_adapter s (some adapter) =
      if s.has_llm
      then (if same_adapter s.llm adapter then s else record s { llm = some adapter })
      else s

  -- One round of the loop of `ensure_default_strategies_registered`.
  unfoldable pub ensure_one : Option ℕ → Strategy F → Registry F → Result (Registry F)
  unfolding register find refresh_llm_adapter
  ensure_one llm_adapter strategy r =
      if has r strategy.strategy_id
      then (do
        found ← find r strategy.strategy_id
        ok (put r strategy.strategy_id (refresh_llm_adapter found llm_adapter)))
      else register r strategy

  unfoldable pub ensure_all : Option ℕ → List (Strategy F) → Registry F → Result (Registry F)
  unfolding ensure_one
  ensure_all llm_adapter [] r = ok r
  ensure_all llm_adapter (s ∷ strategies) r = do
    r' ← ensure_one llm_adapter s r
    ensure_all llm_adapter strategies r'

-- What the five strategy classes do, each by its own file.
pub record Builtins (F : Type 0) : Type 0 where
  pub qa : Option ℕ → ContextSnapshot F → Attempt F
  pub task : Option ℕ → ContextSnapshot F → Attempt F
  pub long_session : Option ℕ → ContextSnapshot F → Attempt F
  pub realtime : Option ℕ → ContextSnapshot F → Attempt F
  pub compaction : Option ℕ → ContextSnapshot F → Attempt F

module _ {F : Type 0} (b : Builtins F) where
  unfoldable pub default_strategies : Option ℕ → List (Strategy F)
  default_strategies llm_adapter =
      record { strategy_id = "qa"; has_llm = true; llm = llm_adapter; compress = b.qa }
      ∷ record { strategy_id = "task"; has_llm = true; llm = llm_adapter; compress = b.task }
      ∷ record {
        strategy_id = "long_session";
        has_llm = true;
        llm = llm_adapter;
        compress = b.long_session;
      }
      ∷ record { strategy_id = "realtime"; has_llm = false; llm = none; compress = b.realtime }
      ∷ record {
        strategy_id = "compaction";
        has_llm = true;
        llm = llm_adapter;
        compress = b.compaction;
      }
      ∷ []

  unfoldable pub ensure_default_strategies_registered : Registry F → Option ℕ → Result (Registry F)
  unfolding ensure_all default_strategies
  ensure_default_strategies_registered r llm_adapter =
      ensure_all llm_adapter (default_strategies llm_adapter) r
