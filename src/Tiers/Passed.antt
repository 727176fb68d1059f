-- ===== src/Tiers/Passed.antt =====
-- What the tiers pass on, for any predicate of items.
use context_agent.Prelude.{
  ℕ, ◌-◌, ◌≤◌, ◌≡◌, ◌≢◌, refl, String, Option, none, some, List, ◌++◌, ◌||◌, take, length,
  length-take-le, leb, In, All, All-take, All-append, All-map, All-of, if_ind,
}
use context_agent.Prelude.Floats.{Floats}
use context_agent.Models.Values.{Metadata}
use context_agent.Models.Context.{MemoryType, ContextItem}
use context_agent.Tiers.Hot.{Reply, answer, timed_out, caught, uncaught, Cache}
use context_agent.Tiers.Router.{
  Latencies, Stores, with_tier, is_spent, extend, cold_tier, after_warm, warm_tier, after_hot,
}

module _ {F : Type 0} where
  -- At most `k` such items.
  abbrev pub AreTiered : (ContextItem F → Type 0) → ℕ → Option (List (ContextItem F)) → Type 0
  AreTiered P k none = ⊥
  AreTiered P k (some result) = (length result ≤ k) × All P result

  abbrev pub AllTiered : (ContextItem F → Type 0) → Option (List (ContextItem F)) → Type 0
  AllTiered P none = ⊥
  AllTiered P (some result) = All P result

  module _ (P : ContextItem F → Type 0) where
    with_tier-All :
        (tier : String) (r : Reply (List (ContextItem F)))
        → ((items : List (ContextItem F)) (i : ContextItem F)
            → r ≡ answer items
            → In i items
            → P (record i { tier = tier }))
        → r ≢ uncaught
        → AllTiered P (with_tier tier r)
    unfolding with_tier
    with_tier-All tier (answer items) h n =
        All-map (λ (i : ContextItem F). record i { tier = tier }) P items
          (All-of _ items (λ i m. h items i refl m))
    with_tier-All tier timed_out h n = tt
    with_tier-All tier caught h n = tt
    with_tier-All tier uncaught h n = absurd (n refl)

    taken-AreTiered : (k : ℕ) (l : List (ContextItem F)) → All P l → AreTiered P k (some (take k l))
    taken-AreTiered k l h = (length-take-le k l, All-take P k l h)

module _ {F R : Type 0} (o : Floats F) (c : Cache F R) (b : Stores F) where
  -- No exception of another program but those that the tiers catch.
  pub record IsCalm : Type 0 where
    pub redis : (r : R) (key : String) → c.redis_get r key ≢ uncaught
    pub ltm :
        (scope_id query : String) (k : ℕ) (types : Option (List MemoryType)) (filters : Metadata)
        (budget : F)
        → b.ltm_search scope_id query k types filters budget ≢ uncaught
    pub external :
        (find : String → String → ℕ → Metadata → F → Reply (List (ContextItem F)))
        → b.external ≡ some find
        → (scope_id query : String) (k : ℕ) (filters : Metadata) (budget : F)
        → find scope_id query k filters budget ≢ uncaught

  module _ (calm : IsCalm) (P : ContextItem F → Type 0) (scope_id query : String)
      (types : Option (List MemoryType)) (filters : Metadata)
      (warm : (k : ℕ) (budget : F) (items : List (ContextItem F)) (i : ContextItem F)
        → b.ltm_search scope_id query k types filters budget ≡ answer items
        → In i items
        → P (record i { tier = "warm" }))
      (cold : (find : String → String → ℕ → Metadata → F → Reply (List (ContextItem F)))
        → b.external ≡ some find
        → (k : ℕ) (budget : F) (items : List (ContextItem F)) (i : ContextItem F)
        → find scope_id query k filters budget ≡ answer items
        → In i items
        → P (record i { tier = "cold" })) where
    extend-AreTiered :
        (results : List (ContextItem F)) (items : Option (List (ContextItem F))) (k : ℕ)
        → All P results
        → AllTiered P items
        → AreTiered P k (extend o c b results items k)
    unfolding extend
    extend-AreTiered results none k h t = absurd t
    extend-AreTiered results (some items) k h t =
        taken-AreTiered P k (results ++ items) (All-append P results items h t)

    cold_tier-AreTiered :
        (k : ℕ) (budget : F) (results : List (ContextItem F))
        → All P results
        → AreTiered P k (cold_tier o c b scope_id query k filters budget results)
    unfolding cold_tier
    cold_tier-AreTiered k budget results h =
        if_ind (AreTiered P k) (leb k (length results) || is_spent o c b budget)
          (some (take k results)) _ (λ _. taken-AreTiered P k results h)
          (λ _. by_store b.external refl)
      where
        by_store :
            (external : Option (String → String → ℕ → Metadata → F → Reply (List (ContextItem F))))
            → b.external ≡ external
            → AreTiered P k (elim external [
              | none ↦ some (take k results)
              | some find ↦
                  extend o c b results
                    (with_tier "cold" (find scope_id query (k - length results) filters budget))
                    k
            ])
        by_store none e = taken-AreTiered P k results h
        by_store (some find) e = extend-AreTiered results _ k h (
            with_tier-All P "cold" _ (λ items i. cold find e (k - length results) budget items i)
              (calm.external find e scope_id query (k - length results) filters budget))

    after_warm-AreTiered :
        (k : ℕ) (budget : F) (results : List (ContextItem F))
        → (items : Option (List (ContextItem F))) → All P results
        → AllTiered P items
        → AreTiered P k (after_warm o c b scope_id query k filters budget results items)
    unfolding after_warm
    after_warm-AreTiered k budget results none h t = absurd t
    after_warm-AreTiered k budget results (some items) h t =
        cold_tier-AreTiered k budget (results ++ items) (All-append P results items h t)

    pub warm_tier-AreTiered :
        (k : ℕ) (budget : F)
        → (l : Latencies F) (results : List (ContextItem F)) → All P results
        → AreTiered P k (warm_tier o c b scope_id query k types filters budget l results)
    unfolding warm_tier
    warm_tier-AreTiered k budget l results h =
        if_ind (AreTiered P k) (leb k (length results) || is_spent o c b budget)
          (some (take k results)) _ (λ _. taken-AreTiered P k results h)
          (λ _. after_warm-AreTiered k (o.sub budget l.warm) results _ h (
            with_tier-All P "warm" _ (λ items i. warm (k - length results) budget items i)
              (calm.ltm scope_id query (k - length results) types filters budget)))

    pub after_hot-AreTiered :
        (k : ℕ) (budget : F)
        → (l : Latencies F) (items : Option (List (ContextItem F))) → AllTiered P items
        → AreTiered P k (after_hot o c b scope_id query k types filters budget l items)
    unfolding after_hot
    after_hot-AreTiered k budget l none t = absurd t
    after_hot-AreTiered k budget l (some items) t = warm_tier-AreTiered k budget l items t
