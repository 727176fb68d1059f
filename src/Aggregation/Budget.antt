-- ===== src/Aggregation/Budget.antt =====
-- `_apply_token_budget`: the longest prefix that fits.
use context_agent.Prelude.{
  ℕ, zero, suc, ◌+◌, ◌/◌, ◌≤◌, ◌≡◌, refl, ap, true, List, [], ◌∷◌, arith, ltb, if◌then◌else◌, take,
  length, length-take-le_length, text_length, Bool-cases, inl, inr,
}
use context_agent.Models.Context.{ContextItem}

module _ {F : Type 0} where
  -- `len(item.content) // 4`
  unfoldable pub item_tokens : ContextItem F → ℕ
  item_tokens i = text_length i.content / 4

  -- `sum(len(i.content) // 4 for i in items)`
  unfoldable pub total_tokens : List (ContextItem F) → ℕ
  unfolding item_tokens
  total_tokens [] = 0
  total_tokens (i ∷ items) = item_tokens i + total_tokens items

  -- The loop from `used` on: what is appended to the result.
  select_from : ℕ → ℕ → List (ContextItem F) → List (ContextItem F)
  unfolding item_tokens
  select_from used token_budget [] = []
  select_from used token_budget (i ∷ items) =
      let rest = select_from (used + item_tokens i) token_budget items in
      if ltb token_budget (used + item_tokens i) then [] else i ∷ rest

  unfoldable pub apply_token_budget : List (ContextItem F) → ℕ → List (ContextItem F)
  unfolding select_from
  apply_token_budget items token_budget = select_from 0 token_budget items

  -- `result` is the longest prefix of `items` that stays within the budget.
  pub record IsLongestFit (used token_budget : ℕ) (items result : List (ContextItem F))
      : Type 0 where
    pub prefix : result ≡ take (length result) items
    pub fits : used + total_tokens result ≤ token_budget
    pub longest :
        (n : ℕ)
        → used + total_tokens (take n items) ≤ token_budget
        → length (take n items) ≤ length result

  select_from-IsLongestFit :
      (used token_budget : ℕ) (items : List (ContextItem F))
      → used ≤ token_budget
      → IsLongestFit used token_budget items (select_from used token_budget items)
  unfolding select_from total_tokens
  select_from-IsLongestFit used token_budget [] h = record {
    prefix = refl;
    fits = omega arith;
    longest = λ n fit. length-take-le_length {A = ContextItem F} n [];
  }
  select_from-IsLongestFit used token_budget (i ∷ items) h =
      elim (Bool-cases (ltb token_budget (used + item_tokens i))) [
        | inl over ↦
            rw over (record { prefix = refl; fits = omega arith; longest = none_longer over })
        | inr room ↦ rw room (
            longer
              (select_from-IsLongestFit (used + item_tokens i) token_budget items (ground arith)))
      ]
    where
      none_longer :
          ltb token_budget (used + item_tokens i) ≡ true
          → (n : ℕ) → used + total_tokens (take n (i ∷ items)) ≤ token_budget
          → length (take n (i ∷ items)) ≤ 0
      none_longer over zero fit = omega arith
      none_longer over (suc n) fit = absurd (ground arith)

      further :
          IsLongestFit
            (used + item_tokens i)
            token_budget
            items
            (select_from (used + item_tokens i) token_budget items)
          → (n : ℕ) → used + total_tokens (take n (i ∷ items)) ≤ token_budget
          → length (take n (i ∷ items))
            ≤ suc (length (select_from (used + item_tokens i) token_budget items))
      further r zero fit = omega arith
      further r (suc n) fit = omega (arith, r.longest n (omega arith))

      longer :
          IsLongestFit
            (used + item_tokens i)
            token_budget
            items
            (select_from (used + item_tokens i) token_budget items)
          → IsLongestFit used token_budget
              (i ∷ items)
              (i ∷ select_from (used + item_tokens i) token_budget items)
      longer r = record {
        prefix = ap (◌∷◌ i) r.prefix;
        fits = omega (arith, r.fits);
        longest = further r;
      }

  -- The items chosen for a budget are a prefix of the candidates, their tokens are within the
  -- budget, and no longer prefix would be.
  pub apply_token_budget-IsLongestFit :
      (items : List (ContextItem F)) (token_budget : ℕ)
      → IsLongestFit 0 token_budget items (apply_token_budget items token_budget)
  unfolding apply_token_budget
  apply_token_budget-IsLongestFit items token_budget =
      select_from-IsLongestFit 0 token_budget items (omega arith)
