-- ===== src/Tools/Filling.antt =====
-- What the tools that a search has found are filled up with.
use context_agent.Prelude.{
  ℕ, zero, suc, sym, take_of_append, ◌+◌, ◌-◌, min, String, ◌≡◌, inl, inr, refl, ap, ◌∙◌, Bool, not,
  List, [], ◌∷◌, ◌++◌, arith, ltb, if_ind, Bool-cases, contains, length, take, keep, All,
  All-append, All-keep, All-take, length-take, length-append,
}
use context_agent.Tools.Governor.{ToolDefinition, fill}

-- The tools that were found, in their order, and then the others.
abbrev pub found_first :
    {F : Type 0} → List String → List (ToolDefinition F) → List (ToolDefinition F)
found_first ids tools =
    keep (λ t. contains ids t.tool_id) tools ++ keep (λ t. not (contains ids t.tool_id)) tools

module _ {F : Type 0} where
  length-keep-not :
      (p : ToolDefinition F → Bool) (l : List (ToolDefinition F))
      → length (keep p l) + length (keep (λ t. not (p t)) l) ≡ length l
  length-keep-not p [] = refl
  length-keep-not p (t ∷ l) = ground (arith, length-keep-not p l)

  pub length-fill :
      (ids : List String) (tools : List (ToolDefinition F)) (top_k : ℕ)
      → length (fill ids tools top_k) ≡ min top_k (length tools)
  unfolding fill
  length-fill ids tools top_k = elim (Bool-cases (ltb (length matched) top_k)) [
    | inl q ↦ rw q (
        length-take top_k (matched ++ take (top_k - length matched) rest)
        ∙ ground (
          arith,
          length-append matched (take (top_k - length matched) rest),
          length-take (top_k - length matched) rest,
          length-keep-not (λ t. contains ids t.tool_id) tools,
        ))
    | inr q ↦ rw q (
        ground
          (arith, length-take top_k matched, length-keep-not (λ t. contains ids t.tool_id) tools))
  ]
    where
      matched : List (ToolDefinition F)
      matched = keep (λ t. contains ids t.tool_id) tools

      rest : List (ToolDefinition F)
      rest = keep (λ t. not (contains ids t.tool_id)) tools

  take-take : (k : ℕ) (l : List (ToolDefinition F)) → take k (take k l) ≡ take k l
  take-take zero l = refl
  take-take (suc k) [] = refl
  take-take (suc k) (t ∷ l) = ap (◌∷◌ t) (take-take k l)

  take_filled :
      (k : ℕ) (l rest : List (ToolDefinition F))
      → take k (l ++ take (k - length l) rest) ≡ take k (l ++ rest)
  take_filled zero l rest = refl
  take_filled (suc k) [] rest =
      let whole : suc k - 0 ≡ suc k = omega arith in
      ap (λ n. take (suc k) (take n rest)) whole ∙ take-take (suc k) rest
  take_filled (suc k) (t ∷ l) rest =
      ap (◌∷◌ t) (ap (λ n. take k (l ++ take n rest)) (omega arith) ∙ take_filled k l rest)

  -- What is filled up to the room that is left is the others behind the found ones.
  pub fill-take :
      (ids : List String) (tools : List (ToolDefinition F)) (top_k : ℕ)
      → fill ids tools top_k ≡ take top_k (found_first ids tools)
  unfolding fill
  fill-take ids tools top_k = elim (Bool-cases (ltb (length matched) top_k)) [
    | inl q ↦ rw q (take_filled top_k matched rest)
    | inr q ↦ rw q (sym (take_of_append top_k matched rest (ground arith)))
  ]
    where
      matched : List (ToolDefinition F)
      matched = keep (λ t. contains ids t.tool_id) tools

      rest : List (ToolDefinition F)
      rest = keep (λ t. not (contains ids t.tool_id)) tools

  pub All-fill :
      (P : ToolDefinition F → Type 0) (ids : List String) (tools : List (ToolDefinition F))
      (top_k : ℕ)
      → All P tools
      → All P (fill ids tools top_k)
  unfolding fill
  All-fill P ids tools top_k h = All-take P top_k _ (
      if_ind (λ l. All P l) (ltb (length matched) top_k)
        (matched ++ take (top_k - length matched) rest) matched
        (λ _. All-append P matched _ matched_P (All-take P (top_k - length matched) rest rest_P))
        (λ _. matched_P))
    where
      matched : List (ToolDefinition F)
      matched = keep (λ t. contains ids t.tool_id) tools

      rest : List (ToolDefinition F)
      rest = keep (λ t. not (contains ids t.tool_id)) tools

      matched_P : All P matched
      matched_P = All-keep P (λ t. contains ids t.tool_id) tools h

      rest_P : All P rest
      rest_P = All-keep P (λ t. not (contains ids t.tool_id)) tools h
