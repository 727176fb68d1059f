-- ===== src/Conditioning/Order.antt =====
-- `apply_task_conditioning`: new scores, and the order that they give.
use mathlib.Core.List.{Perm}
use context_agent.Prelude.{
  String, ◌≡◌, refl, ◌∙◌, Bool, false, List, [], ◌∷◌, ◌&&◌, ◌==◌, if◌then◌else◌, map, length,
  length-map, All, All-map, All-imp, Pairwise, Pairwise-map, Pairwise-imp, Bool-cases, inl, inr,
}
use context_agent.Prelude.Floats.{Floats, IsOrdered, InUnit, clamp-InUnit}
use context_agent.Prelude.Sort.{
  sort_desc, Descending, sort_desc-perm, sort_desc-Descending, length-sort_desc, All-sort_desc,
  Pairwise-sort_desc,
}
use context_agent.Models.Context.{ContextItem}
use context_agent.Conditioning.Scores.{conditioned_score}

module _ {F : Type 0} (o : Floats F) where
  -- The order of `sorted(items, key=lambda item: item.score, reverse=True)`.
  abbrev pub lower_score : ContextItem F → ContextItem F → Bool
  lower_score a b = o.lt a.score b.score

  module _ (normal : String → String) where
    -- `item.model_copy(update={"score": adjusted})`
    unfoldable pub rescore : String → String → ContextItem F → ContextItem F
    rescore task_type agent_role item = record item {
      score = conditioned_score o normal item task_type agent_role;
    }

    unfoldable pub apply_task_conditioning :
        List (ContextItem F) → String → String → List (ContextItem F)
    unfolding rescore
    apply_task_conditioning items task_type agent_role =
        if task_type == "" && agent_role == ""
        then items
        else sort_desc lower_score (map (rescore task_type agent_role) items)

    -- What conditioning with a hint does to a list: the same items, each with its conditioned
    -- score, in the unit range, and the highest score first.
    pub record IsConditioned (task_type agent_role : String) (items result : List (ContextItem F))
        : Type 0 where
      pub perm : Perm result (map (rescore task_type agent_role) items)
      pub sorted : Descending lower_score result
      pub bounded : All (λ i. InUnit o i.score) result

    module _ (ord : IsOrdered o) (items : List (ContextItem F))
        (task_type agent_role : String) where
      rescored_bounded :
          (l : List (ContextItem F))
          → All (λ i. InUnit o i.score) (map (rescore task_type agent_role) l)
      unfolding rescore conditioned_score
      rescored_bounded [] = tt
      rescored_bounded (x ∷ l) = (clamp-InUnit o ord _, rescored_bounded l)

      -- Conditioning with a task type or a role returns the same items with their conditioned
      -- scores, all within 0.0 and 1.0, sorted so that no later item has the greater score, when
      -- scores are ordered as floats are that are not NaN.
      pub apply_task_conditioning-IsConditioned :
          (task_type == "" && agent_role == "") ≡ false
          → IsConditioned task_type agent_role items
              (apply_task_conditioning items task_type agent_role)
      unfolding apply_task_conditioning
      apply_task_conditioning-IsConditioned h = rw h (record {
        perm = sort_desc-perm lower_score _;
        sorted =
            sort_desc-Descending lower_score (λ a b. ord.lt_asymm a.score b.score)
              (λ a b c. ord.not_lt_trans a.score b.score c.score) _;
        bounded = All-sort_desc lower_score (λ i. InUnit o i.score) _ (rescored_bounded items);
      })

  -- Conditioning keeps the number of items.
  pub length-apply_task_conditioning :
      (normal : String → String) (items : List (ContextItem F)) (task_type agent_role : String)
      → length (apply_task_conditioning normal items task_type agent_role) ≡ length items
  unfolding apply_task_conditioning
  length-apply_task_conditioning normal items task_type agent_role =
      elim (Bool-cases (task_type == "" && agent_role == "")) [
        | inl q ↦ rw q refl
        | inr q ↦ rw q (
            length-sort_desc lower_score _ ∙ length-map (rescore normal task_type agent_role) items)
      ]

  -- What a change of score cannot break, conditioning keeps.
  pub All-apply_task_conditioning :
      (normal : String → String) (P : ContextItem F → Type 0)
      → ((i : ContextItem F) (s : F) → P i → P (record i { score = s }))
      → (items : List (ContextItem F)) (task_type agent_role : String) → All P items
      → All P (apply_task_conditioning normal items task_type agent_role)
  unfolding apply_task_conditioning rescore
  All-apply_task_conditioning normal P keeps items task_type agent_role h =
      elim (Bool-cases (task_type == "" && agent_role == "")) [
        | inl q ↦ rw q h
        | inr q ↦ rw q (
            All-sort_desc lower_score P _
              (All-map _ P items (All-imp P _ (λ i p. keeps i _ p) items h)))
      ]

  pub Pairwise-apply_task_conditioning :
      (normal : String → String) (R : ContextItem F → ContextItem F → Type 0)
      → ((i j : ContextItem F) → R i j → R j i)
      → ((i j : ContextItem F) (s t : F)
          → R i j
          → R (record i { score = s }) (record j { score = t }))
      → (items : List (ContextItem F)) (task_type agent_role : String) → Pairwise R items
      → Pairwise R (apply_task_conditioning normal items task_type agent_role)
  unfolding apply_task_conditioning rescore
  Pairwise-apply_task_conditioning normal R symm keeps items task_type agent_role h =
      elim (Bool-cases (task_type == "" && agent_role == "")) [
        | inl q ↦ rw q h
        | inr q ↦ rw q (
            Pairwise-sort_desc lower_score R symm _
              (Pairwise-map _ R items (Pairwise-imp R _ (λ i j p. keeps i j _ _ p) items h)))
      ]

  -- A list that is sorted by score is sorted by score after conditioning.
  pub Descending-apply_task_conditioning :
      (ord : IsOrdered o) (normal : String → String) (items : List (ContextItem F))
      → (task_type agent_role : String) → Descending lower_score items
      → Descending lower_score (apply_task_conditioning normal items task_type agent_role)
  Descending-apply_task_conditioning ord normal items task_type agent_role h =
      elim (Bool-cases (task_type == "" && agent_role == "")) [
        | inl q ↦ unfold apply_task_conditioning in rw q h
        | inr q ↦
            (apply_task_conditioning-IsConditioned normal ord items task_type agent_role q).sorted
      ]
