-- ===== src/Exposure/Views.antt =====
-- `apply` and `get_default_policy`.
use mathlib.Core.List.{append_assoc, append-nil}
use context_agent.Prelude.{
  ℕ, ◌+◌, String, ◌≡◌, ◌↔◌, sym, ap, ◌∙◌, none, some, true, List, [], ◌∷◌, ◌++◌, arith,
  if◌then◌else◌, not, length, keep, In, In-keep, keep-In, keep_all, Bool-cases, inl, inr,
}
use context_agent.Models.Context.{
  ContextItem, ContextSnapshot, ContextView, procedural, episodic, semantic, variable,
  same_memory_type,
}
use context_agent.Models.Policy.{
  ExposurePolicy, allows_source_type, allows_memory_type, allows_tool,
}
use context_agent.Exposure.Gates.{is_allowed, Permitted, is_allowed_iff}

module _ {F : Type 0} where
  -- The loop over `snapshot.items`: `visible` and `hidden_count` are its variables.
  filter_items :
      ExposurePolicy → List (ContextItem F) → List (ContextItem F) → ℕ → List (ContextItem F) × ℕ
  filter_items policy [] visible hidden = (visible, hidden)
  filter_items policy (item ∷ items) visible hidden =
      let skipped = filter_items policy items visible (hidden + 1) in
      let shown = filter_items policy items (visible ++ item ∷ []) hidden in
      if not (is_allowed item policy) then skipped else shown

  -- `created_at` is the time at which the view is built.
  unfoldable pub apply : ContextSnapshot F → ExposurePolicy → ℕ → ContextView F
  unfolding filter_items
  apply snapshot policy created_at =
      let (visible, hidden) = filter_items policy snapshot.items [] 0 in
      record {
        snapshot_id = snapshot.snapshot_id;
        scope_id = snapshot.scope_id;
        visible_items = visible;
        hidden_item_count = hidden;
        applied_policy_id = some policy.policy_id;
        created_at = created_at;
      }

-- `policy_id` and `updated_at` are what the default factories return.
unfoldable pub get_default_policy : String → String → ℕ → ExposurePolicy
get_default_policy scope_id policy_id updated_at = record {
  policy_id = policy_id;
  scope_id = scope_id;
  session_id = none;
  allowed_memory_types = procedural ∷ episodic ∷ semantic ∷ variable ∷ [];
  allowed_scratchpad_fields = [];
  allowed_tool_ids = [];
  state_only_fields = [];
  allowed_source_types = [];
  updated_at = updated_at;
}

module _ {F : Type 0} where
  filter_items-keep :
      (policy : ExposurePolicy) (items visible : List (ContextItem F)) (hidden : ℕ)
      → ((filter_items policy items visible hidden).0
          ≡ visible ++ keep (λ i. is_allowed i policy) items)
        × ((filter_items policy items visible hidden).1
              + length (keep (λ i. is_allowed i policy) items)
            ≡ hidden + length items)
  unfolding filter_items
  filter_items-keep policy [] visible hidden = (sym (append-nil visible), omega arith)
  filter_items-keep policy (item ∷ items) visible hidden =
      elim (Bool-cases (is_allowed item policy)) [
        | inl q ↦
            let r = filter_items-keep policy items (visible ++ item ∷ []) hidden in
            rw q (r.0 ∙ append_assoc visible (item ∷ []) _, omega (arith, r.1))
        | inr q ↦
            let r = filter_items-keep policy items visible (hidden + 1) in
            rw q (r.0, omega (arith, r.1))
      ]

  module _ (snapshot : ContextSnapshot F) (policy : ExposurePolicy) (created_at : ℕ) where
    -- The view shows, in order, the items that are allowed.
    pub visible_items-apply :
        (apply snapshot policy created_at).visible_items
        ≡ keep (λ i. is_allowed i policy) snapshot.items
    unfolding apply
    visible_items-apply = (filter_items-keep policy snapshot.items [] 0).0

    hidden-apply :
        length (apply snapshot policy created_at).visible_items
          + (apply snapshot policy created_at).hidden_item_count
        ≡ length snapshot.items
    unfolding apply
    hidden-apply =
        let r = filter_items-keep policy snapshot.items [] 0 in rw (r.0) (omega (arith, r.1))

    -- A view shows exactly the items of the snapshot that all gates of the policy permit, and
    -- counts the others: shown and hidden together are the snapshot's items.
    pub apply_exact :
        ((item : ContextItem F)
          → In item (apply snapshot policy created_at).visible_items
            ↔ (In item snapshot.items × Permitted item policy))
        × (length (apply snapshot policy created_at).visible_items
              + (apply snapshot policy created_at).hidden_item_count
            ≡ length snapshot.items)
    apply_exact = (exact, hidden-apply)
      where
        exact :
            (item : ContextItem F)
            → In item (apply snapshot policy created_at).visible_items
              ↔ (In item snapshot.items × Permitted item policy)
        exact item = rw visible_items-apply (
          λ m.
              let r = keep-In (λ i. is_allowed i policy) item snapshot.items m in
              (r.0, (is_allowed_iff item policy).0 r.1),
          λ r.
              In-keep (λ i. is_allowed i policy) item snapshot.items r.0
                ((is_allowed_iff item policy).1 r.1),
        )

  is_allowed_default :
      (scope_id policy_id : String) (updated_at : ℕ) (item : ContextItem F)
      → is_allowed item (get_default_policy scope_id policy_id updated_at) ≡ true
  unfolding is_allowed get_default_policy allows_source_type allows_memory_type allows_tool
      same_memory_type
  is_allowed_default scope_id policy_id updated_at item = ground arith

  -- Under the default policy of any scope every item is shown, in order, and none is hidden.
  pub apply_default :
      (snapshot : ContextSnapshot F) (scope_id policy_id : String) (updated_at created_at : ℕ)
      → ((apply snapshot
            (get_default_policy scope_id policy_id updated_at)
            created_at).visible_items
          ≡ snapshot.items)
        × ((apply snapshot
              (get_default_policy scope_id policy_id updated_at)
              created_at).hidden_item_count
            ≡ 0)
  apply_default snapshot scope_id policy_id updated_at created_at =
      let policy = get_default_policy scope_id policy_id updated_at in
      let shown =
        visible_items-apply snapshot policy created_at
        ∙ keep_all _ snapshot.items (is_allowed_default scope_id policy_id updated_at) in
      (shown, omega (arith, hidden-apply snapshot policy created_at, ap length shown))
