-- ===== src/Exposure/Gates.antt =====
-- `_is_allowed`, and the five gates that it stands for.
use context_agent.Prelude.{
  String, ◌≡◌, ◌↔◌, ◌⊎◌, inl, inr, refl, Option, none, some, Bool, true, false, List, [], ◌∷◌, not,
  ◌&&◌, ◌||◌, arith, ◌==◌, eq_iff, if◌then◌else◌, is_nil, any, contains, contains_iff, In, any_iff,
  Bool-cases,
}
use context_agent.Models.Values.{Value, text, sequence, mapping, other, get_or_empty, value_in}
use context_agent.Models.Context.{MemoryType, ContextItem, same_memory_type, same_memory_type_iff}
use context_agent.Models.Policy.{
  ExposurePolicy, allows_memory_type, allows_source_type, allows_tool,
}

memory_gate : ExposurePolicy → Option MemoryType → Bool
memory_gate p none = true
memory_gate p (some t) = allows_memory_type p t

scratchpad_gate : {F : Type 0} → ExposurePolicy → ContextItem F → Bool
scratchpad_gate p item =
    is_nil p.allowed_scratchpad_fields
    || value_in p.allowed_scratchpad_fields (get_or_empty item.metadata "field_name")

unfoldable pub is_allowed : {F : Type 0} → ContextItem F → ExposurePolicy → Bool
unfolding memory_gate scratchpad_gate
is_allowed item policy =
    if not (allows_source_type policy item.source_type)
    then false
    else if not (memory_gate policy item.memory_type)
    then false
    else if contains policy.state_only_fields item.source_type
    then false
    else if item.source_type == "scratchpad" && not (scratchpad_gate policy item)
    then false
    else if item.source_type == "tool_result"
        && not (allows_tool policy (get_or_empty item.metadata "tool_id"))
    then false
    else true

-- An empty list of a policy allows everything.
abbrev pub AllowedBy : {A : Type 0} → List A → A → Type 0
AllowedBy l a = (l ≡ []) ⊎ In a l

abbrev pub ValueAllowedBy : List String → Value → Type 0
ValueAllowedBy l (text s) = AllowedBy l s
ValueAllowedBy l (sequence m) = l ≡ []
ValueAllowedBy l (mapping r) = l ≡ []
ValueAllowedBy l (other r) = l ≡ []

-- What the policy says of an item, gate by gate.
pub record Permitted {F : Type 0} (item : ContextItem F) (p : ExposurePolicy) : Type 0 where
  pub source : AllowedBy p.allowed_source_types item.source_type
  pub memory : (t : MemoryType) → item.memory_type ≡ some t → AllowedBy p.allowed_memory_types t
  pub visible : ¬ In item.source_type p.state_only_fields
  pub field :
      item.source_type ≡ "scratchpad"
      → ValueAllowedBy p.allowed_scratchpad_fields (get_or_empty item.metadata "field_name")
  pub tool :
      item.source_type ≡ "tool_result"
      → ValueAllowedBy p.allowed_tool_ids (get_or_empty item.metadata "tool_id")

is_nil_iff : {A : Type 0} (l : List A) → (is_nil l ≡ true) ↔ (l ≡ [])
is_nil_iff [] = (λ _. refl, λ _. refl)
is_nil_iff (x ∷ l) = (λ h. cc, λ h. cc)

texts_iff : (l : List String) (s : String) → ((is_nil l || contains l s) ≡ true) ↔ AllowedBy l s
texts_iff [] s = (λ _. inl refl, λ _. refl)
texts_iff (x ∷ l) s = (λ h. inr ((contains_iff (x ∷ l) s).0 h), back)
  where
    back : AllowedBy (x ∷ l) s → contains (x ∷ l) s ≡ true
    back (inl e) = cc
    back (inr m) = (contains_iff (x ∷ l) s).1 m

values_iff :
    (l : List String) (v : Value) → ((is_nil l || value_in l v) ≡ true) ↔ ValueAllowedBy l v
values_iff l (text s) = texts_iff l s
values_iff [] (sequence m) = (λ _. refl, λ _. refl)
values_iff (x ∷ l) (sequence m) = (λ h. cc, λ h. cc)
values_iff [] (mapping r) = (λ _. refl, λ _. refl)
values_iff (x ∷ l) (mapping r) = (λ h. cc, λ h. cc)
values_iff [] (other r) = (λ _. refl, λ _. refl)
values_iff (x ∷ l) (other r) = (λ h. cc, λ h. cc)

types_iff :
    (p : ExposurePolicy) (t : MemoryType)
    → (allows_memory_type p t ≡ true) ↔ AllowedBy p.allowed_memory_types t
unfolding allows_memory_type
types_iff p t = go p.allowed_memory_types
  where
    go :
        (l : List MemoryType)
        → ((is_nil l || any (λ a. same_memory_type t a) l) ≡ true) ↔ AllowedBy l t
    go [] = (λ _. inl refl, λ _. refl)
    go (x ∷ l) = (λ h. inr (found.0 h), back)
      where
        found : (any (λ a. same_memory_type t a) (x ∷ l) ≡ true) ↔ In t (x ∷ l)
        found = any_iff (λ a. same_memory_type t a) t (x ∷ l) (same_memory_type_iff t)

        back : AllowedBy (x ∷ l) t → any (λ a. same_memory_type t a) (x ∷ l) ≡ true
        back (inl e) = cc
        back (inr m) = found.1 m

memory_gate_of :
    (p : ExposurePolicy) (o : Option MemoryType)
    → ((t : MemoryType) → o ≡ some t → AllowedBy p.allowed_memory_types t)
    → memory_gate p o ≡ true
unfolding memory_gate
memory_gate_of p none h = refl
memory_gate_of p (some t) h = (types_iff p t).1 (h t refl)

-- The tests that a passed item has passed.
record Passed {F : Type 0} (item : ContextItem F) (p : ExposurePolicy) : Type 0 where
  source : allows_source_type p item.source_type ≡ true
  memory : memory_gate p item.memory_type ≡ true
  visible : contains p.state_only_fields item.source_type ≡ false
  field : (item.source_type == "scratchpad") ≡ true → scratchpad_gate p item ≡ true
  tool :
      (item.source_type == "tool_result") ≡ true
      → allows_tool p (get_or_empty item.metadata "tool_id") ≡ true

module _ {F : Type 0} (item : ContextItem F) (p : ExposurePolicy) where
  is_allowed→Passed : is_allowed item p ≡ true → Passed item p
  unfolding is_allowed
  is_allowed→Passed h = ground arith

  Passed→is_allowed : Passed item p → is_allowed item p ≡ true
  unfolding is_allowed
  Passed→is_allowed h = ground arith

  Passed→Permitted : Passed item p → Permitted item p
  unfolding allows_source_type allows_tool memory_gate scratchpad_gate
  Passed→Permitted h = record {
    source = (texts_iff p.allowed_source_types item.source_type).0 h.source;
    memory = λ t e. (types_iff p t).0 (rw e at h.memory);
    visible = λ m. cc (h.visible, (contains_iff p.state_only_fields item.source_type).1 m);
    field = λ e. (values_iff _ _).0 (h.field ((eq_iff _ _).1 e));
    tool = λ e. (values_iff _ _).0 (h.tool ((eq_iff _ _).1 e));
  }

  Permitted→Passed : Permitted item p → Passed item p
  unfolding allows_source_type allows_tool memory_gate scratchpad_gate
  Permitted→Passed h = record {
    source = (texts_iff p.allowed_source_types item.source_type).1 h.source;
    memory = memory_gate_of p item.memory_type h.memory;
    visible = elim (Bool-cases (contains p.state_only_fields item.source_type)) [
      | inl q ↦ absurd (h.visible ((contains_iff _ _).0 q))
      | inr q ↦ q
    ];
    field = λ e. (values_iff _ _).1 (h.field ((eq_iff _ _).0 e));
    tool = λ e. (values_iff _ _).1 (h.tool ((eq_iff _ _).0 e));
  }

  -- An item is let through exactly if all five gates of the policy allow it.
  pub is_allowed_iff : (is_allowed item p ≡ true) ↔ Permitted item p
  is_allowed_iff =
      (λ h. Passed→Permitted (is_allowed→Passed h), λ h. Passed→is_allowed (Permitted→Passed h))
