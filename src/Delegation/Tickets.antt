-- ===== src/Delegation/Tickets.antt =====
-- What a delegation shows, and what becomes of its ticket.
use context_agent.Prelude.{
  ℕ, ◌+◌, ◌≤◌, ltb, String, ◌≡◌, ◌≢◌, ◌↔◌, refl, ◌∙◌, Option, none, some, true, false, List, [],
  ◌∷◌, ◌++◌, arith, eq_iff, In, In-keep, keep-In, map, ◌⊎◌, inl, inr, length,
}
use context_agent.Prelude.Dict.{
  Dict, get, put, has, values, put_of_not-has, Distinct, get-put, get-remove,
}
use context_agent.Models.Values.{text}
use context_agent.Models.Context.{ContextItem, ContextSnapshot, ContextView}
use context_agent.Models.Policy.{ExposurePolicy}
use context_agent.Exposure.{Permitted}
use context_agent.Versions.Manager.{ObjectStore, restored, restore, create_snapshot, new_record}
use context_agent.Versions.History.{ReadsBack, IsNewVersion, restore-create_snapshot}
use context_agent.Delegation.Manager.{
  DelegationTicket, is_expired, Fresh, create, SubAgentManager, delegate, tagged, receive_result,
  is_active, get_active_tickets,
}

is_active_iff :
    (scope_id : String) (now : ℕ) (x : DelegationTicket)
    → (is_active scope_id now x ≡ true)
      ↔ ((x.parent_scope_id ≡ scope_id) × (now ≤ x.created_at + x.ttl_s))
unfolding is_active is_expired
is_active_iff scope_id now x = (
  λ a. ((eq_iff x.parent_scope_id scope_id).0 (ground arith), ground arith),
  λ (s, early). ground (arith, (eq_iff x.parent_scope_id scope_id).1 s),
)

-- A new entry of a dict is one more value.
In-values-put :
    {V : Type 0} (d : Dict V) (k : String) (v x : V)
    → has d k ≡ false
    → In x (values (put d k v)) ↔ (In x (values d) ⊎ (x ≡ v))
unfolding values
In-values-put {V} d k v x h = rw (put_of_not-has d k v h) (appended d)
  where
    appended : (d : Dict V) → In x (values (d ++ (k, v) ∷ [])) ↔ (In x (values d) ⊎ (x ≡ v))
    appended [] = (
      λ i. elim i [ inl e ↦ inr e | inr m ↦ absurd m ],
      λ i. elim i [ inl m ↦ absurd m | inr e ↦ inl e ],
    )
    appended ((j, w) ∷ d) = (
      λ i. elim i [
        | inl e ↦ inl (inl e)
        | inr m ↦ elim ((appended d).0 m) [ inl n ↦ inl (inr n) | inr e ↦ inr e ]
      ],
      λ i. elim i [
        | inl n ↦ elim n [ inl e ↦ inl e | inr m ↦ inr ((appended d).1 (inl m)) ]
        | inr e ↦ inr ((appended d).1 (inr e))
      ],
    )

module _ {F S : Type 0} (b : ObjectStore S) (dump : ContextSnapshot F → String)
    (ticks_per_second : ℕ) (m : SubAgentManager S) (parent : ContextSnapshot F) (task : String)
    (policy : Option ExposurePolicy) (ttl_s : ℕ) (t : Fresh) where
  -- The version that a delegation's ticket names restores the parent's snapshot as it was, when the
  -- object store reads back what it took, the version's key is new, and the parent's JSON reads back.
  pub restore-delegate :
      (parse : String → Option (ContextSnapshot F)) (scope_id session_id : String)
      → ReadsBack b
      → IsNewVersion b m.versions t.version_id
      → parse (dump parent) ≡ some parent
      → (let made = delegate b dump ticks_per_second m parent task policy ttl_s t in
          restore b parse made.0.versions scope_id session_id made.2.parent_version_id
          ≡ restored parent)
  unfolding delegate create create_snapshot new_record
  restore-delegate parse scope_id session_id reads fresh trip =
      restore-create_snapshot b dump parse m.versions parent _ "sub_agent_manager" t.version_id
        t.utc_now scope_id session_id reads fresh trip

-- What a sub-agent is shown under a policy: exactly the items that it permits, and the number of
-- the others.
pub record IsShown {F : Type 0} (parent : ContextSnapshot F) (view : ContextView F)
    (p : ExposurePolicy) : Type 0 where
  pub visible :
      (item : ContextItem F)
      → In item view.visible_items ↔ (In item parent.items × Permitted item p)
  pub hidden : length view.visible_items + view.hidden_item_count ≡ length parent.items
  pub policy_id : view.applied_policy_id ≡ some p.policy_id

module _ {F S : Type 0} (b : ObjectStore S) (dump : ContextSnapshot F → String)
    (ticks_per_second : ℕ) (m : SubAgentManager S) (parent : ContextSnapshot F) (task : String)
    (ttl_s : ℕ) (t : Fresh) where
  -- Where the id of a delegation's ticket is not in use yet, the active tickets of any scope are
  -- afterwards, at any time, exactly the new ticket and those that were held before, as far as they
  -- are of the scope and their lifetimes are not over. The new ticket is of the parent's scope, made
  -- at the time of the delegation, with the lifetime that was asked for.
  pub get_active_tickets-delegate :
      (policy : Option ExposurePolicy) (scope_id : String) (now : ℕ) (x : DelegationTicket)
      → has m.tickets t.ticket_id ≡ false
      → (let made = delegate b dump ticks_per_second m parent task policy ttl_s t in
          (In x (get_active_tickets made.0 scope_id now) ↔ (
            (In x (values m.tickets) ⊎ (x ≡ made.2))
            × (x.parent_scope_id ≡ scope_id)
            × (now ≤ x.created_at + x.ttl_s)))
          × (made.2.parent_scope_id ≡ parent.scope_id)
          × (made.2.created_at ≡ t.now)
          × (made.2.ttl_s ≡ ttl_s))
  unfolding delegate create get_active_tickets
  get_active_tickets-delegate policy scope_id now x fresh = (
    (
      λ i.
          let (i', a) =
            keep-In (is_active scope_id now) x (values (put m.tickets t.ticket_id _)) i in
          let (scope, early) = (is_active_iff scope_id now x).0 a in
          ((In-values-put m.tickets t.ticket_id _ x fresh).0 i', scope, early),
      λ (i, scope, early).
          In-keep (is_active scope_id now) x (values (put m.tickets t.ticket_id _))
            ((In-values-put m.tickets t.ticket_id _ x fresh).1 i)
            ((is_active_iff scope_id now x).1 (scope, early)),
    ),
    refl,
    refl,
    refl,
  )

-- An item that comes back is the item that was sent, with the two tags and no other change.
pub record IsTagged {F : Type 0} (ticket : DelegationTicket) (item back : ContextItem F)
    : Type 0 where
  pub rest : record back { metadata = item.metadata } ≡ item
  pub delegated_from : get back.metadata "delegated_from" ≡ some (text ticket.child_scope_id)
  pub ticket_id : get back.metadata "ticket_id" ≡ some (text ticket.ticket_id)
  pub others :
      (k : String)
      → k ≢ "delegated_from"
      → k ≢ "ticket_id"
      → get back.metadata k ≡ get item.metadata k

-- Two lists of the same length whose items are related one by one.
abbrev pub Related : {A : Type 0} → (A → A → Type 0) → List A → List A → Type 0
Related R [] [] = Unit
Related R [] (y ∷ ys) = ⊥
Related R (x ∷ xs) [] = ⊥
Related R (x ∷ xs) (y ∷ ys) = R x y × Related R xs ys

tagged-IsTagged :
    {F : Type 0} (ticket : DelegationTicket) (item : ContextItem F)
    → IsTagged ticket item (tagged ticket item)
unfolding tagged
tagged-IsTagged ticket item = record {
  rest = refl;
  delegated_from =
      get-put (put item.metadata "delegated_from" (text ticket.child_scope_id)) "ticket_id"
        "delegated_from" (text ticket.ticket_id)
      ∙ get-put item.metadata "delegated_from" "delegated_from" (text ticket.child_scope_id);
  ticket_id =
      get-put (put item.metadata "delegated_from" (text ticket.child_scope_id)) "ticket_id"
        "ticket_id" (text ticket.ticket_id);
  others = λ k n n'. ground (
    arith,
    get-put (put item.metadata "delegated_from" (text ticket.child_scope_id)) "ticket_id" k
        (text ticket.ticket_id),
    get-put item.metadata "delegated_from" k (text ticket.child_scope_id),
    eq_iff "ticket_id" k,
    eq_iff "delegated_from" k,
  );
}

map-tagged-Related :
    {F : Type 0} (ticket : DelegationTicket) (items : List (ContextItem F))
    → Related (IsTagged ticket) items (map (tagged ticket) items)
map-tagged-Related ticket [] = tt
map-tagged-Related ticket (i ∷ items) = (tagged-IsTagged ticket i, map-tagged-Related ticket items)

-- The results of a sub-agent come back one by one, tagged with the child scope and the ticket and
-- otherwise unchanged, and the ticket is closed, as long as its lifetime is not over (the keys of
-- the tickets being distinct).
pub receive_result-Related :
    {F S : Type 0} (m : SubAgentManager S) (ticket : DelegationTicket)
    (items : List (ContextItem F)) (now : ℕ)
    → Distinct m.tickets
    → now ≤ ticket.created_at + ticket.ttl_s
    → Related (IsTagged ticket) items (receive_result m ticket items now).1
      × (get (receive_result m ticket items now).0.tickets ticket.ticket_id ≡ none)
unfolding receive_result is_expired
receive_result-Related m ticket items now distinct soon = rw in_time (
  map-tagged-Related ticket items,
  get-remove m.tickets ticket.ticket_id ticket.ticket_id distinct
      ∙ rw ((eq_iff ticket.ticket_id ticket.ticket_id).1 refl) refl,
)
  where
    in_time : ltb (ticket.created_at + ticket.ttl_s) now ≡ false
    in_time = ground arith
