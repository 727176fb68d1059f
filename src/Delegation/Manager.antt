-- ===== src/Delegation/Manager.antt =====
-- The tickets of the delegations, and what goes to a sub-agent and comes back. Times of tickets are
-- whole ticks of the monotonic clock; each function takes the reading that it makes as `now`.
use context_agent.Prelude.{
  ℕ, ◌+◌, ◌*◌, String, text_append, text_take, Option, none, some, Bool, not, List, [], ◌&&◌, ◌==◌,
  ltb, if◌then◌else◌, keep, map,
}
use context_agent.Prelude.Dict.{Dict, put, remove, values}
use context_agent.Models.Values.{text}
use context_agent.Models.Context.{ContextItem, ContextSnapshot, ContextView}
use context_agent.Models.Policy.{ExposurePolicy}
use context_agent.Exposure.{apply, get_default_policy}
use context_agent.Versions.Manager.{ObjectStore, VersionManager, create_snapshot}

pub record DelegationTicket : Type 0 where
  pub ticket_id : String
  pub parent_scope_id : String
  pub child_scope_id : String
  pub parent_version_id : String
  pub task_description : String
  pub created_at : ℕ
  pub ttl_s : ℕ

-- `time.monotonic() - self.created_at > self.ttl_s`
unfoldable pub is_expired : DelegationTicket → ℕ → Bool
is_expired t now = ltb (t.created_at + t.ttl_s) now

-- What the random and clock calls of one delegation return: the ids of the version, the child scope
-- (its eight digits), the ticket and a default policy, and the times.
pub record Fresh : Type 0 where
  pub version_id : String
  pub child_hex : String
  pub ticket_id : String
  pub policy_id : String
  pub utc_now : ℕ
  pub now : ℕ

-- `DelegationTicket.create`, with the default lifetime of 300 seconds
unfoldable pub create : ℕ → String → String → String → String → Fresh → DelegationTicket
create ticks_per_second parent_scope_id child_scope_id parent_version_id task t = record {
  ticket_id = t.ticket_id;
  parent_scope_id = parent_scope_id;
  child_scope_id = child_scope_id;
  parent_version_id = parent_version_id;
  task_description = task;
  created_at = t.now;
  ttl_s = 300 * ticks_per_second;
}

pub record SubAgentManager (S : Type 0) : Type 0 where
  pub versions : VersionManager S
  pub tickets : Dict DelegationTicket

-- `policy`, or the default one where it is `None`.
unfoldable pub chosen_policy : Option ExposurePolicy → String → Fresh → ExposurePolicy
chosen_policy none scope_id t = get_default_policy scope_id t.policy_id t.utc_now
chosen_policy (some p) scope_id t = p

module _ {F S : Type 0} (b : ObjectStore S) (model_dump_json : ContextSnapshot F → String)
    (ticks_per_second : ℕ) where
  unfoldable pub delegate :
      SubAgentManager S
      → ContextSnapshot F
      → String
      → Option ExposurePolicy
      → ℕ
      → Fresh
      → SubAgentManager S × ContextView F × DelegationTicket
  delegate m parent task policy ttl_s t =
      let label = text_append "pre-delegation:" (text_take 32 task) in
      let (versions, version) =
        create_snapshot b model_dump_json m.versions parent label "sub_agent_manager" t.version_id
          t.utc_now in
      let child_scope_id = text_append parent.scope_id (text_append ":child:" t.child_hex) in
      let ticket =
        record (create ticks_per_second parent.scope_id child_scope_id version.version_id task t) {
          ttl_s = ttl_s;
        } in
      let view = apply parent (chosen_policy policy parent.scope_id t) t.utc_now in
      (
        record { versions = versions; tickets = put m.tickets ticket.ticket_id ticket },
        record view { scope_id = child_scope_id },
        ticket,
      )

-- The copy of an item that a ticket tags.
unfoldable pub tagged : {F : Type 0} → DelegationTicket → ContextItem F → ContextItem F
tagged ticket item = record item {
  metadata =
      put (put item.metadata "delegated_from" (text ticket.child_scope_id)) "ticket_id"
        (text ticket.ticket_id);
}

unfoldable pub receive_result :
    {F S : Type 0}
    → SubAgentManager S
    → DelegationTicket
    → List (ContextItem F)
    → ℕ
    → SubAgentManager S × List (ContextItem F)
receive_result m ticket items now =
    if is_expired ticket now
    then (m, [])
    else (record m { tickets = remove m.tickets ticket.ticket_id }, map (tagged ticket) items)

unfoldable pub is_active : String → ℕ → DelegationTicket → Bool
is_active parent_scope_id now t = t.parent_scope_id == parent_scope_id && not (is_expired t now)

unfoldable pub get_active_tickets :
    {S : Type 0} → SubAgentManager S → String → ℕ → List DelegationTicket
get_active_tickets m parent_scope_id now = keep (is_active parent_scope_id now) (values m.tickets)
