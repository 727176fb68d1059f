-- ===== src/Examples/Keeping.antt =====
-- Versions and delegations.
use context_agent.Prelude.{
  ℕ, ◌+◌, ◌≤◌, ◌⊎◌, ◌<◌, refl, sym, ap, ◌∙◌, eq_of_some, eq_iff, text_append, String, ◌≡◌, ◌↔◌, inr,
  Option, none, some, false, [], ◌∷◌, arith, All, In, ◌==◌,
}
use context_agent.Prelude.Dict.{Dict, put, remove, get-put, get, get_or, has, values}
use context_agent.Models.Context.{ContextSnapshot}
use context_agent.Models.Version.{ContextVersionRecord}
use context_agent.Models.Errors.{context_agent_error, version_not_found}
use context_agent.Versions.Manager.{
  ObjectStore, VersionManager, restored, failed, create_snapshot, restore, list_versions,
  delete_version, load, context_key,
}
use context_agent.Versions.History.{
  ReadsBack, IsNewVersion, restore-create_snapshot, list_versions-create_snapshot,
  restore-delete_version,
}
use context_agent.Delegation.Manager.{
  DelegationTicket, Fresh, SubAgentManager, delegate, receive_result, get_active_tickets,
}
use context_agent.Delegation.Tickets.{
  Related, IsTagged, restore-delegate, get_active_tickets-delegate, receive_result-Related,
}
use context_agent.Examples.Data.{snapshot, note_item, tool_item}

-- An object store that keeps what it is given.
abbrev objects : ObjectStore (Dict String)
objects = record {
  put_object = λ s bucket key body. some (put s (text_append bucket key) body);
  get_object = λ s bucket key. get s (text_append bucket key);
  delete_object = λ s bucket key. some (remove s (text_append bucket key));
}

objects-ReadsBack : ReadsBack objects
objects-ReadsBack s s' bucket key body e =
    ap (λ x. get x (text_append bucket key)) (sym (eq_of_some e))
    ∙ get-put s (text_append bucket key) (text_append bucket key) body
    ∙ rw ((eq_iff (text_append bucket key) (text_append bucket key)).1 refl) refl

abbrev manager : VersionManager (Dict String)
manager = record { s3 = some []; bucket = "versions"; local = []; local_data = [] }

new_key : IsNewVersion objects manager "v1"
unfolding get
new_key s e = rw⁻¹ (eq_of_some e) refl

-- The JSON of the one snapshot.
abbrev to_json : ContextSnapshot ℕ → String
to_json x = "{}"

abbrev of_json : String → Option (ContextSnapshot ℕ)
of_json s = some snapshot

restore-create_snapshot_example :
    restore objects of_json
      (create_snapshot objects to_json manager snapshot "first" "user" "v1" 5).0
      "team"
      "tuesday"
      "v1"
    ≡ restored snapshot
restore-create_snapshot_example =
    restore-create_snapshot objects to_json of_json manager snapshot "first" "user" "v1" 5 "team"
      "tuesday" objects-ReadsBack new_key refl

-- In process, with one version of the context.
abbrev local_manager : VersionManager (Dict String)
local_manager = record {
  s3 = none;
  bucket = "versions";
  local = ("team:monday", old_version ∷ []) ∷ [];
  local_data = ("v0", "{}") ∷ [];
}
  where
    old_version : ContextVersionRecord
    old_version = record {
      version_id = "v0";
      context_id = "team:monday";
      scope_id = "team";
      label = "";
      state_ref = "versions/v0.json";
      token_count = 10;
      item_count = 3;
      is_compressed = false;
      created_by = "system";
      created_at = 4;
      metadata = [];
    }

earlier_versions :
    All (λ r. r.created_at < 5) (get_or local_manager.local (context_key "team" "monday") [])
unfolding get_or context_key
earlier_versions = (omega arith, tt)

list_versions-create_snapshot_example :
    list_versions objects
      (create_snapshot objects to_json local_manager snapshot "first" "user" "v1" 5).0
      "team"
      "monday"
      2
    ≡ (create_snapshot objects to_json local_manager snapshot "first" "user" "v1" 5).1
      ∷ list_versions objects local_manager "team" "monday" 1
list_versions-create_snapshot_example =
    list_versions-create_snapshot objects to_json local_manager snapshot "first" "user" "v1" 5 1
      earlier_versions

restore-delete_version_example :
    (m' : VersionManager (Dict String)) × (delete_version objects local_manager "v0" ≡ inr m')
    × (restore objects of_json m' "team" "monday" "v0"
        ≡ failed (context_agent_error version_not_found))
    × All (λ r. (r.version_id == "v0") ≡ false) (list_versions objects m' "team" "monday" 9)
    × (load objects m' "v1" ≡ load objects local_manager "v1")
restore-delete_version_example =
    restore-delete_version objects of_json local_manager "v0" "v1" "team" "monday" 9 refl (tt, tt)
      refl

abbrev agents : SubAgentManager (Dict String)
agents = record { versions = manager; tickets = [] }

abbrev fresh : Fresh
fresh = record {
  version_id = "v1";
  child_hex = "0a1b2c3d";
  ticket_id = "k1";
  policy_id = "p9";
  utc_now = 7;
  now = 100;
}

restore-delegate_example :
    restore objects of_json
      (delegate objects to_json 1 agents snapshot "list the files" none 300 fresh).0.versions
      "a"
      "b"
      (delegate objects to_json 1 agents snapshot "list the files" none 300
        fresh).2.parent_version_id
    ≡ restored snapshot
restore-delegate_example =
    restore-delegate objects to_json 1 agents snapshot "list the files" none 300 fresh of_json "a"
      "b" objects-ReadsBack new_key refl

abbrev ticket : DelegationTicket
ticket = record {
  ticket_id = "k1";
  parent_scope_id = "team";
  child_scope_id = "team:child:0a1b2c3d";
  parent_version_id = "v1";
  task_description = "list the files";
  created_at = 100;
  ttl_s = 300;
}

abbrev waiting : SubAgentManager (Dict String)
waiting = record { versions = manager; tickets = ("k1", ticket) ∷ [] }

receive_result-Related_example :
    Related
      (IsTagged ticket)
      (tool_item ∷ note_item ∷ [])
      (receive_result waiting ticket (tool_item ∷ note_item ∷ []) 200).1
    × (get (receive_result waiting ticket (tool_item ∷ note_item ∷ []) 200).0.tickets "k1" ≡ none)
receive_result-Related_example =
    receive_result-Related waiting ticket (tool_item ∷ note_item ∷ []) 200 (tt, tt) (omega arith)

-- What another delegation returns, by a manager that has the ticket.
abbrev again : Fresh
again = record fresh { ticket_id = "k2" }

get_active_tickets-delegate_example :
    (let made = delegate objects to_json 1 waiting snapshot "list the files" none 300 again in
      (In ticket (get_active_tickets made.0 "team" 400) ↔ (
        (In ticket (values waiting.tickets) ⊎ (ticket ≡ made.2))
        × (ticket.parent_scope_id ≡ "team")
        × (400 ≤ ticket.created_at + ticket.ttl_s)))
      × (made.2.parent_scope_id ≡ snapshot.scope_id)
      × (made.2.created_at ≡ again.now)
      × (made.2.ttl_s ≡ 300))
unfolding has get
get_active_tickets-delegate_example =
    get_active_tickets-delegate objects to_json 1 waiting snapshot "list the files" 300 again none
      "team" 400 ticket refl
