-- ===== src/Tests/Queries.antt =====
-- Pages of a small audit log and of a small store.
use iroum_ax.Prelude.{ℕ, pos, none, some, [], ◌∷◌, ◌≡◌, refl, arith, ◌≤◌, ◌*◌}
use mathlib.Core.List.{Perm}
use iroum_ax.Prelude.Sorting.{IsDescending}
use iroum_ax.Types.{pending}
use iroum_ax.Audit.{Event, workflow_created, workflow_completed, Action}
use iroum_ax.Store.{FakeStore}
use iroum_ax.Store.Query.{AuditLogFilter, matches, select, query_audit_logs, timestamp}
use iroum_ax.Store.Query.Pages.{audit_pages, audit_pages_complete}
use iroum_ax.Tests.Samples.{store_of}

abbrev event_at : ℕ → Action → Event
event_at t action = record {
  timestamp = t;
  action = action;
  resource_type = "workflow";
  user_id = "cli-anonymous";
  details = none;
  resource_id = 1;
}

abbrev store : FakeStore
store = record (store_of pending) {
  audit_logs =
      event_at 1 workflow_created
      ∷ event_at 4 workflow_completed
      ∷ event_at 3 workflow_created
      ∷ [];
}

abbrev creations : AuditLogFilter
creations = record {
  action = some "WORKFLOW_CREATED";
  resource_type = none;
  resource_id = none;
  user_id = none;
  since = none;
  until = none;
}

first_page : query_audit_logs creations 1 (pos 0) store ≡ (event_at 3 workflow_created ∷ [], 2)
unfolding query_audit_logs matches
first_page = refl

count_fits : (query_audit_logs creations 1 (pos 0) store).1 ≤ 2 * 1
count_fits = rw first_page (omega arith)

audit_pages_complete_example :
    Perm (audit_pages creations 1 2 store) (select creations store.audit_logs)
    × IsDescending timestamp (audit_pages creations 1 2 store)
audit_pages_complete_example = audit_pages_complete creations 1 2 store count_fits
