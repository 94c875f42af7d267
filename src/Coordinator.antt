-- ===== src/Coordinator.antt =====
-- apps/control-plane/internal/workflow/transaction.go: a workflow change and its audit event in
-- one transaction.
pub mod Atomicity
use iroum_ax.Prelude.{String, ℕ, List, false}
use iroum_ax.Errors.{Result, ok, err, wrap}
use iroum_ax.Types.{Workflow, WorkflowState, pending, running, completed, failed}
use iroum_ax.Audit.{
  Action, Recorder, workflow_created, workflow_transitioned_to_running, workflow_completed,
  workflow_failed_dispatch, record_created, record_transition,
}
use iroum_ax.Audit.Uuid.{UuidLib}
use iroum_ax.Store.{
  FakeStore, FakeTx, Session, M, ◌>>◌, failing, begin_tx, insert_workflow, insert_audit_log,
  update_workflow_state, commit, rollback,
}

-- What outlives a transaction: the store and the transition counter of the metrics registry.
pub record Machine : Type 0 where
  pub store : FakeStore
  pub transitions : List (WorkflowState × WorkflowState)

-- The store after `BeginTx`, which reads the three switches and clears them.
abbrev pub begun : Machine → Machine
begun m = record m {
  store = record (m.store) {
    next_tx_fail_on_audit = false;
    next_tx_fail_on_workflow = false;
    next_tx_fail_on_get_workflow = false;
  };
}

-- `defer func() { _ = tx.Rollback(ctx) }()`: on every return, and its error is dropped.
abbrev pub close : {A : Type 0} → Result A × Session → Result A × Machine
close (result, s) =
    let after = (rollback s).1 in
    (result, record { store = after.store; transitions = after.transitions })

-- `tx, err := store.BeginTx(ctx)`, the early return, and the deferred rollback round the rest.
abbrev pub opened :
    {A : Type 0}
    → String
    → M A
    → List (WorkflowState × WorkflowState)
    → Result FakeTx × FakeStore
    → Result A × Machine
opened message body transitions (ok tx, store) =
    close (body (record { store = store; tx = tx; transitions = transitions }))
opened message body transitions (err e, store) =
    (err (wrap message e), record { store = store; transitions = transitions })

abbrev pub in_tx : {A : Type 0} → String → M A → Machine → Result A × Machine
in_tx message body m = opened message body m.transitions (begin_tx m.store)

unfoldable pub workflow_state_to_action : WorkflowState → Action
workflow_state_to_action running = workflow_transitioned_to_running
workflow_state_to_action completed = workflow_completed
workflow_state_to_action failed = workflow_failed_dispatch
workflow_state_to_action pending = workflow_created

module _ (uuid : UuidLib) (recorder : Recorder) (now : ℕ) where
  unfoldable pub execute_workflow_create :
      Workflow → String → String → Machine → Result (Unit {0}) × Machine
  unfolding begin_tx insert_workflow record_created insert_audit_log commit rollback
  execute_workflow_create w document_id user_id = in_tx "workflow create: begin tx" (do
    failing "workflow create: insert workflow" (insert_workflow w)
    failing "workflow create: record audit"
        (record_created uuid recorder now insert_audit_log (uuid.format w.id) document_id user_id)
    failing "workflow create: commit" (commit uuid))

  unfoldable pub execute_workflow_transition :
      String → WorkflowState → WorkflowState → String → Machine → Result (Unit {0}) × Machine
  unfolding begin_tx update_workflow_state workflow_state_to_action record_transition
      insert_audit_log commit rollback
  execute_workflow_transition workflow_id from to user_id =
      in_tx "workflow transition: begin tx" (do
        failing "workflow transition: update state" (update_workflow_state workflow_id to)
        failing "workflow transition: record audit" (
            record_transition uuid recorder now insert_audit_log workflow_id
              (workflow_state_to_action from) (workflow_state_to_action to) user_id)
        failing "workflow transition: commit" (commit uuid))
