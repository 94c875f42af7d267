-- ===== src/StateMachine.antt =====
-- apps/control-plane/internal/workflow/state_machine.go: the guarded transitions of a workflow.
-- The mutex of the source is held by a transition from its first line to its return, so transitions
-- that run concurrently are a sequence of them in some order.
pub mod Moves
pub mod Reference
pub mod Effects
pub mod History
pub mod Lifecycle
use iroum_ax.Prelude.{String, ℕ, List, [], ◌∷◌, ◌++◌, if◌then◌else◌}
use iroum_ax.Errors.{Result, ok, err, sentinel, wrap, invalid_transition}
use iroum_ax.Types.{WorkflowState, pending, running, completed, failed, is_valid_transition}
use iroum_ax.Audit.{
  Recorder, record_transitioned_to_running, record_completed, record_failed_dispatch,
  record_failed_callback,
}
use iroum_ax.Audit.Uuid.{UuidLib}
use iroum_ax.Store.{
  M, ◌>>=◌, ◌>>◌, failing, begin_tx, insert_audit_log, update_workflow_state,
  update_workflow_result, get_workflow, commit, rollback,
}
use iroum_ax.Coordinator.{Machine, in_tx}

-- `if !types.IsValidTransition(from, to) { return … ErrInvalidTransition }`.
abbrev check_transition : String → WorkflowState → WorkflowState → M (Unit {0})
check_transition message from to s =
    if is_valid_transition from to
    then (ok tt, s)
    else (err (wrap message (sentinel invalid_transition)), s)

-- `metrics.IncWorkflowTransition(from, to)`.
abbrev inc_workflow_transition : WorkflowState → WorkflowState → M (Unit {0})
inc_workflow_transition from to s =
    (ok tt, record s { transitions = s.transitions ++ (from, to) ∷ [] })

module _ (uuid : UuidLib) (recorder : Recorder) (now : ℕ) where
  unfoldable pub start : String → Machine → Result (Unit {0}) × Machine
  unfolding begin_tx get_workflow update_workflow_state record_transitioned_to_running
      insert_audit_log commit rollback
  start workflow_id = in_tx "state machine start: begin tx" (do
    wf ← failing "state machine start: get workflow" (get_workflow workflow_id)
    check_transition "state machine start" wf.state running
    failing "state machine start: update state" (update_workflow_state workflow_id running)
    failing "state machine start: record audit"
        (record_transitioned_to_running uuid recorder now insert_audit_log workflow_id "")
    failing "state machine start: commit" (commit uuid)
    inc_workflow_transition pending running)

  unfoldable pub complete : String → List ℕ → Machine → Result (Unit {0}) × Machine
  unfolding begin_tx get_workflow update_workflow_state update_workflow_result record_completed
      insert_audit_log commit rollback
  complete workflow_id result_json = in_tx "state machine complete: begin tx" (do
    wf ← failing "state machine complete: get workflow" (get_workflow workflow_id)
    check_transition "state machine complete" wf.state completed
    failing "state machine complete: update state" (update_workflow_state workflow_id completed)
    failing "state machine complete: update result" (update_workflow_result workflow_id result_json)
    failing "state machine complete: record audit"
        (record_completed uuid recorder now insert_audit_log workflow_id "")
    failing "state machine complete: commit" (commit uuid)
    inc_workflow_transition running completed)

  -- The `switch` on the state that the workflow had.
  record_failure : String → String → WorkflowState → M (Unit {0})
  unfolding record_failed_dispatch record_failed_callback insert_audit_log
  record_failure workflow_id reason pending =
      failing "state machine fail: record dispatch audit"
        (record_failed_dispatch uuid recorder now insert_audit_log workflow_id "")
  record_failure workflow_id reason _ =
      failing "state machine fail: record callback audit"
        (record_failed_callback uuid recorder now insert_audit_log workflow_id reason "")

  unfoldable pub fail : String → String → Machine → Result (Unit {0}) × Machine
  unfolding begin_tx get_workflow update_workflow_state record_failure commit rollback
  fail workflow_id reason = in_tx "state machine fail: begin tx" (do
    wf ← failing "state machine fail: get workflow" (get_workflow workflow_id)
    check_transition "state machine fail" wf.state failed
    failing "state machine fail: update state" (update_workflow_state workflow_id failed)
    record_failure workflow_id reason wf.state
    failing "state machine fail: commit" (commit uuid)
    inc_workflow_transition wf.state failed)

unfoldable pub current_state : String → Machine → Result WorkflowState × Machine
unfolding begin_tx get_workflow rollback
current_state workflow_id = in_tx "state machine current state: begin tx" (do
  wf ← failing "state machine current state: get workflow" (get_workflow workflow_id)
  λ s. (ok wf.state, s))
