-- ===== src/StateMachine/Moves.antt =====
-- The three transitions of workflow/state_machine.go as values, with what each is to do.
use iroum_ax.Prelude.{String, ℕ, List, [], ◌∷◌, ◌++◌, adjust}
use iroum_ax.Errors.{Result}
use iroum_ax.Types.{Workflow, WorkflowState, pending, running, completed, failed}
use iroum_ax.Audit.{
  Recorder, Event, record_transitioned_to_running, record_completed, record_failed_dispatch,
  record_failed_callback,
}
use iroum_ax.Audit.Uuid.{UuidLib}
use iroum_ax.Store.{set_state, set_result}
use iroum_ax.Coordinator.{Machine, begun}
use iroum_ax.StateMachine.{start, complete, fail}

pub data Move : Type 0 where
  start_move : String → Move
  complete_move : String → List ℕ → Move
  fail_move : String → String → Move

abbrev pub target : Move → WorkflowState
target (start_move id) = running
target (complete_move id result_json) = completed
target (fail_move id reason) = failed

abbrev pub subject : Move → String
subject (start_move id) = id
subject (complete_move id result_json) = id
subject (fail_move id reason) = id

abbrev pub change : Move → Workflow → Workflow
change (start_move id) wf = set_state running wf
change (complete_move id result_json) wf = set_result result_json (set_state completed wf)
change (fail_move id reason) wf = set_state failed wf

module _ (uuid : UuidLib) (recorder : Recorder) (now : ℕ) where
  unfoldable pub execute : Move → Machine → Result (Unit {0}) × Machine
  execute (start_move id) m = start uuid recorder now id m
  execute (complete_move id result_json) m = complete uuid recorder now id result_json m
  execute (fail_move id reason) m = fail uuid recorder now id reason m

  -- The event that a move leaves behind.
  abbrev pub event : Move → WorkflowState → Event
  event (start_move id) from = record_transitioned_to_running uuid recorder now (λ e. e) id ""
  event (complete_move id result_json) from = record_completed uuid recorder now (λ e. e) id ""
  event (fail_move id reason) pending = record_failed_dispatch uuid recorder now (λ e. e) id ""
  event (fail_move id reason) _ = record_failed_callback uuid recorder now (λ e. e) id reason ""

-- All effects of an accepted move: the row, one event, one count.
abbrev pub accepted : Move → Workflow → Event → Machine → Machine
accepted move wf e m = record m {
  store = record ((begun m).store) {
    workflows = adjust (subject move) (change move) m.store.workflows;
    audit_logs = m.store.audit_logs ++ e ∷ [];
  };
  transitions = m.transitions ++ (wf.state, target move) ∷ [];
}
