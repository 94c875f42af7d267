-- ===== src/StateMachine/Reference.antt =====
-- The transitions of workflow/state_machine.go against a direct description of their effect, with
-- no transaction, no buffer and no rollback.
use iroum_ax.Prelude.{
  String, ℕ, List, none, some, if◌then◌else◌, lookup, Bool-cases, Option-cases, inl, inr, ◌≡◌, ◌∙◌,
  ◌⊎◌, arith, adjust-adjust, true, false,
}
use iroum_ax.Errors.{
  Result, ok, err, sentinel, wrap, invalid_transition, workflow_not_found, fake_get_workflow_fail,
  fake_audit_insert_fail,
}
use iroum_ax.Types.{
  Workflow, WorkflowState, pending, running, completed, failed, is_valid_transition,
}
use iroum_ax.Audit.{Recorder}
use iroum_ax.Audit.Uuid.{UuidLib}
use iroum_ax.Store.{set_state, set_result}
use iroum_ax.Coordinator.{Machine, begun}
use iroum_ax.StateMachine.{start, complete, fail}
use iroum_ax.StateMachine.Moves.{
  Move, start_move, complete_move, fail_move, target, subject, execute, event, accepted,
}

abbrev get_message : Move → String
get_message (start_move id) = "state machine start: get workflow"
get_message (complete_move id result_json) = "state machine complete: get workflow"
get_message (fail_move id reason) = "state machine fail: get workflow"

abbrev check_message : Move → String
check_message (start_move id) = "state machine start"
check_message (complete_move id result_json) = "state machine complete"
check_message (fail_move id reason) = "state machine fail"

abbrev audit_message : Move → WorkflowState → String
audit_message (start_move id) from = "state machine start: record audit"
audit_message (complete_move id result_json) from = "state machine complete: record audit"
audit_message (fail_move id reason) pending = "state machine fail: record dispatch audit"
audit_message (fail_move id reason) _ = "state machine fail: record callback audit"

module _ (uuid : UuidLib) (recorder : Recorder) (now : ℕ) where
  unfoldable pub reference_found : Move → Machine → Workflow → Result (Unit {0}) × Machine
  reference_found move m wf =
      if is_valid_transition wf.state (target move)
      then if m.store.next_tx_fail_on_audit
        then (err (wrap (audit_message move wf.state) (sentinel fake_audit_insert_fail)), begun m)
        else (ok tt, accepted move wf (event uuid recorder now move wf.state) m)
      else (err (wrap (check_message move) (sentinel invalid_transition)), begun m)

  unfoldable pub reference : Move → Machine → Result (Unit {0}) × Machine
  unfolding reference_found
  reference move m =
      if m.store.next_tx_fail_on_get_workflow
      then (err (wrap (get_message move) (sentinel fake_get_workflow_fail)), begun m)
      else elim (lookup (subject move) m.store.workflows) [
        | none ↦ (err (wrap (get_message move) (sentinel workflow_not_found)), begun m)
        | some wf ↦ reference_found move m wf
      ]

valid_running : (s : WorkflowState) → is_valid_transition s running ≡ true → s ≡ pending
unfolding is_valid_transition
valid_running s h = ground arith

valid_completed : (s : WorkflowState) → is_valid_transition s completed ≡ true → s ≡ running
unfolding is_valid_transition
valid_completed s h = ground arith

valid_failed :
    (s : WorkflowState) → is_valid_transition s failed ≡ true → (s ≡ pending) ⊎ (s ≡ running)
unfolding is_valid_transition
valid_failed s h = ground arith

-- The five ways through a transition to `to`.
pub data Branch (id : String) (to : WorkflowState) (m : Machine) : Type 0 where
  get_fails : m.store.next_tx_fail_on_get_workflow ≡ true → Branch id to m
  missing :
      m.store.next_tx_fail_on_get_workflow ≡ false
      → lookup id m.store.workflows ≡ none
      → Branch id to m
  invalid :
      (wf : Workflow)
      → m.store.next_tx_fail_on_get_workflow ≡ false
      → lookup id m.store.workflows ≡ some wf
      → is_valid_transition wf.state to ≡ false
      → Branch id to m
  audit_fails :
      (wf : Workflow)
      → m.store.next_tx_fail_on_get_workflow ≡ false
      → lookup id m.store.workflows ≡ some wf
      → is_valid_transition wf.state to ≡ true
      → m.store.next_tx_fail_on_audit ≡ true
      → Branch id to m
  passes :
      (wf : Workflow)
      → m.store.next_tx_fail_on_get_workflow ≡ false
      → lookup id m.store.workflows ≡ some wf
      → is_valid_transition wf.state to ≡ true
      → m.store.next_tx_fail_on_audit ≡ false
      → Branch id to m

pub branch : (id : String) (to : WorkflowState) (m : Machine) → Branch id to m
branch id to m = elim (Bool-cases m.store.next_tx_fail_on_get_workflow) [
  | inl e ↦ get_fails e
  | inr e ↦ elim (Option-cases (lookup id m.store.workflows)) [
    | inl none_there ↦ missing e none_there
    | inr (wf, found) ↦ elim (Bool-cases (is_valid_transition wf.state to)) [
      | inr refused ↦ invalid wf e found refused
      | inl valid ↦ elim (Bool-cases m.store.next_tx_fail_on_audit) [
        | inl audit ↦ audit_fails wf e found valid audit
        | inr audit ↦ passes wf e found valid audit
      ]
    ]
  ]
]

module _ (uuid : UuidLib) (recorder : Recorder) (now : ℕ) (id : String) (m : Machine) where
  start-reference :
      Branch id running m
      → start uuid recorder now id m ≡ reference uuid recorder now (start_move id) m
  unfolding start reference
  start-reference (get_fails e) = rw (e, start, reference)
  start-reference (missing e f) = rw (e, f, start, reference)
  start-reference (invalid wf e f v) = rw (e, f, v, start, reference)
  start-reference (audit_fails wf e f v a) = rw (e, f, v, a, start, reference)
  start-reference (passes wf e f v a) =
      rw (e, f, v, a, start, reference) (rw (valid_running wf.state v))

  complete-reference :
      (json : List ℕ)
      → Branch id completed m
      → complete uuid recorder now id json m ≡ reference uuid recorder now (complete_move id json) m
  unfolding complete reference
  complete-reference json (get_fails e) = rw (e, complete, reference)
  complete-reference json (missing e f) = rw (e, f, complete, reference)
  complete-reference json (invalid wf e f v) = rw (e, f, v, complete, reference)
  complete-reference json (audit_fails wf e f v a) = rw (e, f, v, a, complete, reference)
  complete-reference json (passes wf e f v a) =
      rw (e, f, v, a, complete, reference)
        (rw (valid_completed wf.state v, adjust-adjust id (set_state completed) (set_result json)))

  fail-reference :
      (reason : String)
      → Branch id failed m
      → fail uuid recorder now id reason m ≡ reference uuid recorder now (fail_move id reason) m
  unfolding fail reference
  fail-reference reason (get_fails e) = rw (e, fail, reference)
  fail-reference reason (missing e f) = rw (e, f, fail, reference)
  fail-reference reason (invalid wf e f v) = rw (e, f, v, fail, reference)
  fail-reference reason (audit_fails wf e f v a) = elim (valid_failed wf.state v) [
    | inl p ↦ rw (e, f, v, a, p, fail, reference)
    | inr p ↦ rw (e, f, v, a, p, fail, reference)
  ]
  fail-reference reason (passes wf e f v a) = elim (valid_failed wf.state v) [
    | inl p ↦ rw (e, f, v, a, p, fail, reference)
    | inr p ↦ rw (e, f, v, a, p, fail, reference)
  ]

-- `Start`, `Complete` and `Fail`, with their transaction, its buffers, the commit and the deferred
-- rollback, do on every store exactly what the direct description says: the error of the first
-- check that fails, with the store's rows, events and counts as they were, or the changed row with
-- one event and one count more.
pub execute-reference :
    (uuid : UuidLib) (recorder : Recorder) (now : ℕ) (move : Move) (m : Machine)
    → execute uuid recorder now move m ≡ reference uuid recorder now move m
unfolding execute
execute-reference uuid recorder now (start_move id) m =
    start-reference uuid recorder now id m (branch id running m)
execute-reference uuid recorder now (complete_move id json) m =
    complete-reference uuid recorder now id m json (branch id completed m)
execute-reference uuid recorder now (fail_move id reason) m =
    fail-reference uuid recorder now id m reason (branch id failed m)

-- An edge of the diagram is taken if no fault is injected.
pub execute-accepted :
    (uuid : UuidLib) (recorder : Recorder) (now : ℕ) (move : Move) (m : Machine) (wf : Workflow)
    → m.store.next_tx_fail_on_get_workflow ≡ false
    → m.store.next_tx_fail_on_audit ≡ false
    → lookup (subject move) m.store.workflows ≡ some wf
    → is_valid_transition wf.state (target move) ≡ true
    → execute uuid recorder now move m
      ≡ (ok tt, accepted move wf (event uuid recorder now move wf.state) m)
unfolding reference
execute-accepted uuid recorder now move m wf e a f v =
    execute-reference uuid recorder now move m ∙ rw (e, f, v, a, reference)
