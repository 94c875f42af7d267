-- ===== src/StateMachine/Lifecycle.antt =====
-- A workflow from its creation to its result: workflow/transaction.go and state_machine.go together.
use iroum_ax.Prelude.{
  String, ℕ, List, [], ◌∷◌, ◌++◌, some, lookup, insert, ◌∙◌, lookup-insert_self, lookup-adjust_self,
  ◌≡◌, refl, false, map,
}
use mathlib.Core.List.{map-append, append_assoc}
use iroum_ax.Errors.{Result, ok}
use iroum_ax.Types.{Workflow, pending, running, completed, is_valid_transition}
use iroum_ax.Audit.{
  Recorder, Event, Action, workflow_created, workflow_transitioned_to_running, workflow_completed,
  record_created, record_transitioned_to_running, record_completed, parse_resource_id,
}
use iroum_ax.Audit.Uuid.{UuidLib, ParsesFormat}
use iroum_ax.Coordinator.{Machine, begun, execute_workflow_create}
use iroum_ax.Coordinator.Atomicity.{create_effect, execute_workflow_create-effect}
use iroum_ax.Store.{set_state, set_result}
use iroum_ax.StateMachine.{start, complete}
use iroum_ax.StateMachine.Moves.{start_move, complete_move, event, execute, accepted}
use iroum_ax.StateMachine.Reference.{execute-accepted}

resource_id-format :
    (uuid : UuidLib) → ParsesFormat uuid → (id : ℕ) → parse_resource_id uuid (uuid.format id) ≡ id
unfolding parse_resource_id
resource_id-format uuid parses id = rw (parses id, parse_resource_id)

-- What identifies an audit event to a reader of the log.
abbrev pub entry : Event → Action × ℕ
entry e = (e.action, e.resource_id)

module _ (uuid : UuidLib) (recorder : Recorder) (now : ℕ) (w : Workflow)
    (document_id user_id : String) (json : List ℕ) (m : Machine) where
  abbrev pub key : String
  key = uuid.format w.id

  abbrev pub created : Result (Unit {0}) × Machine
  created = execute_workflow_create uuid recorder now w document_id user_id m

  abbrev pub started : Result (Unit {0}) × Machine
  started = start uuid recorder now key created.1

  abbrev pub finished : Result (Unit {0}) × Machine
  finished = complete uuid recorder now key json started.1

  module _ (no_workflow : m.store.next_tx_fail_on_workflow ≡ false)
      (no_audit : m.store.next_tx_fail_on_audit ≡ false) where
    -- The machine after the creation, written out.
    abbrev stored : Machine
    stored = record m {
      store = record ((begun m).store) {
        workflows = insert key w m.store.workflows;
        audit_logs =
            m.store.audit_logs
            ++ record_created uuid recorder now (λ e. e) key document_id user_id ∷ [];
      };
    }

    created-stored : created ≡ (ok tt, stored)
    unfolding create_effect
    created-stored =
        execute_workflow_create-effect uuid recorder now w document_id user_id m
        ∙ rw (no_workflow, no_audit, create_effect)

    abbrev going : Machine
    going = accepted (start_move key) w (event uuid recorder now (start_move key) w.state) stored

    started-going : w.state ≡ pending → start uuid recorder now key stored ≡ (ok tt, going)
    unfolding execute is_valid_transition
    started-going fresh =
        execute-accepted uuid recorder now (start_move key) stored w refl refl
          (lookup-insert_self key w m.store.workflows) (rw (fresh, is_valid_transition))

    going_row : lookup key going.store.workflows ≡ some (set_state running w)
    going_row = rw (lookup-adjust_self, lookup-insert_self)

    abbrev over : Machine
    over =
        accepted (complete_move key json) (set_state running w)
          (event uuid recorder now (complete_move key json) running) going

    finished-over : complete uuid recorder now key json going ≡ (ok tt, over)
    unfolding execute is_valid_transition
    finished-over =
        execute-accepted uuid recorder now (complete_move key json) going (set_state running w) refl
          refl going_row refl

    over_row : lookup key over.store.workflows ≡ some (set_result json (set_state completed w))
    over_row = rw (lookup-adjust_self, going_row)

    over_log :
        ParsesFormat uuid
        → map entry over.store.audit_logs
          ≡ map entry m.store.audit_logs
            ++ (workflow_created, w.id)
              ∷ (workflow_transitioned_to_running, w.id)
              ∷ (workflow_completed, w.id)
              ∷ []
    unfolding record_created record_transitioned_to_running record_completed
    over_log parses = simp (map-append, append_assoc, resource_id-format uuid parses w.id)

-- A workflow in state PENDING that is created, started and completed, with no fault injected into the
-- transactions, is stored in state COMPLETED with the result of its completion and otherwise as it was
-- created, all three calls return no error, and the audit log has grown by exactly three events, of
-- its creation, its start and its completion in this order, each with its identifier. This rests on
-- `uuid.Parse` reading back what `UUID.String` writes.
pub lifecycle :
    (uuid : UuidLib) (recorder : Recorder) (now : ℕ) (w : Workflow) (document_id user_id : String)
    (json : List ℕ) (m : Machine)
    → ParsesFormat uuid
    → m.store.next_tx_fail_on_workflow ≡ false
    → m.store.next_tx_fail_on_audit ≡ false
    → w.state ≡ pending
    → let create_step = created uuid recorder now w document_id user_id json m in
      let start_step = started uuid recorder now w document_id user_id json m in
      let last_step = finished uuid recorder now w document_id user_id json m in
      (create_step.0 ≡ ok tt)
      × (start_step.0 ≡ ok tt)
      × (last_step.0 ≡ ok tt)
      × (lookup (uuid.format w.id) last_step.1.store.workflows
          ≡ some (record w { state = completed; result_json = json }))
      × (map entry last_step.1.store.audit_logs
          ≡ map entry m.store.audit_logs
            ++ (workflow_created, w.id)
              ∷ (workflow_transitioned_to_running, w.id)
              ∷ (workflow_completed, w.id)
              ∷ [])
lifecycle uuid recorder now w document_id user_id json m parses no_workflow no_audit fresh =
    let first =
      created-stored uuid recorder now w document_id user_id json m no_workflow no_audit in
    let second =
      started-going uuid recorder now w document_id user_id json m no_workflow no_audit fresh in
    let third = finished-over uuid recorder now w document_id user_id json m no_workflow no_audit in
    let row = over_row uuid recorder now w document_id user_id json m no_workflow no_audit in
    let log = over_log uuid recorder now w document_id user_id json m no_workflow no_audit parses in
    rw (first, second, third) (refl, refl, refl, row, log)
