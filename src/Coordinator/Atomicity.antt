-- ===== src/Coordinator/Atomicity.antt =====
-- The two operations of workflow/transaction.go against a direct description of their effect.
use iroum_ax.Prelude.{
  String, ℕ, [], ◌∷◌, ◌++◌, if◌then◌else◌, insert, adjust, ◌≡◌, Bool-cases, inl, inr,
}
use iroum_ax.Errors.{
  Result, ok, err, sentinel, wrap, fake_workflow_insert_fail, fake_audit_insert_fail,
}
use iroum_ax.Types.{Workflow, WorkflowState}
use iroum_ax.Audit.{Recorder, record_created, record_transition}
use iroum_ax.Audit.Uuid.{UuidLib}
use iroum_ax.Store.{set_state}
use iroum_ax.Coordinator.{
  Machine, begun, workflow_state_to_action, execute_workflow_create, execute_workflow_transition,
}

module _ (uuid : UuidLib) (recorder : Recorder) (now : ℕ) where
  -- Both the row and the event of WORKFLOW_CREATED, or nothing.
  unfoldable pub create_effect : Workflow → String → String → Machine → Result (Unit {0}) × Machine
  create_effect w document_id user_id m =
      if m.store.next_tx_fail_on_workflow
      then (
        err (wrap "workflow create: insert workflow" (sentinel fake_workflow_insert_fail)),
        begun m,
      )
      else if m.store.next_tx_fail_on_audit
      then (err (wrap "workflow create: record audit" (sentinel fake_audit_insert_fail)), begun m)
      else (
        ok tt,
        record m {
          store = record ((begun m).store) {
            workflows = insert (uuid.format w.id) w m.store.workflows;
            audit_logs =
                m.store.audit_logs
                ++ record_created uuid recorder now (λ e. e) (uuid.format w.id) document_id user_id
                  ∷ [];
          };
        },
      )

  unfoldable pub transition_effect :
      String → WorkflowState → WorkflowState → String → Machine → Result (Unit {0}) × Machine
  transition_effect id from to user_id m =
      if m.store.next_tx_fail_on_audit
      then (
        err (wrap "workflow transition: record audit" (sentinel fake_audit_insert_fail)),
        begun m,
      )
      else (
        ok tt,
        record m {
          store = record ((begun m).store) {
            workflows = adjust id (set_state to) m.store.workflows;
            audit_logs =
                m.store.audit_logs
                ++ record_transition uuid recorder now (λ e. e) id (workflow_state_to_action from)
                    (workflow_state_to_action to) user_id
                  ∷ [];
          };
        },
      )

-- `ExecuteWorkflowCreate`, with its transaction, buffers, commit and deferred rollback, stores on
-- every store both the new row and its WORKFLOW_CREATED event, or returns the error of the insert
-- that failed and stores neither.
pub execute_workflow_create-effect :
    (uuid : UuidLib) (recorder : Recorder) (now : ℕ) (w : Workflow) (document_id user_id : String)
    (m : Machine)
    → execute_workflow_create uuid recorder now w document_id user_id m
      ≡ create_effect uuid recorder now w document_id user_id m
unfolding execute_workflow_create create_effect
execute_workflow_create-effect uuid recorder now w document_id user_id m =
    elim (Bool-cases m.store.next_tx_fail_on_workflow) [
      | inl e ↦ rw (e, execute_workflow_create, create_effect)
      | inr e ↦ elim (Bool-cases m.store.next_tx_fail_on_audit) [
        | inl a ↦ rw (e, a, execute_workflow_create, create_effect)
        | inr a ↦ rw (e, a, execute_workflow_create, create_effect)
      ]
    ]

-- `ExecuteWorkflowTransition` commits the new state of the workflow's row with the event of the
-- transition, or neither of them; it looks at no state diagram, and a workflow that is not stored
-- gets the event alone.
pub execute_workflow_transition-effect :
    (uuid : UuidLib) (recorder : Recorder) (now : ℕ) (id : String) (from to : WorkflowState)
    (user_id : String) (m : Machine)
    → execute_workflow_transition uuid recorder now id from to user_id m
      ≡ transition_effect uuid recorder now id from to user_id m
unfolding execute_workflow_transition transition_effect
execute_workflow_transition-effect uuid recorder now id from to user_id m =
    elim (Bool-cases m.store.next_tx_fail_on_audit) [
      | inl a ↦ rw (a, execute_workflow_transition, transition_effect)
      | inr a ↦ rw (a, execute_workflow_transition, transition_effect)
    ]
