-- ===== src/Store.antt =====
-- apps/control-plane/internal/store/fake_store.go: the in-memory WorkflowStore and its
-- transactions. A method of *FakeTx acts on a `Session`, the transaction with the store that its
-- field `store` points to. Locks are held for a whole method each and have no counterpart.
pub mod Query
use iroum_ax.Prelude.{
  String, ℕ, Bool, true, false, Option, none, some, List, [], ◌∷◌, ◌++◌, if◌then◌else◌, lookup,
  insert, adjust,
}
use iroum_ax.Errors.{
  Error, sentinel, wrap, Result, ok, err, workflow_not_found, fake_audit_insert_fail,
  fake_workflow_insert_fail, fake_update_state_fail, fake_get_workflow_fail,
}
use iroum_ax.Types.{Workflow, WorkflowState}
use iroum_ax.Audit.{Event}
use iroum_ax.Audit.Uuid.{UuidLib}

pub record FakeStore : Type 0 where
  pub workflows : List (String × Workflow)
  pub audit_logs : List Event
  pub next_tx_fail_on_audit : Bool
  pub next_tx_fail_on_workflow : Bool
  pub next_tx_fail_on_get_workflow : Bool

pub record FakeTx : Type 0 where
  pub pending_updates : List (String × WorkflowState)
  pub pending_result_updates : List (String × List ℕ)
  pub pending_workflows : List Workflow
  pub pending_audit_logs : List Event
  pub fail_on_audit_insert : Bool
  pub fail_on_workflow_insert : Bool
  pub fail_on_update_state : Bool
  pub fail_on_get_workflow : Bool
  pub committed : Bool

-- `transitions` is what `metrics.IncWorkflowTransition` has counted, a pair of labels a call.
pub record Session : Type 0 where
  pub store : FakeStore
  pub tx : FakeTx
  pub transitions : List (WorkflowState × WorkflowState)

-- A step of a transaction; an error keeps the session as it was left.
abbrev pub M : Type 0 → Type 0
M A = Session → Result A × Session

abbrev pub continue : {A B : Type 0} → Result A × Session → (A → M B) → Result B × Session
continue (ok a, s) next = next a s
continue (err e, s) next = (err e, s)

infixl 5 ◌>>=◌ ◌>>◌
abbrev pub ◌>>=◌ : {A B : Type 0} → M A → (A → M B) → M B
◌>>=◌ step next s = continue (step s) next

abbrev pub ◌>>◌ : {B : Type 0} → M (Unit {0}) → M B → M B
◌>>◌ step next s = continue (step s) (λ _. next)

-- `return fmt.Errorf("message: %w", err)` on an error.
abbrev pub with_message : {A : Type 0} → String → Result A × Session → Result A × Session
with_message message (ok a, s) = (ok a, s)
with_message message (err e, s) = (err (wrap message e), s)

abbrev pub failing : {A : Type 0} → String → M A → M A
failing message step s = with_message message (step s)

unfoldable pub new_fake_store : FakeStore
new_fake_store = record {
  workflows = [];
  audit_logs = [];
  next_tx_fail_on_audit = false;
  next_tx_fail_on_workflow = false;
  next_tx_fail_on_get_workflow = false;
}

unfoldable pub begin_tx : FakeStore → Result FakeTx × FakeStore
begin_tx s = (
  ok (record {
    pending_updates = [];
    pending_result_updates = [];
    pending_workflows = [];
    pending_audit_logs = [];
    fail_on_audit_insert = s.next_tx_fail_on_audit;
    fail_on_workflow_insert = s.next_tx_fail_on_workflow;
    fail_on_update_state = false;
    fail_on_get_workflow = s.next_tx_fail_on_get_workflow;
    committed = false;
  }),
  record s {
    next_tx_fail_on_audit = false;
    next_tx_fail_on_workflow = false;
    next_tx_fail_on_get_workflow = false;
  },
)

abbrev with_tx : Session → FakeTx → Session
with_tx s t = record s { tx = t }

unfoldable pub insert_workflow : Workflow → M (Unit {0})
insert_workflow w s =
    if s.tx.fail_on_workflow_insert
    then (err (sentinel fake_workflow_insert_fail), s)
    else (ok tt, with_tx s (record (s.tx) { pending_workflows = s.tx.pending_workflows ++ w ∷ [] }))

unfoldable pub insert_audit_log : Event → M (Unit {0})
insert_audit_log e s =
    if s.tx.fail_on_audit_insert then (err (sentinel fake_audit_insert_fail), s) else (
      ok tt,
      with_tx s (record (s.tx) { pending_audit_logs = s.tx.pending_audit_logs ++ e ∷ [] }),
    )

unfoldable pub update_workflow_state : String → WorkflowState → M (Unit {0})
unfolding insert
update_workflow_state id new_state s =
    if s.tx.fail_on_update_state then (err (sentinel fake_update_state_fail), s) else (
      ok tt,
      with_tx s (record (s.tx) { pending_updates = insert id new_state s.tx.pending_updates }),
    )

unfoldable pub update_workflow_result : String → List ℕ → M (Unit {0})
unfolding insert
update_workflow_result id result_json s = (
  ok tt,
  with_tx s (record (s.tx) {
    pending_result_updates = insert id result_json s.tx.pending_result_updates;
  }),
)

unfoldable pub get_workflow : String → M Workflow
get_workflow id s =
    if s.tx.fail_on_get_workflow
    then (err (sentinel fake_get_workflow_fail), s)
    else elim (lookup id s.store.workflows) [
      | none ↦ (err (sentinel workflow_not_found), s)
      | some wf ↦ (ok wf, s)
    ]

-- The loops of `Commit`. `range` visits a map in some order; each key is visited once, so the order
-- makes no difference, and here it is that of the list.
module _ (uuid : UuidLib) where
  unfoldable pub store_workflows :
      List Workflow → List (String × Workflow) → List (String × Workflow)
  store_workflows [] rows = rows
  store_workflows (wf ∷ pending) rows = store_workflows pending (insert (uuid.format wf.id) wf rows)

abbrev pub set_state : WorkflowState → Workflow → Workflow
set_state new_state wf = record wf { state = new_state }

abbrev pub set_result : List ℕ → Workflow → Workflow
set_result result_json wf = record wf { result_json = result_json }

unfoldable pub store_states :
    List (String × WorkflowState) → List (String × Workflow) → List (String × Workflow)
store_states [] rows = rows
store_states ((id, new_state) ∷ updates) rows =
    store_states updates (adjust id (set_state new_state) rows)

unfoldable pub store_results :
    List (String × List ℕ) → List (String × Workflow) → List (String × Workflow)
store_results [] rows = rows
store_results ((id, result_json) ∷ updates) rows =
    store_results updates (adjust id (set_result result_json) rows)

unfoldable pub commit : UuidLib → M (Unit {0})
unfolding store_workflows store_states store_results
commit uuid s = if s.tx.committed then (ok tt, s) else (
  ok tt,
  record s {
    tx = record (s.tx) { committed = true };
    store = record (s.store) {
      workflows = store_results s.tx.pending_result_updates (
          store_states s.tx.pending_updates
            (store_workflows uuid s.tx.pending_workflows s.store.workflows));
      audit_logs = s.store.audit_logs ++ s.tx.pending_audit_logs;
    };
  },
)

unfoldable pub rollback : M (Unit {0})
rollback s = if s.tx.committed then (ok tt, s) else (
  ok tt,
  with_tx s (record (s.tx) {
    pending_workflows = [];
    pending_audit_logs = [];
    pending_updates = [];
    pending_result_updates = [];
  }),
)

unfoldable pub seed_workflow : UuidLib → Workflow → FakeStore → FakeStore
seed_workflow uuid w s = record s { workflows = insert (uuid.format w.id) w s.workflows }
