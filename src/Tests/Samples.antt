-- ===== src/Tests/Samples.antt =====
-- Data that the tests share.
use iroum_ax.Prelude.{ℕ, zero, suc, String, true, false, none, some, [], ◌∷◌, ◌≡◌, refl, ap, lookup}
use iroum_ax.Types.{Workflow, WorkflowState}
use iroum_ax.Audit.{Recorder}
use iroum_ax.Audit.Uuid.{UuidLib, ParsesFormat}
use iroum_ax.Store.{FakeStore}
use iroum_ax.Coordinator.{Machine}

-- Identifiers in unary notation.
unfoldable pub unary : ℕ → String
unary zero = ""
unary (suc n) = String.◌∷◌ "i" (unary n)

unfoldable pub size : String → ℕ
size String.[] = zero
size (String.◌∷◌ c s) = suc (size s)

abbrev pub unary_ids : UuidLib
unary_ids = record { format = unary; parse = λ s. some (size s) }

size-unary : (n : ℕ) → size (unary n) ≡ n
unfolding unary size
size-unary zero = refl
size-unary (suc n) = ap suc (size-unary n)

pub unary_ids-ParsesFormat : ParsesFormat unary_ids
unfolding unary size
unary_ids-ParsesFormat id = ap some (size-unary id)

abbrev pub recorder : Recorder
recorder = record { auth_enabled = true }

abbrev pub workflow : WorkflowState → Workflow
workflow state = record {
  created_at = 5;
  updated_at = 5;
  report_id = none;
  state = state;
  result_json = [];
  id = 1;
  document_id = 2;
}

-- A store that has the workflow of identifier "i", in the given state.
abbrev pub store_of : WorkflowState → FakeStore
store_of state = record {
  workflows = ("i", workflow state) ∷ [];
  audit_logs = [];
  next_tx_fail_on_audit = false;
  next_tx_fail_on_workflow = false;
  next_tx_fail_on_get_workflow = false;
}

abbrev pub machine : WorkflowState → Machine
machine state = record { store = store_of state; transitions = [] }

pub stored :
    (state : WorkflowState) → lookup "i" (machine state).store.workflows ≡ some (workflow state)
unfolding lookup
stored state = refl
