-- ===== src/Types.antt =====
-- apps/control-plane/internal/types/workflow.go: the workflow entity and its states.
pub mod Transitions
use iroum_ax.Prelude.{ℕ, Bool, true, false, ◌||◌, Option, none, some, List, [], ◌∷◌}

pub data WorkflowState : Type 0 where
  pending running completed failed : WorkflowState

-- `==` on the state names.
unfoldable pub same_state : WorkflowState → WorkflowState → Bool
same_state pending pending = true
same_state running running = true
same_state completed completed = true
same_state failed failed = true
same_state _ _ = false

-- Identifiers are the 16 bytes of a UUID read as a number, times are nanoseconds of the Unix epoch.
pub record Workflow : Type 0 where
  pub created_at : ℕ
  pub updated_at : ℕ
  pub report_id : Option ℕ
  pub state : WorkflowState
  pub result_json : List ℕ
  pub id : ℕ
  pub document_id : ℕ

-- The map `ValidTransitions`; a state that is no key has no entry.
unfoldable pub valid_transitions : WorkflowState → Option (List WorkflowState)
valid_transitions pending = some (running ∷ failed ∷ [])
valid_transitions running = some (completed ∷ failed ∷ [])
valid_transitions _ = none

-- The loop over the allowed successors.
listed : WorkflowState → List WorkflowState → Bool
listed to [] = false
listed to (s ∷ allowed) = same_state s to || listed to allowed

unfoldable pub is_valid_transition : WorkflowState → WorkflowState → Bool
unfolding valid_transitions listed same_state
is_valid_transition from to = elim (valid_transitions from) [
  | none ↦ false
  | some allowed ↦ listed to allowed
]
