-- ===== src/Types/Transitions.antt =====
-- The state diagram of types/workflow.go as a relation, and the paths through it.
use native.Mathlib.Nat.{le_refl}
use iroum_ax.Prelude.{ℕ, ◌≤◌, ◌<◌, ◌≡◌, refl, ◌⊎◌, ◌↔◌, true, arith}
use iroum_ax.Types.{WorkflowState, pending, running, completed, failed, is_valid_transition}

pub data Transition : WorkflowState → WorkflowState → Type 0 where
  start : Transition pending running
  fail_dispatch : Transition pending failed
  complete : Transition running completed
  fail_callback : Transition running failed

pub Transition_of_is_valid :
    (from to : WorkflowState) → is_valid_transition from to ≡ true → Transition from to
unfolding is_valid_transition
Transition_of_is_valid from to h = grind (arith, start, fail_dispatch, complete, fail_callback)

is_valid_of_Transition :
    {from to : WorkflowState} → Transition from to → is_valid_transition from to ≡ true
unfolding is_valid_transition
is_valid_of_Transition start = refl
is_valid_of_Transition fail_dispatch = refl
is_valid_of_Transition complete = refl
is_valid_of_Transition fail_callback = refl

-- `IsValidTransition(from, to)` is true exactly on the four edges PENDING to RUNNING, PENDING to
-- FAILED, RUNNING to COMPLETED and RUNNING to FAILED.
pub is_valid_transition_iff :
    (from to : WorkflowState) → (is_valid_transition from to ≡ true) ↔ Transition from to
is_valid_transition_iff from to = (Transition_of_is_valid from to, is_valid_of_Transition)

-- Paths of edges.
pub data Reaches (from : WorkflowState) : WorkflowState → Type 0 where
  here : Reaches from from
  step : {mid to : WorkflowState} → Reaches from mid → Transition mid to → Reaches from to

pub Reaches-trans : {a b c : WorkflowState} → Reaches a b → Reaches b c → Reaches a c
Reaches-trans p here = p
Reaches-trans p (step q t) = step (Reaches-trans p q) t

abbrev pub IsTerminal : WorkflowState → Type 0
IsTerminal s = (s ≡ completed) ⊎ (s ≡ failed)

no_exit : {a b : WorkflowState} → Transition a b → IsTerminal a → ⊥
no_exit start h = ground arith
no_exit fail_dispatch h = ground arith
no_exit complete h = ground arith
no_exit fail_callback h = ground arith

pub Reaches-IsTerminal : {a b : WorkflowState} → IsTerminal a → Reaches a b → b ≡ a
Reaches-IsTerminal h here = refl
Reaches-IsTerminal h (step {mid} p t) =
    let same : mid ≡ _ = Reaches-IsTerminal h p in absurd (no_exit t (ground arith))

-- Every edge leads to a higher rank, so no path has more than two edges.
abbrev pub rank : WorkflowState → ℕ
rank pending = 0
rank running = 1
rank completed = 2
rank failed = 2

pub rank-Transition : {a b : WorkflowState} → Transition a b → rank a < rank b
rank-Transition start = omega arith
rank-Transition fail_dispatch = omega arith
rank-Transition complete = omega arith
rank-Transition fail_callback = omega arith

pub rank-Reaches : {a b : WorkflowState} → Reaches a b → rank a ≤ rank b
rank-Reaches {a} here = le_refl (rank a)
rank-Reaches (step p t) = omega (arith, rank-Reaches p, rank-Transition t)
