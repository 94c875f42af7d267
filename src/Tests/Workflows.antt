-- ===== src/Tests/Workflows.antt =====
-- Runs of workflow/state_machine.go and transaction.go over a small store.
use iroum_ax.Prelude.{ℕ, some, List, [], ◌∷◌, ◌++◌, ◌≡◌, ◌≢◌, ◌↔◌, refl, lookup, map}
use iroum_ax.Errors.{Result, ok, err, sentinel, wrap, invalid_transition}
use iroum_ax.Types.{pending, running, completed, failed, is_valid_transition}
use iroum_ax.Types.Transitions.{Transition}
use iroum_ax.Audit.{workflow_created, workflow_transitioned_to_running, workflow_completed}
use iroum_ax.Coordinator.{Machine}
use iroum_ax.StateMachine.Moves.{Move, start_move, complete_move, fail_move, execute, event}
use iroum_ax.StateMachine.Reference.{reference, execute-reference}
use iroum_ax.StateMachine.Effects.{
  IsUntouched, IsApplied, error-IsUntouched, ok-IsApplied, ok_iff_edge,
}
use iroum_ax.StateMachine.History.{run, Row, IsAudited, run-Reaches, run-IsAudited, target_once}
use iroum_ax.StateMachine.Lifecycle.{entry, created, started, finished, lifecycle}
use iroum_ax.Tests.Samples.{unary_ids, unary_ids-ParsesFormat, recorder, workflow, machine, stored}

abbrev starting : Result (Unit {0}) × Machine
starting = execute unary_ids recorder 7 (start_move "i") (machine pending)

abbrev restarting : Result (Unit {0}) × Machine
restarting = execute unary_ids recorder 7 (start_move "i") (machine running)

starting_ok : starting.0 ≡ ok tt
unfolding execute is_valid_transition iroum_ax.StateMachine.start lookup
starting_ok = refl

restarting_err : restarting.0 ≡ err (wrap "state machine start" (sentinel invalid_transition))
unfolding execute is_valid_transition iroum_ax.StateMachine.start lookup
restarting_err = refl

execute-reference_example :
    starting ≡ reference unary_ids recorder 7 (start_move "i") (machine pending)
execute-reference_example =
    execute-reference unary_ids recorder 7 (start_move "i") (machine pending)

error-IsUntouched_example : IsUntouched (machine running) restarting.1
error-IsUntouched_example =
    error-IsUntouched unary_ids recorder 7 (start_move "i") (machine running) restarting_err

ok-IsApplied_example :
    IsApplied
      (start_move "i")
      (event unary_ids recorder 7 (start_move "i"))
      (machine pending)
      starting.1
ok-IsApplied_example =
    ok-IsApplied unary_ids recorder 7 (start_move "i") (machine pending) starting_ok

ok_iff_edge_example : (starting.0 ≡ ok tt) ↔ Transition pending running
ok_iff_edge_example =
    ok_iff_edge unary_ids recorder 7 (start_move "i") (machine pending) (workflow pending) refl refl
      (stored pending)

abbrev rest : List (ℕ × Move)
rest = (8, complete_move "i" (1 ∷ [])) ∷ (9, fail_move "i" "late") ∷ []

run-Reaches_example : Row "i" pending (run unary_ids recorder rest (machine pending))
run-Reaches_example =
    run-Reaches unary_ids recorder rest (machine pending) "i" (workflow pending) (stored pending)

run-IsAudited_example : IsAudited (machine pending) (run unary_ids recorder rest (machine pending))
run-IsAudited_example = run-IsAudited unary_ids recorder rest (machine pending)

target_once_example :
    (execute unary_ids recorder 10 (start_move "i") (run unary_ids recorder rest starting.1)).0
    ≢ ok tt
target_once_example =
    target_once unary_ids recorder 7 (start_move "i") rest 10 (start_move "i") (machine pending)
      starting_ok refl refl

lifecycle_example :
    let create_step =
      created unary_ids recorder 7 (workflow pending) "ii" "u" (1 ∷ []) (machine failed) in
    let start_step =
      started unary_ids recorder 7 (workflow pending) "ii" "u" (1 ∷ []) (machine failed) in
    let last_step =
      finished unary_ids recorder 7 (workflow pending) "ii" "u" (1 ∷ []) (machine failed) in
    (create_step.0 ≡ ok tt)
    × (start_step.0 ≡ ok tt)
    × (last_step.0 ≡ ok tt)
    × (lookup (unary_ids.format 1) last_step.1.store.workflows
        ≡ some (record (workflow pending) { state = completed; result_json = 1 ∷ [] }))
    × (map entry last_step.1.store.audit_logs
        ≡ map entry (machine failed).store.audit_logs
          ++ (workflow_created, 1)
            ∷ (workflow_transitioned_to_running, 1)
            ∷ (workflow_completed, 1)
            ∷ [])
lifecycle_example =
    lifecycle unary_ids recorder 7 (workflow pending) "ii" "u" (1 ∷ []) (machine failed)
      unary_ids-ParsesFormat refl refl refl
