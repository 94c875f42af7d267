-- ===== src/StateMachine/Effects.antt =====
-- What a transition of workflow/state_machine.go does to the rows, the audit log and the counter.
use iroum_ax.Prelude.{
  String, ℕ, [], ◌∷◌, ◌++◌, some, if◌then◌else◌, lookup, lookup-adjust, ◌≡◌, refl, sym, ◌↔◌, ◌∙◌,
  arith, true, false, ◌==◌, adjust, Bool-cases, inl, inr,
}
use mathlib.Core.Option.{some-injective}
use mathlib.Core.Path.{subst}
use text.Mathlib.TextEquality.{eq_iff}
use iroum_ax.Errors.{Error, ok, err, errors_is, invalid_transition}
use iroum_ax.Types.{Workflow, WorkflowState, is_valid_transition}
use iroum_ax.Types.Transitions.{Transition, Transition_of_is_valid, is_valid_transition_iff}
use iroum_ax.Audit.{Recorder, Event}
use iroum_ax.Audit.Uuid.{UuidLib}
use iroum_ax.Coordinator.{Machine}
use iroum_ax.StateMachine.Moves.{Move, target, subject, change, execute, event}
use iroum_ax.StateMachine.Reference.{
  Branch, get_fails, missing, invalid, audit_fails, passes, branch, reference, execute-reference,
}

-- Rows, events and counts are the same; the switches of the store may differ.
pub record IsUntouched (m m' : Machine) : Type 0 where
  pub rows : m'.store.workflows ≡ m.store.workflows
  pub logs : m'.store.audit_logs ≡ m.store.audit_logs
  pub counts : m'.transitions ≡ m.transitions

-- The subject's row is changed and no other, one event and one count are added.
pub record IsApplied (move : Move) (e : WorkflowState → Event) (m m' : Machine) : Type 0 where
  pub wf : Workflow
  pub found : lookup (subject move) m.store.workflows ≡ some wf
  pub edge : Transition wf.state (target move)
  pub rows :
      (id : String)
      → lookup id m'.store.workflows
        ≡ (if subject move == id then some (change move wf) else lookup id m.store.workflows)
  pub logs : m'.store.audit_logs ≡ m.store.audit_logs ++ e wf.state ∷ []
  pub counts : m'.transitions ≡ m.transitions ++ (wf.state, target move) ∷ []

module _ (uuid : UuidLib) (recorder : Recorder) (now : ℕ) (move : Move) (m : Machine) where
  reference-IsUntouched :
      {e : Error}
      → Branch (subject move) (target move) m
      → (reference uuid recorder now move m).0 ≡ err e
      → IsUntouched m (reference uuid recorder now move m).1
  unfolding reference
  reference-IsUntouched (get_fails e) h =
      rw (e, reference) (record { rows = refl; logs = refl; counts = refl })
  reference-IsUntouched (missing e f) h =
      rw (e, f, reference) (record { rows = refl; logs = refl; counts = refl })
  reference-IsUntouched (invalid wf e f v) h =
      rw (e, f, v, reference) (record { rows = refl; logs = refl; counts = refl })
  reference-IsUntouched (audit_fails wf e f v a) h =
      rw (e, f, v, a, reference) (record { rows = refl; logs = refl; counts = refl })
  reference-IsUntouched (passes wf e f v a) h =
      let bad = (rw (e, f, v, a, reference) at h) in absurd (cc bad)

  row_changed :
      (wf : Workflow) (id : String)
      → lookup (subject move) m.store.workflows ≡ some wf
      → lookup id (adjust (subject move) (change move) m.store.workflows)
        ≡ (if subject move == id then some (change move wf) else lookup id m.store.workflows)
  row_changed wf id f = elim (Bool-cases (subject move == id)) [
    | inl same ↦
        let same_id : subject move ≡ id = (eq_iff _ _).0 same in
        rw (lookup-adjust, same) (rw (← same_id, f))
    | inr other ↦ rw (lookup-adjust, other)
  ]

  reference-IsApplied :
      Branch (subject move) (target move) m
      → (reference uuid recorder now move m).0 ≡ ok tt
      → IsApplied move (event uuid recorder now move) m (reference uuid recorder now move m).1
  unfolding reference
  reference-IsApplied (get_fails e) h = let bad = (rw (e, reference) at h) in absurd (cc bad)
  reference-IsApplied (missing e f) h = let bad = (rw (e, f, reference) at h) in absurd (cc bad)
  reference-IsApplied (invalid wf e f v) h =
      let bad = (rw (e, f, v, reference) at h) in absurd (cc bad)
  reference-IsApplied (audit_fails wf e f v a) h =
      let bad = (rw (e, f, v, a, reference) at h) in absurd (cc bad)
  reference-IsApplied (passes wf e f v a) h =
      rw (e, f, v, a, reference)
        (record {
          wf = wf;
          found = f;
          edge = Transition_of_is_valid wf.state (target move) v;
          rows = λ id. row_changed wf id f;
          logs = refl;
          counts = refl;
        })

  reference_passes :
      (wf : Workflow)
      → Branch (subject move) (target move) m
      → m.store.next_tx_fail_on_get_workflow ≡ false
      → m.store.next_tx_fail_on_audit ≡ false
      → lookup (subject move) m.store.workflows ≡ some wf
      → (is_valid_transition wf.state (target move) ≡ true
          → (reference uuid recorder now move m).0 ≡ ok tt)
        × (is_valid_transition wf.state (target move) ≡ false
            → (e : Error) × ((reference uuid recorder now move m).0 ≡ err e)
              × (errors_is e invalid_transition ≡ true))
  unfolding reference errors_is
  reference_passes wf b e a f =
      (λ v. rw (e, f, v, a, reference), λ v. rw (e, f, v, reference) (_, refl, refl))

-- A transition that returns an error changes no row, writes no audit event and counts nothing:
-- whatever step of it fails, nothing of it is committed.
pub error-IsUntouched :
    (uuid : UuidLib) (recorder : Recorder) (now : ℕ) (move : Move) (m : Machine) {e : Error}
    → (execute uuid recorder now move m).0 ≡ err e
    → IsUntouched m (execute uuid recorder now move m).1
error-IsUntouched uuid recorder now move m h = rw (execute-reference uuid recorder now move m) (
    reference-IsUntouched uuid recorder now move m (branch _ _ m)
      (rw (execute-reference uuid recorder now move m) at h))

-- A transition that returns no error was along an edge of the state diagram; it changed exactly the
-- row of its workflow, to the target state (and the result, for `Complete`), and left exactly one
-- audit event, the one of that move, and one count of the states left and entered.
pub ok-IsApplied :
    (uuid : UuidLib) (recorder : Recorder) (now : ℕ) (move : Move) (m : Machine)
    → (execute uuid recorder now move m).0 ≡ ok tt
    → IsApplied move (event uuid recorder now move) m (execute uuid recorder now move m).1
ok-IsApplied uuid recorder now move m h = rw (execute-reference uuid recorder now move m) (
    reference-IsApplied uuid recorder now move m (branch _ _ m)
      (rw (execute-reference uuid recorder now move m) at h))

module _ (uuid : UuidLib) (recorder : Recorder) (now : ℕ) (move : Move) (m : Machine)
    (wf : Workflow) (no_get : m.store.next_tx_fail_on_get_workflow ≡ false)
    (no_audit : m.store.next_tx_fail_on_audit ≡ false)
    (found : lookup (subject move) m.store.workflows ≡ some wf) where
  -- With no fault injected, a transition of a stored workflow returns no error exactly if the state
  -- diagram has the edge from the workflow's state to the target.
  pub ok_iff_edge :
      ((execute uuid recorder now move m).0 ≡ ok tt) ↔ Transition wf.state (target move)
  ok_iff_edge =
      let (to_ok, to_err) =
        reference_passes uuid recorder now move m wf (branch _ _ m) no_get no_audit found in
      (
        λ done.
            let applied = ok-IsApplied uuid recorder now move m done in
            let same : applied.wf ≡ wf = some-injective _ _ (sym applied.found ∙ found) in
            subst (λ w. Transition w.state (target move)) same applied.edge,
        λ edge.
            rw (execute-reference uuid recorder now move m)
              (to_ok ((is_valid_transition_iff wf.state (target move)).1 edge)),
      )

  -- With no fault injected and no edge, a transition of a stored workflow is refused with an error
  -- that `errors.Is` finds to be ErrInvalidTransition.
  pub refused_without_edge :
      ¬ Transition wf.state (target move)
      → (e : Error) × ((execute uuid recorder now move m).0 ≡ err e)
        × (errors_is e invalid_transition ≡ true)
  refused_without_edge no_edge =
      let (to_ok, to_err) =
        reference_passes uuid recorder now move m wf (branch _ _ m) no_get no_audit found in
      let refused : is_valid_transition wf.state (target move) ≡ false =
        ground (arith, Transition_of_is_valid wf.state (target move), no_edge) in
      rw (execute-reference uuid recorder now move m) (to_err refused)
