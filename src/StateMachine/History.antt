-- ===== src/StateMachine/History.antt =====
-- Sequences of transitions of workflow/state_machine.go, and so every interleaving of concurrent ones.
use iroum_ax.Prelude.{
  String, ℕ, List, [], ◌∷◌, ◌++◌, some, lookup, ◌≡◌, ◌≢◌, refl, sym, ◌∙◌, arith, ◌==◌, length,
  length-append, ap, Bool-cases, inl, inr,
}
use text.Mathlib.TextEquality.{eq_iff}
use text.Mathlib.TextPositions.{eq_refl}
use mathlib.Core.Option.{some-injective}
use mathlib.Core.List.{append_assoc, append-nil}
use iroum_ax.Errors.{Result, ok, err}
use iroum_ax.Types.{Workflow, WorkflowState}
use iroum_ax.Types.Transitions.{
  Transition, Reaches, here, step, Reaches-trans, IsTerminal, Reaches-IsTerminal, rank,
  rank-Transition, rank-Reaches,
}
use iroum_ax.Audit.{Recorder, Event}
use iroum_ax.Audit.Uuid.{UuidLib}
use iroum_ax.Coordinator.{Machine}
use iroum_ax.StateMachine.Moves.{
  Move, start_move, complete_move, fail_move, target, subject, change, execute, event,
}
use iroum_ax.StateMachine.Effects.{IsUntouched, IsApplied, error-IsUntouched, ok-IsApplied}

-- What one transition does, whether or not it succeeds.
pub data Outcome (move : Move) (e : WorkflowState → Event) (m m' : Machine) : Type 0 where
  untouched : IsUntouched m m' → Outcome move e m m'
  applied : IsApplied move e m m' → Outcome move e m m'

module _ (uuid : UuidLib) (recorder : Recorder) where
  -- The moves in the order in which they take the mutex, each with the time it runs at.
  unfoldable pub run : List (ℕ × Move) → Machine → Machine
  run [] m = m
  run ((now, move) ∷ moves) m = run moves (execute uuid recorder now move m).1

  pub outcome :
      (now : ℕ) (move : Move) (m : Machine)
      → Outcome move (event uuid recorder now move) m (execute uuid recorder now move m).1
  outcome now move m = of_result (execute uuid recorder now move m).0 refl
    where
      of_result :
          (r : Result (Unit {0}))
          → (execute uuid recorder now move m).0 ≡ r
          → Outcome move (event uuid recorder now move) m (execute uuid recorder now move m).1
      of_result (ok _) h = applied (ok-IsApplied uuid recorder now move m h)
      of_result (err _) h = untouched (error-IsUntouched uuid recorder now move m h)

-- The row of `id` after a transition, and how its state got there.
abbrev pub Row : String → WorkflowState → Machine → Type 0
Row id from m = (wf : Workflow) × (lookup id m.store.workflows ≡ some wf) × Reaches from wf.state

Reaches-change :
    {from : WorkflowState} (move : Move) (wf : Workflow)
    → from ≡ wf.state
    → Transition wf.state (target move)
    → Reaches from (change move wf).state
Reaches-change (start_move id) wf same t = rw same (step here t)
Reaches-change (complete_move id json) wf same t = rw same (step here t)
Reaches-change (fail_move id reason) wf same t = rw same (step here t)

state-change : (move : Move) (wf : Workflow) → (change move wf).state ≡ target move
state-change (start_move id) wf = refl
state-change (complete_move id json) wf = refl
state-change (fail_move id reason) wf = refl

outcome-Row :
    {move : Move} {e : WorkflowState → Event} {m m' : Machine} (id : String) (wf : Workflow)
    → Outcome move e m m'
    → lookup id m.store.workflows ≡ some wf
    → Row id wf.state m'
outcome-Row id wf (untouched u) found = (wf, rw u.rows found, here)
outcome-Row {move} id wf (applied a) found = elim (Bool-cases (subject move == id)) [
  | inl same ↦
      let same_id : subject move ≡ id = (eq_iff _ _).0 same in
      let same_wf : a.wf ≡ wf = some-injective _ _ (sym a.found ∙ rw same_id found) in
      (
        change move a.wf,
        rw (a.rows id, same),
        Reaches-change move a.wf (ap (λ (w : Workflow). w.state) (sym same_wf)) a.edge,
      )
  | inr other ↦ (wf, rw (a.rows id, other) found, here)
]

-- Whatever transitions are run, in whatever order and with whatever outcome, a stored workflow stays
-- stored, and its state moves only along paths of the state diagram.
pub run-Reaches :
    (uuid : UuidLib) (recorder : Recorder) (moves : List (ℕ × Move)) (m : Machine) (id : String)
    (wf : Workflow)
    → lookup id m.store.workflows ≡ some wf
    → Row id wf.state (run uuid recorder moves m)
unfolding run
run-Reaches uuid recorder [] m id wf found = (wf, found, here)
run-Reaches uuid recorder ((now, move) ∷ moves) m id wf found =
    let (wf', found', path) = outcome-Row id wf (outcome uuid recorder now move m) found in
    let (last, found_last, rest) =
      run-Reaches uuid recorder moves (execute uuid recorder now move m).1 id wf' found' in
    (last, found_last, Reaches-trans path rest)

-- COMPLETED and FAILED are final: after any sequence of transitions, the workflow has the state that
-- it ended in.
pub run_terminal :
    (uuid : UuidLib) (recorder : Recorder) (moves : List (ℕ × Move)) (m : Machine) (id : String)
    (wf : Workflow)
    → lookup id m.store.workflows ≡ some wf
    → IsTerminal wf.state
    → (last : Workflow) × (lookup id (run uuid recorder moves m).store.workflows ≡ some last)
      × (last.state ≡ wf.state)
run_terminal uuid recorder moves m id wf found terminal =
    let (last, found_last, path) = run-Reaches uuid recorder moves m id wf found in
    (last, found_last, Reaches-IsTerminal terminal path)

-- The audit log of `m'` is that of `m` with as many events behind it as counts were added.
pub record IsAudited (m m' : Machine) : Type 0 where
  pub events : List Event
  pub edges : List (WorkflowState × WorkflowState)
  pub logged : m'.store.audit_logs ≡ m.store.audit_logs ++ events
  pub counted : m'.transitions ≡ m.transitions ++ edges
  pub balanced : length events ≡ length edges

outcome-IsAudited :
    {move : Move} {e : WorkflowState → Event} {m m' : Machine}
    → Outcome move e m m'
    → IsAudited m m'
outcome-IsAudited {m} (untouched u) = record {
  events = [];
  edges = [];
  logged = rw append-nil u.logs;
  counted = rw append-nil u.counts;
  balanced = refl;
}
outcome-IsAudited {move} {e} (applied a) = record {
  events = e a.wf.state ∷ [];
  edges = (a.wf.state, target move) ∷ [];
  logged = a.logs;
  counted = a.counts;
  balanced = refl;
}

IsAudited-trans : {a b c : Machine} → IsAudited a b → IsAudited b c → IsAudited a c
IsAudited-trans p q = record {
  events = p.events ++ q.events;
  edges = p.edges ++ q.edges;
  logged = q.logged ∙ rw (p.logged, append_assoc);
  counted = q.counted ∙ rw (p.counted, append_assoc);
  balanced = rw (length-append, length-append, p.balanced, q.balanced);
}

-- Whatever transitions are run, the audit log only grows at its end, and by one event for each
-- transition that the metrics counter counts.
pub run-IsAudited :
    (uuid : UuidLib) (recorder : Recorder) (moves : List (ℕ × Move)) (m : Machine)
    → IsAudited m (run uuid recorder moves m)
unfolding run
run-IsAudited uuid recorder [] m = record {
  events = [];
  edges = [];
  logged = rw append-nil;
  counted = rw append-nil;
  balanced = refl;
}
run-IsAudited uuid recorder ((now, move) ∷ moves) m =
    IsAudited-trans (outcome-IsAudited (outcome uuid recorder now move m))
      (run-IsAudited uuid recorder moves (execute uuid recorder now move m).1)

-- A transition to a state succeeds at most once for a workflow: of any number of competing calls of
-- `Start` for one workflow, or of `Complete`, or of `Fail`, with other transitions between them, no
-- call after the first success succeeds.
pub target_once :
    (uuid : UuidLib) (recorder : Recorder) (now : ℕ) (move : Move) (moves : List (ℕ × Move))
    (later : ℕ) (again : Move) (m : Machine)
    → (execute uuid recorder now move m).0 ≡ ok tt
    → subject again ≡ subject move
    → target again ≡ target move
    → (execute uuid recorder later again
        (run uuid recorder moves (execute uuid recorder now move m).1)).0
      ≢ ok tt
target_once uuid recorder now move moves later again m done same_id same_target twice =
    let first = ok-IsApplied uuid recorder now move m done in
    let after = (execute uuid recorder now move m).1 in
    let row : lookup (subject move) after.store.workflows ≡ some (change move first.wf) =
      rw (first.rows (subject move), eq_refl) in
    let (wf, found, path) = run-Reaches uuid recorder moves after (subject move) _ row in
    let second = ok-IsApplied uuid recorder later again (run uuid recorder moves after) twice in
    let same_wf : second.wf ≡ wf = some-injective _ _ (sym second.found ∙ rw same_id found) in
    let entered = rank-Transition second.edge in
    let kept = rank-Reaches path in
    absurd (
      omega (
        arith,
        kept,
        entered,
        ap (λ (w : Workflow). rank w.state) same_wf,
        ap rank (state-change move first.wf),
        ap rank same_target,
      ))
