-- ===== src/Callback/Once.antt =====
-- Repeated callbacks of cmd/server/workflow_callback_handler.go.
use iroum_ax.Prelude.{
  String, ℕ, true, false, Option, none, some, [], ◌∷◌, lookup, ◌≡◌, refl, ap, ◌∙◌, inl, inr,
  Bool-cases, Option-cases, ◌==◌, arith, lookup-adjust_self,
}
use iroum_ax.Types.{Workflow, WorkflowState, running, same_state}
use iroum_ax.Audit.Uuid.{UuidLib}
use iroum_ax.Coordinator.{Machine}
use iroum_ax.Callback.{
  CallbackRequest, CallbackReply, no_content, conflict, new_state, new_action, callback_event,
  is_status, run_callback, handle_callback,
}
use iroum_ax.Callback.Effect.{result_change, changed, callback_effect, run_callback-effect}

-- What an accepted callback has found and done.
pub record IsAccepted (uuid : UuidLib) (now id : ℕ) (req : CallbackRequest) (m m' : Machine)
    : Type 0 where
  pub wf : Workflow
  pub found : lookup (uuid.format id) m.store.workflows ≡ some wf
  pub going : wf.state ≡ running
  pub done :
      m'
      ≡ changed
          (uuid.format id)
          (result_change uuid now id req m)
          (callback_event uuid now (new_action req) id none ∷ [])
          m

same_state-running : (s : WorkflowState) → same_state s running ≡ true → s ≡ running
unfolding same_state
same_state-running s h = ground arith

module _ (uuid : UuidLib) (now id : ℕ) (req : CallbackRequest) (m : Machine) where
  effect-IsAccepted :
      (callback_effect uuid now id req m).0 ≡ no_content
      → IsAccepted uuid now id req m (callback_effect uuid now id req m).1
  unfolding callback_effect
  effect-IsAccepted h = elim (Bool-cases m.store.next_tx_fail_on_get_workflow) [
    | inl get ↦ absurd (cc (rw (get, callback_effect) at h))
    | inr get ↦ elim (Option-cases (lookup (uuid.format id) m.store.workflows)) [
      | inl absent ↦ absurd (cc (rw (get, absent, callback_effect) at h))
      | inr (wf, found) ↦ elim (Bool-cases (same_state wf.state running)) [
        | inr over ↦ absurd (cc (rw (get, found, over, callback_effect) at h))
        | inl going ↦ elim (Bool-cases m.store.next_tx_fail_on_audit) [
          | inl audit ↦ absurd (cc (rw (get, found, going, audit, callback_effect) at h))
          | inr audit ↦
              rw (get, found, going, audit, callback_effect)
                (record {
                  wf = wf;
                  found = found;
                  going = same_state-running wf.state going;
                  done = refl;
                })
        ]
      ]
    ]
  ]

  effect-conflict :
      (wf : Workflow)
      → m.store.next_tx_fail_on_get_workflow ≡ false
      → lookup (uuid.format id) m.store.workflows ≡ some wf
      → same_state wf.state running ≡ false
      → (callback_effect uuid now id req m).0 ≡ conflict
  unfolding callback_effect
  effect-conflict wf get found over = rw (get, found, over, callback_effect)

new_state_ends : (req : CallbackRequest) → same_state (new_state req) running ≡ false
unfolding same_state
new_state_ends req = elim (Bool-cases (req.status == "completed")) [
  | inl yes_completed ↦ rw yes_completed
  | inr not_completed ↦ rw not_completed
]

-- Where the identifier and the body have been accepted.
run_callback_once :
    (uuid : UuidLib) (now later id : ℕ) (req again : CallbackRequest) (m : Machine)
    → (run_callback uuid now id req m).0 ≡ no_content
    → IsAccepted uuid now id req m (run_callback uuid now id req m).1
      × ((run_callback uuid later id again (run_callback uuid now id req m).1).0 ≡ conflict)
run_callback_once uuid now later id req again m h =
    let first : IsAccepted uuid now id req m (run_callback uuid now id req m).1 =
      rw (run_callback-effect uuid now id req m)
        (effect-IsAccepted uuid now id req m (rw (run_callback-effect uuid now id req m) at h)) in
    let after =
      changed (uuid.format id) (result_change uuid now id req m)
        (callback_event uuid now (new_action req) id none ∷ []) m in
    let row : lookup (uuid.format id) after.store.workflows
        ≡ some (result_change uuid now id req m first.wf) =
      rw (lookup-adjust_self, first.found) in
    (
      first,
      ap (λ x. (run_callback uuid later id again x).0) first.done
          ∙ ap (λ (r : CallbackReply × Machine). r.0)
              (run_callback-effect uuid later id again after)
          ∙ effect-conflict uuid later id again after (result_change uuid now id req m first.wf)
              refl row (new_state_ends req),
    )

-- The requests that get past the checks of the identifier and the body.
handle_callback-run :
    (uuid : UuidLib) (now id : ℕ) (raw : String) (req : CallbackRequest) (m : Machine)
    → uuid.parse raw ≡ some id
    → is_status uuid now req.status ≡ true
    → handle_callback uuid now raw (some req) m ≡ run_callback uuid now id req m
unfolding handle_callback
handle_callback-run uuid now id raw req m parsed valid = rw (parsed, valid)

handle_callback-given :
    (uuid : UuidLib) (now : ℕ) (raw : String) (body : Option CallbackRequest) (m : Machine)
    → (handle_callback uuid now raw body m).0 ≡ no_content
    → (id : ℕ) × (req : CallbackRequest) × (uuid.parse raw ≡ some id)
      × (body ≡ some req)
      × (is_status uuid now req.status ≡ true)
unfolding handle_callback
handle_callback-given uuid now raw body m h = elim (Option-cases (uuid.parse raw)) [
  | inl bad ↦ absurd (cc (rw bad at h))
  | inr (id, parsed) ↦ elim (Option-cases body) [
    | inl empty ↦ absurd (cc (rw (parsed, empty) at h))
    | inr (req, given) ↦ elim (Bool-cases (is_status uuid now req.status)) [
      | inr other ↦ absurd (cc (rw (parsed, given, other) at h))
      | inl valid ↦ (id, req, parsed, given, valid)
    ]
  ]
]

-- A callback is answered with 204 only for a valid identifier of a stored workflow in state RUNNING
-- and a body that reports completed or failed; it gives the row that state and the result, with one
-- event. The next callback for this workflow that reports completed or failed is answered with 409.
pub callback_once :
    (uuid : UuidLib) (now later : ℕ) (raw next_raw : String) (body : Option CallbackRequest)
    (again : CallbackRequest) (m : Machine)
    → (handle_callback uuid now raw body m).0 ≡ no_content
    → uuid.parse next_raw ≡ uuid.parse raw
    → is_status uuid later again.status ≡ true
    → let after = (handle_callback uuid now raw body m).1 in
      (id : ℕ) × (req : CallbackRequest) × (uuid.parse raw ≡ some id)
      × (body ≡ some req)
      × (is_status uuid now req.status ≡ true)
      × IsAccepted uuid now id req m after
      × ((handle_callback uuid later next_raw (some again) after).0 ≡ conflict)
callback_once uuid now later raw next_raw body again m h same_id valid_again =
    let (id, req, parsed, given, valid) = handle_callback-given uuid now raw body m h in
    let ran : handle_callback uuid now raw body m ≡ run_callback uuid now id req m =
      ap (λ b. handle_callback uuid now raw b m) given
      ∙ handle_callback-run uuid now id raw req m parsed valid in
    let accepted : (run_callback uuid now id req m).0 ≡ no_content = rw ran at h in
    let (first, second) = run_callback_once uuid now later id req again m accepted in
    (
      id,
      req,
      parsed,
      given,
      valid,
      rw ran first,
      rw ran (
          ap (λ (r : CallbackReply × Machine). r.0)
            (handle_callback-run uuid later id next_raw again (run_callback uuid now id req m).1
              (same_id ∙ parsed) valid_again)
          ∙ second),
    )
