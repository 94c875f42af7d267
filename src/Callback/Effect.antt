-- ===== src/Callback/Effect.antt =====
-- The callback of cmd/server/workflow_callback_handler.go against a direct description of its effect.
use iroum_ax.Prelude.{
  String, ℕ, none, some, List, [], ◌∷◌, ◌++◌, if◌then◌else◌, lookup, adjust, ◌≡◌, refl, inl, inr,
  Bool-cases, Option-cases, adjust-adjust,
}
use iroum_ax.Types.{Workflow, running, same_state}
use iroum_ax.Audit.{Event}
use iroum_ax.Audit.Uuid.{UuidLib}
use iroum_ax.Store.{set_state, set_result}
use iroum_ax.Coordinator.{Machine, begun}
use iroum_ax.Callback.{
  CallbackRequest, CallbackReply, no_content, rejected, internal, conflict, or_empty_object,
  new_state, new_action, callback_event, rejection_event, run_callback,
}

-- The machine with one row changed and some events behind the log.
abbrev pub changed : String → (Workflow → Workflow) → List Event → Machine → Machine
changed key f events m = record m {
  store = record ((begun m).store) {
    workflows = adjust key f m.store.workflows;
    audit_logs = m.store.audit_logs ++ events;
  };
}

abbrev pub logged : List Event → Machine → Machine
logged events m = record m {
  store = record ((begun m).store) { audit_logs = m.store.audit_logs ++ events };
}

module _ (uuid : UuidLib) (now id : ℕ) (req : CallbackRequest) (m : Machine) where
  abbrev pub result_change : Workflow → Workflow
  result_change wf = set_result (or_empty_object req.result_json) (set_state (new_state req) wf)

  -- A running workflow gets its last state, its result and one event, or nothing; any other is left
  -- as it is, and the refusal is logged if it can be.
  unfoldable pub effect_on : Workflow → CallbackReply × Machine
  effect_on wf =
      if same_state wf.state running
      then if m.store.next_tx_fail_on_audit then (internal "감사 로그 기록 실패", begun m) else (
        no_content,
        changed (uuid.format id) result_change
            (callback_event uuid now (new_action req) id none ∷ []) m,
      )
      else (
        conflict,
        logged
            (if m.store.next_tx_fail_on_audit
              then []
              else rejection_event uuid now id wf.state req.status ∷ [])
            m,
      )

  unfoldable pub callback_effect : CallbackReply × Machine
  unfolding effect_on
  callback_effect =
      if m.store.next_tx_fail_on_get_workflow
      then (internal "워크플로우 조회 실패", begun m)
      else elim (lookup (uuid.format id) m.store.workflows) [
        | none ↦ (rejected 404 "NOT_FOUND" "워크플로우를 찾을 수 없습니다", begun m)
        | some wf ↦ effect_on wf
      ]

-- The callback, with its transaction, buffers, commit and deferred rollback, does on every store what
-- the direct description says: 500 or 404 with everything as it was; 204 with the new state, the
-- result and one event; or 409 for a workflow that is not RUNNING, with the event of the refusal and
-- no row changed.
pub run_callback-effect :
    (uuid : UuidLib) (now id : ℕ) (req : CallbackRequest) (m : Machine)
    → run_callback uuid now id req m ≡ callback_effect uuid now id req m
unfolding run_callback callback_effect
run_callback-effect uuid now id req m =
    let key = uuid.format id in
    elim (Bool-cases m.store.next_tx_fail_on_get_workflow) [
      | inl get ↦ rw (get, run_callback, callback_effect)
      | inr get ↦ elim (Option-cases (lookup key m.store.workflows)) [
        | inl absent ↦ rw (get, absent, run_callback, callback_effect)
        | inr (wf, found) ↦ elim (Bool-cases (same_state wf.state running)) [
          | inl going ↦ elim (Bool-cases m.store.next_tx_fail_on_audit) [
            | inl audit ↦ rw (get, found, going, audit, run_callback, callback_effect)
            | inr audit ↦
                rw (get, found, going, audit, run_callback, callback_effect)
                  (rw (
                    adjust-adjust key (set_state (new_state req))
                      (set_result (or_empty_object req.result_json))))
          ]
          | inr over ↦ elim (Bool-cases m.store.next_tx_fail_on_audit) [
            | inl audit ↦ rw (get, found, over, audit, run_callback, callback_effect) refl
            | inr audit ↦ rw (get, found, over, audit, run_callback, callback_effect)
          ]
        ]
      ]
    ]
