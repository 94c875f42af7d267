-- ===== src/Callback.antt =====
-- cmd/server/workflow_callback_handler.go: the worker's report of a result.
pub mod Effect
pub mod Once
use iroum_ax.Prelude.{
  String, ℕ, Bool, true, false, not, ◌||◌, Option, none, some, List, [], ◌∷◌, if◌then◌else◌, ◌==◌,
}
use iroum_ax.Errors.{Error, Result, ok, err, errors_is, workflow_not_found}
use iroum_ax.Types.{Workflow, WorkflowState, pending, running, completed, failed, same_state}
use iroum_ax.Audit.{
  Action, Event, Details, workflow_completed, workflow_failed_callback, callback_rejected_terminal,
  default_user_id,
}
use iroum_ax.Audit.Uuid.{UuidLib}
use iroum_ax.Store.{
  FakeTx, FakeStore, Session, M, begin_tx, insert_audit_log, update_workflow_state,
  update_workflow_result, get_workflow, commit, rollback,
}
use iroum_ax.Coordinator.{Machine}

-- The constants behind the states' names.
unfoldable pub state_name : WorkflowState → String
state_name pending = "PENDING"
state_name running = "RUNNING"
state_name completed = "COMPLETED"
state_name failed = "FAILED"

-- `callbackRequest`, whose `result_json` is empty where it is missing.
pub record CallbackRequest : Type 0 where
  pub status : String
  pub result_json : List ℕ

-- 204, or a status with a code and a message.
pub data CallbackReply : Type 0 where
  no_content : CallbackReply
  rejected : ℕ → String → String → CallbackReply

abbrev pub internal : String → CallbackReply
internal message = rejected 500 "INTERNAL" message

abbrev pub invalid_argument : String → CallbackReply
invalid_argument message = rejected 400 "INVALID_ARGUMENT" message

abbrev pub conflict : CallbackReply
conflict = rejected 409 "INVALID_TRANSITION" "워크플로우가 RUNNING 상태가 아니어서 콜백을 수용할 수 없습니다"

-- The bytes of `{}`.
abbrev pub or_empty_object : List ℕ → List ℕ
or_empty_object [] = 123 ∷ 125 ∷ []
or_empty_object (b ∷ bytes) = b ∷ bytes

-- The rest of the handler inside the transaction.
abbrev pub Step : Type 0
Step = Session → CallbackReply × Session

abbrev pub attempted :
    {A : Type 0}
    → (Error → CallbackReply)
    → (A → Step)
    → Result A × Session
    → CallbackReply × Session
attempted refuse next (ok a, s) = next a s
attempted refuse next (err e, s) = (refuse e, s)

-- `if err := step; err != nil { write the refusal; return }` and what follows.
abbrev pub attempt : {A : Type 0} → (Error → CallbackReply) → M A → (A → Step) → Step
attempt refuse step next s = attempted refuse next (step s)

-- A step whose error is only logged.
abbrev pub regardless : M (Unit {0}) → Step → Step
regardless step next s = next (step s).1

abbrev pub closed : CallbackReply × Session → CallbackReply × Machine
closed (reply, s) =
    let after = (rollback s).1 in
    (reply, record { store = after.store; transitions = after.transitions })

abbrev pub new_state : CallbackRequest → WorkflowState
new_state req = if req.status == "completed" then completed else failed

abbrev pub new_action : CallbackRequest → Action
new_action req = if req.status == "completed" then workflow_completed else workflow_failed_callback

module _ (uuid : UuidLib) (now : ℕ) where
  abbrev pub callback_event : Action → ℕ → Details → Event
  callback_event action id details = record {
    timestamp = now;
    action = action;
    resource_type = "workflow";
    user_id = default_user_id;
    details = details;
    resource_id = id;
  }

  abbrev pub rejection_event : ℕ → WorkflowState → String → Event
  rejection_event id current_state requested_status = callback_event callback_rejected_terminal id (
      some
        (("current_state", state_name current_state) ∷ ("requested_status", requested_status) ∷ []))

  -- `recordRejectedTerminal`, the commit and the answer.
  unfoldable pub reject_terminal : ℕ → CallbackRequest → WorkflowState → Step
  unfolding state_name insert_audit_log commit
  reject_terminal id req current_state =
      regardless (insert_audit_log (rejection_event id current_state req.status))
        (regardless (commit uuid) (λ s. (conflict, s)))

  unfoldable pub accept_result : ℕ → CallbackRequest → Step
  unfolding update_workflow_state update_workflow_result insert_audit_log commit
  accept_result id req =
      attempt (λ e. internal "워크플로우 상태 갱신 실패")
        (update_workflow_state (uuid.format id) (new_state req))
        (λ _.
          attempt (λ e. internal "워크플로우 결과 영속화 실패")
            (update_workflow_result (uuid.format id) (or_empty_object req.result_json))
            (λ _.
              attempt (λ e. internal "감사 로그 기록 실패")
                (insert_audit_log (callback_event (new_action req) id none))
                (λ _. attempt (λ e. internal "트랜잭션 커밋 실패") (commit uuid) (λ _ s. (no_content, s)))))

  abbrev pub not_found_or_internal : Error → CallbackReply
  not_found_or_internal e =
      if errors_is e workflow_not_found
      then rejected 404 "NOT_FOUND" "워크플로우를 찾을 수 없습니다"
      else internal "워크플로우 조회 실패"

  unfoldable pub on_workflow : ℕ → CallbackRequest → Workflow → Step
  unfolding same_state reject_terminal accept_result
  on_workflow id req wf =
      if not (same_state wf.state running)
      then reject_terminal id req wf.state
      else accept_result id req

  abbrev pub in_callback_tx :
      ℕ
      → CallbackRequest
      → List (WorkflowState × WorkflowState)
      → Result FakeTx × FakeStore
      → CallbackReply × Machine
  in_callback_tx id req transitions (ok tx, store) = closed (
      attempt not_found_or_internal (get_workflow (uuid.format id)) (on_workflow id req)
        (record { store = store; tx = tx; transitions = transitions }))
  in_callback_tx id req transitions (err e, store) =
      (internal "트랜잭션 시작 실패", record { store = store; transitions = transitions })

  abbrev pub is_status : String → Bool
  is_status status = status == "completed" || status == "failed"

  unfoldable pub run_callback : ℕ → CallbackRequest → Machine → CallbackReply × Machine
  unfolding begin_tx get_workflow errors_is on_workflow rollback
  run_callback id req m = in_callback_tx id req m.transitions (begin_tx m.store)

  abbrev pub on_body : ℕ → Option CallbackRequest → Machine → CallbackReply × Machine
  on_body id none m = (invalid_argument "요청 본문 JSON 파싱 실패", m)
  on_body id (some req) m =
      if not (is_status req.status)
      then (invalid_argument "status 필드는 'completed' 또는 'failed'만 허용됩니다", m)
      else run_callback id req m

  abbrev on_id : Option ℕ → Option CallbackRequest → Machine → CallbackReply × Machine
  on_id none body m = (invalid_argument "워크플로우 ID가 유효한 UUID가 아닙니다", m)
  on_id (some id) body m = on_body id body m

  -- `handleCallback` for the path's value and the body, none where it is no JSON of this shape.
  unfoldable pub handle_callback :
      String → Option CallbackRequest → Machine → CallbackReply × Machine
  unfolding run_callback
  handle_callback raw body m = on_id (uuid.parse raw) body m
