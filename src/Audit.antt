-- ===== src/Audit.antt =====
-- apps/control-plane/internal/audit/audit.go and the workflow methods of audit/recorder.go.
-- `json.Marshal` of a map of strings cannot fail, so details are kept as the map itself; the time
-- that a method reads from the clock is an argument.
pub mod Uuid
pub mod Entities
use iroum_ax.Prelude.{
  String, ℕ, Bool, true, false, not, ◌||◌, Option, none, some, List, [], ◌∷◌, if◌then◌else◌, ◌==◌,
}
use iroum_ax.Audit.Uuid.{UuidLib}

pub data Action : Type 0 where
  workflow_created workflow_transitioned_to_running workflow_completed : Action
  workflow_failed_dispatch workflow_failed_callback transition_rejected : Action
  callback_rejected_terminal workflow_create_cancelled : Action
  auth_forbidden auth_logout auth_refresh_reuse_detected abac_denied : Action
  server_startup server_shutdown_initiated server_shutdown_completed : Action
  evidence_created evidence_versioned eval_item_created eval_item_updated : Action
  score_created score_updated : Action
  score_review_request_created score_review_request_reviewer_assigned : Action
  score_review_request_approved score_review_request_rejected : Action
  rubric_created rubric_updated rubric_archived rubric_criterion_added rubric_band_added : Action

-- The strings that the constants stand for.
unfoldable pub action_name : Action → String
action_name workflow_created = "WORKFLOW_CREATED"
action_name workflow_transitioned_to_running = "WORKFLOW_TRANSITIONED_TO_RUNNING"
action_name workflow_completed = "WORKFLOW_COMPLETED"
action_name workflow_failed_dispatch = "WORKFLOW_FAILED_DISPATCH"
action_name workflow_failed_callback = "WORKFLOW_FAILED_CALLBACK"
action_name transition_rejected = "TRANSITION_REJECTED"
action_name callback_rejected_terminal = "CALLBACK_REJECTED_TERMINAL"
action_name workflow_create_cancelled = "WORKFLOW_CREATE_CANCELLED"
action_name auth_forbidden = "AUTH_FORBIDDEN"
action_name auth_logout = "AUTH_LOGOUT"
action_name auth_refresh_reuse_detected = "AUTH_REFRESH_REUSE_DETECTED"
action_name abac_denied = "ABAC_CONDITION_DENIED"
action_name server_startup = "SERVER_STARTUP"
action_name server_shutdown_initiated = "SERVER_SHUTDOWN_INITIATED"
action_name server_shutdown_completed = "SERVER_SHUTDOWN_COMPLETED"
action_name evidence_created = "EVIDENCE_CREATED"
action_name evidence_versioned = "EVIDENCE_VERSIONED"
action_name eval_item_created = "EVAL_ITEM_CREATED"
action_name eval_item_updated = "EVAL_ITEM_UPDATED"
action_name score_created = "SCORE_CREATED"
action_name score_updated = "SCORE_UPDATED"
action_name score_review_request_created = "SCORE_REVIEW_REQUEST_CREATED"
action_name score_review_request_reviewer_assigned = "SCORE_REVIEW_REQUEST_REVIEWER_ASSIGNED"
action_name score_review_request_approved = "SCORE_REVIEW_REQUEST_APPROVED"
action_name score_review_request_rejected = "SCORE_REVIEW_REQUEST_REJECTED"
action_name rubric_created = "RUBRIC_CREATED"
action_name rubric_updated = "RUBRIC_UPDATED"
action_name rubric_archived = "RUBRIC_ARCHIVED"
action_name rubric_criterion_added = "RUBRIC_CRITERION_ADDED"
action_name rubric_band_added = "RUBRIC_BAND_ADDED"

abbrev pub Details : Type 0
Details = Option (List (String × String))

-- `details` is the map behind `DetailsJSON`, `none` where the field is left nil.
pub record Event : Type 0 where
  pub timestamp : ℕ
  pub action : Action
  pub resource_type : String
  pub user_id : String
  pub details : Details
  pub resource_id : ℕ

pub record Recorder : Type 0 where
  pub auth_enabled : Bool

abbrev pub default_user_id : String
default_user_id = "cli-anonymous"

unfoldable pub resolve_user_id : Recorder → String → String
resolve_user_id r user_id = if user_id == "" || not r.auth_enabled then default_user_id else user_id

-- `uuid.Nil` is 0.
unfoldable pub parse_resource_id : UuidLib → String → ℕ
parse_resource_id uuid workflow_id = elim (uuid.parse workflow_id) [ none ↦ 0 | some id ↦ id ]

module _ (uuid : UuidLib) (r : Recorder) (now : ℕ) where
  workflow_event : Action → String → String → Details → Event
  workflow_event action workflow_id user_id details = record {
    timestamp = now;
    action = action;
    resource_type = "workflow";
    user_id = resolve_user_id r user_id;
    details = details;
    resource_id = parse_resource_id uuid workflow_id;
  }

  -- A method's argument `insert` is `tx.InsertAuditLog` of the caller's transaction.
  module _ {ℓ} {R : Type ℓ} (insert : Event → R) where
    unfoldable pub record_created : String → String → String → R
    unfolding workflow_event
    record_created workflow_id document_id user_id = insert (
        workflow_event workflow_created workflow_id user_id
          (some (("document_id", document_id) ∷ [])))

    unfoldable pub record_transition : String → Action → Action → String → R
    unfolding workflow_event
    record_transition workflow_id from to user_id = insert (
        workflow_event to workflow_id user_id
          (some (("from", action_name from) ∷ ("to", action_name to) ∷ [])))

    unfoldable pub record_completed : String → String → R
    unfolding workflow_event
    record_completed workflow_id user_id =
        insert (workflow_event workflow_completed workflow_id user_id none)

    unfoldable pub record_failed_dispatch : String → String → R
    unfolding workflow_event
    record_failed_dispatch workflow_id user_id =
        insert (workflow_event workflow_failed_dispatch workflow_id user_id none)

    unfoldable pub record_transitioned_to_running : String → String → R
    unfolding workflow_event
    record_transitioned_to_running workflow_id user_id = insert (
        workflow_event workflow_transitioned_to_running workflow_id user_id
          (some (("from", "PENDING") ∷ ("to", "RUNNING") ∷ [])))

    unfoldable pub record_failed_callback : String → String → String → R
    unfolding workflow_event
    record_failed_callback workflow_id reason user_id = insert (
        workflow_event workflow_failed_callback workflow_id user_id
          (some (("reason", reason) ∷ [])))
