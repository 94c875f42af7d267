-- ===== src/Review.antt =====
-- internal/store/score_review_request.go: requests for the review of a score. A method acts on the
-- tables that its transaction sees; `fail` says which calls of pgx fail, `now` is the transaction's
-- time and a new row's identifier is an argument.
pub mod Rules
pub mod Moves
pub mod Handlers
pub mod Effect
pub mod Requests
pub mod History
use iroum_ax.Review.Rules.{
  submitted, under_review, approved, rejected, validate_review_status_transition,
  validate_review_request_input, validate_rejection_reason, resolve_actor, text_or_null,
  review_recorder, is_review, review_missing, has_status, review_time, new_request,
  set_under_review, set_approved, set_rejected,
}
use iroum_ax.Prelude.{
  String, ℕ, Bool, true, not, Option, none, some, List, [], ◌∷◌, ◌++◌, if◌then◌else◌, ◌==◌, lookup,
  length, take, drop,
}
use iroum_ax.Prelude.Text.{trim_space, eqb}
use iroum_ax.Prelude.Sorting.{sort_desc}
use iroum_ax.Errors.{
  Error, Result, ok, err, wrap, sentinel, review_not_found, review_invalid_input,
  review_invalid_status, review_not_submitted, review_not_under_review, review_audit_write_failed,
}
use iroum_ax.Audit.{Recorder, Event}
use iroum_ax.Audit.Uuid.{UuidLib}
use iroum_ax.Audit.Entities.{
  record_review_created, record_reviewer_assigned, record_review_approved, record_review_rejected,
}
use iroum_ax.Postgres.{
  ScoreReviewRequest, Database, Metadata, marshal_metadata, M, ◌>>=◌, ◌>>◌, give, refuse_if,
  checked, statement, failing, failing_as, found_or, insert_audit, Faults, select_review,
  lock_status, fetch_score_id, insert_row, update_row, audit_call, list_rows, count_all,
}
use iroum_ax.Postgres.Tables.{select_row, select_rows, update_rows, any_row}

module _ {F : Type 0} (uuid : UuidLib) (fail : Faults) (now : ℕ) where
  abbrev pub review_log : Event → M (Database F) (Unit {0})
  review_log = insert_audit "InsertAuditLog(score_review_request) 실패" (fail audit_call)

  unfoldable pub insert_score_review_request : ℕ → ℕ → String → Metadata → String → M (Database F) ℕ
  unfolding validate_review_request_input resolve_actor text_or_null marshal_metadata
      record_review_created
  insert_score_review_request id score_id comment metadata user_id = do
    checked (validate_review_request_input score_id)
    let actor = resolve_actor user_id
    failing "InsertScoreReviewRequest 실패" (
        statement (fail insert_row) (λ db. (
          ok tt,
          record db {
            reviews =
                db.reviews
                ++ new_request now id score_id (text_or_null comment) (marshal_metadata metadata)
                    actor
                  ∷ [];
          },
        )))
    failing_as "InsertScoreReviewRequest audit 실패" review_audit_write_failed
        (record_review_created uuid review_recorder now review_log id score_id actor)
    give id

  unfoldable pub get_score_review_request_by_id : ℕ → M (Database F) ScoreReviewRequest
  unfolding select_row
  get_score_review_request_by_id id = failing "GetScoreReviewRequestByID" (
      statement (fail select_review)
        (λ db. found_or review_missing (select_row (is_review id) db.reviews) db))

  unfoldable pub list_score_review_requests :
      String → ℕ → ℕ → M (Database F) (List ScoreReviewRequest)
  unfolding select_rows sort_desc trim_space
  list_score_review_requests status limit offset = failing "ListScoreReviewRequests 실패" (
      statement (fail list_rows) (λ db. (
        ok (
            take limit
              (drop offset (sort_desc review_time (select_rows (has_status status) db.reviews)))),
        db,
      )))

  unfoldable pub count_score_review_requests : String → M (Database F) ℕ
  unfolding select_rows trim_space
  count_score_review_requests status = failing "CountScoreReviewRequests 실패" (
      statement (fail count_all)
        (λ db. (ok (length (select_rows (has_status status) db.reviews)), db)))

  -- The lock of `FOR UPDATE` keeps other transactions away until this one ends.
  unfoldable pub lock_and_check_status : ℕ → M (Database F) String
  unfolding select_row
  lock_and_check_status id = do
    row ←
        statement (fail lock_status)
          (λ db. found_or review_missing (select_row (is_review id) db.reviews) db)
    give (row.status)

  unfoldable pub fetch_score : ℕ → M (Database F) ℕ
  unfolding select_row
  fetch_score id = do
    row ← failing "score_id 조회 실패" (
        statement (fail fetch_score_id)
          (λ db. found_or review_missing (select_row (is_review id) db.reviews) db))
    give (row.score_id)

  -- `UPDATE score_review_requests SET … WHERE id = $1`.
  abbrev pub update_request :
      ℕ → (ScoreReviewRequest → ScoreReviewRequest) → M (Database F) (Unit {0})
  update_request id change = failing "UPDATE 실패" (
      statement (fail update_row)
        (λ db. (ok tt, record db { reviews = update_rows (is_review id) change db.reviews })))

  unfoldable pub assign_reviewer : ℕ → String → String → M (Database F) (Unit {0})
  unfolding trim_space lock_and_check_status validate_review_status_transition fetch_score
      resolve_actor update_rows record_reviewer_assigned
  assign_reviewer id reviewer_id user_id = do
    refuse_if (trim_space reviewer_id == "")
        (wrap "reviewer_id가 비어 있음" (sentinel review_invalid_input))
    current ← lock_and_check_status id
    refuse_if (not (current == submitted)) (wrap "SUBMITTED 필요" (sentinel review_not_submitted))
    checked (validate_review_status_transition current under_review)
    score_id ← fetch_score id
    let actor = resolve_actor user_id
    update_request id (set_under_review now reviewer_id actor)
    failing_as "AssignReviewer audit 실패" review_audit_write_failed
        (record_reviewer_assigned uuid review_recorder now review_log id score_id reviewer_id actor)

  unfoldable pub approve_request : ℕ → String → String → M (Database F) (Unit {0})
  unfolding lock_and_check_status validate_review_status_transition fetch_score resolve_actor
      text_or_null update_rows record_review_approved
  approve_request id comment user_id = do
    current ← lock_and_check_status id
    refuse_if (not (current == under_review))
        (wrap "UNDER_REVIEW 필요" (sentinel review_not_under_review))
    checked (validate_review_status_transition current approved)
    score_id ← fetch_score id
    let actor = resolve_actor user_id
    update_request id (set_approved now (text_or_null comment) actor)
    failing_as "ApproveRequest audit 실패" review_audit_write_failed
        (record_review_approved uuid review_recorder now review_log id score_id comment actor)

  unfoldable pub reject_request : ℕ → String → String → String → M (Database F) (Unit {0})
  unfolding validate_rejection_reason lock_and_check_status validate_review_status_transition
      fetch_score resolve_actor text_or_null update_rows record_review_rejected
  reject_request id reason comment user_id = do
    checked (validate_rejection_reason reason)
    current ← lock_and_check_status id
    refuse_if (not (current == under_review))
        (wrap "UNDER_REVIEW 필요" (sentinel review_not_under_review))
    checked (validate_review_status_transition current rejected)
    score_id ← fetch_score id
    let actor = resolve_actor user_id
    update_request id (set_rejected now reason (text_or_null comment) actor)
    failing_as "RejectRequest audit 실패" review_audit_write_failed (
        record_review_rejected uuid review_recorder now review_log id score_id reason comment actor)
