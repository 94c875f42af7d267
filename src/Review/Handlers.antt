-- ===== src/Review/Handlers.antt =====
-- cmd/server/review_handlers.go: the requests on reviews. A body is none where the decoder refuses it;
-- times are kept as numbers. Log lines are left out.
use iroum_ax.Prelude.{String, ℕ, Option, none, some, List, if◌then◌else◌, ◌==◌, map}
use iroum_ax.Prelude.Text.{trim_space, eqb}
use iroum_ax.Errors.{
  Error, ok, err, errors_is, score_not_found, review_not_found, review_invalid_input,
  review_invalid_status, review_not_submitted, review_not_under_review,
}
use iroum_ax.Audit.Uuid.{UuidLib}
use iroum_ax.Auth.Rbac.{User}
use iroum_ax.Postgres.{
  ScoreReviewRequest, Database, Floats, Metadata, M, Faults, begin_score, begin_review, commit_tx,
}
use iroum_ax.Server.{
  Reply, success, refusal, invalid_argument, internal, abac_denied_reply, guard_write, guard_admin,
  resolve_created_by, attempt, commit_then, reply_with, in_transaction,
}
use iroum_ax.Server.Paging.{clamp_review_pagination}
use iroum_ax.Score.{get_score_by_id}
use iroum_ax.Review.{
  insert_score_review_request, get_score_review_request_by_id, list_score_review_requests,
  count_score_review_requests, assign_reviewer, approve_request, reject_request,
}

pub record ReviewResponse : Type 0 where
  pub metadata : Option Metadata
  pub assigned_reviewer_id : Option String
  pub rejection_reason : Option String
  pub comment : Option String
  pub id : String
  pub score_id : String
  pub status : String
  pub created_at : ℕ
  pub created_by : String
  pub updated_at : ℕ
  pub updated_by : String

pub data ReviewBody : Type 0 where
  created : (id score_id status created_by updated_by : String) → ReviewBody
  review : ReviewResponse → ReviewBody
  reviews : List ReviewResponse → ℕ → ReviewBody

pub record ReviewCreateBody : Type 0 where
  pub metadata : Metadata
  pub score_id : String
  pub comment : String

pub record ReviewRejectBody : Type 0 where
  pub rejection_reason : String
  pub comment : String

unfoldable pub to_review_response : UuidLib → ScoreReviewRequest → ReviewResponse
to_review_response uuid r = record {
  metadata = r.metadata;
  assigned_reviewer_id = r.assigned_reviewer_id;
  rejection_reason = r.rejection_reason;
  comment = r.comment;
  id = uuid.format r.id;
  score_id = uuid.format r.score_id;
  status = r.status;
  created_at = r.created_at;
  created_by = r.created_by;
  updated_at = r.updated_at;
  updated_by = r.updated_by;
}

unfoldable pub map_review_store_err : Error → ℕ × String × String
unfolding errors_is
map_review_store_err e =
    if errors_is e review_not_found
    then (404, "NOT_FOUND", "요청한 평가 검토를 찾을 수 없습니다")
    else if errors_is e score_not_found
    then (404, "NOT_FOUND", "검토 대상 점수를 찾을 수 없습니다")
    else if errors_is e review_invalid_input
    then (400, "INVALID_ARGUMENT", "평가 검토 입력이 유효하지 않습니다")
    else if errors_is e review_invalid_status
    then (409, "CONFLICT", "허용되지 않은 평가 검토 상태 전이입니다")
    else if errors_is e review_not_submitted
    then (409, "CONFLICT", "검토자 할당은 SUBMITTED 상태의 평가 검토에만 허용됩니다")
    else if errors_is e review_not_under_review
    then (409, "CONFLICT", "승인/반려는 UNDER_REVIEW 상태의 평가 검토에만 허용됩니다")
    else (500, "INTERNAL", "평가 검토 처리 중 오류가 발생했습니다")

abbrev pub write_review_store_err : Error → Reply ReviewBody
write_review_store_err e =
    let mapped = map_review_store_err e in refusal mapped.0 mapped.1 mapped.2 ""

-- `parseReviewID`, and the handler behind it.
abbrev pub with_review_id :
    {S : Type 0} → (ℕ → S → Reply ReviewBody × S) → Option ℕ → S → Reply ReviewBody × S
with_review_id next none s = (invalid_argument "유효하지 않은 평가 검토 ID 형식입니다" "id", s)
with_review_id next (some id) s = next id s

abbrev pub with_body : {S B A : Type 0} → (A → S → Reply B × S) → Option A → S → Reply B × S
with_body next none s = (invalid_argument "요청 본문 JSON 파싱에 실패했습니다" "", s)
with_body next (some body) s = next body s

module _ {F : Type 0} (fl : Floats F) (uuid : UuidLib) (fail : Faults) (now : ℕ) where
  -- `executeMutation`.
  unfoldable pub execute_mutation :
      ℕ → M (Database F) (Unit {0}) → Database F → Reply ReviewBody × Database F
  unfolding get_score_review_request_by_id map_review_store_err to_review_response
  execute_mutation id step = in_transaction (fail begin_review) (internal "트랜잭션 시작 실패") (
      attempt write_review_store_err step (λ _.
        attempt write_review_store_err (get_score_review_request_by_id uuid fail now id) (λ updated.
          commit_then (fail commit_tx) (internal "평가 검토 갱신 실패")
            (success 200 (review (to_review_response uuid updated))))))

  -- The insertion of `handleCreateReview`, its second transaction. `id` is the new row's identifier.
  unfoldable pub create_review_in :
      ℕ → ℕ → ReviewCreateBody → String → Database F → Reply ReviewBody × Database F
  unfolding insert_score_review_request map_review_store_err
  create_review_in id score_id body actor =
      in_transaction (fail begin_review) (internal "평가 검토 트랜잭션 시작 실패") (
        attempt write_review_store_err
          (insert_score_review_request uuid fail now id score_id body.comment body.metadata actor)
          (λ new_id. commit_then (fail commit_tx) (internal "평가 검토 저장 실패") (
            success 201
              (created (uuid.format new_id) (uuid.format score_id) "SUBMITTED" actor actor))))

  -- The first transaction only reads the score, and is rolled back when the handler returns.
  abbrev pub create_with :
      ℕ → Option User → ReviewCreateBody → Option ℕ → Database F → Reply ReviewBody × Database F
  create_with id user body none db = (invalid_argument "유효하지 않은 점수 ID 형식입니다" "score_id", db)
  create_with id user body (some score_id) db =
      if eqb score_id 0
      then (invalid_argument "유효하지 않은 점수 ID 형식입니다" "score_id", db)
      else elim (fail begin_score) [
        | some e ↦ (internal "점수 검증 트랜잭션 시작 실패", db)
        | none ↦ elim (get_score_by_id fl uuid fail now score_id db).0 [
          | err e ↦ (write_review_store_err e, db)
          | ok score ↦ create_review_in id score_id body (resolve_created_by user) db
        ]
      ]

  unfoldable pub handle_create_review :
      ℕ → Option User → Option ReviewCreateBody → Database F → Reply ReviewBody × Database F
  unfolding guard_write trim_space get_score_by_id create_review_in resolve_created_by
      map_review_store_err
  handle_create_review id user body db =
      if guard_write user
      then with_body (λ b. create_with id user b (uuid.parse (trim_space b.score_id))) body db
      else (abac_denied_reply "제출 권한이 없는 사용자입니다", db)

  unfoldable pub handle_get_review : String → Database F → Reply ReviewBody × Database F
  unfolding get_score_review_request_by_id map_review_store_err to_review_response
  handle_get_review raw_id =
      with_review_id
        (λ id. in_transaction (fail begin_review) (internal "트랜잭션 시작 실패") (
          attempt write_review_store_err (get_score_review_request_by_id uuid fail now id)
            (λ r. reply_with (success 200 (review (to_review_response uuid r))))))
        (uuid.parse raw_id)

  unfoldable pub handle_list_reviews :
      (status limit offset : String) → Database F → Reply ReviewBody × Database F
  unfolding trim_space clamp_review_pagination list_score_review_requests
      count_score_review_requests map_review_store_err to_review_response
  handle_list_reviews status limit offset =
      let filter = trim_space status in
      let page = clamp_review_pagination limit offset in
      in_transaction (fail begin_review) (internal "트랜잭션 시작 실패") (
        attempt write_review_store_err
          (list_score_review_requests uuid fail now filter page.0 page.1)
          (λ items.
            attempt write_review_store_err (count_score_review_requests uuid fail now filter)
              (λ total.
                reply_with (success 200 (reviews (map (to_review_response uuid) items) total)))))

  -- The guard of the administrators and the identifier of the path, before a handler.
  abbrev pub admitted :
      Option User
      → String
      → (ℕ → Database F → Reply ReviewBody × Database F)
      → Database F
      → Reply ReviewBody × Database F
  admitted user raw_id next db =
      if guard_admin user
      then with_review_id next (uuid.parse raw_id) db
      else (abac_denied_reply "관리자 권한이 없는 사용자입니다", db)

  abbrev pub assign_in :
      Option User → ℕ → Option String → Database F → Reply ReviewBody × Database F
  assign_in user id = with_body (λ reviewer_id db.
      if trim_space reviewer_id == ""
      then (invalid_argument "검토자 ID는 필수입니다" "reviewer_id", db)
      else execute_mutation id
          (assign_reviewer uuid fail now id reviewer_id (resolve_created_by user)) db)

  unfoldable pub handle_assign_reviewer :
      Option User → String → Option String → Database F → Reply ReviewBody × Database F
  unfolding guard_admin trim_space assign_reviewer execute_mutation resolve_created_by
  handle_assign_reviewer user raw_id body = admitted user raw_id (λ id. assign_in user id body)

  -- The body is some "" where the request has none.
  abbrev pub approve_in :
      Option User → ℕ → Option String → Database F → Reply ReviewBody × Database F
  approve_in user id = with_body (λ comment.
      execute_mutation id (approve_request uuid fail now id comment (resolve_created_by user)))

  unfoldable pub handle_approve :
      Option User → String → Option String → Database F → Reply ReviewBody × Database F
  unfolding guard_admin approve_request execute_mutation resolve_created_by
  handle_approve user raw_id body = admitted user raw_id (λ id. approve_in user id body)

  abbrev pub reject_in :
      Option User → ℕ → Option ReviewRejectBody → Database F → Reply ReviewBody × Database F
  reject_in user id = with_body (λ b db.
      if trim_space b.rejection_reason == ""
      then (invalid_argument "반려 사유는 필수입니다" "rejection_reason", db)
      else execute_mutation id
          (reject_request uuid fail now id b.rejection_reason b.comment (resolve_created_by user))
          db)

  unfoldable pub handle_reject :
      Option User → String → Option ReviewRejectBody → Database F → Reply ReviewBody × Database F
  unfolding guard_admin trim_space reject_request execute_mutation resolve_created_by
  handle_reject user raw_id body = admitted user raw_id (λ id. reject_in user id body)
