-- ===== src/Score/Handlers.antt =====
-- cmd/server/score_handlers.go: the requests on scores, without the rollup. A body is none where the
-- decoder refuses it, and `parse_float` is `strconv.ParseFloat`. Between the statements of one
-- request nothing else is committed here. Log lines are left out.
use iroum_ax.Prelude.{
  String, ℕ, Bool, true, ◌&&◌, Option, none, some, List, [], if◌then◌else◌, ◌==◌, map, length, take,
  drop, ltb, ◌+◌, ◌-◌,
}
use iroum_ax.Prelude.Text.{trim_space, byte_length}
use iroum_ax.Errors.{
  Error, errors_is, score_not_found, grade_thresholds_unavailable, score_invalid_input,
  score_immutable, score_invalid_status, score_not_confirmed,
}
use iroum_ax.Audit.Uuid.{UuidLib}
use iroum_ax.Auth.Rbac.{User}
use iroum_ax.Postgres.{Score, Database, Floats, Metadata, Faults, begin_score, commit_tx}
use iroum_ax.Postgres.Tables.{select_rows}
use iroum_ax.Server.{
  Reply, success, refusal, invalid_argument, internal, abac_denied_reply, guard_write, attempt,
  commit_then, reply_with, in_transaction,
}
use iroum_ax.Server.Paging.{clamp_pagination}
use iroum_ax.Score.Rules.{ScoreUpdate, max_score_eval_item_id_len}
use iroum_ax.Score.{
  get_score_by_id, get_scores_by_evaluation_item, insert_score, update_score,
  supersede_and_replace_score, determine_grade,
}

pub record ScoreCreateBody (F : Type 0) : Type 0 where
  -- none for nil.
  pub metadata : Option Metadata
  pub score_value : Option F
  pub weight : Option F
  pub evaluation_item_id : String
  pub level : String
  pub evidence_id : String

pub record ScoreResponse (F : Type 0) : Type 0 where
  pub metadata : Option Metadata
  pub score_value : Option F
  pub weight : Option F
  pub evidence_id : Option String
  pub id : String
  pub evaluation_item_id : String
  pub level : String
  pub grade : String
  pub status : String
  pub created_by : String

pub data ScoreBody (F : Type 0) : Type 0 where
  score : ScoreResponse F → ScoreBody F
  scores : List (ScoreResponse F) → (count : ℕ) → ScoreBody F
  graded : (scope : String) → (value : F) → (grade : String) → ScoreBody F
  score_created : (score_id status : String) → ScoreBody F
  score_changed : (score_id : String) → ScoreBody F
  score_replaced : (score_id superseded_id : String) → ScoreBody F

abbrev text_of : Option String → String
text_of none = ""
text_of (some s) = s

abbrev formatted : UuidLib → Option ℕ → Option String
formatted uuid none = none
formatted uuid (some id) = some (uuid.format id)

unfoldable pub to_score_response : {F : Type 0} → UuidLib → Score F → ScoreResponse F
to_score_response uuid s = record {
  metadata = s.metadata;
  score_value = s.score_value;
  weight = s.weight;
  evidence_id = formatted uuid s.evidence_id;
  id = uuid.format s.id;
  evaluation_item_id = s.evaluation_item_id;
  level = s.level;
  grade = text_of s.grade;
  status = s.status;
  created_by = s.created_by;
}

unfoldable pub map_store_err : Error → ℕ × String × String
unfolding errors_is
map_store_err e =
    if errors_is e score_not_found
    then (404, "NOT_FOUND", "요청한 점수를 찾을 수 없습니다")
    else if errors_is e grade_thresholds_unavailable
    then (404, "NOT_FOUND", "요청한 scope의 등급 기준이 설정되지 않았습니다")
    else if errors_is e score_invalid_input
    then (400, "INVALID_ARGUMENT", "점수 입력이 유효하지 않습니다")
    else if errors_is e score_immutable
    then (409, "CONFLICT", "CONFIRMED 점수는 정정(supersede)으로만 수정 가능합니다")
    else if errors_is e score_invalid_status
    then (409, "CONFLICT", "허용되지 않은 점수 상태 전이입니다")
    else if errors_is e score_not_confirmed
    then (409, "CONFLICT", "정정(supersede)은 CONFIRMED 점수에만 허용됩니다")
    else (500, "INTERNAL", "점수 처리 중 오류가 발생했습니다")

abbrev pub write_store_err : {B : Type 0} → Error → Reply B
write_store_err e = let mapped = map_store_err e in refusal mapped.0 mapped.1 mapped.2 ""

-- `parseScoreID`, `decodeScoreBody` and the handler behind them.
abbrev pub with_score_id : {S B : Type 0} → (ℕ → S → Reply B × S) → Option ℕ → S → Reply B × S
with_score_id next none s = (invalid_argument "점수 id가 유효한 UUID가 아닙니다" "id", s)
with_score_id next (some id) s = next id s

abbrev pub with_score_body : {S A B : Type 0} → (A → S → Reply B × S) → Option A → S → Reply B × S
with_score_body next none s = (invalid_argument "요청 본문 JSON 파싱에 실패했습니다" "", s)
with_score_body next (some body) s = next body s

abbrev pub with_value : {S A B : Type 0} → (A → S → Reply B × S) → Option A → S → Reply B × S
with_value next none s = (invalid_argument "score_value는 필수이며 숫자여야 합니다" "score_value", s)
with_value next (some value) s = next value s

abbrev pub given_or_nil : Option Metadata → Metadata
given_or_nil none = []
given_or_nil (some metadata) = metadata

-- The text and the row agree, or the filter is not set.
abbrev pub passes : String → String → Bool
passes filter text = if filter == "" then true else text == filter

-- The slice of the filtered rows.
abbrev pub score_page : {A : Type 0} → ℕ × ℕ → List A → List A
score_page (limit, offset) xs =
    let from = if ltb (length xs) offset then length xs else offset in
    let to = if ltb (length xs) (from + limit) then length xs else from + limit in
    take (to - from) (drop from xs)

module _ {F : Type 0} (fl : Floats F) (uuid : UuidLib) (fail : Faults) (now : ℕ) where
  abbrev pub alone : Database F → Database F
  alone db = db

  unfoldable pub handle_get_score : String → Database F → Reply (ScoreBody F) × Database F
  unfolding get_score_by_id map_store_err to_score_response
  handle_get_score raw_id =
      with_score_id
        (λ id. in_transaction (fail begin_score) (internal "트랜잭션 시작 실패") (
          attempt write_store_err (get_score_by_id fl uuid fail now id)
            (λ s. reply_with (success 200 (score (to_score_response uuid s))))))
        (uuid.parse raw_id)

  unfoldable pub handle_list_scores :
      (item level status limit offset : String) → Database F → Reply (ScoreBody F) × Database F
  unfolding trim_space get_scores_by_evaluation_item map_store_err to_score_response select_rows
      clamp_pagination
  handle_list_scores item level status limit offset db =
      if trim_space item == ""
      then (invalid_argument "evaluation_item_id는 필수입니다" "evaluation_item_id", db)
      else in_transaction (fail begin_score) (internal "트랜잭션 시작 실패")
          (attempt write_store_err
            (get_scores_by_evaluation_item fl uuid fail now (trim_space item))
            (λ all.
              let filtered =
                select_rows (λ (s : Score F). passes level s.level && passes status s.status) all in
              let page =
                score_page (clamp_pagination limit offset)
                  (map (to_score_response uuid) filtered) in
              reply_with (success 200 (scores page (length page)))))
          db

  abbrev pub grade_with : String → Option F → Database F → Reply (ScoreBody F) × Database F
  grade_with scope none db = (invalid_argument "score는 숫자여야 합니다" "score", db)
  grade_with scope (some value) db =
      in_transaction (fail begin_score) (internal "트랜잭션 시작 실패")
        (attempt write_store_err (determine_grade fl fail scope value)
          (λ grade. reply_with (success 200 (graded scope value grade))))
        db

  unfoldable pub handle_grade :
      (parse_float : String → Option F)
      → (scope value : String) → Database F
      → Reply (ScoreBody F) × Database F
  unfolding trim_space determine_grade map_store_err
  handle_grade parse_float scope value db =
      if trim_space scope == ""
      then (invalid_argument "scope는 필수입니다" "scope", db)
      else grade_with (trim_space scope) (parse_float value) db

  -- The field and the message of the first check that fails, and the evidence that is named.
  unfoldable pub validate_create_body : ScoreCreateBody F → Option (String × String)
  unfolding trim_space byte_length
  validate_create_body b =
      if trim_space b.evaluation_item_id == ""
      then some ("evaluation_item_id", "evaluation_item_id는 필수입니다")
      else if ltb max_score_eval_item_id_len (byte_length b.evaluation_item_id)
      then some ("evaluation_item_id", "evaluation_item_id가 64자를 초과합니다")
      else elim b.score_value [
        | none ↦ some ("score_value", "score_value는 필수이며 숫자여야 합니다")
        | some value ↦ if b.evidence_id == "" then none else elim (uuid.parse b.evidence_id) [
          | none ↦ some ("evidence_id", "evidence_id가 유효한 UUID가 아닙니다")
          | some id ↦ none
        ]
      ]

  abbrev pub evidence_of : String → Option ℕ
  evidence_of raw = if raw == "" then none else uuid.parse raw

  -- The transaction of `handleCreateScore`.
  unfoldable pub create_score_in :
      ℕ → ScoreCreateBody F → F → Database F → Reply (ScoreBody F) × Database F
  unfolding insert_score map_store_err
  create_score_in id b value = in_transaction (fail begin_score) (internal "트랜잭션 시작 실패") (
      attempt write_store_err
        (insert_score fl uuid fail now id b.evaluation_item_id (evidence_of b.evidence_id) b.level
          value b.weight (given_or_nil b.metadata))
        (λ new_id.
          commit_then (fail commit_tx) (internal "점수 저장 실패")
            (success 201 (score_created (uuid.format new_id) "DRAFT"))))

  abbrev pub create_checked :
      ℕ
      → Option (String × String)
      → ScoreCreateBody F
      → Database F
      → Reply (ScoreBody F) × Database F
  create_checked id (some (field, message)) b db = (invalid_argument message field, db)
  create_checked id none b db = with_value (create_score_in id b) b.score_value db

  unfoldable pub handle_create_score :
      ℕ → Option User → Option (ScoreCreateBody F) → Database F → Reply (ScoreBody F) × Database F
  unfolding guard_write validate_create_body create_score_in
  handle_create_score id user body db =
      if guard_write user
      then with_score_body (λ b. create_checked id (validate_create_body b) b) body db
      else (abac_denied_reply "쓰기 권한이 없는 사용자입니다", db)

  abbrev pub asked_update : ScoreCreateBody F → ScoreUpdate F
  asked_update b = record {
    score_value = b.score_value;
    weight = b.weight;
    grade = none;
    status = none;
    metadata = b.metadata;
  }

  -- The transaction of `handleUpdateScore`.
  unfoldable pub update_score_in :
      ℕ → ScoreCreateBody F → Database F → Reply (ScoreBody F) × Database F
  unfolding update_score map_store_err
  update_score_in id b = in_transaction (fail begin_score) (internal "트랜잭션 시작 실패") (
      attempt write_store_err (update_score fl uuid fail now alone id (asked_update b)) (λ _.
        commit_then (fail commit_tx) (internal "점수 수정 실패")
          (success 200 (score_changed (uuid.format id)))))

  unfoldable pub handle_update_score :
      Option User
      → String
      → Option (ScoreCreateBody F)
      → Database F
      → Reply (ScoreBody F) × Database F
  unfolding guard_write update_score_in
  handle_update_score user raw_id body db =
      if guard_write user
      then with_score_id (λ id. with_score_body (update_score_in id) body) (uuid.parse raw_id) db
      else (abac_denied_reply "쓰기 권한이 없는 사용자입니다", db)

  -- The transaction of `handleSupersedeScore`. The first identifier is the new row's.
  unfoldable pub supersede_in :
      ℕ → ℕ → ScoreCreateBody F → F → Database F → Reply (ScoreBody F) × Database F
  unfolding supersede_and_replace_score map_store_err
  supersede_in new_id old_id b value = in_transaction (fail begin_score) (internal "트랜잭션 시작 실패") (
      attempt write_store_err
        (supersede_and_replace_score fl uuid fail now alone new_id old_id value b.weight
          (given_or_nil b.metadata))
        (λ id.
          commit_then (fail commit_tx) (internal "점수 정정 실패")
            (success 201 (score_replaced (uuid.format id) (uuid.format old_id)))))

  unfoldable pub handle_supersede_score :
      ℕ
      → Option User
      → String
      → Option (ScoreCreateBody F)
      → Database F
      → Reply (ScoreBody F) × Database F
  unfolding guard_write supersede_in
  handle_supersede_score new_id user raw_id body db =
      if guard_write user
      then with_score_id
          (λ old_id.
            with_score_body (λ b. with_value (supersede_in new_id old_id b) b.score_value) body)
          (uuid.parse raw_id) db
      else (abac_denied_reply "쓰기 권한이 없는 사용자입니다", db)
