-- ===== src/Score.antt =====
-- internal/store/score.go: scores and their grades. A method acts on the tables that its transaction
-- sees. Rows are not locked when they are read, so `meanwhile` says what other transactions commit
-- between the read of a row and the write to it. The exact sum of SumWeightedByEvaluationItem is
-- computed by the database and left out.
pub mod Rules
pub mod Updates
pub mod Immutable
pub mod Overwrites
pub mod Replacement
pub mod Corrections
pub mod Handlers
pub mod Requests
pub mod Effects
pub mod Results
pub mod Successes
pub mod Unconfirmed
pub mod Confirmed
pub mod Sums
use iroum_ax.Prelude.{
  String, ℕ, Bool, true, false, not, ◌||◌, ◌&&◌, Option, none, some, List, [], ◌∷◌, ◌++◌,
  if◌then◌else◌, ◌==◌, ltb,
}
use iroum_ax.Prelude.Text.{eqb}
use iroum_ax.Prelude.Sorting.{sort_desc}
use iroum_ax.Errors.{
  Error, Result, ok, err, wrap, sentinel, score_invalid_input, score_immutable, score_not_found,
  score_not_confirmed, score_audit_write_failed, grade_thresholds_unavailable,
}
use iroum_ax.Audit.{Event}
use iroum_ax.Audit.Uuid.{UuidLib}
use iroum_ax.Audit.Entities.{record_score_created, record_score_updated}
use iroum_ax.Postgres.{
  Score, GradeThreshold, Floats, Database, Metadata, marshal_metadata, M, ◌>>=◌, ◌>>◌, give, refuse,
  refuse_if, checked, statement, failing, failing_as, found_or, insert_audit, constraint_violation,
  Faults, select_score, insert_row, update_row, supersede_row, audit_call, second_audit_call,
  list_rows, select_thresholds,
}
use iroum_ax.Postgres.Tables.{select_row, select_rows, update_rows, count_rows, order_desc}
use iroum_ax.Score.Rules.{
  validate_score_status_transition, validate_score_input, score_recorder, score_missing,
  ScoreUpdate, Clause, is_score, is_confirmed, build_score_update_set, set_fields, in_columns,
  weight_in_column,
}

-- What other transactions commit between two statements.
abbrev pub meanwhile_step : {S : Type 0} → (S → S) → M S (Unit {0})
meanwhile_step others s = (ok tt, others s)

abbrev pub is_set : {A : Type 0} → Option A → Bool
is_set none = false
is_set (some a) = true

abbrev pub score_time : {F : Type 0} → Score F → ℕ
score_time s = s.created_at

module _ {F : Type 0} (fl : Floats F) where
  unfoldable pub matches_threshold : F → GradeThreshold F → Bool
  matches_threshold score t =
      if t.boundary_rule == "gte"
      then fl.le t.min_value score
      else if t.boundary_rule == "gt"
      then fl.lt t.min_value score
      else false

  -- The scan for the first threshold that matches.
  unfoldable pub first_grade : F → List (GradeThreshold F) → Result String
  unfolding matches_threshold
  first_grade score [] = err (wrap "모든 임계값 미달" (sentinel grade_thresholds_unavailable))
  first_grade score (t ∷ thresholds) =
      if matches_threshold score t then ok t.letter else first_grade score thresholds

  -- No row at all, or the scan.
  abbrev pub grade_of : F → List (GradeThreshold F) → Result String
  grade_of score [] = err (wrap "scope" (sentinel grade_thresholds_unavailable))
  grade_of score (t ∷ thresholds) = first_grade score (t ∷ thresholds)

  abbrev pub below : GradeThreshold F → GradeThreshold F → Bool
  below t u = fl.lt t.min_value u.min_value

  unfoldable pub determine_grade : Faults → String → F → M (Database F) String
  unfolding select_rows order_desc first_grade
  determine_grade fail scope score = do
    thresholds ← failing "DetermineGrade 조회 실패" (
        statement (fail select_thresholds) (λ db.
          (ok (order_desc below (select_rows (λ t. t.scope == scope) db.grade_thresholds)), db)))
    checked (grade_of score thresholds)

module _ {F : Type 0} (fl : Floats F) (uuid : UuidLib) (fail : Faults) (now : ℕ) where
  abbrev pub score_log : Option Error → Event → M (Database F) (Unit {0})
  score_log fault = insert_audit "InsertAuditLog(score) 실패" fault

  abbrev pub new_score : ℕ → String → Option ℕ → String → F → Option F → String → Metadata → Score F
  new_score id item evidence_id level value weight status metadata = record {
    created_at = now;
    updated_at = now;
    metadata = marshal_metadata metadata;
    evidence_id = evidence_id;
    score_value = some value;
    weight = weight;
    evaluation_item_id = item;
    level = level;
    grade = none;
    status = status;
    created_by = "cli-anonymous";
    id = id;
  }

  -- The row with the numbers as the columns keep them.
  abbrev pub put_score :
      ℕ
      → String
      → Option ℕ
      → String
      → String
      → Metadata
      → Option F
      → Option (Option F)
      → M (Database F) (Unit {0})
  put_score id item evidence_id level status metadata (some v) (some w) db = (
    ok tt,
    record db {
      scores = db.scores ++ new_score id item evidence_id level v w status metadata ∷ [];
    },
  )
  put_score id item evidence_id level status metadata _ _ db =
      (err (constraint_violation "22003"), db)

  unfoldable pub insert_score_row :
      ℕ → String → Option ℕ → String → F → Option F → String → Metadata → M (Database F) ℕ
  unfolding marshal_metadata
  insert_score_row id item evidence_id level value weight status metadata = do
    failing "InsertScore 실패" (
        statement (fail insert_row) (
          put_score id item evidence_id level status metadata (fl.decimal 6 2 value)
            (weight_in_column fl weight)))
    give id

  unfoldable pub insert_score :
      ℕ → String → Option ℕ → String → F → Option F → Metadata → M (Database F) ℕ
  unfolding validate_score_input insert_score_row record_score_created
  insert_score id item evidence_id level value weight metadata = do
    checked (validate_score_input fl item level value)
    new_id ← insert_score_row id item evidence_id level value weight "DRAFT" metadata
    failing_as "InsertScore audit 기록 실패" score_audit_write_failed (
        record_score_created uuid score_recorder now (score_log (fail audit_call)) new_id item level
          "")
    give new_id

  unfoldable pub get_score_by_id : ℕ → M (Database F) (Score F)
  unfolding select_row
  get_score_by_id id = failing "GetScoreByID" (
      statement (fail select_score)
        (λ db. found_or score_missing (select_row (is_score id) db.scores) db))

  unfoldable pub get_scores_by_evaluation_item : String → M (Database F) (List (Score F))
  unfolding select_rows sort_desc
  get_scores_by_evaluation_item item = failing "GetScoresByEvaluationItem 실패" (
      statement (fail list_rows) (λ db. (
        ok (sort_desc score_time (select_rows (λ s. s.evaluation_item_id == item) db.scores)),
        db,
      )))

  -- `CONFIRMED` keeps its value, weight and grade.
  abbrev pub changes_fields : ScoreUpdate F → Bool
  changes_fields upd = is_set upd.score_value || is_set upd.weight || is_set upd.grade

  abbrev pub check_status : String → Option String → Result (Unit {0})
  check_status current none = ok tt
  check_status current (some next) = validate_score_status_transition current next

  -- `UPDATE scores SET …, updated_at = now() WHERE id = …`, and how many rows it met.
  abbrev pub write_clauses : ℕ → Option (List (Clause F)) → M (Database F) ℕ
  write_clauses id none db = (err (constraint_violation "22003"), db)
  write_clauses id (some clauses) db = (
    ok (count_rows (is_score id) db.scores),
    record db {
      scores =
          update_rows (is_score id) (λ s. set_fields clauses (record s { updated_at = now }))
            db.scores;
    },
  )

  abbrev pub update_clauses :
      (Database F → Database F) → ℕ → Score F → List (Clause F) → M (Database F) (Unit {0})
  update_clauses meanwhile id current [] = give tt
  update_clauses meanwhile id current (c ∷ clauses) = do
    meanwhile_step meanwhile
    affected ←
        failing "UpdateScore 실패"
          (statement (fail update_row) (write_clauses id (in_columns fl (c ∷ clauses))))
    refuse_if (eqb affected 0) (wrap "UpdateScore" (sentinel score_not_found))
    failing_as "UpdateScore audit 기록 실패" score_audit_write_failed (
        record_score_updated uuid score_recorder now (score_log (fail audit_call)) id
          current.evaluation_item_id current.level "")

  unfoldable pub update_score :
      (Database F → Database F) → ℕ → ScoreUpdate F → M (Database F) (Unit {0})
  unfolding get_score_by_id validate_score_status_transition build_score_update_set in_columns
      count_rows update_rows set_fields record_score_updated
  update_score meanwhile id upd = do
    current ← get_score_by_id id
    refuse_if (current.status == "CONFIRMED" && changes_fields upd)
        (wrap "CONFIRMED 행 불변 필드 변경 거부" (sentinel score_immutable))
    checked (check_status current.status upd.status)
    update_clauses meanwhile id current (build_score_update_set upd)

  abbrev pub set_superseded : Score F → Score F
  set_superseded s = record s { status = "SUPERSEDED"; updated_at = now }

  unfoldable pub supersede_and_replace_score :
      (Database F → Database F) → ℕ → ℕ → F → Option F → Metadata → M (Database F) ℕ
  unfolding get_score_by_id insert_score_row record_score_created record_score_updated count_rows
      update_rows
  supersede_and_replace_score meanwhile new_id old_id value weight metadata = do
    refuse_if (fl.is_nan value || fl.is_inf value)
        (wrap "정정 score_value가 비수치(NaN/Inf)임" (sentinel score_invalid_input))
    old ← get_score_by_id old_id
    refuse_if (not (old.status == "CONFIRMED"))
        (wrap "정정은 CONFIRMED 행만 허용" (sentinel score_not_confirmed))
    id ←
        insert_score_row new_id old.evaluation_item_id old.evidence_id old.level value weight
          "CONFIRMED" metadata
    failing_as "정정 신규 행 audit 실패" score_audit_write_failed (
        record_score_created uuid score_recorder now (score_log (fail audit_call)) id
          old.evaluation_item_id old.level "")
    meanwhile_step meanwhile
    affected ← failing "구 행 SUPERSEDED 전이 실패" (
        statement (fail supersede_row) (λ db. (
          ok (count_rows (is_confirmed old_id) db.scores),
          record db { scores = update_rows (is_confirmed old_id) set_superseded db.scores },
        )))
    refuse_if (eqb affected 0) (wrap "구 행 CONFIRMED 아님(동시 변경?)" (sentinel score_not_confirmed))
    failing_as "정정 구 행 audit 실패" score_audit_write_failed (
        record_score_updated uuid score_recorder now (score_log (fail second_audit_call)) old_id
          old.evaluation_item_id old.level "")
    give id
