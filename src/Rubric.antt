-- ===== src/Rubric.antt =====
-- internal/store/rubric.go: rubrics, the weights of their criteria and the bands of their grades. A
-- method acts on the tables that its transaction sees; `fail` says which calls of pgx fail, `now` is
-- the transaction's time and a new row's identifier is an argument.
pub mod Rules
pub mod Steps
pub mod Changes
pub mod Additions
pub mod Bodies
pub mod Handlers
pub mod Answers
pub mod Parts
pub mod Lookups
pub mod Requests
pub mod Results
pub mod Served
pub mod Archived
pub mod Bands
pub mod Applied
use iroum_ax.Prelude.{
  String, ℕ, Bool, true, false, not, ◌&&◌, ◌||◌, Option, none, some, List, [], ◌∷◌, ◌++◌,
  if◌then◌else◌, ◌==◌, length, take, drop, lookup,
}
use iroum_ax.Prelude.Text.{trim_space, eqb}
use iroum_ax.Prelude.Sorting.{sort_desc}
use iroum_ax.Errors.{
  Error, Result, ok, err, wrap, sentinel, rubric_invalid_input, rubric_archived_error,
  rubric_invalid_status, rubric_audit_write_failed,
}
use iroum_ax.Audit.{Event}
use iroum_ax.Audit.Uuid.{UuidLib}
use iroum_ax.Audit.Entities.{
  record_rubric_created, record_rubric_updated, record_rubric_archived,
  record_rubric_criterion_added, record_rubric_band_added,
}
use iroum_ax.Postgres.{
  Rubric, RubricCriterion, RubricBand, Database, Floats, Metadata, marshal_metadata, M, ◌>>=◌, ◌>>◌,
  give, refuse, refuse_if, checked, statement, failing, failing_as, found_or, insert_audit,
  constraint_violation, Faults, select_rubric, lock_status, insert_row, update_row, audit_call,
  list_rows, count_all, select_criteria, select_bands,
}
use iroum_ax.Postgres.Tables.{select_row, select_rows, update_rows, any_row, order_desc}
use iroum_ax.Review.Rules.{resolve_actor, text_or_null}
use iroum_ax.Rubric.Rules.{
  status_archived, status_active, validate_rubric_input, validate_rubric_status_transition,
  effective_status, rubric_recorder, is_rubric, rubric_missing, is_listed, rubric_time, new_rubric,
  set_rubric, set_archived, clashes, is_unreasoned, of_rubric, is_band_of, validate_criterion_input,
  validate_band_input, overlaps, contains,
}

module _ {F : Type 0} (fl : Floats F) (uuid : UuidLib) (fail : Faults) (now : ℕ) where
  abbrev pub rubric_log : Event → M (Database F) (Unit {0})
  rubric_log = insert_audit "InsertAuditLog(rubric) 실패" (fail audit_call)

  abbrev pub put_rubric : Rubric → M (Database F) (Unit {0})
  put_rubric r db = (ok tt, record db { rubrics = db.rubrics ++ r ∷ [] })

  unfoldable pub insert_rubric : ℕ → String → String → Metadata → String → M (Database F) ℕ
  unfolding validate_rubric_input text_or_null resolve_actor marshal_metadata record_rubric_created
  insert_rubric id name scope metadata user_id = do
    checked (validate_rubric_input name)
    let actor = resolve_actor user_id
    failing "InsertRubric 실패" (
        statement (fail insert_row) (
          put_rubric
            (new_rubric now id name (text_or_null scope) (marshal_metadata metadata) actor)))
    failing_as "InsertRubric audit 실패" rubric_audit_write_failed
        (record_rubric_created uuid rubric_recorder now rubric_log id name "1" actor)
    give id

  unfoldable pub get_rubric_by_id : ℕ → M (Database F) Rubric
  unfolding select_row
  get_rubric_by_id id = failing "GetRubricByID" (
      statement (fail select_rubric)
        (λ db. found_or rubric_missing (select_row (is_rubric id) db.rubrics) db))

  unfoldable pub list_rubrics : String → String → ℕ → ℕ → M (Database F) (List Rubric)
  unfolding select_rows sort_desc trim_space
  list_rubrics status scope limit offset = failing "ListRubrics 실패" (
      statement (fail list_rows) (λ db. (
        ok (
            take limit (
              drop offset
                (sort_desc rubric_time (select_rows (is_listed status scope) db.rubrics)))),
        db,
      )))

  unfoldable pub count_rubrics : String → String → M (Database F) ℕ
  unfolding select_rows trim_space
  count_rubrics status scope = failing "CountRubrics 실패" (
      statement (fail count_all)
        (λ db. (ok (length (select_rows (is_listed status scope) db.rubrics)), db)))

  -- The lock of `FOR UPDATE` keeps other transactions away until this one ends.
  unfoldable pub lock_and_check_rubric_status : ℕ → M (Database F) String
  unfolding select_row
  lock_and_check_rubric_status id = do
    row ←
        statement (fail lock_status)
          (λ db. found_or rubric_missing (select_row (is_rubric id) db.rubrics) db)
    give (row.status)

  -- `UPDATE rubrics SET … WHERE id = $1`, under rubrics_archive_reason_chk, which the reason of the row
  -- has to satisfy, and rubrics_active_unique_idx.
  abbrev pub write_rubric :
      ℕ → String → Option String → String → (Rubric → Rubric) → M (Database F) (Unit {0})
  write_rubric id name scope status change db =
      if status == status_archived && any_row (is_unreasoned id) db.rubrics
      then (err (constraint_violation "23514"), db)
      else if status == status_active && any_row (clashes id name scope) db.rubrics
      then (err (constraint_violation "23505"), db)
      else (ok tt, record db { rubrics = update_rows (is_rubric id) change db.rubrics })

  unfoldable pub update_rubric :
      ℕ → String → String → String → Metadata → String → M (Database F) (Unit {0})
  unfolding validate_rubric_input lock_and_check_rubric_status effective_status text_or_null
      resolve_actor marshal_metadata any_row update_rows record_rubric_updated
  update_rubric id name scope new_status metadata user_id = do
    checked (validate_rubric_input name)
    current ← lock_and_check_rubric_status id
    refuse_if (current == status_archived) (wrap "UpdateRubric" (sentinel rubric_archived_error))
    status ← checked (effective_status current new_status)
    let actor = resolve_actor user_id
    failing "UpdateRubric UPDATE 실패" (
        statement (fail update_row) (
          write_rubric id name (text_or_null scope) status
            (set_rubric now name (text_or_null scope) status (marshal_metadata metadata) actor)))
    failing_as "UpdateRubric audit 실패" rubric_audit_write_failed
        (record_rubric_updated uuid rubric_recorder now rubric_log id actor)

  unfoldable pub archive_rubric : ℕ → String → String → M (Database F) (Unit {0})
  unfolding trim_space lock_and_check_rubric_status validate_rubric_status_transition resolve_actor
      update_rows record_rubric_archived
  archive_rubric id reason user_id = do
    refuse_if (trim_space reason == "")
        (wrap "archive_reason이 비어 있음" (sentinel rubric_invalid_input))
    current ← lock_and_check_rubric_status id
    refuse_if (current == status_archived) (wrap "ArchiveRubric" (sentinel rubric_invalid_status))
    checked (validate_rubric_status_transition current status_archived)
    let actor = resolve_actor user_id
    failing "ArchiveRubric UPDATE 실패" (
        statement (fail update_row) (λ db. (
          ok tt,
          record db {
            rubrics = update_rows (is_rubric id) (set_archived now reason actor) db.rubrics;
          },
        )))
    failing_as "ArchiveRubric audit 실패" rubric_audit_write_failed
        (record_rubric_archived uuid rubric_recorder now rubric_log id reason actor)

  -- The row with the weight as the column keeps it, under its CHECK.
  abbrev pub put_criterion : ℕ → ℕ → ℕ → Option F → M (Database F) (Unit {0})
  put_criterion id rubric_id item_id none db = (err (constraint_violation "22003"), db)
  put_criterion id rubric_id item_id (some w) db =
      if fl.le fl.zero w && fl.le w fl.one
      then (
        ok tt,
        record db {
          criteria =
              db.criteria
              ++ record {
                created_at = now;
                evaluation_item_id = item_id;
                id = id;
                rubric_id = rubric_id;
                weight = w;
              }
                ∷ [];
        },
      )
      else (err (constraint_violation "23514"), db)

  unfoldable pub add_criterion : ℕ → ℕ → ℕ → F → String → M (Database F) ℕ
  unfolding validate_criterion_input lock_and_check_rubric_status resolve_actor
      record_rubric_criterion_added
  add_criterion id rubric_id item_id weight user_id = do
    checked (validate_criterion_input fl weight)
    current ← lock_and_check_rubric_status rubric_id
    refuse_if (current == status_archived) (wrap "AddCriterion" (sentinel rubric_archived_error))
    let actor = resolve_actor user_id
    failing "AddCriterion INSERT 실패"
        (statement (fail insert_row) (put_criterion id rubric_id item_id (fl.decimal 5 4 weight)))
    failing_as "AddCriterion audit 실패" rubric_audit_write_failed (
        record_rubric_criterion_added uuid rubric_recorder now rubric_log id rubric_id item_id
          actor)
    give id

  abbrev pub new_band : ℕ → ℕ → String → F → F → RubricBand F
  new_band id rubric_id letter min_score max_score = record {
    created_at = now;
    letter = letter;
    id = id;
    rubric_id = rubric_id;
    min_score = min_score;
    max_score = max_score;
  }

  -- The row with the range as the columns keep it, under rubric_bands_range_chk and
  -- rubric_bands_no_overlap.
  abbrev pub put_band : ℕ → ℕ → String → Option F → Option F → M (Database F) (Unit {0})
  put_band id rubric_id letter (some low) (some high) db =
      if fl.lt low high
      then if any_row (λ b. is_band_of rubric_id b && overlaps fl low high b) db.bands
        then (err (constraint_violation "23P01"), db)
        else (ok tt, record db { bands = db.bands ++ new_band id rubric_id letter low high ∷ [] })
      else (err (constraint_violation "23514"), db)
  put_band id rubric_id letter _ _ db = (err (constraint_violation "22003"), db)

  unfoldable pub add_band : ℕ → ℕ → String → F → F → String → M (Database F) ℕ
  unfolding trim_space validate_band_input lock_and_check_rubric_status resolve_actor any_row
      record_rubric_band_added
  add_band id rubric_id letter min_score max_score user_id = do
    refuse_if (trim_space letter == "") (wrap "letter가 비어 있음" (sentinel rubric_invalid_input))
    checked (validate_band_input fl min_score max_score)
    current ← lock_and_check_rubric_status rubric_id
    refuse_if (current == status_archived) (wrap "AddBand" (sentinel rubric_archived_error))
    let actor = resolve_actor user_id
    failing "AddBand INSERT 실패" (
        statement (fail insert_row)
          (put_band id rubric_id letter (fl.decimal 8 4 min_score) (fl.decimal 8 4 max_score)))
    failing_as "AddBand audit 실패" rubric_audit_write_failed
        (record_rubric_band_added uuid rubric_recorder now rubric_log id rubric_id letter actor)
    give id

  -- `ORDER BY created_at ASC`, where rows stand in the order of their insertion.
  unfoldable pub get_criteria_by_rubric : ℕ → M (Database F) (List (RubricCriterion F))
  unfolding select_rows
  get_criteria_by_rubric id =
      failing "GetCriteriaByRubric 실패"
        (statement (fail select_criteria) (λ db. (ok (select_rows (of_rubric id) db.criteria), db)))

  abbrev pub above : RubricBand F → RubricBand F → Bool
  above b c = fl.lt c.min_score b.min_score

  unfoldable pub get_bands_by_rubric : ℕ → M (Database F) (List (RubricBand F))
  unfolding select_rows order_desc
  get_bands_by_rubric id = failing "GetBandsByRubric 실패" (
      statement (fail select_bands)
        (λ db. (ok (order_desc above (select_rows (is_band_of id) db.bands)), db)))

  -- The scan for the first band that contains the value.
  unfoldable pub find_band : F → List (RubricBand F) → Result (RubricBand F)
  find_band value [] = err (wrap "ApplyRubric" (sentinel rubric_invalid_input))
  find_band value (b ∷ bands) = if contains fl value b then ok b else find_band value bands

  -- The band with its letter.
  unfoldable pub apply_rubric : ℕ → F → M (Database F) (RubricBand F)
  unfolding get_rubric_by_id get_bands_by_rubric find_band
  apply_rubric id value = do
    rubric ← get_rubric_by_id id
    bands ← get_bands_by_rubric id
    checked (find_band value bands)
