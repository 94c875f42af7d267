-- ===== src/Rubric/Handlers.antt =====
-- cmd/server/rubric_handlers.go: the requests on rubrics. A body is none where the decoder refuses it;
-- times are kept as numbers. Between the statements of one request nothing else is committed here.
-- `sum_weighted` is SumWeightedByEvaluationItem of score.go with the conversion of its exact sum to a
-- `float64`, which the database and pgx compute. Log lines are left out.
use iroum_ax.Prelude.{
  String, ℕ, ◌&&◌, Option, none, some, List, [], ◌∷◌, if◌then◌else◌, ◌==◌, map, ltb,
}
use iroum_ax.Prelude.Text.{trim_space}
use iroum_ax.Errors.{Result, ok, err, wrap, sentinel, eval_item_not_found}
use iroum_ax.Audit.Uuid.{UuidLib}
use iroum_ax.Auth.Rbac.{User}
use iroum_ax.Postgres.{
  Rubric, RubricCriterion, RubricBand, Score, Database, Floats, Faults, begin_rubric, begin_score,
  begin_eval_item, select_eval_item, commit_tx,
}
use iroum_ax.Postgres.Tables.{any_row}
use iroum_ax.Server.{
  Reply, success, refusal, invalid_argument, internal, abac_denied_reply, guard_admin,
  resolve_created_by, Body, attempt, commit_then, reply_with, in_transaction,
}
use iroum_ax.Server.Paging.{clamp_review_pagination}
use iroum_ax.Score.{get_score_by_id}
use iroum_ax.Rubric.Rules.{status_draft, status_active, status_archived, overlaps}
use iroum_ax.Rubric.{
  insert_rubric, get_rubric_by_id, list_rubrics, count_rubrics, update_rubric, archive_rubric,
  add_criterion, add_band, get_criteria_by_rubric, get_bands_by_rubric, apply_rubric,
}
use iroum_ax.Rubric.Bodies.{
  RubricCreateBody, RubricUpdateBody, RubricCriterionBody, RubricBandBody, RubricResponse,
  RubricReply, empty_or, no_metadata_or, to_rubric_response, to_criterion_json, to_band_json,
  map_rubric_store_err, write_rubric_store_err, with_rubric_id, with_rubric_body, with_reference,
  unless, looked_up, unless_begun, rubric, rubrics, rubric_made, criterion_made, band_made, applied,
}

module _ {F : Type 0} (fl : Floats F) (uuid : UuidLib) (fail : Faults) (now : ℕ) where
  abbrev pub begin_failed : Reply (RubricReply F)
  begin_failed = internal "트랜잭션 시작 실패"

  -- The guard of the administrators.
  abbrev pub guarded :
      Option User
      → (Database F → Reply (RubricReply F) × Database F)
      → Database F
      → Reply (RubricReply F) × Database F
  guarded user next db =
      if guard_admin user then next db else (abac_denied_reply "관리자 권한이 없는 사용자입니다", db)

  -- The transaction of `handleCreateRubric`.
  unfoldable pub create_rubric_in :
      ℕ → RubricCreateBody → String → Database F → Reply (RubricReply F) × Database F
  unfolding insert_rubric map_rubric_store_err
  create_rubric_in id b actor = in_transaction (fail begin_rubric) begin_failed (
      attempt write_rubric_store_err
        (insert_rubric fl uuid fail now id b.name b.scope b.metadata actor)
        (λ new_id. commit_then (fail commit_tx) (internal "rubric 저장 실패") (
          success 201
            (rubric_made (uuid.format new_id) b.name b.scope "draft" 1 none actor actor))))

  abbrev pub create_named :
      ℕ → Option User → RubricCreateBody → Database F → Reply (RubricReply F) × Database F
  create_named id user b db =
      if trim_space b.name == ""
      then (invalid_argument "rubric name은 필수입니다" "name", db)
      else create_rubric_in id b (resolve_created_by user) db

  unfoldable pub handle_create_rubric :
      ℕ → Option User → Option RubricCreateBody → Database F → Reply (RubricReply F) × Database F
  unfolding guard_admin trim_space create_rubric_in resolve_created_by
  handle_create_rubric id user body = guarded user (with_rubric_body (create_named id user) body)

  abbrev pub with_parts :
      RubricResponse F → List (RubricCriterion F) → List (RubricBand F) → RubricResponse F
  with_parts response criteria bands = record response {
    criteria = map (to_criterion_json uuid) criteria;
    bands = map (to_band_json uuid) bands;
  }

  unfoldable pub handle_get_rubric : String → Database F → Reply (RubricReply F) × Database F
  unfolding get_rubric_by_id get_criteria_by_rubric get_bands_by_rubric map_rubric_store_err
      to_rubric_response to_criterion_json to_band_json
  handle_get_rubric raw_id =
      with_rubric_id
        (λ id. in_transaction (fail begin_rubric) begin_failed (
          attempt write_rubric_store_err (get_rubric_by_id fl uuid fail now id) (λ r.
            attempt write_rubric_store_err (get_criteria_by_rubric fl uuid fail now id) (λ criteria.
              attempt write_rubric_store_err (get_bands_by_rubric fl uuid fail now id) (λ bands.
                reply_with (
                  success 200 (rubric (with_parts (to_rubric_response uuid r) criteria bands))))))))
        (uuid.parse raw_id)

  unfoldable pub handle_list_rubrics :
      (status scope limit offset : String) → Database F → Reply (RubricReply F) × Database F
  unfolding trim_space clamp_review_pagination list_rubrics count_rubrics map_rubric_store_err
      to_rubric_response
  handle_list_rubrics status scope limit offset =
      let page = clamp_review_pagination limit offset in
      in_transaction (fail begin_rubric) begin_failed (
        attempt write_rubric_store_err
          (list_rubrics fl uuid fail now (trim_space status) (trim_space scope) page.0 page.1)
          (λ items.
            attempt write_rubric_store_err
              (count_rubrics fl uuid fail now (trim_space status) (trim_space scope))
              (λ total.
                reply_with (success 200 (rubrics (map (to_rubric_response uuid) items) total)))))

  -- The row as it is then, and the commit.
  abbrev pub reread_and_commit : ℕ → String → Body (Database F) (RubricReply F)
  reread_and_commit id unsaved =
      attempt write_rubric_store_err (get_rubric_by_id fl uuid fail now id) (λ updated.
        commit_then (fail commit_tx) (internal unsaved)
          (success 200 (rubric (to_rubric_response uuid updated))))

  abbrev pub update_and_commit : ℕ → RubricUpdateBody → String → Body (Database F) (RubricReply F)
  update_and_commit id b actor =
      attempt write_rubric_store_err
        (update_rubric fl uuid fail now id b.name b.scope b.status b.metadata actor)
        (λ _. reread_and_commit id "rubric 갱신 실패")

  -- The check of `handleUpdateRubric` before a draft becomes active.
  abbrev pub unless_active :
      Rubric
      → RubricUpdateBody
      → Body (Database F) (RubricReply F)
      → Body (Database F) (RubricReply F)
  unless_active cur b next =
      if cur.status == status_draft && b.status == status_active
      then attempt write_rubric_store_err (count_rubrics fl uuid fail now status_active b.scope)
          (λ dup_count.
            unless (ltb 0 dup_count)
              (refusal 409 "CONFLICT" "동일 name/scope의 active rubric이 이미 존재합니다" "status") next)
      else next

  -- The transaction of `handleUpdateRubric`.
  unfoldable pub update_rubric_in :
      ℕ → RubricUpdateBody → String → Database F → Reply (RubricReply F) × Database F
  unfolding get_rubric_by_id count_rubrics update_rubric map_rubric_store_err to_rubric_response
  update_rubric_in id b actor = in_transaction (fail begin_rubric) begin_failed (
      attempt write_rubric_store_err (get_rubric_by_id fl uuid fail now id)
        (λ cur. unless_active cur b (update_and_commit id b actor)))

  unfoldable pub handle_update_rubric :
      Option User
      → String
      → Option RubricUpdateBody
      → Database F
      → Reply (RubricReply F) × Database F
  unfolding guard_admin update_rubric_in resolve_created_by
  handle_update_rubric user raw_id body = guarded user (
      with_rubric_id
        (λ id. with_rubric_body (λ b. update_rubric_in id b (resolve_created_by user)) body)
        (uuid.parse raw_id))

  -- The transaction of `handleArchiveRubric`.
  unfoldable pub archive_rubric_in :
      ℕ → String → String → Database F → Reply (RubricReply F) × Database F
  unfolding archive_rubric get_rubric_by_id map_rubric_store_err to_rubric_response
  archive_rubric_in id reason actor = in_transaction (fail begin_rubric) begin_failed (
      attempt write_rubric_store_err (archive_rubric fl uuid fail now id reason actor)
        (λ _. reread_and_commit id "rubric archive 실패"))

  abbrev pub archive_given :
      Option User → ℕ → String → Database F → Reply (RubricReply F) × Database F
  archive_given user id reason db =
      if trim_space reason == ""
      then (invalid_argument "archive_reason은 필수입니다" "archive_reason", db)
      else archive_rubric_in id reason (resolve_created_by user) db

  -- The body is some "" where the request has none.
  unfoldable pub handle_archive_rubric :
      Option User → String → Option String → Database F → Reply (RubricReply F) × Database F
  unfolding guard_admin trim_space archive_rubric_in resolve_created_by
  handle_archive_rubric user raw_id body =
      guarded user
        (with_rubric_id (λ id. with_rubric_body (archive_given user id) body) (uuid.parse raw_id))

  -- `GetEvalItemByID` of eval_item.go, as far as it tells whether the item is there.
  abbrev pub get_eval_item_by_id : String → Database F → Result (Unit {0})
  get_eval_item_by_id item db = elim (fail select_eval_item) [
    | some e ↦ err (wrap "GetEvalItemByID scan 실패" e)
    | none ↦
        if any_row (λ i. i == item) db.evaluation_items
        then ok tt
        else err (wrap "GetEvalItemByID" (sentinel eval_item_not_found))
  ]

  -- The loop over the weights that are there.
  unfoldable pub sum_weights : F → List (RubricCriterion F) → F
  sum_weights sum [] = sum
  sum_weights sum (c ∷ criteria) = sum_weights (fl.add sum c.weight) criteria

  abbrev pub criterion_and_commit : ℕ → ℕ → ℕ → F → String → Body (Database F) (RubricReply F)
  criterion_and_commit new_id id item weight actor =
      attempt write_rubric_store_err (add_criterion fl uuid fail now new_id id item weight actor)
        (λ made. commit_then (fail commit_tx) (internal "criterion 저장 실패") (
          success 201
            (criterion_made (uuid.format made) (uuid.format id) (uuid.format item) weight)))

  -- The second transaction of `handleAddCriterion`.
  unfoldable pub add_criterion_in :
      ℕ → ℕ → ℕ → F → String → Database F → Reply (RubricReply F) × Database F
  unfolding get_criteria_by_rubric sum_weights add_criterion map_rubric_store_err
  add_criterion_in new_id id item weight actor =
      in_transaction (fail begin_rubric) (internal "rubric 트랜잭션 시작 실패") (
        attempt write_rubric_store_err (get_criteria_by_rubric fl uuid fail now id) (λ existing.
          unless (fl.lt fl.one (fl.add (sum_weights fl.zero existing) weight))
            (invalid_argument "가중치 합이 1.0을 초과합니다" "weight")
            (criterion_and_commit new_id id item weight actor)))

  abbrev pub criterion_of_item :
      ℕ → ℕ → RubricCriterionBody F → String → ℕ → Database F → Reply (RubricReply F) × Database F
  criterion_of_item new_id id b actor item =
      unless_begun (fail begin_eval_item) (internal "평가항목 검증 트랜잭션 시작 실패") (λ db.
        looked_up write_rubric_store_err (λ _. add_criterion_in new_id id item b.weight actor) db
          (get_eval_item_by_id (uuid.format item) db))

  abbrev pub criterion_referred :
      ℕ → Option User → ℕ → RubricCriterionBody F → Database F → Reply (RubricReply F) × Database F
  criterion_referred new_id user id b =
      with_reference "유효하지 않은 평가항목 ID 형식입니다" "evaluation_item_id"
        (criterion_of_item new_id id b (resolve_created_by user))
        (uuid.parse (trim_space b.evaluation_item_id))

  unfoldable pub handle_add_criterion :
      ℕ
      → Option User
      → String
      → Option (RubricCriterionBody F)
      → Database F
      → Reply (RubricReply F) × Database F
  unfolding guard_admin trim_space any_row add_criterion_in map_rubric_store_err resolve_created_by
  handle_add_criterion new_id user raw_id body = guarded user (
      with_rubric_id (λ id. with_rubric_body (criterion_referred new_id user id) body)
        (uuid.parse raw_id))

  abbrev pub band_and_commit : ℕ → ℕ → RubricBandBody F → String → Body (Database F) (RubricReply F)
  band_and_commit new_id id b actor =
      attempt write_rubric_store_err
        (add_band fl uuid fail now new_id id b.letter b.min_score b.max_score actor)
        (λ made. commit_then (fail commit_tx) (internal "band 저장 실패") (
          success 201
            (band_made (uuid.format made) (uuid.format id) b.letter b.min_score b.max_score)))

  -- The transaction of `handleAddBand`.
  unfoldable pub add_band_in :
      ℕ → ℕ → RubricBandBody F → String → Database F → Reply (RubricReply F) × Database F
  unfolding get_bands_by_rubric any_row add_band map_rubric_store_err
  add_band_in new_id id b actor = in_transaction (fail begin_rubric) begin_failed (
      attempt write_rubric_store_err (get_bands_by_rubric fl uuid fail now id) (λ existing.
        unless (any_row (overlaps fl b.min_score b.max_score) existing)
          (invalid_argument "등급 구간이 기존 구간과 겹칩니다" "min_score") (band_and_commit new_id id b actor)))

  abbrev pub band_lettered :
      ℕ → Option User → ℕ → RubricBandBody F → Database F → Reply (RubricReply F) × Database F
  band_lettered new_id user id b db =
      if trim_space b.letter == ""
      then (invalid_argument "letter는 필수입니다" "letter", db)
      else add_band_in new_id id b (resolve_created_by user) db

  unfoldable pub handle_add_band :
      ℕ
      → Option User
      → String
      → Option (RubricBandBody F)
      → Database F
      → Reply (RubricReply F) × Database F
  unfolding guard_admin trim_space add_band_in resolve_created_by
  handle_add_band new_id user raw_id body = guarded user (
      with_rubric_id (λ id. with_rubric_body (band_lettered new_id user id) body)
        (uuid.parse raw_id))

  -- The second transaction of `handleApplyRubric`, which is never committed.
  unfoldable pub apply_in : ℕ → ℕ → F → Database F → Reply (RubricReply F) × Database F
  unfolding apply_rubric map_rubric_store_err to_band_json
  apply_in id score_id value = in_transaction (fail begin_rubric) (internal "rubric 트랜잭션 시작 실패") (
      attempt write_rubric_store_err (apply_rubric fl uuid fail now id value) (λ band. reply_with (
        success 200 (
          applied (uuid.format id) (uuid.format score_id) value band.letter
            (to_band_json uuid band)))))

  abbrev pub apply_value : ℕ → ℕ → Option F → Database F → Reply (RubricReply F) × Database F
  apply_value id score_id none db = (internal "점수 값 변환 실패", db)
  apply_value id score_id (some value) db = apply_in id score_id value db

  abbrev pub apply_score :
      (sum_weighted : String → Database F → Result (Option F))
      → ℕ
      → ℕ
      → Database F
      → Reply (RubricReply F) × Database F
  apply_score sum_weighted id score_id =
      unless_begun (fail begin_score) (internal "점수 트랜잭션 시작 실패") (λ db.
        looked_up write_rubric_store_err
          (λ (score : Score F) db.
            looked_up write_rubric_store_err (apply_value id score_id) db
              (sum_weighted score.evaluation_item_id db))
          db (get_score_by_id fl uuid fail now score_id db).0)

  abbrev pub apply_referred :
      (sum_weighted : String → Database F → Result (Option F))
      → ℕ
      → String
      → Database F
      → Reply (RubricReply F) × Database F
  apply_referred sum_weighted id raw_score =
      with_reference "유효하지 않은 점수 ID 형식입니다" "score_id" (apply_score sum_weighted id)
        (uuid.parse (trim_space raw_score))

  unfoldable pub handle_apply_rubric :
      (sum_weighted : String → Database F → Result (Option F))
      → String
      → Option String
      → Database F
      → Reply (RubricReply F) × Database F
  unfolding trim_space get_score_by_id apply_in map_rubric_store_err
  handle_apply_rubric sum_weighted raw_id body =
      with_rubric_id (λ id. with_rubric_body (apply_referred sum_weighted id) body)
        (uuid.parse raw_id)

  abbrev pub clone_and_commit : ℕ → ℕ → Rubric → String → Body (Database F) (RubricReply F)
  clone_and_commit new_id id src actor =
      attempt write_rubric_store_err
        (insert_rubric fl uuid fail now new_id src.name (empty_or src.scope)
          (no_metadata_or src.metadata) actor)
        (λ made. commit_then (fail commit_tx) (internal "rubric clone 실패") (
          success 201 (
            rubric_made (uuid.format made) src.name (empty_or src.scope) "draft" 1
              (some (uuid.format id)) actor actor)))

  -- The transaction of `handleCloneNewVersion`.
  unfoldable pub clone_in : ℕ → ℕ → String → Database F → Reply (RubricReply F) × Database F
  unfolding get_rubric_by_id insert_rubric map_rubric_store_err
  clone_in new_id id actor = in_transaction (fail begin_rubric) begin_failed (
      attempt write_rubric_store_err (get_rubric_by_id fl uuid fail now id) (λ src.
        unless (src.status == status_archived)
          (refusal 409 "CONFLICT" "archived rubric은 clone할 수 없습니다" "id")
          (clone_and_commit new_id id src actor)))

  unfoldable pub handle_clone_new_version :
      ℕ → Option User → String → Database F → Reply (RubricReply F) × Database F
  unfolding guard_admin clone_in resolve_created_by
  handle_clone_new_version new_id user raw_id =
      guarded user
        (with_rubric_id (λ id. clone_in new_id id (resolve_created_by user)) (uuid.parse raw_id))
