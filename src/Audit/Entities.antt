-- ===== src/Audit/Entities.antt =====
-- The methods of internal/audit/recorder.go for scores, review requests and rubrics. The identifier
-- of the row is the event's `resource_id`.
use iroum_ax.Prelude.{String, ℕ, some, List, [], ◌∷◌, if◌then◌else◌, ◌==◌, insert}
use iroum_ax.Audit.Uuid.{UuidLib}
use iroum_ax.Audit.{
  Action, Event, Recorder, resolve_user_id, score_created, score_updated,
  score_review_request_created, score_review_request_reviewer_assigned,
  score_review_request_approved, score_review_request_rejected, rubric_created, rubric_updated,
  rubric_archived, rubric_criterion_added, rubric_band_added,
}

abbrev Pairs : Type 0
Pairs = List (String × String)

-- `for k, v := range extra { m[k] = v }`.
unfoldable pub set_all : Pairs → Pairs → Pairs
unfolding insert
set_all [] m = m
set_all ((key, value) ∷ rest) m = set_all rest (insert key value m)

module _ (uuid : UuidLib) (r : Recorder) (now : ℕ) where
  abbrev pub entity_event : Action → String → ℕ → String → Pairs → Event
  entity_event action resource_type id user_id details = record {
    timestamp = now;
    action = action;
    resource_type = resource_type;
    user_id = resolve_user_id r user_id;
    details = some details;
    resource_id = id;
  }

  abbrev pub score_details : ℕ → String → String → Pairs
  score_details score_id evaluation_item_id level =
      ("score_id", uuid.format score_id)
      ∷ ("evaluation_item_id", evaluation_item_id)
      ∷ ("level", level)
      ∷ []

  abbrev pub review_request_details : ℕ → ℕ → Pairs → Pairs
  review_request_details id score_id extra =
      set_all extra
        (("score_review_request_id", uuid.format id) ∷ ("score_id", uuid.format score_id) ∷ [])

  abbrev pub rubric_details : ℕ → Pairs → Pairs
  rubric_details rubric_id extra = set_all extra (("rubric_id", uuid.format rubric_id) ∷ [])

  -- `if comment != "" { extra["comment"] = comment }`.
  abbrev pub with_comment : String → Pairs → Pairs
  with_comment comment extra = if comment == "" then extra else insert "comment" comment extra

  -- A method's argument `insert` is `tx.InsertAuditLog` of the caller's transaction.
  module _ {ℓ} {R : Type ℓ} (insert_log : Event → R) where
    unfoldable pub record_score_created : ℕ → String → String → String → R
    unfolding resolve_user_id
    record_score_created id item level user_id =
        insert_log (entity_event score_created "score" id user_id (score_details id item level))

    unfoldable pub record_score_updated : ℕ → String → String → String → R
    unfolding resolve_user_id
    record_score_updated id item level user_id =
        insert_log (entity_event score_updated "score" id user_id (score_details id item level))

    unfoldable pub record_review_created : ℕ → ℕ → String → R
    unfolding resolve_user_id set_all
    record_review_created id score_id user_id = insert_log (
        entity_event score_review_request_created "score_review_request" id user_id
          (review_request_details id score_id []))

    unfoldable pub record_reviewer_assigned : ℕ → ℕ → String → String → R
    unfolding resolve_user_id set_all
    record_reviewer_assigned id score_id reviewer_id user_id = insert_log (
        entity_event score_review_request_reviewer_assigned "score_review_request" id user_id
          (review_request_details id score_id (("reviewer_id", reviewer_id) ∷ [])))

    unfoldable pub record_review_approved : ℕ → ℕ → String → String → R
    unfolding resolve_user_id set_all insert
    record_review_approved id score_id comment user_id = insert_log (
        entity_event score_review_request_approved "score_review_request" id user_id
          (review_request_details id score_id (with_comment comment [])))

    unfoldable pub record_review_rejected : ℕ → ℕ → String → String → String → R
    unfolding resolve_user_id set_all insert
    record_review_rejected id score_id rejection_reason comment user_id = insert_log (
        entity_event score_review_request_rejected "score_review_request" id user_id (
          review_request_details id score_id
            (with_comment comment (("rejection_reason", rejection_reason) ∷ []))))

    -- The version is given as `strconv.Itoa` prints it.
    unfoldable pub record_rubric_created : ℕ → String → String → String → R
    unfolding resolve_user_id set_all
    record_rubric_created id name version user_id = insert_log (
        entity_event rubric_created "rubric" id user_id
          (rubric_details id (("name", name) ∷ ("version", version) ∷ [])))

    unfoldable pub record_rubric_updated : ℕ → String → R
    unfolding resolve_user_id set_all
    record_rubric_updated id user_id =
        insert_log (entity_event rubric_updated "rubric" id user_id (rubric_details id []))

    unfoldable pub record_rubric_archived : ℕ → String → String → R
    unfolding resolve_user_id set_all
    record_rubric_archived id archive_reason user_id = insert_log (
        entity_event rubric_archived "rubric" id user_id
          (rubric_details id (("archive_reason", archive_reason) ∷ [])))

    unfoldable pub record_rubric_criterion_added : ℕ → ℕ → ℕ → String → R
    unfolding resolve_user_id set_all
    record_rubric_criterion_added criterion_id rubric_id item_id user_id = insert_log (
        entity_event rubric_criterion_added "rubric_criterion" criterion_id user_id (
          rubric_details rubric_id (
            ("criterion_id", uuid.format criterion_id)
            ∷ ("evaluation_item_id", uuid.format item_id)
            ∷ [])))

    unfoldable pub record_rubric_band_added : ℕ → ℕ → String → String → R
    unfolding resolve_user_id set_all
    record_rubric_band_added band_id rubric_id letter user_id = insert_log (
        entity_event rubric_band_added "rubric_band" band_id user_id
          (rubric_details rubric_id (("band_id", uuid.format band_id) ∷ ("letter", letter) ∷ [])))
