-- ===== src/Review/Rules.antt =====
-- The rules of internal/store/score_review_request.go: the states, the checks of the arguments and
-- the rows that the statements write.
use iroum_ax.Prelude.{
  String, ℕ, Bool, true, Option, none, some, List, [], ◌∷◌, if◌then◌else◌, ◌==◌, lookup,
}
use iroum_ax.Prelude.Text.{trim_space, eqb}
use iroum_ax.Errors.{
  Error, Result, ok, err, wrap, sentinel, review_not_found, review_invalid_input,
  review_invalid_status,
}
use iroum_ax.Audit.{Recorder}
use iroum_ax.Postgres.{ScoreReviewRequest, Metadata}
use iroum_ax.Postgres.Tables.{any_row}

abbrev pub submitted : String
submitted = "SUBMITTED"

abbrev pub under_review : String
under_review = "UNDER_REVIEW"

abbrev pub approved : String
approved = "APPROVED"

abbrev pub rejected : String
rejected = "REJECTED"

-- The keys of an inner map stand in its list.
unfoldable pub allowed_review_transitions : List (String × List String)
allowed_review_transitions =
    (submitted, under_review ∷ [])
    ∷ (under_review, approved ∷ rejected ∷ [])
    ∷ (approved, [])
    ∷ (rejected, [])
    ∷ []

abbrev pub is_key : String → List String → Bool
is_key s keys = any_row (λ k. k == s) keys

abbrev pub next_allowed : String → Option (List String) → Result (Unit {0})
next_allowed next none = err (wrap "허용 외 현재 상태" (sentinel review_invalid_status))
next_allowed next (some targets) =
    if is_key next targets
    then ok tt
    else err (wrap "status 전이 허용되지 않음" (sentinel review_invalid_status))

unfoldable pub validate_review_status_transition : String → String → Result (Unit {0})
unfolding allowed_review_transitions lookup any_row
validate_review_status_transition current next =
    next_allowed next (lookup current allowed_review_transitions)

-- `uuid.Nil` is 0.
unfoldable pub validate_review_request_input : ℕ → Result (Unit {0})
validate_review_request_input score_id =
    if eqb score_id 0
    then err (wrap "score_id가 비어 있음(uuid.Nil)" (sentinel review_invalid_input))
    else ok tt

unfoldable pub validate_rejection_reason : String → Result (Unit {0})
unfolding trim_space
validate_rejection_reason reason =
    if trim_space reason == ""
    then err (wrap "REJECTED 시 rejection_reason 필수" (sentinel review_invalid_input))
    else ok tt

-- `resolveUserID` of this file, and of rubric.go under another name.
unfoldable pub resolve_actor : String → String
unfolding trim_space
resolve_actor user_id = if trim_space user_id == "" then "cli-anonymous" else user_id

-- A text that is stored as NULL where it is blank.
unfoldable pub text_or_null : String → Option String
unfolding trim_space
text_or_null text = if trim_space text == "" then none else some text

abbrev pub coalesce : Option String → Option String → Option String
coalesce none old = old
coalesce (some new) old = some new

-- `audit.NewRecorder(true)` of `BeginScoreReviewRequestTx`.
abbrev pub review_recorder : Recorder
review_recorder = record { auth_enabled = true }

abbrev pub is_review : ℕ → ScoreReviewRequest → Bool
is_review id r = eqb r.id id

abbrev pub review_missing : Error
review_missing = wrap "score_review_request" (sentinel review_not_found)

-- `WHERE status = $1`, or no condition for a blank filter.
abbrev pub has_status : String → ScoreReviewRequest → Bool
has_status filter r = if trim_space filter == "" then true else r.status == filter

-- The key of `ORDER BY created_at DESC`.
abbrev pub review_time : ScoreReviewRequest → ℕ
review_time r = r.created_at

module _ (now : ℕ) where
  -- The row of an INSERT.
  abbrev pub new_request : ℕ → ℕ → Option String → Option Metadata → String → ScoreReviewRequest
  new_request id score_id comment metadata actor = record {
    metadata = metadata;
    created_at = now;
    updated_at = now;
    assigned_reviewer_id = none;
    rejection_reason = none;
    comment = comment;
    status = "SUBMITTED";
    created_by = actor;
    updated_by = actor;
    id = id;
    score_id = score_id;
  }

  abbrev pub set_under_review : String → String → ScoreReviewRequest → ScoreReviewRequest
  set_under_review reviewer_id actor r = record r {
    status = "UNDER_REVIEW";
    assigned_reviewer_id = some reviewer_id;
    updated_at = now;
    updated_by = actor;
  }

  abbrev pub set_approved : Option String → String → ScoreReviewRequest → ScoreReviewRequest
  set_approved comment actor r = record r {
    status = "APPROVED";
    comment = coalesce comment r.comment;
    updated_at = now;
    updated_by = actor;
  }

  abbrev pub set_rejected :
      String → Option String → String → ScoreReviewRequest → ScoreReviewRequest
  set_rejected reason comment actor r = record r {
    status = "REJECTED";
    rejection_reason = some reason;
    comment = coalesce comment r.comment;
    updated_at = now;
    updated_by = actor;
  }
