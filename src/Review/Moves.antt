-- ===== src/Review/Moves.antt =====
-- AssignReviewer, ApproveRequest and RejectRequest as moves of a review request.
use iroum_ax.Prelude.{
  String, ℕ, true, false, not, some, [], ◌∷◌, ◌++◌, ◌≡◌, refl, ◌==◌, inl, inr, not-false,
  Bool-cases, sym, ap, ◌∙◌,
}
use text.Mathlib.TextEquality.{eq_iff}
use iroum_ax.Prelude.Text.{trim_space}
use iroum_ax.Errors.{
  Error, Sentinel, ok, sentinel, wrap, review_invalid_input, review_not_submitted,
  review_not_under_review, review_audit_write_failed,
}
use iroum_ax.Audit.{Event}
use iroum_ax.Audit.Uuid.{UuidLib}
use iroum_ax.Audit.Entities.{
  record_reviewer_assigned, record_review_approved, record_review_rejected,
}
use iroum_ax.Postgres.{
  ScoreReviewRequest, Database, M, ◌>>=◌, ◌>>◌, refuse_if, checked, failing_as, Faults, lock_status,
  fetch_score_id, update_row, audit_call, IsFaultless,
}
use iroum_ax.Postgres.Tables.{select_row, update_rows}
use iroum_ax.Postgres.Steps.{continue-ok, refuse_if-ok, relabelled-ok, statement-ok, found_or-ok}
use iroum_ax.Review.Rules.{
  submitted, under_review, approved, rejected, validate_review_status_transition, resolve_actor,
  text_or_null, review_recorder, is_review, set_under_review, set_approved, set_rejected,
  validate_rejection_reason,
}
use iroum_ax.Review.{
  review_log, lock_and_check_status, fetch_score, update_request, assign_reviewer, approve_request,
  reject_request,
}

-- The arguments of the three methods, the user's identifier last.
pub data Move : Type 0 where
  assign : (reviewer_id user_id : String) → Move
  approve : (comment user_id : String) → Move
  reject : (reason comment user_id : String) → Move

-- The state that a move needs, and the row that it leaves.
unfoldable pub source : Move → String
source (assign reviewer_id user_id) = submitted
source (approve comment user_id) = under_review
source (reject reason comment user_id) = under_review

unfoldable pub target : Move → String
target (assign reviewer_id user_id) = under_review
target (approve comment user_id) = approved
target (reject reason comment user_id) = rejected

unfoldable pub moved : ℕ → Move → ScoreReviewRequest → ScoreReviewRequest
moved now (assign reviewer_id user_id) = set_under_review now reviewer_id (resolve_actor user_id)
moved now (approve comment user_id) =
    set_approved now (text_or_null comment) (resolve_actor user_id)
moved now (reject reason comment user_id) =
    set_rejected now reason (text_or_null comment) (resolve_actor user_id)

module _ (uuid : UuidLib) (now id : ℕ) where
  unfoldable pub event_of : Move → ℕ → Event
  event_of (assign reviewer_id user_id) score_id =
      record_reviewer_assigned uuid review_recorder now (λ e. e) id score_id reviewer_id
        (resolve_actor user_id)
  event_of (approve comment user_id) score_id =
      record_review_approved uuid review_recorder now (λ e. e) id score_id comment
        (resolve_actor user_id)
  event_of (reject reason comment user_id) score_id =
      record_review_rejected uuid review_recorder now (λ e. e) id score_id reason comment
        (resolve_actor user_id)

  module _ {F : Type 0} (fail : Faults) where
    unfoldable pub run : Move → M (Database F) (Unit {0})
    run (assign reviewer_id user_id) = assign_reviewer uuid fail now id reviewer_id user_id
    run (approve comment user_id) = approve_request uuid fail now id comment user_id
    run (reject reason comment user_id) = reject_request uuid fail now id reason comment user_id

    -- The part that the three methods share, from the lock on.
    abbrev core :
        String
        → String
        → Error
        → (ScoreReviewRequest → ScoreReviewRequest)
        → String
        → (ℕ → Event)
        → M (Database F) (Unit {0})
    core from to wrong change message event = do
      current ← lock_and_check_status uuid fail now id
      refuse_if (not (current == from)) wrong
      checked (validate_review_status_transition current to)
      score_id ← fetch_score uuid fail now id
      update_request uuid fail now id change
      failing_as message review_audit_write_failed (review_log uuid fail now (event score_id))

  -- The effect of a move on a row that is there.
  abbrev pub applied : {F : Type 0} → Move → ScoreReviewRequest → Database F → Database F
  applied move row db = record db {
    reviews = update_rows (is_review id) (moved now move) db.reviews;
    audit_logs = db.audit_logs ++ event_of move row.score_id ∷ [];
  }

module _ {F : Type 0} (uuid : UuidLib) (fail : Faults) (now id : ℕ) where
  lock-ok :
      (db : Database F) {status : String} {u : Database F}
      → lock_and_check_status uuid fail now id db ≡ (ok status, u)
      → (row : ScoreReviewRequest) × (select_row (is_review id) db.reviews ≡ some row)
        × (row.status ≡ status)
        × (db ≡ u)
  unfolding lock_and_check_status
  lock-ok db h =
      let (row, s, found, rest) = continue-ok _ _ h in
      let (present, same) = found_or-ok _ _ _ (statement-ok (fail lock_status) _ db found) in
      (row, present, cc rest, cc (same, rest))

  fetch-ok :
      (db : Database F) {score_id : ℕ} {u : Database F}
      → fetch_score uuid fail now id db ≡ (ok score_id, u)
      → (row : ScoreReviewRequest) × (select_row (is_review id) db.reviews ≡ some row)
        × (row.score_id ≡ score_id)
        × (db ≡ u)
  unfolding fetch_score
  fetch-ok db h =
      let (row, s, found, rest) = continue-ok _ _ h in
      let (present, same) =
        found_or-ok _ _ _ (statement-ok (fail fetch_score_id) _ db (relabelled-ok _ _ found)) in
      (row, present, cc rest, cc (same, rest))

  update-ok :
      (change : ScoreReviewRequest → ScoreReviewRequest) (db : Database F) {u : Database F}
      → update_request uuid fail now id change db ≡ (ok tt, u)
      → record db { reviews = update_rows (is_review id) change db.reviews } ≡ u
  update-ok change db h = cc (statement-ok (fail update_row) _ db (relabelled-ok _ _ h))

  review_log-ok :
      (message : String) (kind : Sentinel) (e : Event) (db : Database F) {u : Database F}
      → failing_as message kind (review_log uuid fail now e) db ≡ (ok tt, u)
      → record db { audit_logs = db.audit_logs ++ e ∷ [] } ≡ u
  review_log-ok message kind e db h =
      cc (statement-ok (fail audit_call) _ db (relabelled-ok _ _ (relabelled-ok _ _ h)))

  abbrev result :
      (ScoreReviewRequest → ScoreReviewRequest) → (ℕ → Event) → ℕ → Database F → Database F
  result change event score_id u = record u {
    reviews = update_rows (is_review id) change u.reviews;
    audit_logs = u.audit_logs ++ event score_id ∷ [];
  }

  core-ok :
      (from to : String) (wrong : Error) (change : ScoreReviewRequest → ScoreReviewRequest)
      (message : String) (event : ℕ → Event) (db : Database F) {db' : Database F}
      → core uuid now id fail from to wrong change message event db ≡ (ok tt, db')
      → (row : ScoreReviewRequest) × (select_row (is_review id) db.reviews ≡ some row)
        × ((row.status == from) ≡ true)
        × (db' ≡ record db {
          reviews = update_rows (is_review id) change db.reviews;
          audit_logs = db.audit_logs ++ event row.score_id ∷ [];
        })
  core-ok from to wrong change message event db {db'} h =
      let (current, u1, locked, h1) = continue-ok _ _ h in
      let (row, present, state, same1) = lock-ok db locked in
      let (x2, u2, right, h2) = continue-ok (refuse_if (not (current == from)) wrong u1) _ h1 in
      let (test, same2) = refuse_if-ok (not (current == from)) wrong u1 right in
      let (x3, u3, valid, h3) =
        continue-ok (checked (validate_review_status_transition current to) u2) _ h2 in
      let same3 : u2 ≡ u3 = cc valid in
      let (score_id, u4, fetched, h4) = continue-ok _ _ h3 in
      let (row', present', of_score, same4) = fetch-ok u3 fetched in
      let (x5, u5, updated, h5) = continue-ok _ _ h4 in
      let changed = update-ok change u4 updated in
      let logged = review_log-ok message review_audit_write_failed (event score_id) u5 h5 in
      let same : db ≡ u4 = cc (same1, same2, same3, same4) in
      let same_row : row ≡ row' = cc (present, present', same1, same2, same3) in
      (
        row,
        present,
        rw state (not-false (current == from) test),
        sym logged
            ∙ ap (λ (u : Database F). record u { audit_logs = u.audit_logs ++ event score_id ∷ [] })
                (sym changed)
            ∙ ap (result change event score_id) (sym same)
            ∙ ap (λ n. result change event n db) (cc (same_row, of_score)),
      )

-- What a move wants of its arguments.
abbrev pub IsGiven : Move → Type 0
IsGiven (assign reviewer_id user_id) = (trim_space reviewer_id == "") ≡ false
IsGiven (approve comment user_id) = Unit
IsGiven (reject reason comment user_id) = (trim_space reason == "") ≡ false

-- The row of the identifier is there, in the state that the move needs.
abbrev pub IsAt : {F : Type 0} → ℕ → Move → ScoreReviewRequest → Database F → Type 0
IsAt id move row db =
    (select_row (is_review id) db.reviews ≡ some row) × ((row.status == source move) ≡ true)

validate_rejection_reason-ok :
    (reason : String) {x : Unit {0}}
    → validate_rejection_reason reason ≡ ok x
    → (trim_space reason == "") ≡ false
unfolding validate_rejection_reason
validate_rejection_reason-ok reason h = elim (Bool-cases (trim_space reason == "")) [
  | inl blank ↦ absurd (cc (rw blank at h))
  | inr given ↦ given
]

-- A move that succeeds was of a request in the state that it needs, with the argument it wants; it
-- has changed exactly the rows of that identifier, to the state it aims at, and logged one event.
pub run-applied :
    {F : Type 0} (uuid : UuidLib) (fail : Faults) (now id : ℕ) (move : Move) (db : Database F)
    {db' : Database F}
    → run uuid now id fail move db ≡ (ok tt, db')
    → IsGiven move
      × ((row : ScoreReviewRequest) × IsAt id move row db × (db' ≡ applied uuid now id move row db))
unfolding run source event_of moved assign_reviewer approve_request reject_request
    record_reviewer_assigned record_review_approved record_review_rejected
run-applied uuid fail now id (assign reviewer_id user_id) db h =
    let blank = trim_space reviewer_id == "" in
    let empty = wrap "reviewer_id가 비어 있음" (sentinel review_invalid_input) in
    let (x, u, given, rest) = continue-ok (refuse_if blank empty db) _ h in
    let (test, same) = refuse_if-ok blank empty db given in
    let (row, present, state, effect) =
      core-ok uuid fail now id submitted under_review
        (wrap "SUBMITTED 필요" (sentinel review_not_submitted))
        (set_under_review now reviewer_id (resolve_actor user_id)) "AssignReviewer audit 실패"
        (λ n.
          record_reviewer_assigned uuid review_recorder now (λ e. e) id n reviewer_id
            (resolve_actor user_id))
        db (rw same rest) in
    (test, (row, (present, state), effect))
run-applied uuid fail now id (approve comment user_id) db h =
    let (row, present, state, effect) =
      core-ok uuid fail now id under_review approved
        (wrap "UNDER_REVIEW 필요" (sentinel review_not_under_review))
        (set_approved now (text_or_null comment) (resolve_actor user_id)) "ApproveRequest audit 실패"
        (λ n.
          record_review_approved uuid review_recorder now (λ e. e) id n comment
            (resolve_actor user_id))
        db h in
    (tt, (row, (present, state), effect))
run-applied uuid fail now id (reject reason comment user_id) db h =
    let (x, u, given, rest) = continue-ok (checked (validate_rejection_reason reason) db) _ h in
    let same : db ≡ u = cc given in
    let (row, present, state, effect) =
      core-ok uuid fail now id under_review rejected
        (wrap "UNDER_REVIEW 필요" (sentinel review_not_under_review))
        (set_rejected now reason (text_or_null comment) (resolve_actor user_id))
        "RejectRequest audit 실패"
        (λ n.
          record_review_rejected uuid review_recorder now (λ e. e) id n reason comment
            (resolve_actor user_id))
        db (rw same rest) in
    (validate_rejection_reason-ok reason (ap (λ p. p.0) given), (row, (present, state), effect))

core_succeeds :
    {F : Type 0} (uuid : UuidLib) (fail : Faults) (now id : ℕ) (from to : String) (wrong : Error)
    (change : ScoreReviewRequest → ScoreReviewRequest) (message : String) (event : ℕ → Event)
    (db : Database F) (row : ScoreReviewRequest)
    → IsFaultless fail
    → validate_review_status_transition from to ≡ ok tt
    → select_row (is_review id) db.reviews ≡ some row
    → (row.status == from) ≡ true
    → core uuid now id fail from to wrong change message event db
      ≡ (ok tt, result uuid fail now id change event row.score_id db)
unfolding lock_and_check_status fetch_score
core_succeeds uuid fail now id from to wrong change message event db row works valid present state =
    let same : row.status ≡ from = (eq_iff row.status from).0 state in
    rw (
      works lock_status,
      present,
      state,
      same,
      valid,
      works fetch_score_id,
      present,
      works update_row,
      works audit_call,
    )

-- Without faults of pgx, a move that has its argument and finds its request in the state that it
-- needs succeeds.
pub run_succeeds :
    {F : Type 0} (uuid : UuidLib) (fail : Faults) (now id : ℕ) (move : Move) (db : Database F)
    (row : ScoreReviewRequest)
    → IsFaultless fail
    → IsGiven move
    → IsAt id move row db
    → run uuid now id fail move db ≡ (ok tt, applied uuid now id move row db)
unfolding run source event_of moved assign_reviewer approve_request reject_request
    record_reviewer_assigned record_review_approved record_review_rejected
run_succeeds uuid fail now id (assign reviewer_id user_id) db row works given (present, state) =
    rw given (
      core_succeeds uuid fail now id submitted under_review
        (wrap "SUBMITTED 필요" (sentinel review_not_submitted))
        (set_under_review now reviewer_id (resolve_actor user_id)) "AssignReviewer audit 실패"
        (λ n.
          record_reviewer_assigned uuid review_recorder now (λ e. e) id n reviewer_id
            (resolve_actor user_id))
        db row works refl present state)
run_succeeds uuid fail now id (approve comment user_id) db row works given (present, state) =
    core_succeeds uuid fail now id under_review approved
      (wrap "UNDER_REVIEW 필요" (sentinel review_not_under_review))
      (set_approved now (text_or_null comment) (resolve_actor user_id)) "ApproveRequest audit 실패"
      (λ n.
        record_review_approved uuid review_recorder now (λ e. e) id n comment
          (resolve_actor user_id))
      db row works refl present state
run_succeeds uuid fail now id (reject reason comment user_id) db row works given (present, state) =
    rw (given, validate_rejection_reason)
      (core_succeeds uuid fail now id under_review rejected
        (wrap "UNDER_REVIEW 필요" (sentinel review_not_under_review))
        (set_rejected now reason (text_or_null comment) (resolve_actor user_id))
        "RejectRequest audit 실패"
        (λ n.
          record_review_rejected uuid review_recorder now (λ e. e) id n reason comment
            (resolve_actor user_id))
        db row works refl present state)
