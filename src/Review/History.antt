-- ===== src/Review/History.antt =====
-- Sequences of the requests of cmd/server/review_handlers.go, each with its own faults and time.
use iroum_ax.Prelude.{
  String, ℕ, true, false, Option, none, some, List, [], ◌∷◌, ◌≡◌, refl, ap, ◌∙◌, ◌⊎◌, inl, inr,
  ◌==◌, All, All-append, Bool-cases, arith,
}
use text.Mathlib.TextEquality.{eq_iff}
use iroum_ax.Prelude.Text.{trim_space, eqb}
use iroum_ax.Audit.Uuid.{UuidLib}
use iroum_ax.Postgres.{ScoreReviewRequest, Database, Floats, Faults}
use iroum_ax.Postgres.Tables.{
  select_row, select_row-append, select_row-update_rows_other, All-update_rows,
}
use iroum_ax.Server.{success, IsRefused}
use iroum_ax.Review.Rules.{is_review}
use iroum_ax.Review.Moves.{Move, assign, approve, reject, run, moved, source, IsGiven}
use iroum_ax.Review.Effect.{moved_keeps, select_row-applied, execute_mutation-effect}
use iroum_ax.Review.Handlers.{ReviewBody, execute_mutation}
use iroum_ax.Review.Requests.{
  Arrival, serve, serve_all, serve_request-Step, Step, stay, move, insertion,
}

-- A request that is at its end.
abbrev pub IsDecided : ScoreReviewRequest → Type 0
IsDecided r = (r.status ≡ "APPROVED") ⊎ (r.status ≡ "REJECTED")

-- No move starts at an end.
decided-source : (m : Move) (r : ScoreReviewRequest) → IsDecided r → (r.status == source m) ≡ false
unfolding source
decided-source (assign reviewer_id user_id) r (inl e) = rw e refl
decided-source (assign reviewer_id user_id) r (inr e) = rw e refl
decided-source (approve comment user_id) r (inl e) = rw e refl
decided-source (approve comment user_id) r (inr e) = rw e refl
decided-source (reject reason comment user_id) r (inl e) = rw e refl
decided-source (reject reason comment user_id) r (inr e) = rw e refl

-- A move of another request leaves this one.
apart :
    (id other : ℕ) (r : ScoreReviewRequest)
    → eqb other id ≡ false
    → is_review other r ≡ true
    → is_review id r ≡ false
apart id other r ne h = ground arith

module _ {F : Type 0} (fl : Floats F) (uuid : UuidLib) (id : ℕ) where
  Step-decided :
      (db db' : Database F) (r : ScoreReviewRequest)
      → IsDecided r
      → select_row (is_review id) db.reviews ≡ some r
      → Step fl uuid db db'
      → select_row (is_review id) db'.reviews ≡ some r
  Step-decided db db' r ended present (stay same) = rw same present
  Step-decided db db' r ended present (move now other m row given (there, state) effect) =
      elim (Bool-cases (eqb other id)) [
        | inl same ↦
            let equal : other ≡ id = ground arith in
            let there' : select_row (is_review id) db.reviews ≡ some row = rw equal at there in
            let same_row : row ≡ r = cc (there', present) in
            absurd (cc (decided-source m r ended, state, same_row))
        | inr different ↦ rw effect (
            select_row-update_rows_other (is_review id) (is_review other) (moved now m) db.reviews
              (moved_keeps now id m) (λ row. apart id other row different)
            ∙ present)
      ]
  Step-decided db db' r ended present (insertion now new score_id comment metadata actor effect) =
      rw effect (select_row-append (is_review id) db.reviews _ present)

  -- Whatever requests follow, with whatever faults, a review request that is APPROVED or REJECTED
  -- stays exactly as it is.
  pub decided_final :
      (arrivals : List Arrival) (db : Database F) (r : ScoreReviewRequest)
      → IsDecided r
      → select_row (is_review id) db.reviews ≡ some r
      → select_row (is_review id) (serve_all fl uuid arrivals db).reviews ≡ some r
  unfolding serve_all
  decided_final [] db r ended present = present
  decided_final (a ∷ arrivals) db r ended present =
      decided_final arrivals (serve fl uuid a db).1 r ended (
        Step-decided db (serve fl uuid a db).1 r ended present
          (serve_request-Step fl uuid a.fail a.now a.request db))

  -- The moves to an end.
  abbrev pub IsDecision : Move → Type 0
  IsDecision (assign reviewer_id user_id) = ⊥
  IsDecision (approve comment user_id) = Unit
  IsDecision (reject reason comment user_id) = Unit

  moved-IsDecided :
      (now : ℕ) (m : Move) (r : ScoreReviewRequest) → IsDecision m → IsDecided (moved now m r)
  unfolding moved
  moved-IsDecided now (assign reviewer_id user_id) r h = absurd h
  moved-IsDecided now (approve comment user_id) r h = inl refl
  moved-IsDecided now (reject reason comment user_id) r h = inr refl

  -- No move of a decided request changes anything, and its reply is an error.
  decided-IsRefused :
      (fail : Faults) (now : ℕ) (m : Move) (db : Database F) (r : ScoreReviewRequest)
      → IsDecided r
      → select_row (is_review id) db.reviews ≡ some r
      → let outcome = execute_mutation fl uuid fail now id (run uuid now id fail m) db in
        IsRefused outcome.0 × (outcome.1 ≡ db)
  decided-IsRefused fail now m db r ended present =
      elim (execute_mutation-effect fl uuid fail now id m db) [
        | inl refused ↦ refused
        | inr (given, (row, (there, state), effect)) ↦
            let same_row : row ≡ r = cc (there, present) in
            absurd (cc (decided-source m r ended, state, same_row))
      ]

  -- Of the approvals and rejections of one review request at most one succeeds: behind one that is
  -- answered with success, and any requests after it, each further move of the request is answered
  -- with an error and changes nothing.
  pub decided_once :
      (fail later_fail : Faults) (now later : ℕ) (m again : Move) (arrivals : List Arrival)
      (db : Database F) {status : ℕ} {body : ReviewBody}
      → IsDecision m
      → (execute_mutation fl uuid fail now id (run uuid now id fail m) db).0 ≡ success status body
      → let db' =
          serve_all fl uuid arrivals
            (execute_mutation fl uuid fail now id (run uuid now id fail m) db).1 in
        let outcome =
          execute_mutation fl uuid later_fail later id (run uuid later id later_fail again) db' in
        IsRefused outcome.0 × (outcome.1 ≡ db')
  decided_once fail later_fail now later m again arrivals db decision answered =
      let outcome = execute_mutation fl uuid fail now id (run uuid now id fail m) db in
      elim (execute_mutation-effect fl uuid fail now id m db) [
        | inl (refused, same) ↦ absurd (rw answered at refused)
        | inr (given, (row, (there, state), effect)) ↦
            let after : select_row (is_review id) outcome.1.reviews ≡ some (moved now m row) =
              ap (λ o. select_row (is_review id) o.1.reviews) effect
              ∙ select_row-applied uuid now id m row db there in
            let ended = moved-IsDecided now m row decision in
            decided-IsRefused later_fail later again (serve_all fl uuid arrivals outcome.1)
              (moved now m row) ended
              (decided_final arrivals outcome.1 (moved now m row) ended after)
      ]

-- A rejected request has a reason, and one under review a reviewer, neither of which is blank.
abbrev pub IsFilled : Option String → Type 0
IsFilled none = ⊥
IsFilled (some text) = (trim_space text == "") ≡ false

abbrev pub IsSound : ScoreReviewRequest → Type 0
IsSound r =
    ((r.status ≡ "REJECTED") → IsFilled r.rejection_reason)
    × ((r.status ≡ "UNDER_REVIEW") → IsFilled r.assigned_reviewer_id)

pub texts_differ : {A : Type 0} (s t : String) → (s == t) ≡ false → s ≡ t → A
texts_differ s t h e = absurd (cc ((eq_iff s t).1 e, h))

moved-IsSound : (now : ℕ) (m : Move) (r : ScoreReviewRequest) → IsGiven m → IsSound (moved now m r)
unfolding moved
moved-IsSound now (assign reviewer_id user_id) r given =
    (texts_differ "UNDER_REVIEW" "REJECTED" refl, λ h. given)
moved-IsSound now (approve comment user_id) r given =
    (texts_differ "APPROVED" "REJECTED" refl, texts_differ "APPROVED" "UNDER_REVIEW" refl)
moved-IsSound now (reject reason comment user_id) r given =
    ((λ h. given), texts_differ "REJECTED" "UNDER_REVIEW" refl)

module _ {F : Type 0} (fl : Floats F) (uuid : UuidLib) where
  Step-IsSound :
      (db db' : Database F) → All IsSound db.reviews → Step fl uuid db db' → All IsSound db'.reviews
  Step-IsSound db db' sound (stay same) = rw same sound
  Step-IsSound db db' sound (move now id m row given at effect) = rw effect (
      All-update_rows IsSound (is_review id) (moved now m) db.reviews
        (λ r old. moved-IsSound now m r given) sound)
  Step-IsSound db db' sound (insertion now id score_id comment metadata actor effect) = rw effect (
      All-append IsSound db.reviews _ sound (
        (texts_differ "SUBMITTED" "REJECTED" refl, texts_differ "SUBMITTED" "UNDER_REVIEW" refl),
        tt,
      ))

  -- Where every REJECTED request has a reason that is not blank and every request UNDER_REVIEW a
  -- reviewer that is not blank, they have them after any requests with any faults.
  pub serve_all-IsSound :
      (arrivals : List Arrival) (db : Database F)
      → All IsSound db.reviews
      → All IsSound (serve_all fl uuid arrivals db).reviews
  unfolding serve_all
  serve_all-IsSound [] db sound = sound
  serve_all-IsSound (a ∷ arrivals) db sound = serve_all-IsSound arrivals (serve fl uuid a db).1 (
      Step-IsSound db (serve fl uuid a db).1 sound
        (serve_request-Step fl uuid a.fail a.now a.request db))
