-- ===== src/Review/Effect.antt =====
-- What the requests of cmd/server/review_handlers.go do to the tables.
use iroum_ax.Prelude.{ℕ, some, ◌≡◌, refl, ap, ◌∙◌, ◌⊎◌, inl, inr, Option-cases, map_some}
use iroum_ax.Errors.{Error, Result, ok, err}
use iroum_ax.Audit.Uuid.{UuidLib}
use iroum_ax.Postgres.{
  ScoreReviewRequest, Database, Floats, Faults, select_review, begin_review, commit_tx,
}
use iroum_ax.Postgres.Tables.{select_row, select_row-update_rows}
use iroum_ax.Server.{Reply, success, IsRefused}
use iroum_ax.Review.Rules.{is_review}
use iroum_ax.Review.{get_score_review_request_by_id}
use iroum_ax.Review.Moves.{
  Move, assign, approve, reject, run, moved, applied, IsAt, IsGiven, run-applied,
}
use iroum_ax.Review.Handlers.{ReviewBody, review, to_review_response, execute_mutation}

module _ {S A : Type 0} where
  pub step-cases :
      (r : Result A × S)
      → ((e : Error) × (s : S) × (r ≡ (err e, s))) ⊎ ((a : A) × (s : S) × (r ≡ (ok a, s)))
  step-cases (err e, s) = inl (e, s, refl)
  step-cases (ok a, s) = inr (a, s, refl)

pub moved_keeps :
    (now id : ℕ) (move : Move) (r : ScoreReviewRequest)
    → is_review id (moved now move r) ≡ is_review id r
unfolding moved
moved_keeps now id (assign reviewer_id user_id) r = refl
moved_keeps now id (approve comment user_id) r = refl
moved_keeps now id (reject reason comment user_id) r = refl

-- The row of a moved request is the row moved.
pub select_row-applied :
    {F : Type 0} (uuid : UuidLib) (now id : ℕ) (move : Move) (row : ScoreReviewRequest)
    (db : Database F)
    → select_row (is_review id) db.reviews ≡ some row
    → select_row (is_review id) (applied uuid now id move row db).reviews
      ≡ some (moved now move row)
select_row-applied uuid now id move row db present =
    select_row-update_rows (is_review id) (moved now move) db.reviews (moved_keeps now id move)
    ∙ ap (map_some (moved now move)) present

-- The reply is an error and nothing has changed, or the move was made and the reply shows the row that it left.
abbrev pub IsMutated :
    {F : Type 0} → UuidLib → ℕ → ℕ → Move → Database F → Reply ReviewBody × Database F → Type 0
IsMutated uuid now id move db outcome =
    (IsRefused outcome.0 × (outcome.1 ≡ db))
    ⊎ (IsGiven move
        × ((row : ScoreReviewRequest) × IsAt id move row db
            × (outcome ≡ (
              success 200 (review (to_review_response uuid (moved now move row))),
              applied uuid now id move row db,
            ))))

module _ {F : Type 0} (fl : Floats F) (uuid : UuidLib) (fail : Faults) (now id : ℕ) (move : Move)
    (db : Database F) where
  -- An assignment, an approval or a rejection, with its transaction and its reading of the row behind
  -- the write, is refused and changes nothing; or its row was there in the state that it needs, it has
  -- been moved and the event written, nothing else has changed, and the reply is the moved row.
  pub execute_mutation-effect :
      IsMutated uuid now id move db
        (execute_mutation fl uuid fail now id (run uuid now id fail move) db)
  unfolding execute_mutation get_score_review_request_by_id
  execute_mutation-effect = elim (Option-cases (fail begin_review)) [
    | inr (e, broken) ↦ inl (rw broken tt, rw broken)
    | inl open_tx ↦ elim (step-cases (run uuid now id fail move db)) [
      | inl (e, s, failed) ↦ inl (rw (open_tx, failed) tt, rw (open_tx, failed))
      | inr (x, s, done) ↦
          let (given, (row, at, effect)) = run-applied uuid fail now id move db done in
          let present : select_row (is_review id) s.reviews ≡ some (moved now move row) =
            rw effect (select_row-applied uuid now id move row db at.0) in
          elim (Option-cases (fail select_review)) [
            | inr (e, broken) ↦ inl (rw (open_tx, done, broken) tt, rw (open_tx, done, broken))
            | inl reads ↦ elim (Option-cases (fail commit_tx)) [
              | inr (e, broken) ↦ inl (
                rw (open_tx, done, reads, present, broken) tt,
                rw (open_tx, done, reads, present, broken),
              )
              | inl commits ↦ inr (
                given,
                (
                  row,
                  at,
                  rw (open_tx, done, reads, present, commits)
                      (ap
                        (λ (t : Database F).
                          (success 200 (review (to_review_response uuid (moved now move row))), t))
                        effect),
                ),
              )
            ]
          ]
    ]
  ]
