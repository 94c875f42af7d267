-- ===== src/Tests/Scores.antt =====
-- Runs of the requests on scores.
use iroum_ax.Prelude.{ℕ, String, Option, none, some, [], ◌∷◌, List, ◌≡◌, ◌≢◌, true, refl, ◌⊎◌, ◌==◌}
use iroum_ax.Errors.{ok}
use iroum_ax.Postgres.{Database}
use iroum_ax.Postgres.Tables.{select_row}
use iroum_ax.Server.{Reply, success, guard_write, IsRefused}
use iroum_ax.Score.Rules.{is_score, weight_in_column}
use iroum_ax.Score.{supersede_and_replace_score, update_score}
use iroum_ax.Score.Corrections.{supersede_once}
use iroum_ax.Score.Overwrites.{unconfirmed_read_overwrites, of_value, with_value}
use iroum_ax.Score.Sums.{sum_raw, with_product, correction_counts_both}
use iroum_ax.Score.Handlers.{ScoreBody, score_replaced, ScoreCreateBody, handle_supersede_score}
use iroum_ax.Score.Requests.{ScoreRequest, change_score, replace_score, create_score, serve_score}
use iroum_ax.Server.{Reply, success, guard_write, IsRefused}
use iroum_ax.Score.Results.{IsResult, serve_score-IsResult}
use iroum_ax.Score.Unconfirmed.{ScoreArrival, serve_scores, corrections_unreachable}
use iroum_ax.Score.Confirmed.{IsKept, serve_score-IsKept}
use iroum_ax.Tests.Samples.{unary, unary_ids}
use iroum_ax.Tests.Tables.{whole, exact, faultless, faultless-IsFaultless, score_of, tables}

abbrev db : Database ℕ
db = tables "SUBMITTED"

abbrev body : ScoreCreateBody ℕ
body = record {
  metadata = none;
  score_value = some 90;
  weight = some 2;
  evaluation_item_id = "item";
  level = "raw";
  evidence_id = "";
}

abbrev correction : ScoreRequest ℕ
correction = replace_score 8 none "iiiiiii" (some body)

abbrev no_float : String → Option ℕ
no_float s = none

serve_score-IsResult_example :
    let outcome = serve_score whole unary_ids no_float faultless 9 correction db in
    (IsRefused outcome.0 × (outcome.1 ≡ db))
    ⊎ IsResult whole unary_ids no_float faultless 9 db correction outcome
serve_score-IsResult_example =
    serve_score-IsResult whole unary_ids no_float faultless 9 db correction

serve_score-IsKept_example :
    IsKept 7
      (score_of 7 "CONFIRMED")
      (serve_score whole unary_ids no_float faultless 9 correction db).1
unfolding select_row
serve_score-IsKept_example =
    serve_score-IsKept whole unary_ids no_float faultless 9 7 correction (score_of 7 "CONFIRMED") db
      refl refl

-- The tables before anything is CONFIRMED.
abbrev drafts : Database ℕ
drafts = record db { scores = score_of 6 "DRAFT" ∷ [] }

abbrev requests : List (ScoreArrival ℕ)
requests =
    record { request = create_score 8 none (some body); fail = faultless; now = 9 }
    ∷ record { request = change_score none "iiiiiiii" (some body); fail = faultless; now = 10 }
    ∷ []

corrections_unreachable_example :
    let after = serve_scores whole unary_ids no_float requests drafts in
    let outcome =
      handle_supersede_score whole unary_ids faultless 11 12 none "iiiiiiii" (some body) after in
    IsRefused outcome.0 × (outcome.1 ≡ after)
corrections_unreachable_example =
    corrections_unreachable whole unary_ids no_float requests faultless 11 12 none "iiiiiiii"
      (some body) drafts (refl, tt)

-- Another transaction confirms the draft.
abbrev confirming : Database ℕ → Database ℕ
confirming s = record s { scores = score_of 7 "CONFIRMED" ∷ score_of 6 "CONFIRMED" ∷ [] }

unconfirmed_read_overwrites_example :
    ((update_score whole unary_ids faultless 9 confirming 6 (of_value 90) db).0 ≡ ok tt)
    × (select_row
          (is_score 6)
          (update_score whole unary_ids faultless 9 confirming 6 (of_value 90) db).1.scores
        ≡ some (with_value 9 90 (score_of 6 "CONFIRMED")))
unfolding select_row
unconfirmed_read_overwrites_example =
    unconfirmed_read_overwrites whole unary_ids faultless 9 6 confirming db (score_of 6 "DRAFT")
      (score_of 6 "CONFIRMED") 90 90 faultless-IsFaultless refl refl refl refl

abbrev alone : Database ℕ → Database ℕ
alone s = s

abbrev corrected_tables : Database ℕ
corrected_tables =
    (supersede_and_replace_score whole unary_ids faultless 9 alone 8 7 90 (some 2) [] db).1

corrected_once :
    supersede_and_replace_score whole unary_ids faultless 9 alone 8 7 90 (some 2) [] db
    ≡ (ok 8, corrected_tables)
unfolding supersede_and_replace_score
corrected_once = refl

abbrev answer : Reply (ScoreBody ℕ) × Database ℕ
answer = (success 201 (score_replaced (unary 8) (unary 7)), corrected_tables)

supersede_once_example :
    supersede_and_replace_score whole unary_ids faultless 10 alone 12 7 95 none [] corrected_tables
    ≢ (ok 12, db)
supersede_once_example =
    supersede_once whole unary_ids faultless faultless 9 10 alone alone 8 12 7 90 95 (some 2) none
      [] [] db 8 12 corrected_tables db corrected_once

present : select_row (is_score 7) db.scores ≡ some (score_of 7 "CONFIRMED")
unfolding select_row
present = refl

correction_counts_both_example :
    (("CONFIRMED" == "CONFIRMED") ≡ true)
    × (d : ℕ) × (dw : Option ℕ) × (some 90 ≡ some d)
    × (weight_in_column whole (some 2) ≡ some dw)
    × (sum_raw exact "item" 0 corrected_tables.scores
        ≡ with_product exact (sum_raw exact "item" 0 db.scores) (some d) dw)
correction_counts_both_example =
    correction_counts_both exact whole unary_ids faultless 9 8 7 90 (some 2) [] db
      (score_of 7 "CONFIRMED") present refl corrected_once
