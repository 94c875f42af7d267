-- ===== src/Score/Corrections.antt =====
-- SupersedeAndReplaceScore of internal/store/score.go, among other transactions.
use iroum_ax.Prelude.{
  ℕ, true, false, not, ◌||◌, Option, some, List, [], ◌∷◌, ◌≡◌, ◌≢◌, sym, ap, ◌∙◌, inl, inr, ◌==◌,
  Bool-cases, arith,
}
use iroum_ax.Prelude.Text.{eqb}
use iroum_ax.Errors.{ok, sentinel, wrap, score_invalid_input, score_not_confirmed}
use iroum_ax.Audit.Uuid.{UuidLib}
use iroum_ax.Audit.Entities.{record_score_created, record_score_updated}
use iroum_ax.Postgres.{Score, Database, Floats, Faults, Metadata, refuse_if}
use iroum_ax.Postgres.Tables.{select_row, update_rows, count_rows}
use iroum_ax.Postgres.Steps.{continue-ok, refuse_if-ok}
use iroum_ax.Score.Rules.{is_score, is_confirmed, weight_in_column}
use iroum_ax.Score.{get_score_by_id, insert_score_row, supersede_and_replace_score, set_superseded}
use iroum_ax.Score.Updates.{get_score-ok}
use iroum_ax.Score.Replacement.{created, superseded, replace, replace-ok}

module _ {F : Type 0} (fl : Floats F) (uuid : UuidLib) (fail : Faults) (now : ℕ) where
  -- A correction that succeeds read a CONFIRMED score and found it CONFIRMED still when it wrote; it
  -- added a CONFIRMED score with the corrected numbers and the old one's item, evidence and level,
  -- made the old one SUPERSEDED, and logged both, with nothing else changed but by others.
  pub supersede-applied :
      (meanwhile : Database F → Database F) (new_id old_id : ℕ) (value : F) (weight : Option F)
      (metadata : Metadata) (db : Database F) {id : ℕ} {db' : Database F}
      → supersede_and_replace_score fl uuid fail now meanwhile new_id old_id value weight metadata
          db
        ≡ (ok id, db')
      → (old : Score F) × (d : F) × (dw : Option F) × (select_row (is_score old_id) db.scores
          ≡ some old)
        × ((old.status == "CONFIRMED") ≡ true)
        × (fl.decimal 6 2 value ≡ some d)
        × (weight_in_column fl weight ≡ some dw)
        × (eqb
              (count_rows
                (is_confirmed old_id)
                (meanwhile (created fl uuid fail now new_id old d dw metadata db)).scores)
              0
            ≡ false)
        × (db'
            ≡ superseded fl uuid fail now old_id old
                (meanwhile (created fl uuid fail now new_id old d dw metadata db)))
  unfolding supersede_and_replace_score insert_score_row record_score_created record_score_updated
  supersede-applied meanwhile new_id old_id value weight metadata db h =
      let number = fl.is_nan value || fl.is_inf value in
      let wrong = wrap "정정 score_value가 비수치(NaN/Inf)임" (sentinel score_invalid_input) in
      let (x0, u0, numeric, h0) = continue-ok (refuse_if number wrong db) _ h in
      let (finite, same0) = refuse_if-ok number wrong db numeric in
      let (old, u1, found, h1) = continue-ok (get_score_by_id fl uuid fail now old_id u0) _ h0 in
      let (present, same1) = get_score-ok fl uuid fail now old_id u0 found in
      let unconfirmed = wrap "정정은 CONFIRMED 행만 허용" (sentinel score_not_confirmed) in
      let (x2, u2, right, h2) =
        continue-ok (refuse_if (not (old.status == "CONFIRMED")) unconfirmed u1) _ h1 in
      let (test, same2) = refuse_if-ok (not (old.status == "CONFIRMED")) unconfirmed u1 right in
      let same : db ≡ u2 = same0 ∙ same1 ∙ same2 in
      let (d, dw, fits, fits_weight, met, done) =
        replace-ok fl uuid fail now meanwhile new_id old_id old value weight metadata db (
          ap (λ u. replace fl uuid fail now meanwhile new_id old_id old value weight metadata u)
            same
          ∙ h2) in
      (
        old,
        d,
        dw,
        ap (λ (u : Database F). select_row (is_score old_id) u.scores) same0 ∙ present,
        ground (arith, test),
        fits,
        fits_weight,
        met,
        done,
      )

  -- No row stays CONFIRMED under the corrected identifier.
  superseded_unconfirmed :
      (id : ℕ) (rows : List (Score F)) {s : Score F}
      → select_row
          (is_score id)
          (update_rows (is_confirmed id) (set_superseded fl uuid fail now) rows)
        ≡ some s
      → (s.status == "CONFIRMED") ≡ false
  unfolding select_row update_rows
  superseded_unconfirmed id [] h = absurd (cc h)
  superseded_unconfirmed id (r ∷ rows) {s} h = elim (Bool-cases (eqb r.id id)) [
    | inl here ↦ elim (Bool-cases (r.status == "CONFIRMED")) [
      | inl was ↦
          let picked : some (set_superseded fl uuid fail now r) ≡ some s =
            rw (here, was, here) at h in
          let same : set_superseded fl uuid fail now r ≡ s = cc picked in
          ap (λ (s : Score F). s.status == "CONFIRMED") (sym same)
      | inr other ↦
          let picked : some r ≡ some s = rw (here, other, here) at h in
          let same : r ≡ s = cc picked in
          ap (λ (s : Score F). s.status == "CONFIRMED") (sym same) ∙ other
    ]
    | inr there ↦ superseded_unconfirmed id rows (rw (there, there) at h)
  ]

-- A corrected score is corrected once: when a correction of it has succeeded, another one of the
-- same score that starts from the tables it left fails, whatever it is asked for, whatever faults
-- it meets and whatever others commit meanwhile.
pub supersede_once :
    {F : Type 0} (fl : Floats F) (uuid : UuidLib) (fail fail2 : Faults) (now later : ℕ)
    (meanwhile meanwhile2 : Database F → Database F) (new_id other_id old_id : ℕ) (value value2 : F)
    (weight weight2 : Option F) (metadata metadata2 : Metadata) (db : Database F) (id id2 : ℕ)
    (db' db2 : Database F)
    → supersede_and_replace_score fl uuid fail now meanwhile new_id old_id value weight metadata db
      ≡ (ok id, db')
    → supersede_and_replace_score fl uuid fail2 later meanwhile2 other_id old_id value2 weight2
        metadata2 db'
      ≢ (ok id2, db2)
supersede_once {F} fl uuid fail fail2 now later meanwhile meanwhile2 new_id other_id old_id value
      value2 weight weight2 metadata metadata2 db id id2 db' db2 first second =
    let (old, d, dw, present, was, fits, fits_weight, met, done) =
      supersede-applied fl uuid fail now meanwhile new_id old_id value weight metadata db first in
    let (again, d2, dw2, present2, still, fits2, fits_weight2, met2, done2) =
      supersede-applied fl uuid fail2 later meanwhile2 other_id old_id value2 weight2 metadata2 db'
        second in
    let seen = meanwhile (created fl uuid fail now new_id old d dw metadata db) in
    let left : select_row (is_score old_id) (superseded fl uuid fail now old_id old seen).scores
        ≡ some again =
      sym (ap (λ (u : Database F). select_row (is_score old_id) u.scores) done) ∙ present2 in
    let lost = superseded_unconfirmed fl uuid fail now old_id seen.scores left in
    absurd (cc (still, lost))
