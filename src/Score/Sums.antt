-- ===== src/Score/Sums.antt =====
-- SumWeightedByEvaluationItem of internal/store/score.go. The exact decimal arithmetic of the
-- database is the parameter `num`.
use iroum_ax.Prelude.{
  String, ℕ, Bool, true, ◌&&◌, Option, some, List, [], ◌∷◌, ◌++◌, ◌≡◌, refl, sym, ap, ◌∙◌, inl, inr,
  ◌==◌, Bool-cases, if◌then◌else◌,
}
use text.Mathlib.TextPositions.{eq_refl}
use iroum_ax.Errors.{ok}
use iroum_ax.Audit.Uuid.{UuidLib}
use iroum_ax.Postgres.{Score, Database, Floats, Faults, Metadata, M, statement, failing, sum_rows}
use iroum_ax.Postgres.Tables.{select_row, update_rows}
use iroum_ax.Score.Rules.{is_score, is_confirmed, weight_in_column}
use iroum_ax.Score.{new_score, set_superseded, supersede_and_replace_score}
use iroum_ax.Score.Corrections.{supersede-applied}

-- NUMERIC values, and what a column's value contributes to one.
pub record Numerics (F N : Type 0) : Type 0 where
  pub nothing : N
  pub product : F → F → N
  pub plus : N → N → N

module _ {F N : Type 0} (num : Numerics F N) where
  abbrev pub is_raw : String → Score F → Bool
  is_raw item s = s.evaluation_item_id == item && s.level == "raw"

  -- A row whose value or weight is NULL counts nothing.
  abbrev pub with_product : N → Option F → Option F → N
  with_product sum (some v) (some w) = num.plus sum (num.product v w)
  with_product sum _ _ = sum

  abbrev pub with_row : String → N → Score F → N
  with_row item sum s = if is_raw item s then with_product sum s.score_value s.weight else sum

  -- `SUM(score_value * weight)`.
  unfoldable pub sum_raw : String → N → List (Score F) → N
  sum_raw item sum [] = sum
  sum_raw item sum (s ∷ rows) = sum_raw item (with_row item sum s) rows

  unfoldable pub sum_weighted_by_evaluation_item : Faults → String → M (Database F) N
  unfolding sum_raw
  sum_weighted_by_evaluation_item fail item =
      failing "SumWeightedByEvaluationItem 실패"
        (statement (fail sum_rows) (λ db. (ok (sum_raw item num.nothing db.scores), db)))

  sum_raw-append :
      (item : String) (sum : N) (rows : List (Score F)) (s : Score F)
      → sum_raw item sum (rows ++ s ∷ []) ≡ with_row item (sum_raw item sum rows) s
  unfolding sum_raw
  sum_raw-append item sum [] s = refl
  sum_raw-append item sum (r ∷ rows) s = sum_raw-append item (with_row item sum r) rows s

  -- A raw row of the item counts.
  counted :
      (item : String) (sum : N) (s : Score F)
      → s.evaluation_item_id ≡ item
      → s.level ≡ "raw"
      → with_row item sum s ≡ with_product sum s.score_value s.weight
  counted item sum s of_item raw = rw (of_item, raw, eq_refl item)

  module _ (fl : Floats F) (uuid : UuidLib) (fail : Faults) (now : ℕ) where
    sum_raw-superseded :
        (item : String) (old_id : ℕ) (sum : N) (rows : List (Score F))
        → sum_raw item sum
            (update_rows (is_confirmed old_id) (set_superseded fl uuid fail now) rows)
          ≡ sum_raw item sum rows
    unfolding sum_raw update_rows
    sum_raw-superseded item old_id sum [] = refl
    sum_raw-superseded item old_id sum (r ∷ rows) = elim (Bool-cases (is_confirmed old_id r)) [
      | inl moved ↦ rw moved (sum_raw-superseded item old_id (with_row item sum r) rows)
      | inr stays ↦ rw stays (sum_raw-superseded item old_id (with_row item sum r) rows)
    ]

    -- A correction of a raw score that succeeds, with nothing committed by others meanwhile, has found
    -- it CONFIRMED, and the weighted sum of its item is then the one before plus the product of the new
    -- value and weight, as stored, where there is a weight: the row that is SUPERSEDED counts on.
    pub correction_counts_both :
        (new_id old_id : ℕ) (value : F) (weight : Option F) (metadata : Metadata) (db : Database F)
        (old : Score F) {id : ℕ} {db' : Database F}
        → select_row (is_score old_id) db.scores ≡ some old
        → old.level ≡ "raw"
        → supersede_and_replace_score fl uuid fail now
            (λ db. db)
            new_id
            old_id
            value
            weight
            metadata
            db
          ≡ (ok id, db')
        → ((old.status == "CONFIRMED") ≡ true)
          × (d : F) × (dw : Option F) × (fl.decimal 6 2 value ≡ some d)
          × (weight_in_column fl weight ≡ some dw)
          × (sum_raw old.evaluation_item_id num.nothing db'.scores
              ≡ with_product (sum_raw old.evaluation_item_id num.nothing db.scores) (some d) dw)
    correction_counts_both new_id old_id value weight metadata db old there raw h =
        let (row, d, dw, present, was, fits, fits_weight, met, effect) =
          supersede-applied fl uuid fail now (λ db. db) new_id old_id value weight metadata db h in
        let item = old.evaluation_item_id in
        let same : row ≡ old = cc (present, there) in
        (
          ap (λ (s : Score F). s.status == "CONFIRMED") (sym same) ∙ was,
          d,
          dw,
          fits,
          fits_weight,
          ap (λ (u : Database F). sum_raw item num.nothing u.scores) effect
              ∙ sum_raw-superseded item old_id num.nothing _
              ∙ sum_raw-append item num.nothing db.scores _
              ∙ ap
                  (λ (s : Score F). with_row item (sum_raw item num.nothing db.scores) (
                    new_score fl uuid fail now new_id s.evaluation_item_id s.evidence_id s.level d
                      dw "CONFIRMED" metadata))
                  same
              ∙ counted item (sum_raw item num.nothing db.scores)
                  (new_score fl uuid fail now new_id item old.evidence_id old.level d dw "CONFIRMED"
                    metadata)
                  refl raw,
        )
