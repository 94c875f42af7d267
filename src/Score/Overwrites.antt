-- ===== src/Score/Overwrites.antt =====
-- Updates of internal/store/score.go that reach a score behind its confirmation.
use iroum_ax.Prelude.{ℕ, false, none, some, [], ◌∷◌, ◌≡◌, refl, ap, ◌∙◌, ◌==◌, map_some}
use iroum_ax.Errors.{ok}
use iroum_ax.Audit.Uuid.{UuidLib}
use iroum_ax.Audit.Entities.{record_score_updated}
use iroum_ax.Postgres.{
  Score, Database, Floats, Faults, IsFaultless, select_score, update_row, audit_call,
}
use iroum_ax.Postgres.Tables.{select_row, select_row-update_rows, select_row-count_rows}
use iroum_ax.Score.Rules.{
  set_value, ScoreUpdate, is_score, build_score_update_set, set_fields, in_columns,
}
use iroum_ax.Score.{get_score_by_id, update_score}
use iroum_ax.Score.Updates.{rewritten, updated}

-- An update of the value alone.
abbrev pub of_value : {F : Type 0} → F → ScoreUpdate F
of_value v = record {
  score_value = some v;
  weight = none;
  grade = none;
  status = none;
  metadata = none;
}

-- The row as it is after its value has been set.
abbrev pub with_value : {F : Type 0} → ℕ → F → Score F → Score F
with_value now d s = record s { score_value = some d; updated_at = now }

module _ {F : Type 0} (fl : Floats F) (uuid : UuidLib) (fail : Faults) (now id : ℕ) where
  -- Without faults of pgx, an update of the value alone, to a value that its column takes, of a score
  -- that is read in another state than CONFIRMED succeeds and sets the value of the row as others have
  -- left it meanwhile, whatever state it has by then: one that is read as DRAFT and CONFIRMED by
  -- another transaction before the write, and one that is SUPERSEDED.
  pub unconfirmed_read_overwrites :
      (meanwhile : Database F → Database F) (db : Database F) (old current : Score F) (v d : F)
      → IsFaultless fail
      → fl.decimal 6 2 v ≡ some d
      → select_row (is_score id) db.scores ≡ some old
      → (old.status == "CONFIRMED") ≡ false
      → select_row (is_score id) (meanwhile db).scores ≡ some current
      → (update_score fl uuid fail now meanwhile id (of_value v) db).0 ≡ ok tt
        × (select_row
              (is_score id)
              (update_score fl uuid fail now meanwhile id (of_value v) db).1.scores
            ≡ some (with_value now d current))
  unfolding update_score get_score_by_id build_score_update_set in_columns record_score_updated
      set_fields
  unconfirmed_read_overwrites meanwhile db old current v d works fits present open_row there =
      let some_rows = select_row-count_rows (is_score id) (meanwhile db).scores there in
      let result : update_score fl uuid fail now meanwhile id (of_value v) db
          ≡ (ok tt, updated fl uuid fail now id old (set_value d ∷ []) (meanwhile db)) =
        rw (
          works select_score,
          present,
          open_row,
          works update_row,
          fits,
          some_rows,
          works audit_call,
        ) in
      (
        ap (λ p. p.0) result,
        ap (λ p. select_row (is_score id) p.1.scores) result
            ∙ select_row-update_rows (is_score id) (rewritten now (set_value d ∷ []))
                (meanwhile db).scores (λ r. refl)
            ∙ ap (map_some (rewritten now (set_value d ∷ []))) there,
      )
