-- ===== src/Score/Replacement.antt =====
-- The steps of SupersedeAndReplaceScore of internal/store/score.go.
use iroum_ax.Prelude.{String, ℕ, false, Option, none, some, [], ◌∷◌, ◌++◌, ◌≡◌, refl, sym, ap, ◌∙◌}
use iroum_ax.Prelude.Text.{eqb}
use iroum_ax.Errors.{Result, ok, sentinel, wrap, score_not_confirmed, score_audit_write_failed}
use iroum_ax.Audit.Uuid.{UuidLib}
use iroum_ax.Audit.Entities.{record_score_created, record_score_updated}
use iroum_ax.Postgres.{
  Score, Database, Floats, Faults, Metadata, M, ◌>>=◌, ◌>>◌, give, refuse_if, statement, failing,
  failing_as, insert_row, supersede_row, audit_call, second_audit_call,
}
use iroum_ax.Postgres.Tables.{update_rows, count_rows}
use iroum_ax.Postgres.Steps.{continue-ok, refuse_if-ok, relabelled-ok, statement-ok, written-ok}
use iroum_ax.Score.Rules.{is_confirmed, score_recorder, weight_in_column}
use iroum_ax.Score.{
  insert_score_row, put_score, new_score, set_superseded, score_log, meanwhile_step,
}

pub result-path :
    {S A : Type 0} {a b : A} {s t : S} → Path (Result A × S) (ok a, s) (ok b, t) → a ≡ b
result-path h = cc h

module _ {F : Type 0} (fl : Floats F) (uuid : UuidLib) (fail : Faults) (now : ℕ) where
  pub put-ok :
      (id : ℕ) (item : String) (evidence : Option ℕ) (level status : String) (metadata : Metadata)
      (v : Option F) (w : Option (Option F)) (db : Database F) {u : Database F}
      → put_score fl uuid fail now id item evidence level status metadata v w db ≡ (ok tt, u)
      → (d : F) × (dw : Option F) × (v ≡ some d)
        × (w ≡ some dw)
        × (u ≡ record db {
          scores =
              db.scores
              ++ new_score fl uuid fail now id item evidence level d dw status metadata ∷ [];
        })
  put-ok id item evidence level status metadata none w db h = absurd (cc h)
  put-ok id item evidence level status metadata (some d) none db h = absurd (cc h)
  put-ok id item evidence level status metadata (some d) (some dw) db h =
      (d, dw, refl, refl, sym (ap (λ p. p.1) h))

  -- The tables behind a correction: the corrected row, then what others commit, then the old rows.
  abbrev pub created : ℕ → Score F → F → Option F → Metadata → Database F → Database F
  created new_id old d dw metadata db = record db {
    scores =
        db.scores
        ++ new_score fl uuid fail now new_id old.evaluation_item_id old.evidence_id old.level d dw
            "CONFIRMED" metadata
          ∷ [];
    audit_logs =
        db.audit_logs
        ++ record_score_created uuid score_recorder now (λ e. e) new_id old.evaluation_item_id
            old.level ""
          ∷ [];
  }

  abbrev pub superseded : ℕ → Score F → Database F → Database F
  superseded old_id old db = record db {
    scores = update_rows (is_confirmed old_id) (set_superseded fl uuid fail now) db.scores;
    audit_logs =
        db.audit_logs
        ++ record_score_updated uuid score_recorder now (λ e. e) old_id old.evaluation_item_id
            old.level ""
          ∷ [];
  }

  pub insert_score_row-ok :
      (id : ℕ) (item : String) (evidence : Option ℕ) (level : String) (value : F)
      (weight : Option F) (status : String) (metadata : Metadata) (db : Database F) {n : ℕ}
      {u : Database F}
      → insert_score_row fl uuid fail now id item evidence level value weight status metadata db
        ≡ (ok n, u)
      → (d : F) × (dw : Option F) × (fl.decimal 6 2 value ≡ some d)
        × (weight_in_column fl weight ≡ some dw)
        × (n ≡ id)
        × (u ≡ record db {
          scores =
              db.scores
              ++ new_score fl uuid fail now id item evidence level d dw status metadata ∷ [];
        })
  unfolding insert_score_row
  insert_score_row-ok id item evidence level value weight status metadata db h =
      let put =
        put_score fl uuid fail now id item evidence level status metadata (fl.decimal 6 2 value)
          (weight_in_column fl weight) in
      let (x, u1, inserted, h1) =
        continue-ok (failing "InsertScore 실패" (statement (fail insert_row) put) db) _ h in
      let (d, dw, fits, fits_weight, effect) =
        put-ok id item evidence level status metadata (fl.decimal 6 2 value)
          (weight_in_column fl weight) db
          (statement-ok (fail insert_row) put db (relabelled-ok _ _ inserted)) in
      (d, dw, fits, fits_weight, sym (result-path h1), sym (ap (λ p. p.1) h1) ∙ effect)

  abbrev pub logged_created : ℕ → Score F → Database F → Database F
  logged_created new_id old db = record db {
    audit_logs =
        db.audit_logs
        ++ record_score_created uuid score_recorder now (λ e. e) new_id old.evaluation_item_id
            old.level ""
          ∷ [];
  }

  abbrev pub logged_superseded : ℕ → Score F → Database F → Database F
  logged_superseded old_id old db = record db {
    audit_logs =
        db.audit_logs
        ++ record_score_updated uuid score_recorder now (λ e. e) old_id old.evaluation_item_id
            old.level ""
          ∷ [];
  }

  abbrev pub rows_superseded : ℕ → Database F → Database F
  rows_superseded old_id db = record db {
    scores = update_rows (is_confirmed old_id) (set_superseded fl uuid fail now) db.scores;
  }

  -- The correction from the update of the old rows on.
  abbrev pub close_correction : ℕ → Score F → ℕ → M (Database F) ℕ
  close_correction old_id old id = do
    affected ← failing "구 행 SUPERSEDED 전이 실패" (
        statement (fail supersede_row)
          (λ db. (ok (count_rows (is_confirmed old_id) db.scores), rows_superseded old_id db)))
    refuse_if (eqb affected 0) (wrap "구 행 CONFIRMED 아님(동시 변경?)" (sentinel score_not_confirmed))
    failing_as "정정 구 행 audit 실패" score_audit_write_failed (
        record_score_updated uuid score_recorder now
          (score_log fl uuid fail now (fail second_audit_call)) old_id old.evaluation_item_id
          old.level "")
    give id

  pub log_superseded-ok :
      (old_id : ℕ) (old : Score F) (id : ℕ) (db : Database F) {n : ℕ} {db' : Database F}
      → (do
        failing_as "정정 구 행 audit 실패" score_audit_write_failed (
            record_score_updated uuid score_recorder now
              (score_log fl uuid fail now (fail second_audit_call))
              old_id
              old.evaluation_item_id
              old.level
              "")
        give id)
          db
        ≡ (ok n, db')
      → (id ≡ n) × (logged_superseded old_id old db ≡ db')
  unfolding record_score_updated
  log_superseded-ok old_id old id db h =
      let (x, u, logged, last) = continue-ok _ _ h in
      let (unit, effect) =
        written-ok (fail second_audit_call) (logged_superseded old_id old) tt db
          (relabelled-ok _ _ (relabelled-ok _ _ logged)) in
      (result-path last, effect ∙ ap (λ p. p.1) last)

  pub close-ok :
      (old_id : ℕ) (old : Score F) (id : ℕ) (db : Database F) {n : ℕ} {db' : Database F}
      → close_correction old_id old id db ≡ (ok n, db')
      → (eqb (count_rows (is_confirmed old_id) db.scores) 0 ≡ false)
        × (id ≡ n)
        × (db' ≡ superseded old_id old db)
  unfolding record_score_updated
  close-ok old_id old id db h =
      let met = count_rows (is_confirmed old_id) db.scores in
      let gone = wrap "구 행 CONFIRMED 아님(동시 변경?)" (sentinel score_not_confirmed) in
      let (k, u, moved, h1) =
        continue-ok
          (failing "구 행 SUPERSEDED 전이 실패"
            (statement (fail supersede_row)
              (λ db. (ok (count_rows (is_confirmed old_id) db.scores), rows_superseded old_id db)))
            db)
          _ h in
      let wrote = statement-ok (fail supersede_row) _ db (relabelled-ok _ _ moved) in
      let (x, u2, some_met, h2) = continue-ok (refuse_if (eqb k 0) gone u) _ h1 in
      let (nonzero, same) = refuse_if-ok (eqb k 0) gone u some_met in
      let (named, effect) = log_superseded-ok old_id old id u2 h2 in
      (
        ap (λ k. eqb k 0) (result-path wrote) ∙ nonzero,
        named,
        sym effect
            ∙ ap (λ (u : Database F). logged_superseded old_id old u)
                (sym (ap (λ p. p.1) wrote ∙ same)),
      )

  -- The correction from its first event on.
  abbrev pub finish : (Database F → Database F) → ℕ → Score F → ℕ → M (Database F) ℕ
  finish meanwhile old_id old id = do
    failing_as "정정 신규 행 audit 실패" score_audit_write_failed (
        record_score_created uuid score_recorder now (score_log fl uuid fail now (fail audit_call))
          id old.evaluation_item_id old.level "")
    meanwhile_step meanwhile
    close_correction old_id old id

  pub finish-ok :
      (meanwhile : Database F → Database F) (old_id : ℕ) (old : Score F) (id : ℕ) (db : Database F)
      {n : ℕ} {db' : Database F}
      → finish meanwhile old_id old id db ≡ (ok n, db')
      → (eqb (count_rows (is_confirmed old_id) (meanwhile (logged_created id old db)).scores) 0
          ≡ false)
        × (id ≡ n)
        × (db' ≡ superseded old_id old (meanwhile (logged_created id old db)))
  unfolding record_score_created record_score_updated
  finish-ok meanwhile old_id old id db {n} {db'} h =
      let (x, u, logged, h1) =
        continue-ok
          (failing_as "정정 신규 행 audit 실패" score_audit_write_failed
            (record_score_created uuid score_recorder now
              (score_log fl uuid fail now (fail audit_call)) id old.evaluation_item_id old.level "")
            db)
          _ h in
      let (unit, effect) =
        written-ok (fail audit_call) (logged_created id old) tt db
          (relabelled-ok _ _ (relabelled-ok _ _ logged)) in
      let rest : close_correction old_id old id (meanwhile (logged_created id old db))
          ≡ (ok n, db') =
        ap (λ u. close_correction old_id old id (meanwhile u)) effect ∙ h1 in
      close-ok old_id old id (meanwhile (logged_created id old db)) rest

  abbrev pub row_added : ℕ → Score F → F → Option F → Metadata → Database F → Database F
  row_added new_id old d dw metadata db = record db {
    scores =
        db.scores
        ++ new_score fl uuid fail now new_id old.evaluation_item_id old.evidence_id old.level d dw
            "CONFIRMED" metadata
          ∷ [];
  }

  -- The correction from the insertion on.
  abbrev pub replace :
      (Database F → Database F) → ℕ → ℕ → Score F → F → Option F → Metadata → M (Database F) ℕ
  replace meanwhile new_id old_id old value weight metadata = do
    id ←
        insert_score_row fl uuid fail now new_id old.evaluation_item_id old.evidence_id old.level
          value weight "CONFIRMED" metadata
    finish meanwhile old_id old id

  pub replace-ok :
      (meanwhile : Database F → Database F) (new_id old_id : ℕ) (old : Score F) (value : F)
      (weight : Option F) (metadata : Metadata) (db : Database F) {n : ℕ} {db' : Database F}
      → replace meanwhile new_id old_id old value weight metadata db ≡ (ok n, db')
      → (d : F) × (dw : Option F) × (fl.decimal 6 2 value ≡ some d)
        × (weight_in_column fl weight ≡ some dw)
        × (eqb
              (count_rows
                (is_confirmed old_id)
                (meanwhile (created new_id old d dw metadata db)).scores)
              0
            ≡ false)
        × (db' ≡ superseded old_id old (meanwhile (created new_id old d dw metadata db)))
  replace-ok meanwhile new_id old_id old value weight metadata db {n} {db'} h =
      let (id, u, inserted, h1) =
        continue-ok
          (insert_score_row fl uuid fail now new_id old.evaluation_item_id old.evidence_id old.level
            value weight "CONFIRMED" metadata db)
          _ h in
      let (d, dw, fits, fits_weight, named, effect) =
        insert_score_row-ok new_id old.evaluation_item_id old.evidence_id old.level value weight
          "CONFIRMED" metadata db inserted in
      let rest : finish meanwhile old_id old new_id (row_added new_id old d dw metadata db)
          ≡ (ok n, db') =
        sym (
          ap (λ id. finish meanwhile old_id old id u) named
          ∙ ap (λ u. finish meanwhile old_id old new_id u) effect)
        ∙ h1 in
      let (met, id_same, done) =
        finish-ok meanwhile old_id old new_id (row_added new_id old d dw metadata db) rest in
      (d, dw, fits, fits_weight, met, done)
