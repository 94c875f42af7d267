-- ===== src/Score/Updates.antt =====
-- What a successful UpdateScore of internal/store/score.go has done.
use iroum_ax.Prelude.{
  ℕ, false, ◌&&◌, Option, none, some, List, [], ◌∷◌, ◌++◌, ◌≡◌, refl, sym, ap, ◌∙◌, ◌⊎◌, inl, inr,
  ◌==◌,
}
use iroum_ax.Prelude.Text.{eqb}
use iroum_ax.Errors.{ok, sentinel, wrap, score_immutable, score_not_found}
use iroum_ax.Audit.Uuid.{UuidLib}
use iroum_ax.Audit.Entities.{record_score_updated}
use iroum_ax.Postgres.{
  Score, Database, Floats, Faults, refuse_if, checked, statement, failing, select_score, update_row,
  audit_call,
}
use iroum_ax.Postgres.Tables.{select_row, update_rows}
use iroum_ax.Postgres.Steps.{continue-ok, refuse_if-ok, relabelled-ok, statement-ok, found_or-ok}
use iroum_ax.Score.Rules.{
  Clause, set_value, set_weight, set_grade, set_status, set_metadata, ScoreUpdate, is_score,
  build_score_update_set, set_fields, in_columns, score_recorder,
}
use iroum_ax.Score.{
  get_score_by_id, update_score, changes_fields, check_status, update_clauses, write_clauses,
}

-- The rows that the clauses leave.
abbrev pub rewritten : {F : Type 0} → ℕ → List (Clause F) → Score F → Score F
rewritten now clauses s = set_fields clauses (record s { updated_at = now })

pub set_fields_keeps_id :
    {F : Type 0} (clauses : List (Clause F)) (s : Score F) → (set_fields clauses s).id ≡ s.id
unfolding set_fields
set_fields_keeps_id [] s = refl
set_fields_keeps_id (set_value v ∷ clauses) s = set_fields_keeps_id clauses _
set_fields_keeps_id (set_weight w ∷ clauses) s = set_fields_keeps_id clauses _
set_fields_keeps_id (set_grade g ∷ clauses) s = set_fields_keeps_id clauses _
set_fields_keeps_id (set_status n ∷ clauses) s = set_fields_keeps_id clauses _
set_fields_keeps_id (set_metadata m ∷ clauses) s = set_fields_keeps_id clauses _

module _ {F : Type 0} (fl : Floats F) (uuid : UuidLib) (fail : Faults) (now : ℕ) where
  pub get_score-ok :
      (id : ℕ) (db : Database F) {s : Score F} {u : Database F}
      → get_score_by_id fl uuid fail now id db ≡ (ok s, u)
      → (select_row (is_score id) db.scores ≡ some s) × (db ≡ u)
  unfolding get_score_by_id
  get_score-ok id db h =
      found_or-ok _ _ _ (statement-ok (fail select_score) _ db (relabelled-ok _ _ h))

  -- The tables behind an update with some clauses.
  abbrev pub updated : ℕ → Score F → List (Clause F) → Database F → Database F
  updated id old stored db = record db {
    scores = update_rows (is_score id) (rewritten now stored) db.scores;
    audit_logs =
        db.audit_logs
        ++ record_score_updated uuid score_recorder now (λ e. e) id old.evaluation_item_id old.level
            ""
          ∷ [];
  }

  write-ok :
      (id : ℕ) (clauses : Option (List (Clause F))) (db : Database F) {n : ℕ} {u : Database F}
      → write_clauses fl uuid fail now id clauses db ≡ (ok n, u)
      → (stored : List (Clause F)) × (clauses ≡ some stored)
        × (u ≡ record db { scores = update_rows (is_score id) (rewritten now stored) db.scores })
  write-ok id none db h = absurd (cc h)
  write-ok id (some stored) db h = (stored, refl, sym (ap (λ p. p.1) h))

  -- Nothing to write, or the clauses written to the rows as they are by then.
  abbrev pub IsUpdated :
      (Database F → Database F) → ℕ → Score F → List (Clause F) → Database F → Database F → Type 0
  IsUpdated meanwhile id old clauses db db' =
      (db' ≡ db)
      ⊎ ((stored : List (Clause F)) × (in_columns fl clauses ≡ some stored)
          × (db' ≡ updated id old stored (meanwhile db)))

  abbrev with_event : ℕ → Score F → Database F → Database F
  with_event id old db = record db {
    audit_logs =
        db.audit_logs
        ++ record_score_updated uuid score_recorder now (λ e. e) id old.evaluation_item_id old.level
            ""
          ∷ [];
  }

  update_clauses-ok :
      (meanwhile : Database F → Database F) (id : ℕ) (old : Score F) (clauses : List (Clause F))
      (db : Database F) {db' : Database F}
      → update_clauses fl uuid fail now meanwhile id old clauses db ≡ (ok tt, db')
      → IsUpdated meanwhile id old clauses db db'
  unfolding record_score_updated
  update_clauses-ok meanwhile id old [] db h = inl (sym (ap (λ p. p.1) h))
  update_clauses-ok meanwhile id old (c ∷ clauses) db h =
      let stored = in_columns fl (c ∷ clauses) in
      let seen = meanwhile db in
      let (n, u1, written, h1) =
        continue-ok
          (failing "UpdateScore 실패"
            (statement (fail update_row) (write_clauses fl uuid fail now id stored)) seen)
          _ h in
      let (rows, fits, effect) =
        write-ok id stored seen
          (statement-ok (fail update_row) _ seen (relabelled-ok _ _ written)) in
      let gone = wrap "UpdateScore" (sentinel score_not_found) in
      let (x, u2, met, h2) = continue-ok (refuse_if (eqb n 0) gone u1) _ h1 in
      let (some_rows, same) = refuse_if-ok (eqb n 0) gone u1 met in
      let logged = statement-ok (fail audit_call) _ u2 (relabelled-ok _ _ (relabelled-ok _ _ h2)) in
      inr (
        rows,
        fits,
        sym (ap (λ p. p.1) logged)
            ∙ ap (λ (u : Database F). with_event id old u) (sym same)
            ∙ ap (λ (u : Database F). with_event id old u) effect,
      )

  -- An update that succeeds read a row; it left value, weight and grade alone if the row was
  -- CONFIRMED, changed the status along an edge, and wrote what was asked for.
  pub update_score-ok :
      (meanwhile : Database F → Database F) (id : ℕ) (upd : ScoreUpdate F) (db : Database F)
      {db' : Database F}
      → update_score fl uuid fail now meanwhile id upd db ≡ (ok tt, db')
      → (old : Score F) × (select_row (is_score id) db.scores ≡ some old)
        × (((old.status == "CONFIRMED") && changes_fields fl uuid fail now upd) ≡ false)
        × (check_status fl uuid fail now old.status upd.status ≡ ok tt)
        × IsUpdated meanwhile id old (build_score_update_set upd) db db'
  unfolding update_score
  update_score-ok meanwhile id upd db h =
      let (old, u1, found, h1) = continue-ok (get_score_by_id fl uuid fail now id db) _ h in
      let (present, same1) = get_score-ok id db found in
      let test = (old.status == "CONFIRMED") && changes_fields fl uuid fail now upd in
      let wrong = wrap "CONFIRMED 행 불변 필드 변경 거부" (sentinel score_immutable) in
      let (x, u2, free, h2) = continue-ok (refuse_if test wrong u1) _ h1 in
      let (unlocked, same2) = refuse_if-ok test wrong u1 free in
      let (y, u3, valid, h3) =
        continue-ok (checked (check_status fl uuid fail now old.status upd.status) u2) _ h2 in
      let same : db ≡ u3 = same1 ∙ same2 ∙ ap (λ p. p.1) valid in
      (
        old,
        present,
        unlocked,
        ap (λ p. p.0) valid,
        update_clauses-ok meanwhile id old (build_score_update_set upd) db (rw same h3),
      )
