-- ===== src/Rubric/Changes.antt =====
-- What the methods of internal/store/rubric.go on an existing rubric have done where they succeed.
use iroum_ax.Prelude.{
  String, ℕ, false, ◌&&◌, Option, some, [], ◌∷◌, ◌++◌, ◌≡◌, ap, ◌∙◌, inl, inr, ◌==◌, Bool-cases,
}
use iroum_ax.Prelude.Text.{trim_space}
use iroum_ax.Errors.{Error, Result, ok, wrap, sentinel, rubric_invalid_input}
use iroum_ax.Audit.Uuid.{UuidLib}
use iroum_ax.Audit.Entities.{record_rubric_updated, record_rubric_archived}
use iroum_ax.Postgres.{
  Rubric, RubricCriterion, RubricBand, Database, Floats, Faults, Metadata, M, ◌>>=◌, ◌>>◌,
  refuse_if, checked, marshal_metadata, update_row, audit_call,
}
use iroum_ax.Postgres.Tables.{select_row, update_rows, any_row}
use iroum_ax.Postgres.Steps.{continue-ok, refuse_if-ok}
use iroum_ax.Review.Rules.{resolve_actor, text_or_null}
use iroum_ax.Rubric.Rules.{
  status_active, status_archived, validate_rubric_input, validate_rubric_status_transition,
  effective_status, rubric_recorder, is_rubric, set_rubric, set_archived, clashes, is_unreasoned,
}
use iroum_ax.Rubric.{lock_and_check_rubric_status, write_rubric, update_rubric, archive_rubric}
use iroum_ax.Rubric.Steps.{with_event, event-ok, write-ok, locked-ok}

-- The row of the rubric is there and not archived.
abbrev pub IsOpen : {F : Type 0} → ℕ → Rubric → Database F → Type 0
IsOpen id row db =
    (select_row (is_rubric id) db.rubrics ≡ some row) × ((row.status == status_archived) ≡ false)

pub back :
    {F : Type 0} (id : ℕ) {row : Rubric} {db u : Database F}
    → db ≡ u
    → IsOpen id row u
    → IsOpen id row db
back {F} id same (present, free) =
    (ap (λ (d : Database F). select_row (is_rubric id) d.rubrics) same ∙ present, free)

module _ {F : Type 0} where
  abbrev pub rubrics_set : ℕ → (Rubric → Rubric) → Database F → Database F
  rubrics_set id change db = record db { rubrics = update_rows (is_rubric id) change db.rubrics }

  abbrev pub with_criterion : RubricCriterion F → Database F → Database F
  with_criterion c db = record db { criteria = db.criteria ++ c ∷ [] }

  abbrev pub with_band : RubricBand F → Database F → Database F
  with_band b db = record db { bands = db.bands ++ b ∷ [] }

module _ {F : Type 0} (fl : Floats F) (uuid : UuidLib) (fail : Faults) (now : ℕ) where
  pub write_rubric-ok :
      (id : ℕ) (name : String) (scope : Option String) (status : String) (change : Rubric → Rubric)
      (db : Database F) {u : Database F}
      → write_rubric fl uuid fail now id name scope status change db ≡ (ok tt, u)
      → rubrics_set id change db ≡ u
  write_rubric-ok id name scope status change db {u} h =
      elim (Bool-cases (status == status_archived && any_row (is_unreasoned id) db.rubrics)) [
        | inl unreasoned ↦ absurd (cc (rw unreasoned at h))
        | inr reasoned ↦
            elim (Bool-cases
              (status == status_active && any_row (clashes id name scope) db.rubrics)) [
                | inl taken ↦ absurd (cc (rw (reasoned, taken) at h))
                | inr free ↦
                    let wrote : Path (Result (Unit {0}) × Database F)
                        (ok tt, rubrics_set id change db) (ok tt, u) =
                      rw (reasoned, free) at h in
                    ap (λ (p : Result (Unit {0}) × Database F). p.1) wrote
              ]
      ]

  -- The lock and the guard against an archived rubric, before what follows.
  pub IsOpen-ok :
      {A : Type 0} (id : ℕ) (wrong : Error) (next : String → M (Database F) A) (db : Database F)
      {a : A} {u : Database F}
      → (do
        current ← lock_and_check_rubric_status fl uuid fail now id
        refuse_if (current == status_archived) wrong
        next current)
          db
        ≡ (ok a, u)
      → (row : Rubric) × IsOpen id row db × (next row.status db ≡ (ok a, u))
  IsOpen-ok id wrong next db h =
      let (status, u1, locked, h1) =
        continue-ok (lock_and_check_rubric_status fl uuid fail now id db) _ h in
      let (row, present, named, same1) = locked-ok fl uuid fail now id db locked in
      let (x, u2, free, h2) = continue-ok (refuse_if (status == status_archived) wrong u1) _ h1 in
      let (test, same2) = refuse_if-ok (status == status_archived) wrong u1 free in
      (
        row,
        (present, ap (λ s. s == status_archived) named ∙ test),
        ap (λ s. next s db) named ∙ ap (λ d. next status d) (same1 ∙ same2) ∙ h2,
      )

  pub update_rubric-ok :
      (id : ℕ) (name scope new_status : String) (metadata : Metadata) (user_id : String)
      (db : Database F) {u : Database F}
      → update_rubric fl uuid fail now id name scope new_status metadata user_id db ≡ (ok tt, u)
      → (row : Rubric) × (status : String) × IsOpen id row db
        × (effective_status row.status new_status ≡ ok status)
        × (with_event
              (record_rubric_updated uuid rubric_recorder now (λ e. e) id (resolve_actor user_id))
              (rubrics_set id
                (set_rubric now name
                  (text_or_null scope)
                  status
                  (marshal_metadata metadata)
                  (resolve_actor user_id))
                db)
            ≡ u)
  unfolding update_rubric record_rubric_updated
  update_rubric-ok id name scope new_status metadata user_id db h =
      let e = record_rubric_updated uuid rubric_recorder now (λ e. e) id (resolve_actor user_id) in
      let (x0, u0, valid, h0) = continue-ok (checked (validate_rubric_input name) db) _ h in
      let same0 : db ≡ u0 = ap (λ (p : Result (Unit {0}) × Database F). p.1) valid in
      let (row, is_open, h1) = IsOpen-ok id _ _ u0 h0 in
      let (status, u3, allowed, h3) =
        continue-ok (checked (effective_status row.status new_status) u0) _ h1 in
      let change =
        set_rubric now name (text_or_null scope) status (marshal_metadata metadata)
          (resolve_actor user_id) in
      let (u4, wrote, h4) =
        write-ok (fail update_row) "UpdateRubric UPDATE 실패"
          (write_rubric fl uuid fail now id name (text_or_null scope) status change) _ u3 h3 in
      let same3 : u0 ≡ u3 = ap (λ (p : Result String × Database F). p.1) allowed in
      (
        row,
        status,
        back id same0 is_open,
        ap (λ (p : Result String × Database F). p.0) allowed,
        ap (λ (d : Database F). with_event e (rubrics_set id change d)) (same0 ∙ same3)
            ∙ ap (λ (d : Database F). with_event e d)
                (write_rubric-ok id name (text_or_null scope) status change u3 wrote)
            ∙ event-ok (fail audit_call) "UpdateRubric audit 실패" e u4 h4,
      )

  pub archive_rubric-ok :
      (id : ℕ) (reason user_id : String) (db : Database F) {u : Database F}
      → archive_rubric fl uuid fail now id reason user_id db ≡ (ok tt, u)
      → (row : Rubric) × ((trim_space reason == "") ≡ false)
        × IsOpen id row db
        × (validate_rubric_status_transition row.status status_archived ≡ ok tt)
        × (with_event
              (record_rubric_archived uuid rubric_recorder now
                (λ e. e)
                id
                reason
                (resolve_actor user_id))
              (rubrics_set id (set_archived now reason (resolve_actor user_id)) db)
            ≡ u)
  unfolding archive_rubric record_rubric_archived
  archive_rubric-ok id reason user_id db h =
      let e =
        record_rubric_archived uuid rubric_recorder now (λ e. e) id reason
          (resolve_actor user_id) in
      let blank = wrap "archive_reason이 비어 있음" (sentinel rubric_invalid_input) in
      let (x0, u0, given, h0) = continue-ok (refuse_if (trim_space reason == "") blank db) _ h in
      let (nonblank, same0) = refuse_if-ok (trim_space reason == "") blank db given in
      let (row, is_open, h1) = IsOpen-ok id _ _ u0 h0 in
      let (x2, u2, allowed, h2) =
        continue-ok (checked (validate_rubric_status_transition row.status status_archived) u0) _
          h1 in
      let same2 : u0 ≡ u2 = ap (λ (p : Result (Unit {0}) × Database F). p.1) allowed in
      let change = set_archived now reason (resolve_actor user_id) in
      let (u3, wrote, h3) =
        write-ok (fail update_row) "ArchiveRubric UPDATE 실패"
          (λ db. (ok tt, rubrics_set id change db)) _ u2 h2 in
      (
        row,
        nonblank,
        back id same0 is_open,
        ap (λ (p : Result (Unit {0}) × Database F). p.0) allowed,
        ap (λ (d : Database F). with_event e (rubrics_set id change d)) (same0 ∙ same2)
            ∙ ap (λ (p : Result (Unit {0}) × Database F). with_event e p.1) wrote
            ∙ event-ok (fail audit_call) "ArchiveRubric audit 실패" e u3 h3,
      )
