-- ===== src/Rubric/Steps.antt =====
-- What the methods of internal/store/rubric.go have done where they succeed.
use iroum_ax.Prelude.{String, ℕ, Option, some, [], ◌∷◌, ◌++◌, ◌≡◌, ap, ◌∙◌}
use iroum_ax.Errors.{Error, Result, ok, rubric_audit_write_failed}
use iroum_ax.Audit.{Event}
use iroum_ax.Audit.Uuid.{UuidLib}
use iroum_ax.Audit.Entities.{record_rubric_created}
use iroum_ax.Postgres.{
  Rubric, Database, Floats, Faults, Metadata, M, ◌>>◌, give, checked, statement, failing,
  failing_as, insert_audit, marshal_metadata, insert_row, audit_call, lock_status, found_or,
}
use iroum_ax.Postgres.Tables.{select_row}
use iroum_ax.Postgres.Steps.{continue-ok, relabelled-ok, statement-ok, found_or-ok, written-ok}
use iroum_ax.Review.Rules.{resolve_actor, text_or_null}
use iroum_ax.Rubric.Rules.{
  validate_rubric_input, rubric_recorder, is_rubric, rubric_missing, new_rubric,
}
use iroum_ax.Rubric.{put_rubric, insert_rubric, lock_and_check_rubric_status}

ok-path : {S A : Type 0} {a b : A} {s t : S} → Path (Result A × S) (ok a, s) (ok b, t) → a ≡ b
ok-path h = cc h

module _ {F : Type 0} where
  abbrev pub with_event : Event → Database F → Database F
  with_event e db = record db { audit_logs = db.audit_logs ++ e ∷ [] }

  -- The end of every method: the event is written.
  pub event-ok :
      (fault : Option Error) (message : String) (e : Event) (db : Database F) {u : Database F}
      → failing_as message rubric_audit_write_failed
          (insert_audit "InsertAuditLog(rubric) 실패" fault e)
          db
        ≡ (ok tt, u)
      → with_event e db ≡ u
  event-ok fault message e db h =
      (written-ok fault (with_event e) tt db (relabelled-ok _ _ (relabelled-ok _ _ h))).1

  -- And a value is returned.
  pub event_and-ok :
      {A : Type 0} (fault : Option Error) (message : String) (e : Event) (a : A) (db : Database F)
      {b : A} {u : Database F}
      → (do
        failing_as message rubric_audit_write_failed
            (insert_audit "InsertAuditLog(rubric) 실패" fault e)
        give a)
          db
        ≡ (ok b, u)
      → with_event e db ≡ u
  event_and-ok fault message e a db h =
      let (x, v, logged, last) =
        continue-ok
          (failing_as message rubric_audit_write_failed
            (insert_audit "InsertAuditLog(rubric) 실패" fault e) db)
          _ h in
      event-ok fault message e db logged ∙ ap (λ p. p.1) last

  -- The write of a method: it is made, and what follows starts from it.
  pub write-ok :
      {A : Type 0} (fault : Option Error) (message : String) (put : M (Database F) (Unit {0}))
      (next : M (Database F) A) (db : Database F) {a : A} {u : Database F}
      → (do failing message (statement fault put); next) db ≡ (ok a, u)
      → (v : Database F) × (put db ≡ (ok tt, v)) × (next v ≡ (ok a, u))
  write-ok fault message put next db h =
      let (x, v, wrote, rest) = continue-ok (failing message (statement fault put) db) _ h in
      (v, statement-ok fault put db (relabelled-ok _ _ wrote), rest)

module _ {F : Type 0} (fl : Floats F) (uuid : UuidLib) (fail : Faults) (now : ℕ) where
  pub locked-ok :
      (id : ℕ) (db : Database F) {status : String} {u : Database F}
      → lock_and_check_rubric_status fl uuid fail now id db ≡ (ok status, u)
      → (row : Rubric) × (select_row (is_rubric id) db.rubrics ≡ some row)
        × (row.status ≡ status)
        × (db ≡ u)
  unfolding lock_and_check_rubric_status
  locked-ok id db h =
      let (row, v, found, last) =
        continue-ok
          (statement (fail lock_status)
            (λ db. found_or rubric_missing (select_row (is_rubric id) db.rubrics) db) db)
          _ h in
      let (present, same) = found_or-ok _ _ db (statement-ok (fail lock_status) _ db found) in
      (row, present, ok-path last, same ∙ ap (λ p. p.1) last)

  abbrev pub with_rubric : Rubric → Database F → Database F
  with_rubric r db = record db { rubrics = db.rubrics ++ r ∷ [] }

  pub insert_rubric-ok :
      (id : ℕ) (name scope : String) (metadata : Metadata) (user_id : String) (db : Database F)
      {n : ℕ} {u : Database F}
      → insert_rubric fl uuid fail now id name scope metadata user_id db ≡ (ok n, u)
      → with_event
          (record_rubric_created uuid rubric_recorder now
            (λ e. e)
            id
            name
            "1"
            (resolve_actor user_id))
          (with_rubric
            (new_rubric now id name
              (text_or_null scope)
              (marshal_metadata metadata)
              (resolve_actor user_id))
            db)
        ≡ u
  unfolding insert_rubric record_rubric_created
  insert_rubric-ok id name scope metadata user_id db h =
      let e =
        record_rubric_created uuid rubric_recorder now (λ e. e) id name "1"
          (resolve_actor user_id) in
      let row =
        new_rubric now id name (text_or_null scope) (marshal_metadata metadata)
          (resolve_actor user_id) in
      let (x0, u0, valid, h0) = continue-ok (checked (validate_rubric_input name) db) _ h in
      let (u1, wrote, h1) =
        write-ok (fail insert_row) "InsertRubric 실패" (put_rubric fl uuid fail now row) _ u0 h0 in
      ap (λ (p : Result (Unit {0}) × Database F). with_event e (with_rubric row p.1)) valid
      ∙ ap (λ (p : Result (Unit {0}) × Database F). with_event e p.1) wrote
      ∙ event_and-ok (fail audit_call) "InsertRubric audit 실패" e id u1 h1
