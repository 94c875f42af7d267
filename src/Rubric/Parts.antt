-- ===== src/Rubric/Parts.antt =====
-- The transactions of cmd/server/rubric_handlers.go on a rubric's criteria and bands, its clone and its
-- application: what each has done where it is answered with success.
use iroum_ax.Prelude.{
  String, ℕ, false, some, List, ◌≡◌, refl, inl, inr, ◌==◌, Bool-cases, Option-cases,
}
use iroum_ax.Errors.{ok}
use iroum_ax.Audit.Uuid.{UuidLib}
use iroum_ax.Postgres.{
  Rubric, RubricCriterion, RubricBand, Database, Floats, Faults, begin_rubric, commit_tx,
}
use iroum_ax.Server.Transactions.{IsDone, IsRead, step-cases, read-cases, attempted-effect}
use iroum_ax.Server.{Reply, internal}
use iroum_ax.Rubric.Rules.{status_archived, overlaps}
use iroum_ax.Postgres.Tables.{any_row}
use iroum_ax.Rubric.{
  insert_rubric, get_rubric_by_id, get_criteria_by_rubric, get_bands_by_rubric, add_criterion,
  add_band, apply_rubric,
}
use iroum_ax.Rubric.Bodies.{
  RubricReply, rubric_made, criterion_made, band_made, applied, RubricBandBody,
  write_rubric_store_err, empty_or, no_metadata_or, to_band_json,
}
use iroum_ax.Rubric.Handlers.{add_criterion_in, add_band_in, clone_in, apply_in, sum_weights}
use iroum_ax.Rubric.Answers.{RefusedOr, IsInserted, get_rubric-ok, criteria-ok, bands-ok}

module _ {F : Type 0} (fl : Floats F) (uuid : UuidLib) (fail : Faults) (now : ℕ)
    (db : Database F) where
  -- The weights that are there and the new one do not exceed one.
  abbrev pub IsWeighed :
      (new_id id item : ℕ) → F → (actor : String) → Reply (RubricReply F) × Database F → Type 0
  IsWeighed new_id id item weight actor outcome =
      (existing : List (RubricCriterion F)) × (get_criteria_by_rubric fl uuid fail now id db
        ≡ (ok existing, db))
      × (fl.lt fl.one (fl.add (sum_weights fl uuid fail now fl.zero existing) weight) ≡ false)
      × IsDone (add_criterion fl uuid fail now new_id id item weight actor db)
          (λ stored.
            (201, criterion_made (uuid.format stored) (uuid.format id) (uuid.format item) weight))
          outcome

  pub criterion-effect :
      (new_id id item : ℕ) (weight : F) (actor : String)
      → RefusedOr fl uuid fail now db
          (IsWeighed new_id id item weight actor)
          (add_criterion_in fl uuid fail now new_id id item weight actor db)
  unfolding add_criterion_in
  criterion-effect new_id id item weight actor = elim (Option-cases (fail begin_rubric)) [
    | inr (e, bad) ↦ inl (rw bad (tt, refl))
    | inl begun ↦
        elim (read-cases db (get_criteria_by_rubric fl uuid fail now id db)
          (λ a v. criteria-ok fl uuid fail now id db)) [
            | inl (e, v, bad) ↦ inl (rw (begun, bad) (tt, refl))
            | inr (existing, got) ↦
                elim (Bool-cases
                  (fl.lt fl.one (fl.add (sum_weights fl uuid fail now fl.zero existing) weight))) [
                    | inl over ↦ inl (rw (begun, got, over) (tt, refl))
                    | inr fits ↦
                        elim (attempted-effect write_rubric_store_err (λ e. tt)
                          (internal "rubric 트랜잭션 시작 실패") (internal "criterion 저장 실패") tt tt
                          (λ (stored : ℕ). (
                            201,
                            criterion_made (uuid.format stored) (uuid.format id) (uuid.format item)
                                weight,
                          ))
                          db (fail commit_tx)
                          (add_criterion fl uuid fail now new_id id item weight actor db)) [
                            | inl refused ↦ inl (rw (begun, got, fits) refused)
                            | inr (stored, u, done, same) ↦
                                inr (
                                  existing,
                                  got,
                                  fits,
                                  (stored, u, done, rw (begun, got, fits) same),
                                )
                          ]
                  ]
          ]
  ]

  -- No band that is there meets the new one.
  abbrev pub IsBanded :
      (new_id id : ℕ)
      → RubricBandBody F
      → (actor : String) → Reply (RubricReply F) × Database F
      → Type 0
  IsBanded new_id id b actor outcome =
      (existing : List (RubricBand F)) × (get_bands_by_rubric fl uuid fail now id db
        ≡ (ok existing, db))
      × (any_row (overlaps fl b.min_score b.max_score) existing ≡ false)
      × IsDone (add_band fl uuid fail now new_id id b.letter b.min_score b.max_score actor db)
          (λ stored.
            (201, band_made (uuid.format stored) (uuid.format id) b.letter b.min_score b.max_score))
          outcome

  pub band-effect :
      (new_id id : ℕ) (b : RubricBandBody F) (actor : String)
      → RefusedOr fl uuid fail now db
          (IsBanded new_id id b actor)
          (add_band_in fl uuid fail now new_id id b actor db)
  unfolding add_band_in
  band-effect new_id id b actor = elim (Option-cases (fail begin_rubric)) [
    | inr (e, bad) ↦ inl (rw bad (tt, refl))
    | inl begun ↦
        elim (read-cases db (get_bands_by_rubric fl uuid fail now id db)
          (λ a v. bands-ok fl uuid fail now id db)) [
            | inl (e, v, bad) ↦ inl (rw (begun, bad) (tt, refl))
            | inr (existing, got) ↦
                elim (Bool-cases (any_row (overlaps fl b.min_score b.max_score) existing)) [
                  | inl meets ↦ inl (rw (begun, got, meets) (tt, refl))
                  | inr apart ↦
                      elim (attempted-effect write_rubric_store_err (λ e. tt)
                        (internal "트랜잭션 시작 실패") (internal "band 저장 실패") tt tt
                        (λ (stored : ℕ). (
                          201,
                          band_made (uuid.format stored) (uuid.format id) b.letter b.min_score
                              b.max_score,
                        ))
                        db (fail commit_tx)
                        (add_band fl uuid fail now new_id id b.letter b.min_score b.max_score actor
                          db)) [
                            | inl refused ↦ inl (rw (begun, got, apart) refused)
                            | inr (stored, u, done, same) ↦ inr (
                              existing,
                              got,
                              apart,
                              (stored, u, done, rw (begun, got, apart) same),
                            )
                          ]
                ]
          ]
  ]

  -- The source is there and not archived.
  abbrev pub IsCloned :
      (new_id id : ℕ) → (actor : String) → Reply (RubricReply F) × Database F → Type 0
  IsCloned new_id id actor outcome =
      (src : Rubric) × (get_rubric_by_id fl uuid fail now id db ≡ (ok src, db))
      × ((src.status == status_archived) ≡ false)
      × IsInserted fl uuid fail now db new_id src.name (empty_or src.scope)
          (no_metadata_or src.metadata) (some (uuid.format id)) actor outcome

  pub clone-effect :
      (new_id id : ℕ) (actor : String)
      → RefusedOr fl uuid fail now db
          (IsCloned new_id id actor)
          (clone_in fl uuid fail now new_id id actor db)
  unfolding clone_in
  clone-effect new_id id actor = elim (Option-cases (fail begin_rubric)) [
    | inr (e, bad) ↦ inl (rw bad (tt, refl))
    | inl begun ↦
        elim (read-cases db (get_rubric_by_id fl uuid fail now id db)
          (λ a v. get_rubric-ok fl uuid fail now id db)) [
            | inl (e, v, bad) ↦ inl (rw (begun, bad) (tt, refl))
            | inr (src, got) ↦ elim (Bool-cases (src.status == status_archived)) [
              | inl over ↦ inl (rw (begun, got, over) (tt, refl))
              | inr ready ↦
                  elim (attempted-effect {B = RubricReply F} write_rubric_store_err (λ e. tt)
                    (internal "트랜잭션 시작 실패") (internal "rubric clone 실패") tt tt
                    (λ (stored : ℕ). (
                      201,
                      rubric_made (uuid.format stored) src.name (empty_or src.scope) "draft" 1
                          (some (uuid.format id)) actor actor,
                    ))
                    db (fail commit_tx)
                    (insert_rubric fl uuid fail now new_id src.name (empty_or src.scope)
                      (no_metadata_or src.metadata) actor db)) [
                        | inl refused ↦ inl (rw (begun, got, ready) refused)
                        | inr (stored, u, done, same) ↦
                            inr (src, got, ready, (stored, u, done, rw (begun, got, ready) same))
                      ]
            ]
          ]
  ]

  -- A band of the rubric has been found for the value; the tables stay.
  abbrev pub IsApplied : (id score_id : ℕ) → F → Reply (RubricReply F) × Database F → Type 0
  IsApplied id score_id value outcome =
      IsRead (apply_rubric fl uuid fail now id value db)
        (λ band. (
          200,
          applied (uuid.format id) (uuid.format score_id) value band.letter
              (to_band_json uuid band),
        ))
        db outcome

  pub apply-effect :
      (id score_id : ℕ) (value : F)
      → RefusedOr fl uuid fail now db
          (IsApplied id score_id value)
          (apply_in fl uuid fail now id score_id value db)
  unfolding apply_in
  apply-effect id score_id value = elim (Option-cases (fail begin_rubric)) [
    | inr (e, bad) ↦ inl (rw bad (tt, refl))
    | inl begun ↦ elim (step-cases (apply_rubric fl uuid fail now id value db)) [
      | inl (e, v, bad) ↦ inl (rw (begun, bad) (tt, refl))
      | inr (band, u, found) ↦ inr (band, u, found, rw (begun, found))
    ]
  ]
