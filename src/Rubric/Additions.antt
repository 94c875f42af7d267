-- ===== src/Rubric/Additions.antt =====
-- What AddCriterion and AddBand of internal/store/rubric.go have done where they succeed.
use iroum_ax.Prelude.{
  String, ℕ, true, false, ◌&&◌, Option, none, some, ◌≡◌, refl, ap, ◌∙◌, inl, inr, ◌==◌, Bool-cases,
}
use iroum_ax.Prelude.Text.{trim_space}
use iroum_ax.Errors.{Result, ok, wrap, sentinel, rubric_invalid_input}
use iroum_ax.Audit.Uuid.{UuidLib}
use iroum_ax.Audit.Entities.{record_rubric_criterion_added, record_rubric_band_added}
use iroum_ax.Postgres.{
  Rubric, RubricCriterion, Database, Floats, Faults, refuse_if, checked, insert_row, audit_call,
}
use iroum_ax.Postgres.Tables.{any_row}
use iroum_ax.Postgres.Steps.{continue-ok, refuse_if-ok}
use iroum_ax.Review.Rules.{resolve_actor}
use iroum_ax.Rubric.Rules.{
  rubric_recorder, is_band_of, validate_criterion_input, validate_band_input, overlaps,
}
use iroum_ax.Rubric.{put_criterion, add_criterion, new_band, put_band, add_band}
use iroum_ax.Rubric.Steps.{with_event, event_and-ok, write-ok}
use iroum_ax.Rubric.Changes.{IsOpen, back, with_criterion, with_band, IsOpen-ok}

module _ {F : Type 0} (fl : Floats F) (uuid : UuidLib) (fail : Faults) (now : ℕ) where
  abbrev pub new_criterion : ℕ → ℕ → ℕ → F → RubricCriterion F
  new_criterion id rubric_id item_id w = record {
    created_at = now;
    evaluation_item_id = item_id;
    id = id;
    rubric_id = rubric_id;
    weight = w;
  }

  put_criterion-ok :
      (id rubric_id item_id : ℕ) (kept : Option F) (db : Database F) {u : Database F}
      → put_criterion fl uuid fail now id rubric_id item_id kept db ≡ (ok tt, u)
      → (w : F) × (kept ≡ some w)
        × ((fl.le fl.zero w && fl.le w fl.one) ≡ true)
        × (with_criterion (new_criterion id rubric_id item_id w) db ≡ u)
  put_criterion-ok id rubric_id item_id none db h = absurd (cc h)
  put_criterion-ok id rubric_id item_id (some w) db {u} h =
      elim (Bool-cases (fl.le fl.zero w && fl.le w fl.one)) [
        | inr wrong ↦ absurd (cc (rw wrong at h))
        | inl right ↦
            let wrote : Path (Result (Unit {0}) × Database F)
                (ok tt, with_criterion (new_criterion id rubric_id item_id w) db) (ok tt, u) =
              rw right at h in
            (w, refl, right, ap (λ (p : Result (Unit {0}) × Database F). p.1) wrote)
      ]

  pub add_criterion-ok :
      (id rubric_id item_id : ℕ) (weight : F) (user_id : String) (db : Database F) {n : ℕ}
      {u : Database F}
      → add_criterion fl uuid fail now id rubric_id item_id weight user_id db ≡ (ok n, u)
      → (row : Rubric) × (w : F) × IsOpen rubric_id row db
        × (fl.decimal 5 4 weight ≡ some w)
        × ((fl.le fl.zero w && fl.le w fl.one) ≡ true)
        × (with_event
              (record_rubric_criterion_added uuid rubric_recorder now
                (λ e. e)
                id
                rubric_id
                item_id
                (resolve_actor user_id))
              (with_criterion (new_criterion id rubric_id item_id w) db)
            ≡ u)
  unfolding add_criterion record_rubric_criterion_added
  add_criterion-ok id rubric_id item_id weight user_id db h =
      let e =
        record_rubric_criterion_added uuid rubric_recorder now (λ e. e) id rubric_id item_id
          (resolve_actor user_id) in
      let (x0, u0, valid, h0) = continue-ok (checked (validate_criterion_input fl weight) db) _ h in
      let same0 : db ≡ u0 = ap (λ (p : Result (Unit {0}) × Database F). p.1) valid in
      let (row, is_open, h1) = IsOpen-ok fl uuid fail now rubric_id _ _ u0 h0 in
      let (u2, wrote, h2) =
        write-ok (fail insert_row) "AddCriterion INSERT 실패"
          (put_criterion fl uuid fail now id rubric_id item_id (fl.decimal 5 4 weight)) _ u0 h1 in
      let (w, fits, bounded, effect) =
        put_criterion-ok id rubric_id item_id (fl.decimal 5 4 weight) u0 wrote in
      (
        row,
        w,
        back rubric_id same0 is_open,
        fits,
        bounded,
        ap
              (λ (d : Database F).
                with_event e (with_criterion (new_criterion id rubric_id item_id w) d))
              same0
            ∙ ap (λ (d : Database F). with_event e d) effect
            ∙ event_and-ok (fail audit_call) "AddCriterion audit 실패" e id u2 h2,
      )

  -- No band of the rubric meets the range.
  abbrev pub IsFree : ℕ → F → F → Database F → Type 0
  IsFree rubric_id low high db =
      any_row (λ b. is_band_of rubric_id b && overlaps fl low high b) db.bands ≡ false

  put_band-ok :
      (id rubric_id : ℕ) (letter : String) (low high : Option F) (db : Database F) {u : Database F}
      → put_band fl uuid fail now id rubric_id letter low high db ≡ (ok tt, u)
      → (l h : F) × (low ≡ some l)
        × (high ≡ some h)
        × (fl.lt l h ≡ true)
        × IsFree rubric_id l h db
        × (with_band (new_band fl uuid fail now id rubric_id letter l h) db ≡ u)
  put_band-ok id rubric_id letter none high db h = absurd (cc h)
  put_band-ok id rubric_id letter (some low) none db h = absurd (cc h)
  put_band-ok id rubric_id letter (some low) (some high) db {u} h =
      elim (Bool-cases (fl.lt low high)) [
        | inr wrong ↦ absurd (cc (rw wrong at h))
        | inl right ↦
            elim (Bool-cases
              (any_row (λ b. is_band_of rubric_id b && overlaps fl low high b) db.bands)) [
                | inl taken ↦ absurd (cc (rw (right, taken) at h))
                | inr free ↦
                    let wrote : Path (Result (Unit {0}) × Database F)
                        (
                          ok tt,
                          with_band (new_band fl uuid fail now id rubric_id letter low high) db,
                        )
                        (ok tt, u) =
                      rw (right, free) at h in
                    (
                      low,
                      high,
                      refl,
                      refl,
                      right,
                      free,
                      ap (λ (p : Result (Unit {0}) × Database F). p.1) wrote,
                    )
              ]
      ]

  pub add_band-ok :
      (id rubric_id : ℕ) (letter : String) (min_score max_score : F) (user_id : String)
      (db : Database F) {n : ℕ} {u : Database F}
      → add_band fl uuid fail now id rubric_id letter min_score max_score user_id db ≡ (ok n, u)
      → (row : Rubric) × (l h : F) × IsOpen rubric_id row db
        × (fl.decimal 8 4 min_score ≡ some l)
        × (fl.decimal 8 4 max_score ≡ some h)
        × (fl.lt l h ≡ true)
        × IsFree rubric_id l h db
        × (with_event
              (record_rubric_band_added uuid rubric_recorder now
                (λ e. e)
                id
                rubric_id
                letter
                (resolve_actor user_id))
              (with_band (new_band fl uuid fail now id rubric_id letter l h) db)
            ≡ u)
  unfolding add_band record_rubric_band_added
  add_band-ok id rubric_id letter min_score max_score user_id db h =
      let e =
        record_rubric_band_added uuid rubric_recorder now (λ e. e) id rubric_id letter
          (resolve_actor user_id) in
      let blank = wrap "letter가 비어 있음" (sentinel rubric_invalid_input) in
      let (x, u, given, h') = continue-ok (refuse_if (trim_space letter == "") blank db) _ h in
      let (nonblank, same) = refuse_if-ok (trim_space letter == "") blank db given in
      let (x0, u0, valid, h0) =
        continue-ok (checked (validate_band_input fl min_score max_score) u) _ h' in
      let same0 : db ≡ u0 = same ∙ ap (λ (p : Result (Unit {0}) × Database F). p.1) valid in
      let (row, is_open, h1) = IsOpen-ok fl uuid fail now rubric_id _ _ u0 h0 in
      let (u2, wrote, h2) =
        write-ok (fail insert_row) "AddBand INSERT 실패"
          (put_band fl uuid fail now id rubric_id letter (fl.decimal 8 4 min_score)
            (fl.decimal 8 4 max_score))
          _ u0 h1 in
      let (low, high, fits_low, fits_high, ordered, free, effect) =
        put_band-ok id rubric_id letter (fl.decimal 8 4 min_score) (fl.decimal 8 4 max_score) u0
          wrote in
      (
        row,
        low,
        high,
        back rubric_id same0 is_open,
        fits_low,
        fits_high,
        ordered,
        ap
              (λ (d : Database F).
                any_row (λ b. is_band_of rubric_id b && overlaps fl low high b) d.bands)
              same0
            ∙ free,
        ap
              (λ (d : Database F).
                with_event e (with_band (new_band fl uuid fail now id rubric_id letter low high) d))
              same0
            ∙ ap (λ (d : Database F). with_event e d) effect
            ∙ event_and-ok (fail audit_call) "AddBand audit 실패" e id u2 h2,
      )
