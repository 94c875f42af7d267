-- ===== src/Rubric/Archived.antt =====
-- What the requests of cmd/server/rubric_handlers.go leave of a rubric that is archived.
use iroum_ax.Prelude.{
  String, ℕ, true, false, Option, some, List, [], ◌∷◌, ◌≡◌, refl, ap, ◌∙◌, inl, inr, ◌==◌,
  Bool-cases, arith,
}
use iroum_ax.Prelude.Text.{eqb}
use iroum_ax.Errors.{Result}
use iroum_ax.Audit.Uuid.{UuidLib}
use iroum_ax.Postgres.{Rubric, Database, Floats, Faults}
use iroum_ax.Postgres.Tables.{
  select_row, select_rows, select_row-append, select_row-update_rows_other,
  select_rows-append_other,
}
use iroum_ax.Rubric.Rules.{
  status_archived, is_rubric, of_rubric, is_band_of, set_rubric, set_archived,
}
use iroum_ax.Rubric.Changes.{IsOpen, rubrics_set}
use iroum_ax.Rubric.Served.{
  RubricStep, looked, made, edited, archived, weighed, banded, serve_rubric-IsAnswered,
}
use iroum_ax.Rubric.Requests.{RubricRequest, serve_rubric}

-- The row, the criteria and the bands of the rubric are the same in both tables.
abbrev pub IsSame : {F : Type 0} → ℕ → Rubric → Database F → Database F → Type 0
IsSame id r db u =
    (select_row (is_rubric id) u.rubrics ≡ some r)
    × (select_rows (of_rubric id) u.criteria ≡ select_rows (of_rubric id) db.criteria)
    × (select_rows (is_band_of id) u.bands ≡ select_rows (is_band_of id) db.bands)

module _ {F : Type 0} (fl : Floats F) (uuid : UuidLib) (id : ℕ) (r : Rubric) (db : Database F)
    (ended : (r.status == status_archived) ≡ true)
    (present : select_row (is_rubric id) db.rubrics ≡ some r) where
  -- An open rubric is another one.
  open_differs : (other : ℕ) (row : Rubric) → IsOpen other row db → eqb other id ≡ false
  open_differs other row (there, free) = elim (Bool-cases (eqb other id)) [
    | inr differs ↦ differs
    | inl same ↦
        let equal : other ≡ id = ground arith in
        let there' : select_row (is_rubric id) db.rubrics ≡ some row = rw equal at there in
        let same_row : row ≡ r = cc (there', present) in absurd (cc (ended, free, same_row))
  ]

  other_row :
      (other : ℕ) (row : Rubric)
      → eqb other id ≡ false
      → is_rubric other row ≡ true
      → is_rubric id row ≡ false
  other_row other row ne h = ground arith

  set-IsSame :
      (other : ℕ) (row : Rubric) (change : Rubric → Rubric)
      → ((s : Rubric) → is_rubric id (change s) ≡ is_rubric id s)
      → IsOpen other row db
      → IsSame id r db (rubrics_set other change db)
  set-IsSame other row change keeps is_open = (
    select_row-update_rows_other (is_rubric id) (is_rubric other) change db.rubrics keeps
          (λ s. other_row other s (open_differs other row is_open))
        ∙ present,
    refl,
    refl,
  )

  step-IsSame : (u : Database F) → RubricStep fl uuid db u → IsSame id r db u
  step-IsSame u (looked same) = rw same (present, refl, refl)
  step-IsSame u (made row e draft effect) =
      rw (← effect) (select_row-append (is_rubric id) db.rubrics _ present, refl, refl)
  step-IsSame u
        (edited now other row name asked status actor scope metadata e is_open allowed effect) =
      rw (← effect)
        (set-IsSame other row (set_rubric now name scope status metadata actor) (λ s. refl) is_open)
  step-IsSame u (archived now other row reason actor e nonblank is_open allowed effect) =
      rw (← effect) (set-IsSame other row (set_archived now reason actor) (λ s. refl) is_open)
  step-IsSame u (weighed other row c e is_open belongs bounded effect) = rw (← effect) (
    present,
    select_rows-append_other (of_rubric id) db.criteria c
        (ap (λ n. eqb n id) belongs ∙ open_differs other row is_open),
    refl,
  )
  step-IsSame u (banded other row b e is_open belongs ordered free effect) = rw (← effect) (
    present,
    refl,
    select_rows-append_other (is_band_of id) db.bands b
        (ap (λ n. eqb n id) belongs ∙ open_differs other row is_open),
  )

-- A request with the faults and the time that it meets.
pub record RubricArrival (F : Type 0) : Type 0 where
  pub request : RubricRequest F
  pub fail : Faults
  pub now : ℕ

module _ {F : Type 0} (fl : Floats F) (uuid : UuidLib)
    (sum_weighted : String → Database F → Result (Option F)) where
  -- One request behind the other.
  unfoldable pub serve_rubrics : List (RubricArrival F) → Database F → Database F
  unfolding serve_rubric
  serve_rubrics [] db = db
  serve_rubrics (a ∷ arrivals) db =
      serve_rubrics arrivals (serve_rubric fl uuid sum_weighted a.fail a.now a.request db).1

  answered-IsSame :
      (id : ℕ) (r : Rubric) (a : RubricArrival F) (db : Database F)
      → (r.status == status_archived) ≡ true
      → select_row (is_rubric id) db.rubrics ≡ some r
      → IsSame id r db (serve_rubric fl uuid sum_weighted a.fail a.now a.request db).1
  answered-IsSame id r a db ended present =
      elim (serve_rubric-IsAnswered fl uuid sum_weighted a.fail a.now db a.request) [
        | inl (refused, same) ↦ rw same (present, refl, refl)
        | inr step ↦ step-IsSame fl uuid id r db ended present _ step
      ]

  -- Whatever requests follow and whatever faults they meet, the row of an archived rubric, its criteria
  -- and its bands stay exactly as they are.
  pub archived_final :
      (arrivals : List (RubricArrival F)) (id : ℕ) (r : Rubric) (db : Database F)
      → (r.status == status_archived) ≡ true
      → select_row (is_rubric id) db.rubrics ≡ some r
      → IsSame id r db (serve_rubrics arrivals db)
  unfolding serve_rubrics
  archived_final [] id r db ended present = (present, refl, refl)
  archived_final (a ∷ arrivals) id r db ended present =
      let (there, criteria, bands) = answered-IsSame id r a db ended present in
      let (there', criteria', bands') =
        archived_final arrivals id r (serve_rubric fl uuid sum_weighted a.fail a.now a.request db).1
          ended there in
      (there', criteria' ∙ criteria, bands' ∙ bands)
