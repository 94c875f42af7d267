-- ===== src/Rubric/Bands.antt =====
-- The bands of internal/store/rubric.go under rubric_bands_no_overlap.
use iroum_ax.Prelude.{
  String, Bool, true, false, ◌&&◌, Option, List, [], ◌∷◌, ◌++◌, ◌≡◌, refl, ap, ◌∙◌, inl, inr,
  Bool-cases, leb,
}
use iroum_ax.Prelude.Text.{eqb}
use iroum_ax.Errors.{Result}
use iroum_ax.Audit.Uuid.{UuidLib}
use iroum_ax.Postgres.{RubricBand, Database, Floats}
use iroum_ax.Postgres.Tables.{any_row}
use iroum_ax.Rubric.Rules.{overlaps}
use iroum_ax.Rubric.Served.{
  RubricStep, looked, made, edited, archived, weighed, banded, serve_rubric-IsAnswered,
}
use iroum_ax.Rubric.Requests.{serve_rubric}
use iroum_ax.Rubric.Archived.{RubricArrival, serve_rubrics}

and_comm : (a b : Bool) → (a && b) ≡ (b && a)
and_comm true true = refl
and_comm true false = refl
and_comm false true = refl
and_comm false false = refl

module _ {F : Type 0} (fl : Floats F) where
  -- Two bands of one rubric whose closed ranges meet.
  abbrev pub meets : RubricBand F → RubricBand F → Bool
  meets b c =
      eqb c.rubric_id b.rubric_id
      && (fl.le b.min_score c.max_score && fl.le c.min_score b.max_score)

  abbrev pub IsDisjoint : List (RubricBand F) → Type 0
  IsDisjoint [] = Unit
  IsDisjoint (b ∷ bands) = (any_row (meets b) bands ≡ false) × IsDisjoint bands

  meets-sym : (b c : RubricBand F) → meets b c ≡ meets c b
  meets-sym b c =
      rw
        (
          and_comm (leb c.rubric_id b.rubric_id) (leb b.rubric_id c.rubric_id),
          and_comm (fl.le b.min_score c.max_score) (fl.le c.min_score b.max_score),
        )
        refl

  any_row-append :
      (test : RubricBand F → Bool) (bands : List (RubricBand F)) (c : RubricBand F)
      → any_row test bands ≡ false
      → test c ≡ false
      → any_row test (bands ++ c ∷ []) ≡ false
  unfolding any_row
  any_row-append test [] c h free = rw free refl
  any_row-append test (b ∷ bands) c h free = elim (Bool-cases (test b)) [
    | inl here ↦ absurd (cc (rw here at h))
    | inr there ↦ rw there (any_row-append test bands c (rw there at h) free)
  ]

  append-IsDisjoint :
      (bands : List (RubricBand F)) (c : RubricBand F)
      → IsDisjoint bands
      → any_row (meets c) bands ≡ false
      → IsDisjoint (bands ++ c ∷ [])
  unfolding any_row
  append-IsDisjoint [] c h free = (refl, tt)
  append-IsDisjoint (b ∷ bands) c (apart, h) free = elim (Bool-cases (meets c b)) [
    | inl here ↦ absurd (cc (rw here at free))
    | inr there ↦ (
      any_row-append (meets b) bands c apart (meets-sym b c ∙ there),
      append-IsDisjoint bands c h (rw there at free),
    )
  ]

module _ {F : Type 0} (fl : Floats F) (uuid : UuidLib) (db : Database F) where
  step-IsDisjoint :
      (u : Database F) → IsDisjoint fl db.bands → RubricStep fl uuid db u → IsDisjoint fl u.bands
  step-IsDisjoint u h (looked same) = rw same h
  step-IsDisjoint u h (made row e draft effect) = rw (← effect) h
  step-IsDisjoint u h
        (edited now id row name asked status actor scope metadata e is_open allowed effect) =
      rw (← effect) h
  step-IsDisjoint u h (archived now id row reason actor e nonblank is_open allowed effect) =
      rw (← effect) h
  step-IsDisjoint u h (weighed id row c e is_open belongs bounded effect) = rw (← effect) h
  step-IsDisjoint u h (banded id row b e is_open belongs ordered free effect) = rw (← effect) (
      append-IsDisjoint fl db.bands b h (
        ap (λ n. any_row (λ c. eqb c.rubric_id n && overlaps fl b.min_score b.max_score c) db.bands)
          belongs
        ∙ free))

module _ {F : Type 0} (fl : Floats F) (uuid : UuidLib)
    (sum_weighted : String → Database F → Result (Option F)) where
  -- Where no two bands of one rubric meet, they do not after any requests with any faults.
  pub serve_rubrics-IsDisjoint :
      (arrivals : List (RubricArrival F)) (db : Database F)
      → IsDisjoint fl db.bands
      → IsDisjoint fl (serve_rubrics fl uuid sum_weighted arrivals db).bands
  unfolding serve_rubrics
  serve_rubrics-IsDisjoint [] db h = h
  serve_rubrics-IsDisjoint (a ∷ arrivals) db h =
      let kept : IsDisjoint fl
          (serve_rubric fl uuid sum_weighted a.fail a.now a.request db).1.bands =
        elim (serve_rubric-IsAnswered fl uuid sum_weighted a.fail a.now db a.request) [
          | inl (refused, same) ↦ rw same h
          | inr step ↦ step-IsDisjoint fl uuid db _ h step
        ] in
      serve_rubrics-IsDisjoint arrivals
        (serve_rubric fl uuid sum_weighted a.fail a.now a.request db).1 kept
