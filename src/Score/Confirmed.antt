-- ===== src/Score/Confirmed.antt =====
-- What the requests of cmd/server/score_handlers.go leave of a score that is CONFIRMED.
use iroum_ax.Prelude.{
  String, ℕ, true, false, Option, some, List, [], ◌∷◌, ◌≡◌, refl, sym, ap, ◌∙◌, ◌⊎◌, inl, inr,
  Bool-cases, arith,
}
use iroum_ax.Prelude.Text.{eqb}
use iroum_ax.Errors.{ok}
use iroum_ax.Audit.Uuid.{UuidLib}
use iroum_ax.Postgres.{Score, Database, Floats, Faults}
use iroum_ax.Postgres.Tables.{
  select_row, update_rows, select_row-update_rows_other, select_row-append,
}
use iroum_ax.Score.Rules.{is_score, is_confirmed}
use iroum_ax.Score.{set_superseded, update_score}
use iroum_ax.Score.Updates.{rewritten, set_fields_keeps_id, update_score-ok}
use iroum_ax.Score.Immutable.{SameFields, in_columns-All, rewritten-select, confirmed_immutable}
use iroum_ax.Score.Corrections.{supersede-applied}
use iroum_ax.Score.Handlers.{ScoreCreateBody, asked_update, alone}
use iroum_ax.Score.Results.{serve_score-IsServed}
use iroum_ax.Score.Requests.{
  ScoreRequest, serve_score, ScoreStep, looked, added, changed, corrected,
}
use iroum_ax.Score.Unconfirmed.{
  KeepsStatus, set_fields-status, in_column-keeps, asked-keeps, insert_score-ok,
}

-- The score has the same value, weight and grade, and is CONFIRMED still or SUPERSEDED.
abbrev pub IsKept : {F : Type 0} → ℕ → Score F → Database F → Type 0
IsKept {F} id old db =
    (new : Score F) × (select_row (is_score id) db.scores ≡ some new)
    × SameFields new old
    × ((new.status ≡ "CONFIRMED") ⊎ (new.status ≡ "SUPERSEDED"))

module _ {F : Type 0} (fl : Floats F) (uuid : UuidLib) (fail : Faults) (now id : ℕ) (old : Score F)
    (db : Database F) (confirmed : old.status ≡ "CONFIRMED")
    (present : select_row (is_score id) db.scores ≡ some old) where
  unchanged-IsKept : IsKept id old db
  unchanged-IsKept = (old, present, (refl, refl, refl), inl confirmed)

  -- A row of another identifier is another row.
  other_score :
      (other : ℕ) (s : Score F)
      → eqb other id ≡ false
      → is_score other s ≡ true
      → is_score id s ≡ false
  other_score other s ne h = ground arith

  same-IsKept :
      (b : ScoreCreateBody F) (db' : Database F)
      → update_score fl uuid fail now
          (alone fl uuid fail now)
          id
          (asked_update fl uuid fail now b)
          db
        ≡ (ok tt, db')
      → IsKept id old db'
  same-IsKept b db' h =
      let asked = asked_update fl uuid fail now b in
      let (read, there, unlocked, valid, effect) =
        update_score-ok fl uuid fail now (alone fl uuid fail now) id asked db h in
      let (new, selected, same) =
        confirmed_immutable fl uuid fail now id asked db old present confirmed h in
      elim effect [
        | inl unchanged ↦ rw unchanged unchanged-IsKept
        | inr (stored, fits, written) ↦
            let kept =
              in_columns-All fl KeepsStatus (in_column-keeps fl) _ (asked-keeps fl uuid fail now b)
                fits in
            let after : select_row (is_score id) db'.scores ≡ some (rewritten now stored old) =
              rw written (rewritten-select fl uuid fail now id stored db old present) in
            let picked : new ≡ rewritten now stored old = cc (selected, after) in
            (
              new,
              selected,
              same,
              inl (
                  ap (λ (s : Score F). s.status) picked
                  ∙ set_fields-status stored (record old { updated_at = now }) kept
                  ∙ confirmed),
            )
      ]

  other-IsKept :
      (other : ℕ) (b : ScoreCreateBody F) (db' : Database F)
      → eqb other id ≡ false
      → update_score fl uuid fail now
          (alone fl uuid fail now)
          other
          (asked_update fl uuid fail now b)
          db
        ≡ (ok tt, db')
      → IsKept id old db'
  other-IsKept other b db' different h =
      let (read, there, unlocked, valid, effect) =
        update_score-ok fl uuid fail now (alone fl uuid fail now) other
          (asked_update fl uuid fail now b) db h in
      elim effect [
        | inl unchanged ↦ rw unchanged unchanged-IsKept
        | inr (stored, fits, written) ↦ (
          old,
          rw written (
              select_row-update_rows_other (is_score id) (is_score other) (rewritten now stored)
                db.scores
                (λ r.
                  ap (λ n. eqb n id) (set_fields_keeps_id stored (record r { updated_at = now })))
                (λ r. other_score other r different)
              ∙ present),
          (refl, refl, refl),
          inl confirmed,
        )
      ]

  change-IsKept :
      (other : ℕ) (b : ScoreCreateBody F) (db' : Database F)
      → update_score fl uuid fail now
          (alone fl uuid fail now)
          other
          (asked_update fl uuid fail now b)
          db
        ≡ (ok tt, db')
      → IsKept id old db'
  change-IsKept other b db' h = elim (Bool-cases (eqb other id)) [
    | inr different ↦ other-IsKept other b db' different h
    | inl same ↦ let equal : other ≡ id = ground arith in same-IsKept b db' (rw equal at h)
  ]

  fields_of : {r : Score F} → old ≡ r → SameFields r old
  fields_of same = (
    ap (λ (s : Score F). s.score_value) (sym same),
    ap (λ (s : Score F). s.weight) (sym same),
    ap (λ (s : Score F). s.grade) (sym same),
  )

  correct-IsKept :
      (old_id : ℕ) (rows : List (Score F))
      → select_row (is_score id) rows ≡ some old
      → (new : Score F) × (select_row
            (is_score id)
            (update_rows (is_confirmed old_id) (set_superseded fl uuid fail now) rows)
          ≡ some new)
        × SameFields new old
        × ((new.status ≡ "CONFIRMED") ⊎ (new.status ≡ "SUPERSEDED"))
  unfolding select_row update_rows
  correct-IsKept old_id [] there = absurd (cc there)
  correct-IsKept old_id (r ∷ rows) there = elim (Bool-cases (eqb r.id id)) [
    | inr differs ↦ elim (Bool-cases (is_confirmed old_id r)) [
      | inl moved ↦ rw (moved, differs) (correct-IsKept old_id rows (rw differs at there))
      | inr stays ↦ rw (stays, differs) (correct-IsKept old_id rows (rw differs at there))
    ]
    | inl here ↦
        let picked : some r ≡ some old = rw here at there in
        let same : r ≡ old = cc picked in
        elim (Bool-cases (is_confirmed old_id r)) [
          | inl moved ↦
              rw (moved, here)
                (set_superseded fl uuid fail now r, refl, fields_of (sym same), inr refl)
          | inr stays ↦
              rw (stays, here) (old, ap (λ s. some s) same, (refl, refl, refl), inl confirmed)
        ]
  ]

  step-IsKept : (db' : Database F) → ScoreStep fl uuid fail now db db' → IsKept id old db'
  step-IsKept db' (looked same) = rw same unchanged-IsKept
  step-IsKept db' (added new_id item evidence level value weight metadata given h) =
      let (d, dw, effect) =
        insert_score-ok fl uuid fail now new_id item evidence level value weight metadata db h in
      (
        old,
        rw effect (select_row-append (is_score id) db.scores _ present),
        (refl, refl, refl),
        inl confirmed,
      )
  step-IsKept db' (changed other b h) = change-IsKept other b db' h
  step-IsKept db' (corrected new_id old_id value weight metadata given h) =
      let (read, d, dw, there, was, fits, fits_weight, met, effect) =
        supersede-applied fl uuid fail now (alone fl uuid fail now) new_id old_id value weight
          metadata db h in
      rw effect (correct-IsKept old_id _ (select_row-append (is_score id) db.scores _ present))

module _ {F : Type 0} (fl : Floats F) (uuid : UuidLib) (parse_float : String → Option F)
    (fail : Faults) (now id : ℕ) where
  -- Whatever is asked for and whatever faults occur, a request on scores leaves the value, the weight
  -- and the grade of a CONFIRMED score as they are, and leaves it CONFIRMED or SUPERSEDED.
  pub serve_score-IsKept :
      (r : ScoreRequest F) (old : Score F) (db : Database F)
      → old.status ≡ "CONFIRMED"
      → select_row (is_score id) db.scores ≡ some old
      → IsKept id old (serve_score fl uuid parse_float fail now r db).1
  serve_score-IsKept r old db confirmed present =
      elim (serve_score-IsServed fl uuid parse_float fail now db r) [
        | inl (refused, same) ↦
            rw same (unchanged-IsKept fl uuid fail now id old db confirmed present)
        | inr step ↦ step-IsKept fl uuid fail now id old db confirmed present _ step
      ]
