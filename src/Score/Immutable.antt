-- ===== src/Score/Immutable.antt =====
-- When the value, the weight and the grade of a score change under UpdateScore.
use iroum_ax.Prelude.{
  ℕ, Bool, true, false, ◌||◌, ◌&&◌, Option, none, some, List, [], ◌∷◌, ◌≡◌, refl, ap, ◌∙◌, inl, inr,
  ◌==◌, map_some, All, All-append, arith,
}
use iroum_ax.Prelude.Text.{eqb}
use iroum_ax.Errors.{ok}
use iroum_ax.Audit.Uuid.{UuidLib}
use iroum_ax.Postgres.{Score, Database, Floats, Faults}
use iroum_ax.Postgres.Tables.{select_row, select_row-update_rows}
use iroum_ax.Score.Rules.{
  Clause, set_value, set_weight, set_grade, set_status, set_metadata, ScoreUpdate, is_score,
  clause_of, build_score_update_set, set_fields, in_column, in_columns, both_some,
}
use iroum_ax.Score.{update_score, changes_fields, is_set}
use iroum_ax.Score.Updates.{rewritten, updated, set_fields_keeps_id, update_score-ok}

or-false : (a b : Bool) → (a || b) ≡ false → (a ≡ false) × (b ≡ false)
or-false true b h = absurd (cc h)
or-false false b h = (refl, h)

and-right : (a b : Bool) → a ≡ true → (a && b) ≡ false → b ≡ false
and-right true b e h = h
and-right false b e h = absurd (cc e)

-- A clause that leaves the three fields alone.
abbrev IsPlain : {F : Type 0} → Clause F → Type 0
IsPlain (set_value v) = ⊥
IsPlain (set_weight w) = ⊥
IsPlain (set_grade g) = ⊥
IsPlain (set_status n) = Unit
IsPlain (set_metadata m) = Unit

abbrev pub SameFields : {F : Type 0} → Score F → Score F → Type 0
SameFields s t = (s.score_value ≡ t.score_value) × (s.weight ≡ t.weight) × (s.grade ≡ t.grade)

module _ {F : Type 0} where
  set_fields-plain :
      (clauses : List (Clause F)) (s : Score F)
      → All IsPlain clauses
      → SameFields (set_fields clauses s) s
  unfolding set_fields
  set_fields-plain [] s h = (refl, refl, refl)
  set_fields-plain (set_value v ∷ clauses) s h = absurd h.0
  set_fields-plain (set_weight w ∷ clauses) s h = absurd h.0
  set_fields-plain (set_grade g ∷ clauses) s h = absurd h.0
  set_fields-plain (set_status n ∷ clauses) s h = set_fields-plain clauses _ h.1
  set_fields-plain (set_metadata m ∷ clauses) s h = set_fields-plain clauses _ h.1

  clause_of-IsPlain :
      {A : Type 0} (set : A → Clause F) (given : Option A)
      → ((a : A) → IsPlain (set a))
      → All IsPlain (clause_of set given)
  clause_of-IsPlain set none plain = tt
  clause_of-IsPlain set (some a) plain = (plain a, tt)

  clause_of-unset :
      {A : Type 0} (set : A → Clause F) (given : Option A)
      → is_set given ≡ false
      → All IsPlain (clause_of set given)
  clause_of-unset set none h = tt
  clause_of-unset set (some a) h = absurd (cc h)

  build-IsPlain :
      (upd : ScoreUpdate F)
      → is_set upd.score_value ≡ false
      → is_set upd.weight ≡ false
      → is_set upd.grade ≡ false
      → All IsPlain (build_score_update_set upd)
  unfolding build_score_update_set
  build-IsPlain upd v w g = All-append IsPlain _ _ (clause_of-unset set_value upd.score_value v) (
      All-append IsPlain _ _ (clause_of-unset set_weight upd.weight w) (
        All-append IsPlain _ _ (clause_of-unset set_grade upd.grade g) (
          All-append IsPlain _ _ (clause_of-IsPlain set_status upd.status (λ n. tt))
            (clause_of-IsPlain _ upd.metadata (λ m. tt)))))

module _ {F : Type 0} (fl : Floats F) where
  -- What the columns keep of a clause has a property that they respect.
  module _ (P : Clause F → Type 0)
      (respects : (c d : Clause F) → P c → in_column fl c ≡ some d → P d) where
    both_some-All :
        (c : Option (Clause F)) (rest : Option (List (Clause F))) {stored : List (Clause F)}
        → ((d : Clause F) → c ≡ some d → P d)
        → ((ds : List (Clause F)) → rest ≡ some ds → All P ds)
        → both_some fl c rest ≡ some stored
        → All P stored
    both_some-All none rest hc hr h = absurd (cc h)
    both_some-All (some c) none hc hr h = absurd (cc h)
    both_some-All (some c) (some ds) {stored} hc hr h =
        let same : (c ∷ ds) ≡ stored = cc h in rw (← same) (hc c refl, hr ds refl)

    pub in_columns-All :
        (clauses : List (Clause F)) {stored : List (Clause F)}
        → All P clauses
        → in_columns fl clauses ≡ some stored
        → All P stored
    unfolding in_columns
    in_columns-All [] {stored} h e = let same : [] ≡ stored = cc e in rw (← same) tt
    in_columns-All (c ∷ clauses) h e =
        both_some-All (in_column fl c) (in_columns fl clauses) (λ d. respects c d h.0)
          (λ ds. in_columns-All clauses h.1) e

  in_column-IsPlain : (c d : Clause F) → IsPlain c → in_column fl c ≡ some d → IsPlain d
  in_column-IsPlain (set_value v) d h e = absurd h
  in_column-IsPlain (set_weight w) d h e = absurd h
  in_column-IsPlain (set_grade g) d h e = absurd h
  in_column-IsPlain (set_status n) d h e =
      let same : set_status n ≡ d = ground arith in rw (← same) tt
  in_column-IsPlain (set_metadata m) d h e = let same : set_metadata m ≡ d = cc e in rw (← same) tt

module _ {F : Type 0} (fl : Floats F) (uuid : UuidLib) (fail : Faults) (now id : ℕ) where
  abbrev alone : Database F → Database F
  alone db = db

  pub rewritten-select :
      (stored : List (Clause F)) (db : Database F) (old : Score F)
      → select_row (is_score id) db.scores ≡ some old
      → select_row (is_score id) (updated fl uuid fail now id old stored db).scores
        ≡ some (rewritten now stored old)
  rewritten-select stored db old present =
      select_row-update_rows (is_score id) (rewritten now stored) db.scores
        (λ r. ap (λ n. eqb n id) (set_fields_keeps_id stored (record r { updated_at = now })))
      ∙ ap (map_some (rewritten now stored)) present

  -- Without interference, an update of a CONFIRMED score that succeeds leaves its value, its weight and
  -- its grade.
  pub confirmed_immutable :
      (upd : ScoreUpdate F) (db : Database F) {db' : Database F} (old : Score F)
      → select_row (is_score id) db.scores ≡ some old
      → old.status ≡ "CONFIRMED"
      → update_score fl uuid fail now alone id upd db ≡ (ok tt, db')
      → (new : Score F) × (select_row (is_score id) db'.scores ≡ some new) × SameFields new old
  confirmed_immutable upd db {db'} old present confirmed h =
      let (read, there, unlocked, valid, effect) =
        update_score-ok fl uuid fail now alone id upd db h in
      let same : read ≡ old = cc (there, present) in
      let kept : changes_fields fl uuid fail now upd ≡ false =
        and-right (read.status == "CONFIRMED") (changes_fields fl uuid fail now upd)
          (rw (ap (λ (r : Score F). r.status) same ∙ confirmed) refl) unlocked in
      let (vw, g) =
        or-false (is_set upd.score_value || is_set upd.weight) (is_set upd.grade) kept in
      let (v, w) = or-false (is_set upd.score_value) (is_set upd.weight) vw in
      elim effect [
        | inl unchanged ↦ (old, rw unchanged present, (refl, refl, refl))
        | inr (stored, fits, changed) ↦ (
          rewritten now stored old,
          rw changed (rewritten-select stored db old present),
          set_fields-plain stored (record old { updated_at = now })
              (in_columns-All fl IsPlain (in_column-IsPlain fl) (build_score_update_set upd)
                (build-IsPlain upd v w g) fits),
        )
      ]
