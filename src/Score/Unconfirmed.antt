-- ===== src/Score/Unconfirmed.antt =====
-- Which states the scores of internal/store/score.go reach through cmd/server/score_handlers.go.
use iroum_ax.Prelude.{
  String, ℕ, false, Option, none, some, List, [], ◌∷◌, ◌++◌, ◌≡◌, refl, sym, ap, ◌∙◌, inl, inr,
  ◌==◌, All, All-append, Bool-cases, Option-cases,
}
use iroum_ax.Errors.{ok}
use iroum_ax.Audit.Uuid.{UuidLib}
use iroum_ax.Audit.Entities.{record_score_created}
use iroum_ax.Postgres.{
  Score, Database, Floats, Faults, Metadata, checked, failing_as, audit_call, begin_score,
  commit_tx,
}
use iroum_ax.Postgres.Tables.{All-update_rows, All-select_row}
use iroum_ax.Postgres.Steps.{continue-ok, relabelled-ok, written-ok}
use iroum_ax.Auth.Rbac.{User}
use iroum_ax.Server.{Reply, IsRefused, internal, guard_write}
use iroum_ax.Server.Transactions.{transaction-effect}
use iroum_ax.Score.Rules.{
  Clause, set_value, set_weight, set_grade, set_status, set_metadata, clause_of, is_score,
  build_score_update_set, set_fields, in_column, score_recorder, stored_as, is_in,
  validate_score_input,
}
use iroum_ax.Score.{
  new_score, insert_score, insert_score_row, score_log, supersede_and_replace_score,
}
use iroum_ax.Errors.{score_audit_write_failed}
use iroum_ax.Score.Updates.{rewritten, update_score-ok}
use iroum_ax.Score.Immutable.{in_columns-All}
use iroum_ax.Score.Replacement.{insert_score_row-ok}
use iroum_ax.Score.Corrections.{supersede-applied}
use iroum_ax.Score.Handlers.{
  ScoreBody, ScoreCreateBody, asked_update, alone, handle_supersede_score, supersede_in,
  write_store_err, score_replaced, given_or_nil,
}
use iroum_ax.Score.Results.{serve_score-IsServed}
use iroum_ax.Score.Requests.{
  ScoreRequest, serve_score, ScoreStep, looked, added, changed, corrected, IsServed,
}

abbrev pub IsUnconfirmed : {F : Type 0} → Score F → Type 0
IsUnconfirmed s = (s.status == "CONFIRMED") ≡ false

-- A clause that leaves the status alone.
abbrev pub KeepsStatus : {F : Type 0} → Clause F → Type 0
KeepsStatus (set_value v) = Unit
KeepsStatus (set_weight w) = Unit
KeepsStatus (set_grade g) = Unit
KeepsStatus (set_status n) = ⊥
KeepsStatus (set_metadata m) = Unit

module _ {F : Type 0} where
  pub set_fields-status :
      (clauses : List (Clause F)) (s : Score F)
      → All KeepsStatus clauses
      → (set_fields clauses s).status ≡ s.status
  unfolding set_fields
  set_fields-status [] s h = refl
  set_fields-status (set_value v ∷ clauses) s h = set_fields-status clauses _ h.1
  set_fields-status (set_weight w ∷ clauses) s h = set_fields-status clauses _ h.1
  set_fields-status (set_grade g ∷ clauses) s h = set_fields-status clauses _ h.1
  set_fields-status (set_status n ∷ clauses) s h = absurd h.0
  set_fields-status (set_metadata m ∷ clauses) s h = set_fields-status clauses _ h.1

  clause_of-keeps :
      {A : Type 0} (set : A → Clause F) (given : Option A)
      → ((a : A) → KeepsStatus (set a))
      → All KeepsStatus (clause_of set given)
  clause_of-keeps set none keeps = tt
  clause_of-keeps set (some a) keeps = (keeps a, tt)

stored_as-ok :
    {A B : Type 0} (f : A → B) (given : Option A) {b : B}
    → stored_as f given ≡ some b
    → (a : A) × (f a ≡ b)
stored_as-ok f none h = absurd (cc h)
stored_as-ok f (some a) h = (a, cc h)

module _ {F : Type 0} (fl : Floats F) where
  pub in_column-keeps : (c d : Clause F) → KeepsStatus c → in_column fl c ≡ some d → KeepsStatus d
  in_column-keeps (set_value v) d h e =
      let (a, same) = stored_as-ok set_value (fl.decimal 6 2 v) e in rw (← same) tt
  in_column-keeps (set_weight w) d h e =
      let (a, same) = stored_as-ok set_weight (fl.decimal 5 4 w) e in rw (← same) tt
  in_column-keeps (set_grade g) d h e =
      elim (Bool-cases (is_in ("S" ∷ "A" ∷ "B" ∷ "C" ∷ "D" ∷ []) g)) [
        | inl fits ↦
            let picked : some (set_grade g) ≡ some d = rw fits at e in
            let same : set_grade g ≡ d = cc picked in rw (← same) tt
        | inr other ↦ absurd (cc (rw other at e))
      ]
  in_column-keeps (set_status n) d h e = absurd h
  in_column-keeps (set_metadata m) d h e = let same : set_metadata m ≡ d = cc e in rw (← same) tt

module _ {F : Type 0} (fl : Floats F) (uuid : UuidLib) (fail : Faults) (now : ℕ) where
  pub asked-keeps :
      (b : ScoreCreateBody F)
      → All KeepsStatus (build_score_update_set (asked_update fl uuid fail now b))
  unfolding build_score_update_set
  asked-keeps b = All-append KeepsStatus _ _ (clause_of-keeps set_value b.score_value (λ v. tt)) (
      All-append KeepsStatus _ _ (clause_of-keeps set_weight b.weight (λ w. tt))
        (clause_of-keeps _ b.metadata (λ m. tt)))

  abbrev logged_created : ℕ → String → String → Database F → Database F
  logged_created id item level db = record db {
    audit_logs =
        db.audit_logs
        ++ record_score_created uuid score_recorder now (λ e. e) id item level "" ∷ [];
  }

  -- A creation that succeeds has added one row, a DRAFT.
  pub insert_score-ok :
      (id : ℕ) (item : String) (evidence : Option ℕ) (level : String) (value : F)
      (weight : Option F) (metadata : Metadata) (db : Database F) {new_id : ℕ} {db' : Database F}
      → insert_score fl uuid fail now id item evidence level value weight metadata db
        ≡ (ok new_id, db')
      → (d : F) × (dw : Option F) × (db'.scores
          ≡ db.scores
            ++ new_score fl uuid fail now id item evidence level d dw "DRAFT" metadata ∷ [])
  unfolding insert_score record_score_created
  insert_score-ok id item evidence level value weight metadata db h =
      let (x0, u0, valid, h0) =
        continue-ok (checked (validate_score_input fl item level value) db) _ h in
      let (n, u1, inserted, h1) =
        continue-ok
          (insert_score_row fl uuid fail now id item evidence level value weight "DRAFT" metadata
            u0)
          _ h0 in
      let (d, dw, fits, fits_weight, named, effect) =
        insert_score_row-ok fl uuid fail now id item evidence level value weight "DRAFT" metadata u0
          inserted in
      let (x, u2, logged, last) =
        continue-ok
          (failing_as "InsertScore audit 기록 실패" score_audit_write_failed
            (record_score_created uuid score_recorder now
              (score_log fl uuid fail now (fail audit_call)) n item level "")
            u1)
          _ h1 in
      let (unit, eff) =
        written-ok (fail audit_call) (logged_created n item level) tt u1
          (relabelled-ok _ _ (relabelled-ok _ _ logged)) in
      let same0 : u0.scores ≡ db.scores = ap (λ p. p.1.scores) (sym valid) in
      (
        d,
        dw,
        ap (λ p. p.1.scores) (sym last)
            ∙ ap (λ (u : Database F). u.scores) (sym eff)
            ∙ ap (λ (u : Database F). u.scores) effect
            ∙ ap
                (λ rows.
                  rows
                  ++ new_score fl uuid fail now id item evidence level d dw "DRAFT" metadata ∷ [])
                same0,
      )

  module _ (db db' : Database F) (clear : All IsUnconfirmed db.scores) where
    -- One step of a request leaves no score CONFIRMED where there was none.
    ScoreStep-IsUnconfirmed : ScoreStep fl uuid fail now db db' → All IsUnconfirmed db'.scores
    ScoreStep-IsUnconfirmed (looked same) = rw same clear
    ScoreStep-IsUnconfirmed (added id item evidence level value weight metadata new_id h) =
        let (d, dw, effect) = insert_score-ok id item evidence level value weight metadata db h in
        rw effect (All-append IsUnconfirmed _ _ clear (refl, tt))
    ScoreStep-IsUnconfirmed (changed id b h) =
        let (old, present, unlocked, valid, effect) =
          update_score-ok fl uuid fail now (alone fl uuid fail now) id
            (asked_update fl uuid fail now b) db h in
        elim effect [
          | inl same ↦ rw same clear
          | inr (stored, fits, effect) ↦
              let kept =
                in_columns-All fl KeepsStatus (in_column-keeps fl) _ (asked-keeps b) fits in
              rw effect (
                All-update_rows IsUnconfirmed (is_score id) (rewritten now stored) db.scores
                  (λ s free.
                    rw (set_fields-status stored (record s { updated_at = now }) kept) free)
                  clear)
        ]
    ScoreStep-IsUnconfirmed (corrected new_id old_id value weight metadata given h) =
        let (old, d, dw, present, was, fits, fits_weight, met, effect) =
          supersede-applied fl uuid fail now (alone fl uuid fail now) new_id old_id value weight
            metadata db h in
        let open_row = All-select_row IsUnconfirmed (is_score old_id) db.scores clear present in
        absurd (cc (was, open_row))

    correction_in-IsRefused :
        (new_id old_id : ℕ) (b : ScoreCreateBody F) (value : F)
        → let outcome = supersede_in fl uuid fail now new_id old_id b value db in
          IsRefused outcome.0 × (outcome.1 ≡ db)
    unfolding supersede_in
    correction_in-IsRefused new_id old_id b value =
        elim (transaction-effect {B = ScoreBody F} write_store_err (λ e. tt) (internal "트랜잭션 시작 실패")
          (internal "점수 정정 실패") tt tt
          (λ (id : ℕ). (201, score_replaced (uuid.format id) (uuid.format old_id))) db
          (fail begin_score) (fail commit_tx)
          (supersede_and_replace_score fl uuid fail now (alone fl uuid fail now) new_id old_id value
            b.weight (given_or_nil b.metadata))) [
              | inl refused ↦ refused
              | inr (given, u, made, same) ↦
                  let (old, d, dw, present, was, fits, fits_weight, met, done) =
                    supersede-applied fl uuid fail now (alone fl uuid fail now) new_id old_id value
                      b.weight (given_or_nil b.metadata) db made in
                  let open_row =
                    All-select_row IsUnconfirmed (is_score old_id) db.scores clear present in
                  absurd (cc (was, open_row))
            ]

    -- Where no score is CONFIRMED, every request for a correction is refused.
    correction-IsRefused :
        (new_id : ℕ) (user : Option User) (raw_id : String) (body : Option (ScoreCreateBody F))
        → let outcome = handle_supersede_score fl uuid fail now new_id user raw_id body db in
          IsRefused outcome.0 × (outcome.1 ≡ db)
    unfolding handle_supersede_score
    correction-IsRefused new_id user raw_id body = elim (Bool-cases (guard_write user)) [
      | inr closed ↦ rw closed (tt, refl)
      | inl through ↦ elim (Option-cases (uuid.parse raw_id)) [
        | inl bad ↦ rw (through, bad) (tt, refl)
        | inr (id, good) ↦ elim (Option-cases body) [
          | inl broken ↦ rw (through, good, broken) (tt, refl)
          | inr (b, read) ↦ elim (Option-cases b.score_value) [
            | inl absent ↦ rw (through, good, read, absent) (tt, refl)
            | inr (v, given) ↦
                rw (through, good, read, given) (correction_in-IsRefused new_id id b v)
          ]
        ]
      ]
    ]

-- A request with the faults and the time that it meets.
pub record ScoreArrival (F : Type 0) : Type 0 where
  pub request : ScoreRequest F
  pub fail : Faults
  pub now : ℕ

module _ {F : Type 0} (fl : Floats F) (uuid : UuidLib) (parse_float : String → Option F) where
  -- One request behind the other.
  unfoldable pub serve_scores : List (ScoreArrival F) → Database F → Database F
  unfolding serve_score
  serve_scores [] db = db
  serve_scores (a ∷ arrivals) db =
      serve_scores arrivals (serve_score fl uuid parse_float a.fail a.now a.request db).1

  served-IsUnconfirmed :
      (fail : Faults) (now : ℕ) (db : Database F) (outcome : Reply (ScoreBody F) × Database F)
      → All IsUnconfirmed db.scores
      → IsServed fl uuid fail now db outcome
      → All IsUnconfirmed outcome.1.scores
  served-IsUnconfirmed fail now db outcome clear (inl (refused, same)) = rw same clear
  served-IsUnconfirmed fail now db outcome clear (inr step) =
      ScoreStep-IsUnconfirmed fl uuid fail now db outcome.1 clear step

  -- Requests on scores, whatever they ask for and whatever faults they meet, make no score CONFIRMED
  -- where there was none.
  pub never_confirmed :
      (arrivals : List (ScoreArrival F)) (db : Database F)
      → All IsUnconfirmed db.scores
      → All IsUnconfirmed (serve_scores arrivals db).scores
  unfolding serve_scores
  never_confirmed [] db clear = clear
  never_confirmed (a ∷ arrivals) db clear =
      never_confirmed arrivals (serve_score fl uuid parse_float a.fail a.now a.request db).1 (
        served-IsUnconfirmed a.fail a.now db _ clear
          (serve_score-IsServed fl uuid parse_float a.fail a.now db a.request))

  -- Behind any requests on scores that start where no score is CONFIRMED, a request to correct a score
  -- is answered with an error and changes nothing.
  pub corrections_unreachable :
      (arrivals : List (ScoreArrival F)) (fail : Faults) (now new_id : ℕ) (user : Option User)
      (raw_id : String) (body : Option (ScoreCreateBody F)) (db : Database F)
      → All IsUnconfirmed db.scores
      → let db' = serve_scores arrivals db in
        let outcome = handle_supersede_score fl uuid fail now new_id user raw_id body db' in
        IsRefused outcome.0 × (outcome.1 ≡ db')
  corrections_unreachable arrivals fail now new_id user raw_id body db clear =
      correction-IsRefused fl uuid fail now (serve_scores arrivals db) (serve_scores arrivals db)
        (never_confirmed arrivals db clear) new_id user raw_id body
