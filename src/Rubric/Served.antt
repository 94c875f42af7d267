-- ===== src/Rubric/Served.antt =====
-- The ways in which the requests of cmd/server/rubric_handlers.go change the tables.
use iroum_ax.Prelude.{
  String, ℕ, true, false, ◌&&◌, Option, none, ◌≡◌, refl, ap, ◌⊎◌, inl, inr, ◌==◌,
}
use iroum_ax.Prelude.Text.{trim_space}
use iroum_ax.Errors.{Result, ok}
use iroum_ax.Audit.{Event}
use iroum_ax.Audit.Uuid.{UuidLib}
use iroum_ax.Postgres.{Rubric, RubricCriterion, RubricBand, Database, Floats, Faults, Metadata}
use iroum_ax.Server.{Reply, IsRefused, resolve_created_by}
use iroum_ax.Rubric.Rules.{
  status_archived, effective_status, validate_rubric_status_transition, set_rubric, set_archived,
}
use iroum_ax.Rubric.Steps.{with_event, with_rubric, insert_rubric-ok}
use iroum_ax.Rubric.Additions.{IsFree, add_criterion-ok, add_band-ok}
use iroum_ax.Rubric.Changes.{
  IsOpen, rubrics_set, with_criterion, with_band, update_rubric-ok, archive_rubric-ok,
}
use iroum_ax.Rubric.Bodies.{RubricReply}
use iroum_ax.Rubric.Answers.{IsInserted}
use iroum_ax.Rubric.Requests.{
  RubricRequest, create_rubric, get_rubric, find_rubrics, change_rubric, archive, add_weight,
  add_range, apply, clone, serve_rubric,
}
use iroum_ax.Rubric.Results.{IsResult, serve_rubric-IsResult}

-- The ways to change the tables. Each but the first logs one event.
pub data RubricStep {F : Type 0} (fl : Floats F) (uuid : UuidLib) (db u : Database F) : Type 0 where
  looked : u ≡ db → RubricStep fl uuid db u
  made :
      (row : Rubric) (e : Event)
      → row.status ≡ "draft"
      → with_event e (with_rubric fl uuid (λ call. none) 0 row db) ≡ u
      → RubricStep fl uuid db u
  edited :
      (now id : ℕ) (row : Rubric) (name asked status actor : String) (scope : Option String)
      (metadata : Option Metadata) (e : Event)
      → IsOpen id row db
      → effective_status row.status asked ≡ ok status
      → with_event e (rubrics_set id (set_rubric now name scope status metadata actor) db) ≡ u
      → RubricStep fl uuid db u
  archived :
      (now id : ℕ) (row : Rubric) (reason actor : String) (e : Event)
      → (trim_space reason == "") ≡ false
      → IsOpen id row db
      → validate_rubric_status_transition row.status status_archived ≡ ok tt
      → with_event e (rubrics_set id (set_archived now reason actor) db) ≡ u
      → RubricStep fl uuid db u
  weighed :
      (id : ℕ) (row : Rubric) (c : RubricCriterion F) (e : Event)
      → IsOpen id row db
      → c.rubric_id ≡ id
      → (fl.le fl.zero c.weight && fl.le c.weight fl.one) ≡ true
      → with_event e (with_criterion c db) ≡ u
      → RubricStep fl uuid db u
  banded :
      (id : ℕ) (row : Rubric) (b : RubricBand F) (e : Event)
      → IsOpen id row db
      → b.rubric_id ≡ id
      → fl.lt b.min_score b.max_score ≡ true
      → IsFree fl uuid (λ call. none) 0 id b.min_score b.max_score db
      → with_event e (with_band b db) ≡ u
      → RubricStep fl uuid db u

module _ {F : Type 0} (fl : Floats F) (uuid : UuidLib) (db : Database F) where
  -- Refused with the tables as they were, or a step.
  abbrev pub IsAnswered : Reply (RubricReply F) × Database F → Type 0
  IsAnswered outcome = (IsRefused outcome.0 × (outcome.1 ≡ db)) ⊎ RubricStep fl uuid db outcome.1

module _ {F : Type 0} (fl : Floats F) (uuid : UuidLib)
    (sum_weighted : String → Database F → Result (Option F)) (fail : Faults) (now : ℕ)
    (db : Database F) where
  inserted-Step :
      (id : ℕ) (name scope : String) (metadata : Metadata) (source : Option String) (actor : String)
      (outcome : Reply (RubricReply F) × Database F)
      → IsInserted fl uuid fail now db id name scope metadata source actor outcome
      → RubricStep fl uuid db outcome.1
  inserted-Step id name scope metadata source actor outcome (n, u, inserted, same) =
      rw same
        (made _ _ refl (insert_rubric-ok fl uuid fail now id name scope metadata actor db inserted))

  kept-Step :
      (reply : Reply (RubricReply F)) (outcome : Reply (RubricReply F) × Database F)
      → outcome ≡ (reply, db)
      → RubricStep fl uuid db outcome.1
  kept-Step reply outcome same = looked (ap (λ (o : Reply (RubricReply F) × Database F). o.1) same)

  result-Step :
      (r : RubricRequest F) (outcome : Reply (RubricReply F) × Database F)
      → IsResult fl uuid sum_weighted fail now db r outcome
      → RubricStep fl uuid db outcome.1
  result-Step (create_rubric id user body) outcome (through, b, given, named, inserted) =
      inserted-Step id b.name b.scope b.metadata none (resolve_created_by user) outcome inserted
  result-Step (get_rubric raw_id) outcome
        (id, parsed, (r, got, criteria, weights, bands, ranges, same)) =
      kept-Step _ outcome same
  result-Step (find_rubrics status scope limit offset) outcome
        (items, u, listed, total, v, counted, same) =
      kept-Step _ outcome same
  result-Step (change_rubric user raw_id body) outcome
        (through, id, parsed, b, given, (cur, got, may, u, updated, (r, read, same))) =
      let (row, status, is_open, allowed, effect) =
        update_rubric-ok fl uuid fail now id b.name b.scope b.status b.metadata
          (resolve_created_by user) db updated in
      rw same (edited now id row b.name b.status status _ _ _ _ is_open allowed effect)
  result-Step (archive user raw_id body) outcome
        (through, id, parsed, reason, given, nonblank, (u, moved, (r, read, same))) =
      let (row, again, is_open, allowed, effect) =
        archive_rubric-ok fl uuid fail now id reason (resolve_created_by user) db moved in
      rw same (archived now id row reason _ _ nonblank is_open allowed effect)
  result-Step (add_weight new_id user raw_id body) outcome
        (
          through,
          id,
          parsed,
          b,
          given,
          (item, referred, not_nil, found, (existing, got, fits, (n, u, added, same))),
        ) =
      let (row, w, is_open, within, bounded, effect) =
        add_criterion-ok fl uuid fail now new_id id item b.weight (resolve_created_by user) db
          added in
      rw same (weighed id row _ _ is_open refl bounded effect)
  result-Step (add_range new_id user raw_id body) outcome
        (through, id, parsed, b, given, lettered, (existing, got, apart, (n, u, added, same))) =
      let (row, low, high, is_open, fits_low, fits_high, ordered, free, effect) =
        add_band-ok fl uuid fail now new_id id b.letter b.min_score b.max_score
          (resolve_created_by user) db added in
      rw same (banded id row _ _ is_open refl ordered free effect)
  result-Step (apply raw_id body) outcome
        (
          id,
          parsed,
          raw_score,
          given,
          (score_id, referred, not_nil, score, found, value, summed, (band, u, got, same)),
        ) =
      kept-Step _ outcome same
  result-Step (clone new_id user raw_id) outcome (through, id, parsed, (src, got, free, inserted)) =
      inserted-Step new_id src.name _ _ _ (resolve_created_by user) outcome inserted

  -- The tables alone: as they were behind a refusal, or what a step leaves.
  pub serve_rubric-IsAnswered :
      (r : RubricRequest F)
      → IsAnswered fl uuid db (serve_rubric fl uuid sum_weighted fail now r db)
  serve_rubric-IsAnswered r = elim (serve_rubric-IsResult fl uuid sum_weighted fail now db r) [
    | inl refused ↦ inl refused
    | inr result ↦ inr (result-Step r (serve_rubric fl uuid sum_weighted fail now r db) result)
  ]
