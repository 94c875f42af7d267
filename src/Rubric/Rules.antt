-- ===== src/Rubric/Rules.antt =====
-- The rules of internal/store/rubric.go: the states, the checks of the arguments, and the rows that
-- the statements write under the constraints of .moai/db/schema/migrations/0006_rubric_tables.sql.
use iroum_ax.Prelude.{
  String, ℕ, Bool, true, false, not, ◌&&◌, ◌||◌, Option, none, some, List, [], ◌∷◌, if◌then◌else◌,
  ◌==◌, lookup, ltb,
}
use iroum_ax.Prelude.Text.{trim_space, byte_length, eqb}
use iroum_ax.Errors.{
  Error, Result, ok, err, wrap, sentinel, rubric_not_found, rubric_invalid_input,
  rubric_invalid_status, rubric_weight_out_of_bounds,
}
use iroum_ax.Audit.{Recorder}
use iroum_ax.Postgres.{Rubric, RubricCriterion, RubricBand, Floats, Metadata}
use iroum_ax.Postgres.Tables.{any_row}

abbrev pub status_draft : String
status_draft = "draft"

abbrev pub status_active : String
status_active = "active"

abbrev pub status_archived : String
status_archived = "archived"

abbrev pub max_rubric_name_len : ℕ
max_rubric_name_len = 64

-- The keys of an inner map stand in its list.
unfoldable pub allowed_rubric_transitions : List (String × List String)
allowed_rubric_transitions =
    (status_draft, status_active ∷ [])
    ∷ (status_active, status_archived ∷ [])
    ∷ (status_archived, [])
    ∷ []

unfoldable pub validate_rubric_input : String → Result (Unit {0})
unfolding trim_space byte_length
validate_rubric_input name =
    if trim_space name == ""
    then err (wrap "name이 비어 있음" (sentinel rubric_invalid_input))
    else if ltb max_rubric_name_len (byte_length name)
    then err (wrap "name이 초과함" (sentinel rubric_invalid_input))
    else ok tt

abbrev pub rubric_target : String → Option (List String) → Result (Unit {0})
rubric_target next none = err (wrap "허용 외 현재 상태" (sentinel rubric_invalid_status))
rubric_target next (some targets) =
    if any_row (λ k. k == next) targets
    then ok tt
    else err (wrap "status 전이 허용되지 않음" (sentinel rubric_invalid_status))

unfoldable pub validate_rubric_status_transition : String → String → Result (Unit {0})
unfolding allowed_rubric_transitions lookup any_row
validate_rubric_status_transition current next =
    rubric_target next (lookup current allowed_rubric_transitions)

abbrev pub as_status : String → Result (Unit {0}) → Result String
as_status status (ok done) = ok status
as_status status (err e) = err e

-- The status that UpdateRubric writes: the current one, or a new one that the transitions allow.
unfoldable pub effective_status : String → String → Result String
unfolding trim_space validate_rubric_status_transition
effective_status current new_status =
    if trim_space new_status == "" || new_status == current
    then ok current
    else as_status new_status (validate_rubric_status_transition current new_status)

-- `audit.NewRecorder(true)` of `BeginRubricTx`.
abbrev pub rubric_recorder : Recorder
rubric_recorder = record { auth_enabled = true }

abbrev pub is_rubric : ℕ → Rubric → Bool
is_rubric id r = eqb r.id id

abbrev pub rubric_missing : Error
rubric_missing = wrap "rubric" (sentinel rubric_not_found)

-- `status = $1`, or no condition for a blank filter, and the same for the scope.
abbrev pub meets_filter : String → Option String → Bool
meets_filter filter none = trim_space filter == ""
meets_filter filter (some text) = if trim_space filter == "" then true else text == filter

abbrev pub is_listed : String → String → Rubric → Bool
is_listed status scope r = meets_filter status (some (r.status)) && meets_filter scope r.scope

abbrev pub rubric_time : Rubric → ℕ
rubric_time r = r.created_at

module _ (now : ℕ) where
  -- The rows of the statements.
  abbrev pub new_rubric : ℕ → String → Option String → Option Metadata → String → Rubric
  new_rubric id name scope metadata actor = record {
    metadata = metadata;
    created_at = now;
    updated_at = now;
    name = name;
    scope = scope;
    status = "draft";
    archive_reason = none;
    created_by = actor;
    updated_by = actor;
    version = 1;
    id = id;
  }

  abbrev pub set_rubric :
      String → Option String → String → Option Metadata → String → Rubric → Rubric
  set_rubric name scope status metadata actor r = record r {
    name = name;
    scope = scope;
    status = status;
    metadata = metadata;
    updated_at = now;
    updated_by = actor;
  }

  abbrev pub set_archived : String → String → Rubric → Rubric
  set_archived reason actor r = record r {
    status = status_archived;
    archive_reason = some reason;
    updated_at = now;
    updated_by = actor;
  }

abbrev pub same_scope : Option String → Option String → Bool
same_scope none other = false
same_scope (some s) none = false
same_scope (some s) (some t) = s == t

abbrev pub is_empty : Option String → Bool
is_empty none = true
is_empty (some s) = s == ""

-- A row that rubrics_active_unique_idx does not allow beside another one.
abbrev pub clashes : ℕ → String → Option String → Rubric → Bool
clashes id name scope r =
    not (eqb r.id id) && (r.status == status_active && (r.name == name && same_scope r.scope scope))

-- A row of the rubric that has no reason for its archiving, or an empty one.
abbrev pub is_unreasoned : ℕ → Rubric → Bool
is_unreasoned id r = eqb r.id id && is_empty r.archive_reason

module _ {F : Type 0} where
  abbrev pub of_rubric : ℕ → RubricCriterion F → Bool
  of_rubric id c = eqb c.rubric_id id

  abbrev pub is_band_of : ℕ → RubricBand F → Bool
  is_band_of id b = eqb b.rubric_id id

module _ {F : Type 0} (fl : Floats F) where
  unfoldable pub validate_criterion_input : F → Result (Unit {0})
  validate_criterion_input weight =
      if fl.lt weight fl.zero || fl.lt fl.one weight
      then err (wrap "weight 범위 0.0-1.0 위반" (sentinel rubric_weight_out_of_bounds))
      else ok tt

  unfoldable pub validate_band_input : F → F → Result (Unit {0})
  validate_band_input min_score max_score =
      if fl.le max_score min_score
      then err (wrap "min_score >= max_score 위반" (sentinel rubric_invalid_input))
      else ok tt

  -- Two closed ranges that meet.
  abbrev pub overlaps : F → F → RubricBand F → Bool
  overlaps min_score max_score b = fl.le min_score b.max_score && fl.le b.min_score max_score

  abbrev pub contains : F → RubricBand F → Bool
  contains value b = fl.le b.min_score value && fl.le value b.max_score
