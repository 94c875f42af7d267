-- ===== src/Postgres.antt =====
-- The database behind the stores of apps/control-plane/internal/store: the tables of the migrations
-- .moai/db/schema/migrations/0004 to 0006, the records of store.go, and a transaction of pgx.
pub mod Tables
pub mod Steps
use iroum_ax.Prelude.{
  String, ℕ, Bool, true, false, Option, none, some, List, [], ◌∷◌, ◌++◌, if◌then◌else◌, ◌≡◌, refl,
}
use iroum_ax.Errors.{Error, Result, ok, err, wrap, both, sentinel, Sentinel, pg_error}
use iroum_ax.Audit.{Event}

-- A `float64` and what PostgreSQL makes of one: `decimal p s` is the value that a column
-- NUMERIC(p,s) keeps of it, none where it does not fit.
pub record Floats (F : Type 0) : Type 0 where
  pub is_nan : F → Bool
  pub is_inf : F → Bool
  -- `<` and `<=` of Go, false where an operand is NaN.
  pub lt : F → F → Bool
  pub le : F → F → Bool
  pub zero : F
  pub one : F
  pub add : F → F → F
  pub decimal : ℕ → ℕ → F → Option F

-- A `map[string]any` with the JSON text of each value, empty for nil.
abbrev pub Metadata : Type 0
Metadata = List (String × String)

-- `marshalScoreMetadata` and its copies: NULL for an empty map. Values that come out of JSON can be
-- marshalled.
unfoldable pub marshal_metadata : Metadata → Option Metadata
marshal_metadata [] = none
marshal_metadata (entry ∷ rest) = some (entry ∷ rest)

pub record Score (F : Type 0) : Type 0 where
  pub created_at : ℕ
  pub updated_at : ℕ
  pub metadata : Option Metadata
  pub evidence_id : Option ℕ
  pub score_value : Option F
  pub weight : Option F
  pub evaluation_item_id : String
  pub level : String
  pub grade : Option String
  pub status : String
  pub created_by : String
  pub id : ℕ

-- A row of grade_thresholds.
pub record GradeThreshold (F : Type 0) : Type 0 where
  pub scope : String
  pub letter : String
  pub boundary_rule : String
  pub min_value : F

pub record ScoreReviewRequest : Type 0 where
  pub metadata : Option Metadata
  pub created_at : ℕ
  pub updated_at : ℕ
  pub assigned_reviewer_id : Option String
  pub rejection_reason : Option String
  pub comment : Option String
  pub status : String
  pub created_by : String
  pub updated_by : String
  pub id : ℕ
  pub score_id : ℕ

pub record Rubric : Type 0 where
  pub metadata : Option Metadata
  pub created_at : ℕ
  pub updated_at : ℕ
  pub name : String
  pub scope : Option String
  pub status : String
  pub archive_reason : Option String
  pub created_by : String
  pub updated_by : String
  pub version : ℕ
  pub id : ℕ

pub record RubricCriterion (F : Type 0) : Type 0 where
  pub created_at : ℕ
  pub evaluation_item_id : ℕ
  pub id : ℕ
  pub rubric_id : ℕ
  pub weight : F

pub record RubricBand (F : Type 0) : Type 0 where
  pub created_at : ℕ
  pub letter : String
  pub id : ℕ
  pub rubric_id : ℕ
  pub min_score : F
  pub max_score : F

pub record Database (F : Type 0) : Type 0 where
  -- The identifiers of the rows of evaluation_items.
  pub evaluation_items : List String
  pub scores : List (Score F)
  pub grade_thresholds : List (GradeThreshold F)
  pub reviews : List ScoreReviewRequest
  pub rubrics : List Rubric
  pub criteria : List (RubricCriterion F)
  pub bands : List (RubricBand F)
  pub audit_logs : List Event

-- The calls of pgx that a request makes, by what they are for. A function from these to errors says
-- which of them fail, for a reason of the connection, of the server or of a column's type.
pub data Call : Type 0 where
  begin_score begin_review begin_rubric begin_eval_item : Call
  select_score select_review select_rubric select_eval_item lock_status fetch_score_id : Call
  insert_row update_row supersede_row : Call
  audit_call second_audit_call : Call
  list_rows count_all sum_rows select_thresholds select_criteria select_bands : Call
  commit_tx : Call

abbrev pub Faults : Type 0
Faults = Call → Option Error

abbrev pub IsFaultless : Faults → Type 0
IsFaultless fail = (call : Call) → fail call ≡ none

-- A method of a transaction on the tables as the transaction sees them.
abbrev pub M : Type 0 → Type 0 → Type 0
M S A = S → Result A × S

abbrev pub continue : {S A B : Type 0} → Result A × S → (A → M S B) → Result B × S
continue (ok a, s) next = next a s
continue (err e, s) next = (err e, s)

infixl 5 ◌>>=◌ ◌>>◌
abbrev pub ◌>>=◌ : {S A B : Type 0} → M S A → (A → M S B) → M S B
◌>>=◌ step next s = continue (step s) next

abbrev pub ◌>>◌ : {S B : Type 0} → M S (Unit {0}) → M S B → M S B
◌>>◌ step next s = continue (step s) (λ _. next)

abbrev pub give : {S A : Type 0} → A → M S A
give a s = (ok a, s)

abbrev pub refuse : {S A : Type 0} → Error → M S A
refuse e s = (err e, s)

-- `if test { return e }`.
abbrev pub refuse_if : {S : Type 0} → Bool → Error → M S (Unit {0})
refuse_if true e s = (err e, s)
refuse_if false e s = (ok tt, s)

-- `if err := check; err != nil { return err }` for a check that reads no table.
abbrev pub checked : {S A : Type 0} → Result A → M S A
checked r s = (r, s)

-- A call of pgx: it fails, or the statement is run.
abbrev pub statement : {S A : Type 0} → Option Error → M S A → M S A
statement none step s = step s
statement (some e) step s = (err e, s)

abbrev pub relabelled : {S A : Type 0} → (Error → Error) → Result A × S → Result A × S
relabelled f (ok a, s) = (ok a, s)
relabelled f (err e, s) = (err (f e), s)

-- `fmt.Errorf("message: %w", err)` on an error of the step.
abbrev pub failing : {S A : Type 0} → String → M S A → M S A
failing message step s = relabelled (wrap message) (step s)

-- `fmt.Errorf("message: %w: %w", sentinel, err)`.
abbrev pub failing_as : {S A : Type 0} → String → Sentinel → M S A → M S A
failing_as message kind step s = relabelled (λ e. wrap message (both (sentinel kind) e)) (step s)

-- A row that may be missing: `pgx.ErrNoRows` becomes the error.
abbrev pub found_or : {S A : Type 0} → Error → Option A → M S A
found_or e none s = (err e, s)
found_or e (some a) s = (ok a, s)

-- The error of a statement that breaks a constraint of the schema, by its SQLSTATE.
abbrev pub constraint_violation : String → Error
constraint_violation code = pg_error code

-- `InsertAuditLog` of the three stores, which differ in the message. The identifier of the audit row
-- is fresh and occurs nowhere else, so it is left out.
abbrev pub insert_audit : {F : Type 0} → String → Option Error → Event → M (Database F) (Unit {0})
insert_audit message fault e =
    failing message
      (statement fault (λ db. (ok tt, record db { audit_logs = db.audit_logs ++ e ∷ [] })))
