-- ===== src/Score/Rules.antt =====
-- The rules of internal/store/score.go: the checks of the arguments, the states and the clauses of an
-- update.
use iroum_ax.Prelude.{
  String, ℕ, Bool, false, ◌||◌, Option, none, some, List, [], ◌∷◌, ◌++◌, if◌then◌else◌, ◌==◌,
  lookup, ltb,
}
use iroum_ax.Prelude.Text.{trim_space, byte_length, eqb}
use iroum_ax.Errors.{
  Error, Result, ok, err, wrap, sentinel, score_not_found, score_invalid_input,
  score_invalid_status,
}
use iroum_ax.Audit.{Recorder}
use iroum_ax.Postgres.{Score, Floats, Metadata, marshal_metadata}
use iroum_ax.Postgres.Tables.{any_row}

abbrev pub is_in : List String → String → Bool
is_in names s = any_row (λ n. n == s) names

abbrev pub max_score_eval_item_id_len : ℕ
max_score_eval_item_id_len = 64

abbrev pub allowed_score_level : List String
allowed_score_level = "raw" ∷ "item" ∷ "category" ∷ []

abbrev pub allowed_score_status : List String
allowed_score_status = "DRAFT" ∷ "CONFIRMED" ∷ "SUPERSEDED" ∷ []

unfoldable pub allowed_score_transitions : List (String × List String)
allowed_score_transitions =
    ("DRAFT", "CONFIRMED" ∷ "SUPERSEDED" ∷ [])
    ∷ ("CONFIRMED", "SUPERSEDED" ∷ [])
    ∷ ("SUPERSEDED", [])
    ∷ []

-- The look-up in an inner map, which a state without one has not.
abbrev pub has_target : String → Option (List String) → Bool
has_target next none = false
has_target next (some targets) = is_in targets next

unfoldable pub validate_score_status_transition : String → String → Result (Unit {0})
unfolding allowed_score_transitions lookup any_row
validate_score_status_transition current next =
    if is_in allowed_score_status next
    then (if has_target next (lookup current allowed_score_transitions)
        then ok tt
        else err (wrap "status 전이 허용되지 않음" (sentinel score_invalid_status)))
    else err (wrap "status 허용 외 값" (sentinel score_invalid_status))

-- `audit.NewRecorder(false)` of `BeginScoreTx`.
abbrev pub score_recorder : Recorder
score_recorder = record { auth_enabled = false }

abbrev pub score_missing : Error
score_missing = wrap "score" (sentinel score_not_found)

-- A non-nil field is to be written.
pub record ScoreUpdate (F : Type 0) : Type 0 where
  pub score_value : Option F
  pub weight : Option F
  pub grade : Option String
  pub status : Option String
  pub metadata : Option Metadata

-- A clause of SET with the value that is bound to it.
pub data Clause (F : Type 0) : Type 0 where
  set_value set_weight : F → Clause F
  set_grade set_status : String → Clause F
  set_metadata : Option Metadata → Clause F

module _ {F : Type 0} where
  abbrev pub is_score : ℕ → Score F → Bool
  is_score id s = eqb s.id id

  abbrev pub is_confirmed : ℕ → Score F → Bool
  is_confirmed id s = if eqb s.id id then s.status == "CONFIRMED" else false

  abbrev pub clause_of : {A : Type 0} → (A → Clause F) → Option A → List (Clause F)
  clause_of set none = []
  clause_of set (some a) = set a ∷ []

  unfoldable pub build_score_update_set : ScoreUpdate F → List (Clause F)
  unfolding marshal_metadata
  build_score_update_set upd =
      clause_of set_value upd.score_value
      ++ (clause_of set_weight upd.weight
          ++ (clause_of set_grade upd.grade
              ++ (clause_of set_status upd.status
                  ++ clause_of (λ m. set_metadata (marshal_metadata m)) upd.metadata)))

  -- The rows' fields behind the clauses.
  abbrev pub set_field : Clause F → Score F → Score F
  set_field (set_value v) s = record s { score_value = some v }
  set_field (set_weight w) s = record s { weight = some w }
  set_field (set_grade g) s = record s { grade = some g }
  set_field (set_status n) s = record s { status = n }
  set_field (set_metadata m) s = record s { metadata = m }

  unfoldable pub set_fields : List (Clause F) → Score F → Score F
  set_fields [] s = s
  set_fields (c ∷ clauses) s = set_fields clauses (set_field c s)

abbrev pub stored_as : {A B : Type 0} → (A → B) → Option A → Option B
stored_as f none = none
stored_as f (some a) = some (f a)

module _ {F : Type 0} (fl : Floats F) where
  unfoldable pub validate_score_input : String → String → F → Result (Unit {0})
  unfolding trim_space byte_length any_row
  validate_score_input item level value =
      if trim_space item == ""
      then err (wrap "evaluation_item_id가 비어 있음" (sentinel score_invalid_input))
      else if ltb max_score_eval_item_id_len (byte_length item)
      then err (wrap "evaluation_item_id가 초과함" (sentinel score_invalid_input))
      else if is_in allowed_score_level level
      then (if fl.is_nan value || fl.is_inf value
          then err (wrap "score_value가 비수치(NaN/Inf)임" (sentinel score_invalid_input))
          else ok tt)
      else err (wrap "level 허용 외 값 (raw|item|category)" (sentinel score_invalid_input))

  -- The value that the column keeps, none where the column's type or its CHECK refuses it.
  abbrev pub in_column : Clause F → Option (Clause F)
  in_column (set_value v) = stored_as set_value (fl.decimal 6 2 v)
  in_column (set_weight w) = stored_as set_weight (fl.decimal 5 4 w)
  in_column (set_grade g) =
      if is_in ("S" ∷ "A" ∷ "B" ∷ "C" ∷ "D" ∷ []) g then some (set_grade g) else none
  in_column (set_status n) = if is_in allowed_score_status n then some (set_status n) else none
  in_column (set_metadata m) = some (set_metadata m)

  abbrev pub both_some : {A : Type 0} → Option A → Option (List A) → Option (List A)
  both_some (some a) (some rest) = some (a ∷ rest)
  both_some _ _ = none

  unfoldable pub in_columns : List (Clause F) → Option (List (Clause F))
  unfolding any_row
  in_columns [] = some []
  in_columns (c ∷ clauses) = both_some (in_column c) (in_columns clauses)

  abbrev pub weight_in_column : Option F → Option (Option F)
  weight_in_column none = some none
  weight_in_column (some w) = stored_as some (fl.decimal 5 4 w)
