-- ===== src/Rubric/Bodies.antt =====
-- cmd/server/rubric_handlers.go: the bodies of requests and replies, the replies to errors, and the
-- checks before a handler. A body is none where the decoder refuses it; times are kept as numbers.
use iroum_ax.Prelude.{
  String, ℕ, Bool, true, false, ◌||◌, Option, none, some, List, [], if◌then◌else◌, ◌==◌,
}
use iroum_ax.Prelude.Text.{eqb}
use iroum_ax.Errors.{
  Error, Result, ok, err, errors_is, sqlstate, rubric_not_found, eval_item_not_found,
  score_not_found, rubric_invalid_input, rubric_weight_out_of_bounds, rubric_band_overlap,
  rubric_invalid_status, rubric_archived_error,
}
use iroum_ax.Audit.Uuid.{UuidLib}
use iroum_ax.Postgres.{Rubric, RubricCriterion, RubricBand, Metadata}
use iroum_ax.Server.{Reply, refusal, invalid_argument, Body}

pub record RubricCreateBody : Type 0 where
  pub metadata : Metadata
  pub name : String
  pub scope : String

pub record RubricUpdateBody : Type 0 where
  pub metadata : Metadata
  pub name : String
  pub scope : String
  pub status : String

pub record RubricCriterionBody (F : Type 0) : Type 0 where
  pub evaluation_item_id : String
  pub weight : F

pub record RubricBandBody (F : Type 0) : Type 0 where
  pub letter : String
  pub min_score : F
  pub max_score : F

pub record CriterionJson (F : Type 0) : Type 0 where
  pub id : String
  pub rubric_id : String
  pub evaluation_item_id : String
  pub created_at : ℕ
  pub weight : F

pub record BandJson (F : Type 0) : Type 0 where
  pub id : String
  pub rubric_id : String
  pub letter : String
  pub created_at : ℕ
  pub min_score : F
  pub max_score : F

pub record RubricResponse (F : Type 0) : Type 0 where
  pub metadata : Option Metadata
  pub id : String
  pub name : String
  pub scope : String
  pub status : String
  pub archive_reason : String
  pub created_at : ℕ
  pub created_by : String
  pub updated_at : ℕ
  pub updated_by : String
  pub criteria : List (CriterionJson F)
  pub bands : List (BandJson F)
  pub version : ℕ

pub data RubricReply (F : Type 0) : Type 0 where
  rubric : RubricResponse F → RubricReply F
  rubrics : List (RubricResponse F) → (total : ℕ) → RubricReply F
  rubric_made :
      (id name scope status : String)
      → (version : ℕ) → (source_id : Option String) → (created_by updated_by : String)
      → RubricReply F
  criterion_made : (id rubric_id item_id : String) → (weight : F) → RubricReply F
  band_made : (id rubric_id letter : String) → (min_score max_score : F) → RubricReply F
  applied :
      (rubric_id score_id : String) → (value : F) → (letter : String) → BandJson F → RubricReply F

abbrev pub empty_or : Option String → String
empty_or none = ""
empty_or (some s) = s

abbrev pub no_metadata_or : Option Metadata → Metadata
no_metadata_or none = []
no_metadata_or (some m) = m

unfoldable pub to_rubric_response : {F : Type 0} → UuidLib → Rubric → RubricResponse F
to_rubric_response uuid r = record {
  metadata = r.metadata;
  id = uuid.format r.id;
  name = r.name;
  scope = empty_or r.scope;
  status = r.status;
  archive_reason = empty_or r.archive_reason;
  created_at = r.created_at;
  created_by = r.created_by;
  updated_at = r.updated_at;
  updated_by = r.updated_by;
  criteria = [];
  bands = [];
  version = r.version;
}

unfoldable pub to_criterion_json : {F : Type 0} → UuidLib → RubricCriterion F → CriterionJson F
to_criterion_json uuid c = record {
  id = uuid.format c.id;
  rubric_id = uuid.format c.rubric_id;
  evaluation_item_id = uuid.format c.evaluation_item_id;
  created_at = c.created_at;
  weight = c.weight;
}

unfoldable pub to_band_json : {F : Type 0} → UuidLib → RubricBand F → BandJson F
to_band_json uuid b = record {
  id = uuid.format b.id;
  rubric_id = uuid.format b.rubric_id;
  letter = b.letter;
  created_at = b.created_at;
  min_score = b.min_score;
  max_score = b.max_score;
}

abbrev pub band_overlap_refusal : ℕ × String × String
band_overlap_refusal = (400, "INVALID_ARGUMENT", "등급 구간이 기존 구간과 겹칩니다")

abbrev pub active_refusal : ℕ × String × String
active_refusal = (409, "CONFLICT", "동일 name/scope의 active rubric이 이미 존재합니다")

-- The two SQLSTATEs, before the sentinels.
abbrev pub of_sqlstate : Option String → Option (ℕ × String × String)
of_sqlstate none = none
of_sqlstate (some code) =
    if code == "23505"
    then some active_refusal
    else if code == "23P01"
    then some band_overlap_refusal
    else none

abbrev pub or_mapped : Option (ℕ × String × String) → ℕ × String × String → ℕ × String × String
or_mapped none rest = rest
or_mapped (some mapped) rest = mapped

unfoldable pub map_rubric_store_err : Error → ℕ × String × String
unfolding errors_is sqlstate
map_rubric_store_err e = or_mapped (of_sqlstate (sqlstate e)) (
    if errors_is e rubric_not_found
    then (404, "NOT_FOUND", "요청한 등급 rubric을 찾을 수 없습니다")
    else if errors_is e eval_item_not_found
    then (404, "NOT_FOUND", "참조한 평가항목을 찾을 수 없습니다")
    else if errors_is e score_not_found
    then (404, "NOT_FOUND", "적용 대상 점수를 찾을 수 없습니다")
    else if errors_is e rubric_invalid_input || errors_is e rubric_weight_out_of_bounds
    then (400, "INVALID_ARGUMENT", "rubric 입력이 유효하지 않습니다")
    else if errors_is e rubric_band_overlap
    then band_overlap_refusal
    else if errors_is e rubric_invalid_status
    then (409, "CONFLICT", "허용되지 않은 rubric 상태 전이입니다")
    else if errors_is e rubric_archived_error
    then (409, "CONFLICT", "archived rubric은 수정할 수 없습니다")
    else (500, "INTERNAL", "rubric 처리 중 오류가 발생했습니다"))

abbrev pub write_rubric_store_err : {B : Type 0} → Error → Reply B
write_rubric_store_err e =
    let mapped = map_rubric_store_err e in refusal mapped.0 mapped.1 mapped.2 ""

-- `parseRubricID` and the decoder of the body, before a handler.
abbrev pub with_rubric_id : {S B : Type 0} → (ℕ → S → Reply B × S) → Option ℕ → S → Reply B × S
with_rubric_id next none s = (invalid_argument "유효하지 않은 rubric ID 형식입니다" "id", s)
with_rubric_id next (some id) s = next id s

abbrev pub with_rubric_body : {S A B : Type 0} → (A → S → Reply B × S) → Option A → S → Reply B × S
with_rubric_body next none s = (invalid_argument "요청 본문 JSON 파싱에 실패했습니다" "", s)
with_rubric_body next (some body) s = next body s

-- An identifier in a body, which must not be `uuid.Nil`.
abbrev pub with_reference :
    {S B : Type 0} → (message field : String) → (ℕ → S → Reply B × S) → Option ℕ → S → Reply B × S
with_reference message field next none s = (invalid_argument message field, s)
with_reference message field next (some id) s =
    if eqb id 0 then (invalid_argument message field, s) else next id s

-- `if test { write the refusal; return }`.
abbrev pub unless : {S B : Type 0} → Bool → Reply B → Body S B → Body S B
unless true refused next s = (refused, none)
unless false refused next s = next s

-- A step of another transaction that is only read: its error is the reply, its value is used.
abbrev pub looked_up :
    {S A B : Type 0} → (Error → Reply B) → (A → S → Reply B × S) → S → Result A → Reply B × S
looked_up refuse next s (ok a) = next a s
looked_up refuse next s (err e) = (refuse e, s)

abbrev pub unless_begun :
    {S B : Type 0} → Option Error → Reply B → (S → Reply B × S) → S → Reply B × S
unless_begun none refused next s = next s
unless_begun (some e) refused next s = (refused, s)
