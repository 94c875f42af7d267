-- ===== src/Tests/Tables.antt =====
-- Tables that the tests share, with natural numbers for the floating-point ones.
use iroum_ax.Prelude.{
  ℕ, ◌+◌, ◌*◌, ltb, leb, String, true, false, none, some, [], ◌∷◌, ◌≡◌, refl, arith,
}
use iroum_ax.Postgres.{
  Floats, Score, ScoreReviewRequest, Rubric, RubricBand, Database, Faults, IsFaultless,
}
use iroum_ax.Score.Sums.{Numerics}

abbrev pub whole : Floats ℕ
whole = record {
  is_nan = λ x. false;
  is_inf = λ x. false;
  lt = ltb;
  le = leb;
  zero = 0;
  one = 10;
  add = λ x y. x + y;
  decimal = λ precision scale x. some x;
}

abbrev pub exact : Numerics ℕ ℕ
exact = record { nothing = 0; product = λ x y. x * y; plus = λ x y. x + y }

pub leb_trans : (x y z : ℕ) → leb x y ≡ true → leb y z ≡ true → leb x z ≡ true
leb_trans x y z h k = ground arith

abbrev pub faultless : Faults
faultless call = none

pub faultless-IsFaultless : IsFaultless faultless
faultless-IsFaultless call = refl

abbrev pub score_of : ℕ → String → Score ℕ
score_of id status = record {
  created_at = 1;
  updated_at = 1;
  metadata = none;
  evidence_id = none;
  score_value = some 80;
  weight = some 3;
  evaluation_item_id = "item";
  level = "raw";
  grade = none;
  status = status;
  created_by = "cli-anonymous";
  id = id;
}

abbrev pub request_of : String → ScoreReviewRequest
request_of status = record {
  metadata = none;
  created_at = 2;
  updated_at = 2;
  assigned_reviewer_id = some "r";
  rejection_reason = none;
  comment = none;
  status = status;
  created_by = "a";
  updated_by = "a";
  id = 3;
  score_id = 7;
}

abbrev pub rubric_of : ℕ → String → Rubric
rubric_of id status = record {
  metadata = none;
  created_at = 2;
  updated_at = 2;
  name = "n";
  scope = none;
  status = status;
  archive_reason = some "old";
  created_by = "a";
  updated_by = "a";
  version = 1;
  id = id;
}

abbrev pub band_of : ℕ → String → ℕ → ℕ → RubricBand ℕ
band_of id letter low high = record {
  created_at = 2;
  letter = letter;
  id = id;
  rubric_id = 4;
  min_score = low;
  max_score = high;
}

-- A CONFIRMED score 7 and a DRAFT 6, a review 3 in the given state, an active rubric 4 with two bands
-- and an archived rubric 5.
abbrev pub tables : String → Database ℕ
tables status = record {
  evaluation_items = "i" ∷ [];
  scores = score_of 7 "CONFIRMED" ∷ score_of 6 "DRAFT" ∷ [];
  grade_thresholds = [];
  reviews = request_of status ∷ [];
  rubrics = rubric_of 4 "active" ∷ rubric_of 5 "archived" ∷ [];
  criteria = [];
  bands = band_of 1 "B" 0 79 ∷ band_of 2 "A" 80 100 ∷ [];
  audit_logs = [];
}
