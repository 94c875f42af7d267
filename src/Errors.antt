-- ===== src/Errors.antt =====
-- apps/control-plane/internal/errors/errors.go and the sentinels of store/fake_store.go and
-- auth/errors.go. A Go error value is a sentinel under the layers that `fmt.Errorf` adds with `%w`.
-- The message of a layer stands for its text: of a format with arguments it keeps the fixed words, or
-- an argument where the words are those of the sentinel.
use iroum_ax.Prelude.{String, Bool, true, false, ◌||◌, Option, none, some}
use mathlib.Core.Path.{◌≡◌, refl}
use mathlib.Core.Logic.{ite, ◌⊎◌, inl, inr}

pub data Sentinel : Type 0 where
  invalid_transition workflow_not_found : Sentinel
  fake_audit_insert_fail fake_workflow_insert_fail : Sentinel
  fake_update_state_fail fake_get_workflow_fail : Sentinel
  insufficient_permission : Sentinel
  token_expired token_invalid_signature token_invalid_issuer token_invalid_audience : Sentinel
  algorithm_not_allowed algorithm_key_mismatch token_blacklisted jwks_unavailable : Sentinel
  refresh_token_reuse_detected : Sentinel
  pgx_pool_exhausted : Sentinel
  score_not_found score_invalid_input score_immutable score_invalid_status : Sentinel
  grade_thresholds_unavailable score_audit_write_failed score_not_confirmed : Sentinel
  review_not_found review_invalid_input review_invalid_status : Sentinel
  review_not_submitted review_not_under_review review_audit_write_failed : Sentinel
  rubric_not_found rubric_invalid_input rubric_invalid_status rubric_archived_error : Sentinel
  rubric_weight_out_of_bounds rubric_band_overlap rubric_audit_write_failed : Sentinel
  eval_item_not_found : Sentinel

pub Sentinel-discrete : Discrete Sentinel
Sentinel-discrete = hlevel

pub data Error : Type 0 where
  sentinel : Sentinel → Error
  wrap : String → Error → Error
  -- Two `%w` in one format.
  both : Error → Error → Error
  -- An error with no sentinel in it, such as one of a library.
  plain_error : String → Error
  -- `*pgconn.PgError` with its SQLSTATE.
  pg_error : String → Error

-- `errors.Is(e, target)`: the target stands somewhere in the chain of `e`.
unfoldable pub errors_is : Error → Sentinel → Bool
unfolding Sentinel-discrete
errors_is (sentinel s) target = ite (Sentinel-discrete s target) true false
errors_is (wrap message e) target = errors_is e target
errors_is (both e f) target = errors_is e target || errors_is f target
errors_is (plain_error message) target = false
errors_is (pg_error code) target = false

abbrev or_else {ℓ} : {A : Type ℓ} → Option A → Option A → Option A
or_else none second = second
or_else (some a) second = some a

-- `errors.As` for a `*pgconn.PgError`, and its code.
unfoldable pub sqlstate : Error → Option String
sqlstate (sentinel s) = none
sqlstate (wrap message e) = sqlstate e
sqlstate (both e f) = or_else (sqlstate e) (sqlstate f)
sqlstate (plain_error message) = none
sqlstate (pg_error code) = some code

-- The results `(A, error)` of a Go function, of which one is meant.
pub data Result {ℓ} (A : Type ℓ) : Type ℓ where
  ok : A → Result A
  err : Error → Result A

pub Result-cases {ℓ} :
    {A : Type ℓ} (r : Result A) → ((e : Error) × r ≡ err e) ⊎ ((a : A) × r ≡ ok a)
Result-cases (ok a) = inr (a, refl)
Result-cases (err e) = inl (e, refl)
