-- ===== src/Tests/Callbacks.antt =====
-- Callbacks for a small store.
use iroum_ax.Prelude.{ℕ, true, some, [], ◌≡◌, refl, lookup}
use iroum_ax.Types.{pending, running}
use iroum_ax.Callback.{
  CallbackRequest, no_content, rejected, conflict, is_status, run_callback, handle_callback,
}
use iroum_ax.Callback.Effect.{callback_effect, run_callback-effect}
use iroum_ax.Callback.Once.{IsAccepted, callback_once}
use iroum_ax.Tests.Samples.{unary, unary_ids, size, machine}

abbrev report : CallbackRequest
report = record { status = "completed"; result_json = [] }

abbrev failure : CallbackRequest
failure = record { status = "failed"; result_json = [] }

reported : (handle_callback unary_ids 7 "i" (some report) (machine running)).0 ≡ no_content
unfolding handle_callback lookup unary size
reported = refl

unknown_status :
    (handle_callback unary_ids 7 "i"
      (some (record { status = "done"; result_json = [] }))
      (machine running)).0
    ≡ rejected 400 "INVALID_ARGUMENT" "status 필드는 'completed' 또는 'failed'만 허용됩니다"
unfolding handle_callback
unknown_status = refl

run_callback-effect_example :
    run_callback unary_ids 7 1 report (machine pending)
    ≡ callback_effect unary_ids 7 1 report (machine pending)
run_callback-effect_example = run_callback-effect unary_ids 7 1 report (machine pending)

callback_once_example :
    let after = (handle_callback unary_ids 7 "i" (some report) (machine running)).1 in
    (id : ℕ) × (req : CallbackRequest) × (unary_ids.parse "i" ≡ some id)
    × (some report ≡ some req)
    × (is_status unary_ids 7 req.status ≡ true)
    × IsAccepted unary_ids 7 id req (machine running) after
    × ((handle_callback unary_ids 8 "i" (some failure) after).0 ≡ conflict)
callback_once_example =
    callback_once unary_ids 7 8 "i" "i" (some report) failure (machine running) reported refl refl
