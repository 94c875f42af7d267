-- ===== src/Tests/Reviews.antt =====
-- Runs of the requests on reviews.
use iroum_ax.Prelude.{◌≤◌, ◌<◌, none, some, [], ◌∷◌, ◌≡◌, refl, All, List}
use iroum_ax.Prelude.Text.{trim_space}
use iroum_ax.Errors.{ok}
use iroum_ax.Server.{success, IsRefused}
use iroum_ax.Server.Paging.{clamp_review_pagination, clamp_review_pagination_bounds, half_word}
use iroum_ax.Postgres.Tables.{select_row}
use iroum_ax.Review.{approve_request}
use iroum_ax.Review.Moves.{Move, approve, reject, run, run_succeeds, applied, moved, source}
use iroum_ax.Review.Effect.{IsMutated, execute_mutation-effect}
use iroum_ax.Review.Handlers.{review, execute_mutation, to_review_response}
use iroum_ax.Review.Requests.{Arrival, approve_review, assign_to, serve_all}
use iroum_ax.Review.History.{decided_once, serve_all-IsSound, IsSound, texts_differ}
use iroum_ax.Tests.Samples.{unary_ids}
use iroum_ax.Tests.Tables.{whole, faultless, faultless-IsFaultless, request_of, tables}

abbrev acceptance : Move
acceptance = approve "fine" "b"

abbrev arrivals : List Arrival
arrivals =
    record { request = assign_to none "iii" (some "r"); fail = faultless; now = 8 }
    ∷ record { request = approve_review none "iii" (some ""); fail = faultless; now = 9 }
    ∷ []

execute_mutation-effect_example : IsMutated unary_ids 9 3 acceptance (tables "UNDER_REVIEW") (
    execute_mutation whole unary_ids faultless 9 3
      (run unary_ids 9 3 faultless acceptance)
      (tables "UNDER_REVIEW"))
execute_mutation-effect_example =
    execute_mutation-effect whole unary_ids faultless 9 3 acceptance (tables "UNDER_REVIEW")

run_succeeds_example :
    run unary_ids 9 3 faultless acceptance (tables "UNDER_REVIEW")
    ≡ (ok tt, applied unary_ids 9 3 acceptance (request_of "UNDER_REVIEW") (tables "UNDER_REVIEW"))
unfolding source select_row
run_succeeds_example =
    run_succeeds unary_ids faultless 9 3 acceptance (tables "UNDER_REVIEW")
      (request_of "UNDER_REVIEW") faultless-IsFaultless tt (refl, refl)

accepted :
    (execute_mutation whole unary_ids faultless 9 3
      (run unary_ids 9 3 faultless acceptance)
      (tables "UNDER_REVIEW")).0
    ≡ success 200
        (review (to_review_response unary_ids (moved 9 acceptance (request_of "UNDER_REVIEW"))))
unfolding execute_mutation run approve_request to_review_response moved
accepted = refl

decided_once_example :
    let db =
      serve_all whole unary_ids arrivals
        (execute_mutation whole unary_ids faultless 9 3
          (run unary_ids 9 3 faultless acceptance)
          (tables "UNDER_REVIEW")).1 in
    let outcome =
      execute_mutation whole unary_ids faultless 11 3
        (run unary_ids 11 3 faultless (reject "no" "" "b"))
        db in
    IsRefused outcome.0 × (outcome.1 ≡ db)
decided_once_example =
    decided_once whole unary_ids 3 faultless faultless 9 11 acceptance (reject "no" "" "b") arrivals
      (tables "UNDER_REVIEW") tt accepted

pending-IsSound : All IsSound (tables "UNDER_REVIEW").reviews
unfolding trim_space
pending-IsSound = ((texts_differ "UNDER_REVIEW" "REJECTED" refl, λ e. refl), tt)

serve_all-IsSound_example :
    All IsSound (serve_all whole unary_ids arrivals (tables "UNDER_REVIEW")).reviews
serve_all-IsSound_example =
    serve_all-IsSound whole unary_ids arrivals (tables "UNDER_REVIEW") pending-IsSound

clamp_review_pagination_bounds_example :
    (1 ≤ (clamp_review_pagination "18446744073709551623" "-3").0)
    × ((clamp_review_pagination "18446744073709551623" "-3").0 ≤ 500)
    × ((clamp_review_pagination "18446744073709551623" "-3").1 < half_word)
clamp_review_pagination_bounds_example = clamp_review_pagination_bounds "18446744073709551623" "-3"
