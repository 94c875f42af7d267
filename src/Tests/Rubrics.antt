-- ===== src/Tests/Rubrics.antt =====
-- Runs of the requests on rubrics.
use iroum_ax.Prelude.{ℕ, String, true, Option, none, some, [], ◌∷◌, List, ◌≡◌, refl, Memᴰ, ◌⊎◌}
use iroum_ax.Errors.{Result, ok}
use iroum_ax.Postgres.{Database, RubricBand}
use iroum_ax.Postgres.Tables.{select_row, any_row}
use iroum_ax.Rubric.Rules.{is_band_of, contains}
use iroum_ax.Rubric.{apply_rubric}
use iroum_ax.Rubric.Bodies.{RubricBandBody, RubricUpdateBody}
use iroum_ax.Server.{IsRefused}
use iroum_ax.Rubric.Results.{IsResult, serve_rubric-IsResult}
use iroum_ax.Rubric.Requests.{RubricRequest, add_range, change_rubric, archive, serve_rubric}
use iroum_ax.Rubric.Archived.{RubricArrival, serve_rubrics, IsSame, archived_final}
use iroum_ax.Rubric.Bands.{IsDisjoint, serve_rubrics-IsDisjoint}
use iroum_ax.Rubric.Applied.{apply_rubric_unique}
use iroum_ax.Tests.Samples.{unary_ids}
use iroum_ax.Tests.Tables.{whole, faultless, leb_trans, rubric_of, band_of, tables}

abbrev db : Database ℕ
db = tables "SUBMITTED"

abbrev sum_weighted : String → Database ℕ → Result (Option ℕ)
sum_weighted item s = ok (some 85)

abbrev excellent : RubricBandBody ℕ
excellent = record { letter = "S"; min_score = 101; max_score = 110 }

abbrev new_range : RubricRequest ℕ
new_range = add_range 9 none "iiii" (some excellent)

abbrev revival : RubricUpdateBody
revival = record { metadata = []; name = "n"; scope = ""; status = "draft" }

abbrev arrivals : List (RubricArrival ℕ)
arrivals =
    record { request = new_range; fail = faultless; now = 8 }
    ∷ record { request = change_rubric none "iiiii" (some revival); fail = faultless; now = 9 }
    ∷ record { request = archive none "iiii" (some "old"); fail = faultless; now = 10 }
    ∷ []

serve_rubric-IsResult_example :
    let outcome = serve_rubric whole unary_ids sum_weighted faultless 9 new_range db in
    (IsRefused outcome.0 × (outcome.1 ≡ db))
    ⊎ IsResult whole unary_ids sum_weighted faultless 9 db new_range outcome
serve_rubric-IsResult_example =
    serve_rubric-IsResult whole unary_ids sum_weighted faultless 9 db new_range

archived_final_example :
    IsSame 5 (rubric_of 5 "archived") db (serve_rubrics whole unary_ids sum_weighted arrivals db)
unfolding select_row
archived_final_example =
    archived_final whole unary_ids sum_weighted arrivals 5 (rubric_of 5 "archived") db refl refl

bands-IsDisjoint : IsDisjoint whole db.bands
unfolding any_row
bands-IsDisjoint = (refl, (refl, tt))

serve_rubrics-IsDisjoint_example :
    IsDisjoint whole (serve_rubrics whole unary_ids sum_weighted arrivals db).bands
serve_rubrics-IsDisjoint_example =
    serve_rubrics-IsDisjoint whole unary_ids sum_weighted arrivals db bands-IsDisjoint

graded : apply_rubric whole unary_ids faultless 9 4 85 db ≡ (ok (band_of 2 "A" 80 100), db)
unfolding apply_rubric
graded = refl

apply_rubric_unique_example :
    Memᴰ (band_of 2 "A" 80 100) db.bands
    × (is_band_of 4 (band_of 2 "A" 80 100) ≡ true)
    × (contains whole 85 (band_of 2 "A" 80 100) ≡ true)
    × ((c : RubricBand ℕ)
        → Memᴰ c db.bands
        → is_band_of 4 c ≡ true
        → contains whole 85 c ≡ true
        → c ≡ band_of 2 "A" 80 100)
apply_rubric_unique_example =
    apply_rubric_unique whole unary_ids faultless 9 leb_trans 4 85 db bands-IsDisjoint graded
