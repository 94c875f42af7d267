-- ===== src/Score/Requests.antt =====
-- The requests of cmd/server/score_handlers.go as one type, and the ways in which they change the
-- tables.
use iroum_ax.Prelude.{String, ℕ, Option, ◌≡◌, ◌⊎◌}
use iroum_ax.Errors.{ok}
use iroum_ax.Audit.Uuid.{UuidLib}
use iroum_ax.Auth.Rbac.{User}
use iroum_ax.Postgres.{Database, Floats, Faults, Metadata}
use iroum_ax.Server.{Reply, IsRefused}
use iroum_ax.Score.{insert_score, update_score, supersede_and_replace_score}
use iroum_ax.Score.Handlers.{
  ScoreBody, ScoreCreateBody, alone, asked_update, handle_get_score, handle_list_scores,
  handle_grade, handle_create_score, handle_update_score, handle_supersede_score,
}

pub data ScoreRequest (F : Type 0) : Type 0 where
  get_score : (raw_id : String) → ScoreRequest F
  list_scores : (item level status limit offset : String) → ScoreRequest F
  grade_score : (scope value : String) → ScoreRequest F
  -- The identifier is the one that a new row would get.
  create_score : (id : ℕ) → Option User → Option (ScoreCreateBody F) → ScoreRequest F
  change_score : Option User → (raw_id : String) → Option (ScoreCreateBody F) → ScoreRequest F
  replace_score :
      (new_id : ℕ) → Option User → (raw_id : String) → Option (ScoreCreateBody F) → ScoreRequest F

module _ {F : Type 0} (fl : Floats F) (uuid : UuidLib) (parse_float : String → Option F) where
  unfoldable pub serve_score :
      Faults → ℕ → ScoreRequest F → Database F → Reply (ScoreBody F) × Database F
  unfolding handle_get_score handle_list_scores handle_grade handle_create_score handle_update_score
      handle_supersede_score
  serve_score fail now (get_score raw_id) = handle_get_score fl uuid fail now raw_id
  serve_score fail now (list_scores item level status limit offset) =
      handle_list_scores fl uuid fail now item level status limit offset
  serve_score fail now (grade_score scope value) =
      handle_grade fl uuid fail now parse_float scope value
  serve_score fail now (create_score id user body) =
      handle_create_score fl uuid fail now id user body
  serve_score fail now (change_score user raw_id body) =
      handle_update_score fl uuid fail now user raw_id body
  serve_score fail now (replace_score new_id user raw_id body) =
      handle_supersede_score fl uuid fail now new_id user raw_id body

module _ {F : Type 0} (fl : Floats F) (uuid : UuidLib) where
  -- What a request that is answered with success has done.
  pub data ScoreStep (fail : Faults) (now : ℕ) (db db' : Database F) : Type 0 where
    looked : db' ≡ db → ScoreStep fail now db db'
    added :
        (id : ℕ) (item : String) (evidence : Option ℕ) (level : String) (value : F)
        (weight : Option F) (metadata : Metadata) (new_id : ℕ)
        → insert_score fl uuid fail now id item evidence level value weight metadata db
          ≡ (ok new_id, db')
        → ScoreStep fail now db db'
    changed :
        (id : ℕ) (b : ScoreCreateBody F)
        → update_score fl uuid fail now
            (alone fl uuid fail now)
            id
            (asked_update fl uuid fail now b)
            db
          ≡ (ok tt, db')
        → ScoreStep fail now db db'
    corrected :
        (new_id old_id : ℕ) (value : F) (weight : Option F) (metadata : Metadata) (given : ℕ)
        → supersede_and_replace_score fl uuid fail now
            (alone fl uuid fail now)
            new_id
            old_id
            value
            weight
            metadata
            db
          ≡ (ok given, db')
        → ScoreStep fail now db db'

  -- Refused with the tables as they were, or a step.
  abbrev pub IsServed : Faults → ℕ → Database F → Reply (ScoreBody F) × Database F → Type 0
  IsServed fail now db outcome =
      (IsRefused outcome.0 × (outcome.1 ≡ db)) ⊎ ScoreStep fail now db outcome.1
