-- ===== src/Score/Results.antt =====
-- What the requests of cmd/server/score_handlers.go have done where they are answered with success.
use iroum_ax.Prelude.{
  String, ℕ, true, false, Option, none, some, ◌≡◌, refl, ap, ◌⊎◌, inl, inr, Option-cases,
  Bool-cases, ◌==◌,
}
use iroum_ax.Prelude.Text.{trim_space}
use iroum_ax.Errors.{Result}
use iroum_ax.Audit.Uuid.{UuidLib}
use iroum_ax.Postgres.{Database, Floats, Faults, begin_score}
use iroum_ax.Server.{Reply, guard_write, IsRefused}
use iroum_ax.Server.Transactions.{IsDone, IsRead}
use iroum_ax.Score.{get_score_by_id, get_scores_by_evaluation_item, determine_grade, update_score}
use iroum_ax.Score.Handlers.{
  ScoreBody, ScoreCreateBody, score, graded, to_score_response, alone, score_changed, asked_update,
  create_score_in, supersede_in, validate_create_body, handle_get_score, handle_list_scores,
  handle_grade, handle_create_score, handle_update_score, handle_supersede_score,
}
use iroum_ax.Score.Requests.{
  ScoreRequest, get_score, list_scores, grade_score, create_score, change_score, replace_score,
  serve_score, ScoreStep, looked, added, changed, corrected, IsServed,
}
use iroum_ax.Score.Effects.{
  IsCreated, IsReplaced, found_page, in_transaction-effect, create-effect, update-effect,
  supersede-effect, with_value-effect,
}

module _ {F : Type 0} (fl : Floats F) (uuid : UuidLib) (parse_float : String → Option F)
    (fail : Faults) (now : ℕ) (db : Database F) where
  -- What a request that is answered with success has met and done, and its reply.
  abbrev pub IsResult : ScoreRequest F → Reply (ScoreBody F) × Database F → Type 0
  IsResult (get_score raw_id) outcome =
      (id : ℕ) × (uuid.parse raw_id ≡ some id)
      × IsRead (get_score_by_id fl uuid fail now id db)
          (λ s. (200, score (to_score_response uuid s))) db outcome
  IsResult (list_scores item level status limit offset) outcome =
      ((trim_space item == "") ≡ false)
      × IsRead (get_scores_by_evaluation_item fl uuid fail now (trim_space item) db)
          (found_page fl uuid parse_float fail now db level status limit offset) db outcome
  IsResult (grade_score scope value) outcome =
      ((trim_space scope == "") ≡ false)
      × (v : F) × (parse_float value ≡ some v)
      × IsRead (determine_grade fl fail (trim_space scope) v db)
          (λ grade. (200, graded (trim_space scope) v grade)) db outcome
  IsResult (create_score id user body) outcome =
      (guard_write user ≡ true)
      × (b : ScoreCreateBody F) × (body ≡ some b)
      × (validate_create_body fl uuid fail now b ≡ none)
      × (value : F) × (b.score_value ≡ some value)
      × IsCreated fl uuid parse_float fail now db id b value outcome
  IsResult (change_score user raw_id body) outcome =
      (guard_write user ≡ true)
      × (id : ℕ) × (uuid.parse raw_id ≡ some id)
      × (b : ScoreCreateBody F) × (body ≡ some b)
      × IsDone
          (update_score fl uuid fail now (alone fl uuid fail now) id
            (asked_update fl uuid fail now b) db)
          (λ _. (200, score_changed (uuid.format id))) outcome
  IsResult (replace_score new_id user raw_id body) outcome =
      (guard_write user ≡ true)
      × (old_id : ℕ) × (uuid.parse raw_id ≡ some old_id)
      × (b : ScoreCreateBody F) × (body ≡ some b)
      × (value : F) × (b.score_value ≡ some value)
      × IsReplaced fl uuid parse_float fail now db new_id old_id b value outcome

  -- Every request on scores but the rollup is answered with an error and leaves the tables as they
  -- were; or it has passed its checks (of the role for a write, of the identifier, of the body), its
  -- one operation of the store has succeeded with the arguments of the request, the tables are what
  -- this operation leaves (for a read: as they were), and the reply is the success that tells of it.
  pub serve_score-IsResult :
      (r : ScoreRequest F)
      → let outcome = serve_score fl uuid parse_float fail now r db in
        (IsRefused outcome.0 × (outcome.1 ≡ db)) ⊎ IsResult r outcome
  unfolding serve_score handle_get_score handle_list_scores handle_grade handle_create_score
      handle_update_score handle_supersede_score
  serve_score-IsResult (get_score raw_id) = elim (Option-cases (uuid.parse raw_id)) [
    | inl bad ↦ inl (rw bad (tt, refl))
    | inr (id, parsed) ↦
        rw parsed
          (elim (in_transaction-effect fl uuid parse_float fail now db (fail begin_score)
            (get_score_by_id fl uuid fail now id) (λ s. (200, score (to_score_response uuid s)))) [
              | inl refused ↦ inl refused
              | inr found ↦ inr (id, refl, found)
            ])
  ]
  serve_score-IsResult (list_scores item level status limit offset) =
      elim (Bool-cases (trim_space item == "")) [
        | inl blank ↦ inl (rw blank (tt, refl))
        | inr given ↦
            rw given
              (elim (in_transaction-effect fl uuid parse_float fail now db (fail begin_score)
                (get_scores_by_evaluation_item fl uuid fail now (trim_space item))
                (found_page fl uuid parse_float fail now db level status limit offset)) [
                  | inl refused ↦ inl refused
                  | inr found ↦ inr (refl, found)
                ])
      ]
  serve_score-IsResult (grade_score scope value) = elim (Bool-cases (trim_space scope == "")) [
    | inl blank ↦ inl (rw blank (tt, refl))
    | inr given ↦ elim (Option-cases (parse_float value)) [
      | inl bad ↦ inl (rw (given, bad) (tt, refl))
      | inr (v, good) ↦
          rw (given, good)
            (elim (in_transaction-effect fl uuid parse_float fail now db (fail begin_score)
              (determine_grade fl fail (trim_space scope) v)
              (λ grade. (200, graded (trim_space scope) v grade))) [
                | inl refused ↦ inl refused
                | inr found ↦ inr (refl, v, refl, found)
              ])
    ]
  ]
  serve_score-IsResult (create_score id user body) = elim (Bool-cases (guard_write user)) [
    | inr closed ↦ inl (rw closed (tt, refl))
    | inl through ↦ elim (Option-cases body) [
      | inl empty ↦ inl (rw (through, empty) (tt, refl))
      | inr (b, given) ↦ elim (Option-cases (validate_create_body fl uuid fail now b)) [
        | inr (wrong, invalid) ↦ inl (rw (through, given, invalid) (tt, refl))
        | inl valid ↦
            rw (through, given, valid)
              (elim (with_value-effect fl uuid parse_float fail now db b.score_value
                (create_score_in fl uuid fail now id b)
                (IsCreated fl uuid parse_float fail now db id b)
                (create-effect fl uuid parse_float fail now db id b)) [
                  | inl refused ↦ inl refused
                  | inr (value, present, done) ↦ inr (refl, b, refl, valid, value, present, done)
                ])
      ]
    ]
  ]
  serve_score-IsResult (change_score user raw_id body) = elim (Bool-cases (guard_write user)) [
    | inr closed ↦ inl (rw closed (tt, refl))
    | inl through ↦ elim (Option-cases (uuid.parse raw_id)) [
      | inl bad ↦ inl (rw (through, bad) (tt, refl))
      | inr (id, parsed) ↦ elim (Option-cases body) [
        | inl empty ↦ inl (rw (through, parsed, empty) (tt, refl))
        | inr (b, given) ↦
            rw (through, parsed, given)
              (elim (update-effect fl uuid parse_float fail now db id b) [
                | inl refused ↦ inl refused
                | inr done ↦ inr (refl, id, refl, b, refl, done)
              ])
      ]
    ]
  ]
  serve_score-IsResult (replace_score new_id user raw_id body) =
      elim (Bool-cases (guard_write user)) [
        | inr closed ↦ inl (rw closed (tt, refl))
        | inl through ↦ elim (Option-cases (uuid.parse raw_id)) [
          | inl bad ↦ inl (rw (through, bad) (tt, refl))
          | inr (id, parsed) ↦ elim (Option-cases body) [
            | inl empty ↦ inl (rw (through, parsed, empty) (tt, refl))
            | inr (b, given) ↦
                rw (through, parsed, given)
                  (elim (with_value-effect fl uuid parse_float fail now db b.score_value
                    (supersede_in fl uuid fail now new_id id b)
                    (IsReplaced fl uuid parse_float fail now db new_id id b)
                    (supersede-effect fl uuid parse_float fail now db new_id id b)) [
                      | inl refused ↦ inl refused
                      | inr (value, present, done) ↦
                          inr (refl, id, refl, b, refl, value, present, done)
                    ])
          ]
        ]
      ]

  read-Step :
      {A : Type 0} (r : Result A × Database F) (done : A → ℕ × ScoreBody F)
      (outcome : Reply (ScoreBody F) × Database F)
      → IsRead r done db outcome
      → ScoreStep fl uuid fail now db outcome.1
  read-Step r done outcome (a, u, got, same) =
      looked (ap (λ (o : Reply (ScoreBody F) × Database F). o.1) same)

  result-Step :
      (r : ScoreRequest F) (outcome : Reply (ScoreBody F) × Database F)
      → IsResult r outcome
      → ScoreStep fl uuid fail now db outcome.1
  result-Step (get_score raw_id) outcome (id, parsed, found) = read-Step _ _ outcome found
  result-Step (list_scores item level status limit offset) outcome (given, found) =
      read-Step _ _ outcome found
  result-Step (grade_score scope value) outcome (given, v, parsed, found) =
      read-Step _ _ outcome found
  result-Step (create_score id user body) outcome
        (through, b, given, valid, value, present, (a, u, made, same)) =
      rw same (added id b.evaluation_item_id _ b.level value b.weight _ a made)
  result-Step (change_score user raw_id body) outcome
        (through, id, parsed, b, given, (a, u, made, same)) =
      rw same (changed id b made)
  result-Step (replace_score new_id user raw_id body) outcome
        (through, old_id, parsed, b, given, value, present, (a, u, made, same)) =
      rw same (corrected new_id old_id value b.weight _ a made)

  -- The tables alone: as they were behind a refusal, or what a step leaves.
  pub serve_score-IsServed :
      (r : ScoreRequest F)
      → IsServed fl uuid fail now db (serve_score fl uuid parse_float fail now r db)
  serve_score-IsServed r = elim (serve_score-IsResult r) [
    | inl refused ↦ inl refused
    | inr result ↦ inr (result-Step r (serve_score fl uuid parse_float fail now r db) result)
  ]
