-- ===== src/Review/Requests.antt =====
-- The requests of cmd/server/review_handlers.go as one type, and the ways in which they change the
-- tables.
use iroum_ax.Prelude.{
  String, ℕ, Option, none, some, List, [], ◌∷◌, ◌++◌, ◌≡◌, refl, ap, inl, inr, Option-cases,
  Bool-cases, ◌==◌,
}
use iroum_ax.Prelude.Text.{trim_space, eqb}
use iroum_ax.Errors.{Result-cases}
use iroum_ax.Audit.Entities.{record_review_created}
use iroum_ax.Audit.Uuid.{UuidLib}
use iroum_ax.Auth.Rbac.{User}
use iroum_ax.Server.{Reply, guard_write, guard_admin, resolve_created_by}
use iroum_ax.Postgres.{
  ScoreReviewRequest, Database, Floats, Metadata, Faults, begin_score, begin_review, insert_row,
  audit_call, commit_tx, list_rows, count_all, marshal_metadata,
}
use iroum_ax.Score.{get_score_by_id}
use iroum_ax.Review.Rules.{
  validate_review_request_input, resolve_actor, text_or_null, review_recorder, new_request,
}
use iroum_ax.Review.{
  insert_score_review_request, get_score_review_request_by_id, list_score_review_requests,
  count_score_review_requests,
}
use iroum_ax.Review.Moves.{Move, assign, approve, reject, run, applied, IsAt, IsGiven}
use iroum_ax.Review.Effect.{execute_mutation-effect, step-cases}
use iroum_ax.Review.Handlers.{
  ReviewBody, with_body, admitted, assign_in, approve_in, reject_in, ReviewCreateBody,
  ReviewRejectBody, execute_mutation, create_review_in, create_with, handle_create_review,
  handle_get_review, handle_list_reviews, handle_assign_reviewer, handle_approve, handle_reject,
}

pub data Request : Type 0 where
  -- The identifier is the one that a new row would get.
  create_review : (id : ℕ) → Option User → Option ReviewCreateBody → Request
  get_review : (raw_id : String) → Request
  list_reviews : (status limit offset : String) → Request
  assign_to : Option User → (raw_id : String) → Option String → Request
  approve_review : Option User → (raw_id : String) → Option String → Request
  reject_review : Option User → (raw_id : String) → Option ReviewRejectBody → Request

-- A request with the faults and the time that it meets.
pub record Arrival : Type 0 where
  pub request : Request
  pub fail : Faults
  pub now : ℕ

module _ {F : Type 0} (fl : Floats F) (uuid : UuidLib) where
  unfoldable pub serve_request : Faults → ℕ → Request → Database F → Reply ReviewBody × Database F
  unfolding handle_create_review handle_get_review handle_list_reviews handle_assign_reviewer
      handle_approve handle_reject
  serve_request fail now (create_review id user body) =
      handle_create_review fl uuid fail now id user body
  serve_request fail now (get_review raw_id) = handle_get_review fl uuid fail now raw_id
  serve_request fail now (list_reviews status limit offset) =
      handle_list_reviews fl uuid fail now status limit offset
  serve_request fail now (assign_to user raw_id body) =
      handle_assign_reviewer fl uuid fail now user raw_id body
  serve_request fail now (approve_review user raw_id body) =
      handle_approve fl uuid fail now user raw_id body
  serve_request fail now (reject_review user raw_id body) =
      handle_reject fl uuid fail now user raw_id body

  abbrev pub serve : Arrival → Database F → Reply ReviewBody × Database F
  serve a = serve_request a.fail a.now a.request

  -- One request behind the other.
  unfoldable pub serve_all : List Arrival → Database F → Database F
  serve_all [] db = db
  serve_all (a ∷ arrivals) db = serve_all arrivals (serve a db).1

  abbrev pub inserted : ℕ → ℕ → ℕ → Option String → Metadata → String → Database F → Database F
  inserted now id score_id comment metadata actor db = record db {
    reviews =
        db.reviews ++ new_request now id score_id comment (marshal_metadata metadata) actor ∷ [];
    audit_logs =
        db.audit_logs
        ++ record_review_created uuid review_recorder now (λ e. e) id score_id actor ∷ [];
  }

  -- The three ways to change the tables.
  pub data Step (db db' : Database F) : Type 0 where
    stay : db' ≡ db → Step db db'
    move :
        (now id : ℕ) (m : Move) (row : ScoreReviewRequest)
        → IsGiven m
        → IsAt id m row db
        → db' ≡ applied uuid now id m row db
        → Step db db'
    insertion :
        (now id score_id : ℕ) (comment : Option String) (metadata : Metadata) (actor : String)
        → db' ≡ inserted now id score_id comment metadata actor db
        → Step db db'

  mutation-Step :
      (fail : Faults) (now id : ℕ) (m : Move) (db : Database F)
      → Step db (execute_mutation fl uuid fail now id (run uuid now id fail m) db).1
  mutation-Step fail now id m db = elim (execute_mutation-effect fl uuid fail now id m db) [
    | inl (refused, same) ↦ stay same
    | inr (given, (row, at, effect)) ↦ move now id m row given at (ap (λ o. o.1) effect)
  ]

  insert-Step :
      (fail : Faults) (now id score_id : ℕ) (body : ReviewCreateBody) (actor : String)
      (db : Database F)
      → Step db (create_review_in fl uuid fail now id score_id body actor db).1
  unfolding create_review_in insert_score_review_request
  insert-Step fail now id score_id body actor db = elim (Option-cases (fail begin_review)) [
    | inr (e, broken) ↦ stay (rw broken)
    | inl opens ↦ elim (Result-cases (validate_review_request_input score_id)) [
      | inl (e, wrong) ↦ stay (rw (opens, wrong))
      | inr (x, right) ↦ elim (Option-cases (fail insert_row)) [
        | inr (e, broken) ↦ stay (rw (opens, right, broken))
        | inl inserts ↦ elim (Option-cases (fail audit_call)) [
          | inr (e, broken) ↦ stay (rw (opens, right, inserts, broken, record_review_created))
          | inl logs ↦ elim (Option-cases (fail commit_tx)) [
            | inr (e, broken) ↦
                stay (rw (opens, right, inserts, logs, broken, record_review_created))
            | inl commits ↦
                insertion now id score_id (text_or_null body.comment) body.metadata
                  (resolve_actor actor)
                  (rw (opens, right, inserts, logs, commits, record_review_created))
          ]
        ]
      ]
    ]
  ]

  create_with-Step :
      (fail : Faults) (now id : ℕ) (user : Option User) (body : ReviewCreateBody) (given : Option ℕ)
      (db : Database F)
      → Step db (create_with fl uuid fail now id user body given db).1
  create_with-Step fail now id user body none db = stay refl
  create_with-Step fail now id user body (some score_id) db = elim (Bool-cases (eqb score_id 0)) [
    | inl nil ↦ stay (rw nil)
    | inr real ↦ elim (Option-cases (fail begin_score)) [
      | inr (e, broken) ↦ stay (rw (real, broken))
      | inl opens ↦ elim (Result-cases (get_score_by_id fl uuid fail now score_id db).0) [
        | inl (e, absent) ↦ stay (rw (real, opens, absent))
        | inr (score, there) ↦
            rw (real, opens, there)
              (insert-Step fail now id score_id body (resolve_created_by user) db)
      ]
    ]
  ]

  get-Step :
      (fail : Faults) (now : ℕ) (raw_id : String) (db : Database F)
      → Step db (handle_get_review fl uuid fail now raw_id db).1
  unfolding handle_get_review get_score_review_request_by_id
  get-Step fail now raw_id db = elim (Option-cases (uuid.parse raw_id)) [
    | inl bad ↦ stay (rw bad)
    | inr (id, good) ↦ elim (Option-cases (fail begin_review)) [
      | inr (e, broken) ↦ stay (rw (good, broken))
      | inl opens ↦ elim (step-cases (get_score_review_request_by_id uuid fail now id db)) [
        | inl (e, s, absent) ↦ stay (rw (good, opens, absent))
        | inr (r, s, there) ↦ stay (rw (good, opens, there))
      ]
    ]
  ]

  list-Step :
      (fail : Faults) (now : ℕ) (status limit offset : String) (db : Database F)
      → Step db (handle_list_reviews fl uuid fail now status limit offset db).1
  unfolding handle_list_reviews list_score_review_requests count_score_review_requests
  list-Step fail now status limit offset db = elim (Option-cases (fail begin_review)) [
    | inr (e, broken) ↦ stay (rw broken)
    | inl opens ↦ elim (Option-cases (fail list_rows)) [
      | inr (e, broken) ↦ stay (rw (opens, broken))
      | inl lists ↦ elim (Option-cases (fail count_all)) [
        | inr (e, broken) ↦ stay (rw (opens, lists, broken))
        | inl counts ↦ stay (rw (opens, lists, counts))
      ]
    ]
  ]

  assign-Step :
      (fail : Faults) (now : ℕ) (user : Option User) (id : ℕ) (body : Option String)
      (db : Database F)
      → Step db (assign_in fl uuid fail now user id body db).1
  unfolding run
  assign-Step fail now user id none db = stay refl
  assign-Step fail now user id (some reviewer_id) db =
      elim (Bool-cases (trim_space reviewer_id == "")) [
        | inl blank ↦ stay (rw blank)
        | inr given ↦
            rw given (mutation-Step fail now id (assign reviewer_id (resolve_created_by user)) db)
      ]

  approve-Step :
      (fail : Faults) (now : ℕ) (user : Option User) (id : ℕ) (body : Option String)
      (db : Database F)
      → Step db (approve_in fl uuid fail now user id body db).1
  unfolding run
  approve-Step fail now user id none db = stay refl
  approve-Step fail now user id (some comment) db =
      mutation-Step fail now id (approve comment (resolve_created_by user)) db

  reject-Step :
      (fail : Faults) (now : ℕ) (user : Option User) (id : ℕ) (body : Option ReviewRejectBody)
      (db : Database F)
      → Step db (reject_in fl uuid fail now user id body db).1
  unfolding run
  reject-Step fail now user id none db = stay refl
  reject-Step fail now user id (some b) db =
      elim (Bool-cases (trim_space b.rejection_reason == "")) [
        | inl blank ↦ stay (rw blank)
        | inr given ↦ rw given (
            mutation-Step fail now id
              (reject b.rejection_reason b.comment (resolve_created_by user)) db)
      ]

  create-Step :
      (fail : Faults) (now id : ℕ) (user : Option User) (body : Option ReviewCreateBody)
      (db : Database F)
      → Step db
          (with_body
            (λ b. create_with fl uuid fail now id user b (uuid.parse (trim_space b.score_id)))
            body
            db).1
  create-Step fail now id user none db = stay refl
  create-Step fail now id user (some b) db =
      create_with-Step fail now id user b (uuid.parse (trim_space b.score_id)) db

  -- The admin's guard and the identifier of the path, before a handler.
  admitted-Step :
      (fail : Faults) (now : ℕ) (user : Option User) (raw_id : String)
      (next : ℕ → Database F → Reply ReviewBody × Database F) (db : Database F)
      → ((id : ℕ) → Step db (next id db).1)
      → Step db (admitted fl uuid fail now user raw_id next db).1
  admitted-Step fail now user raw_id next db steps = elim (Bool-cases (guard_admin user)) [
    | inr closed ↦ stay (rw closed)
    | inl through ↦ elim (Option-cases (uuid.parse raw_id)) [
      | inl bad ↦ stay (rw (through, bad))
      | inr (id, good) ↦ rw (through, good) (steps id)
    ]
  ]

  -- Every request, whatever its arguments and faults, changes the tables in one of the three ways.
  pub serve_request-Step :
      (fail : Faults) (now : ℕ) (request : Request) (db : Database F)
      → Step db (serve_request fail now request db).1
  unfolding serve_request
  serve_request-Step fail now (create_review id user body) db =
      elim (Bool-cases (guard_write user)) [
        | inr closed ↦ stay (rw closed)
        | inl through ↦ rw through (create-Step fail now id user body db)
      ]
  serve_request-Step fail now (get_review raw_id) db = get-Step fail now raw_id db
  serve_request-Step fail now (list_reviews status limit offset) db =
      list-Step fail now status limit offset db
  serve_request-Step fail now (assign_to user raw_id body) db =
      admitted-Step fail now user raw_id (λ id. assign_in fl uuid fail now user id body) db
        (λ id. assign-Step fail now user id body db)
  serve_request-Step fail now (approve_review user raw_id body) db =
      admitted-Step fail now user raw_id (λ id. approve_in fl uuid fail now user id body) db
        (λ id. approve-Step fail now user id body db)
  serve_request-Step fail now (reject_review user raw_id body) db =
      admitted-Step fail now user raw_id (λ id. reject_in fl uuid fail now user id body) db
        (λ id. reject-Step fail now user id body db)
