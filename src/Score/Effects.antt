-- ===== src/Score/Effects.antt =====
-- The transactions of cmd/server/score_handlers.go: what each has done where it is answered with
-- success.
use iroum_ax.Prelude.{
  String, ℕ, List, Option, none, some, ◌≡◌, refl, ◌⊎◌, inl, inr, map, length, ◌&&◌,
}
use iroum_ax.Errors.{Error}
use iroum_ax.Audit.Uuid.{UuidLib}
use iroum_ax.Postgres.{Score, Database, Floats, Faults, M, begin_score, commit_tx}
use iroum_ax.Server.{Reply, success, IsRefused, internal, reply_with, attempt, in_transaction}
use iroum_ax.Server.Transactions.{IsDone, IsRead, IsCommitted, step-cases, transaction-effect}
use iroum_ax.Score.{insert_score, update_score, supersede_and_replace_score}
use iroum_ax.Server.Paging.{clamp_pagination}
use iroum_ax.Postgres.Tables.{select_rows}
use iroum_ax.Score.Handlers.{
  ScoreBody, ScoreCreateBody, scores, to_score_response, score_page, passes, alone, write_store_err,
  score_created, score_changed, score_replaced, with_value, given_or_nil, asked_update, evidence_of,
  create_score_in, update_score_in, supersede_in,
}

module _ {F : Type 0} (fl : Floats F) (uuid : UuidLib) (parse_float : String → Option F)
    (fail : Faults) (now : ℕ) (db : Database F) where
  abbrev pub IsCreated : ℕ → ScoreCreateBody F → F → Reply (ScoreBody F) × Database F → Type 0
  IsCreated id b value =
      IsDone
        (insert_score fl uuid fail now id b.evaluation_item_id
          (evidence_of fl uuid fail now b.evidence_id) b.level value b.weight
          (given_or_nil b.metadata) db)
        (λ new_id. (201, score_created (uuid.format new_id) "DRAFT"))

  abbrev pub IsReplaced : ℕ → ℕ → ScoreCreateBody F → F → Reply (ScoreBody F) × Database F → Type 0
  IsReplaced new_id old_id b value =
      IsDone
        (supersede_and_replace_score fl uuid fail now (alone fl uuid fail now) new_id old_id value
          b.weight (given_or_nil b.metadata) db)
        (λ id. (201, score_replaced (uuid.format id) (uuid.format old_id)))

  abbrev pub found_page : (level status limit offset : String) → List (Score F) → ℕ × ScoreBody F
  found_page level status limit offset all =
      let page = score_page (clamp_pagination limit offset) (
        map (to_score_response uuid)
          (select_rows (λ (s : Score F). passes level s.level && passes status s.status) all)) in
      (200, scores page (length page))

  -- A request that reads: refused, or answered with the tables as they are.
  pub in_transaction-effect :
      {A : Type 0} (fault : Option Error) (step : M (Database F) A) (done : A → ℕ × ScoreBody F)
      → let outcome =
          in_transaction fault
            (internal "트랜잭션 시작 실패")
            (attempt write_store_err step (λ a. reply_with (success (done a).0 (done a).1)))
            db in
        (IsRefused outcome.0 × (outcome.1 ≡ db)) ⊎ IsRead (step db) done db outcome
  in_transaction-effect (some e) step done = inl (tt, refl)
  in_transaction-effect none step done = elim (step-cases (step db)) [
    | inl (e, u, bad) ↦ inl (rw bad (tt, refl))
    | inr (a, u, good) ↦ inr (a, u, good, rw good)
  ]

  pub create-effect :
      (id : ℕ) (b : ScoreCreateBody F) (value : F)
      → IsCommitted
          (insert_score fl uuid fail now id b.evaluation_item_id
            (evidence_of fl uuid fail now b.evidence_id)
            b.level
            value
            b.weight
            (given_or_nil b.metadata)
            db)
          (λ new_id. (201, score_created (uuid.format new_id) "DRAFT"))
          db
          (create_score_in fl uuid fail now id b value db)
  unfolding create_score_in
  create-effect id b value =
      transaction-effect write_store_err (λ e. tt) (internal "트랜잭션 시작 실패") (internal "점수 저장 실패") tt
        tt _ db (fail begin_score) (fail commit_tx) _

  pub update-effect :
      (id : ℕ) (b : ScoreCreateBody F)
      → IsCommitted
          (update_score fl uuid fail now
            (alone fl uuid fail now)
            id
            (asked_update fl uuid fail now b)
            db)
          (λ _. (200, score_changed (uuid.format id)))
          db
          (update_score_in fl uuid fail now id b db)
  unfolding update_score_in
  update-effect id b =
      transaction-effect write_store_err (λ e. tt) (internal "트랜잭션 시작 실패") (internal "점수 수정 실패") tt
        tt _ db (fail begin_score) (fail commit_tx) _

  pub supersede-effect :
      (new_id old_id : ℕ) (b : ScoreCreateBody F) (value : F)
      → IsCommitted
          (supersede_and_replace_score fl uuid fail now
            (alone fl uuid fail now)
            new_id
            old_id
            value
            b.weight
            (given_or_nil b.metadata)
            db)
          (λ id. (201, score_replaced (uuid.format id) (uuid.format old_id)))
          db
          (supersede_in fl uuid fail now new_id old_id b value db)
  unfolding supersede_in
  supersede-effect new_id old_id b value =
      transaction-effect write_store_err (λ e. tt) (internal "트랜잭션 시작 실패") (internal "점수 정정 실패") tt
        tt _ db (fail begin_score) (fail commit_tx) _

  -- The value of the body, before the transaction that needs it.
  pub with_value-effect :
      (given : Option F) (next : F → Database F → Reply (ScoreBody F) × Database F)
      (IsMade : F → Reply (ScoreBody F) × Database F → Type 0)
      → ((v : F) → (IsRefused (next v db).0 × ((next v db).1 ≡ db)) ⊎ IsMade v (next v db))
      → let outcome = with_value next given db in
        (IsRefused outcome.0 × (outcome.1 ≡ db)) ⊎ ((v : F) × (given ≡ some v) × IsMade v outcome)
  with_value-effect none next IsMade made = inl (tt, refl)
  with_value-effect (some v) next IsMade made = elim (made v) [
    | inl refused ↦ inl refused
    | inr done ↦ inr (v, refl, done)
  ]
