-- ===== src/Rubric/Answers.antt =====
-- The transactions of cmd/server/rubric_handlers.go on a rubric: what each has done where it is
-- answered with success.
use iroum_ax.Prelude.{
  String, ℕ, false, ◌&&◌, Option, none, List, ◌≡◌, refl, sym, ap, ◌∙◌, ◌⊎◌, inl, inr, ◌==◌,
  Bool-cases, Option-cases, ltb, arith,
}
use iroum_ax.Errors.{ok}
use iroum_ax.Audit.Uuid.{UuidLib}
use iroum_ax.Postgres.{
  Rubric, RubricCriterion, RubricBand, Database, Floats, Faults, Metadata, begin_rubric, commit_tx,
  select_rubric, count_all, select_criteria, select_bands,
}
use iroum_ax.Postgres.Steps.{relabelled-ok, statement-ok, found_or-ok}
use iroum_ax.Server.Transactions.{IsDone, step-cases, read-cases, transaction-effect}
use iroum_ax.Server.{Reply, success, IsRefused, internal, settled}
use iroum_ax.Rubric.Rules.{status_draft, status_active}
use iroum_ax.Rubric.{
  insert_rubric, get_rubric_by_id, get_criteria_by_rubric, get_bands_by_rubric, count_rubrics,
  update_rubric, archive_rubric,
}
use iroum_ax.Rubric.Bodies.{
  RubricReply, rubric, rubric_made, RubricCreateBody, RubricUpdateBody, write_rubric_store_err,
  to_rubric_response,
}
use iroum_ax.Rubric.Handlers.{
  create_rubric_in, update_rubric_in, archive_rubric_in, reread_and_commit, update_and_commit,
  unless_active,
}

module _ {F : Type 0} (fl : Floats F) (uuid : UuidLib) (fail : Faults) (now : ℕ) where
  pub get_rubric-ok :
      (id : ℕ) (db : Database F) {r : Rubric} {u : Database F}
      → get_rubric_by_id fl uuid fail now id db ≡ (ok r, u)
      → u ≡ db
  unfolding get_rubric_by_id
  get_rubric-ok id db h =
      sym (found_or-ok _ _ db (statement-ok (fail select_rubric) _ db (relabelled-ok _ _ h))).1

  count-ok :
      (status scope : String) (db : Database F) {n : ℕ} {u : Database F}
      → count_rubrics fl uuid fail now status scope db ≡ (ok n, u)
      → u ≡ db
  unfolding count_rubrics
  count-ok status scope db h =
      sym (ap (λ p. p.1) (statement-ok (fail count_all) _ db (relabelled-ok _ _ h)))

  pub criteria-ok :
      (id : ℕ) (db : Database F) {cs : List (RubricCriterion F)} {u : Database F}
      → get_criteria_by_rubric fl uuid fail now id db ≡ (ok cs, u)
      → u ≡ db
  unfolding get_criteria_by_rubric
  criteria-ok id db h =
      sym (ap (λ p. p.1) (statement-ok (fail select_criteria) _ db (relabelled-ok _ _ h)))

  pub bands-ok :
      (id : ℕ) (db : Database F) {bs : List (RubricBand F)} {u : Database F}
      → get_bands_by_rubric fl uuid fail now id db ≡ (ok bs, u)
      → u ≡ db
  unfolding get_bands_by_rubric
  bands-ok id db h =
      sym (ap (λ p. p.1) (statement-ok (fail select_bands) _ db (relabelled-ok _ _ h)))

module _ {F : Type 0} (fl : Floats F) (uuid : UuidLib) (fail : Faults) (now : ℕ)
    (db : Database F) where
  -- Refused with the tables as they were, or as `IsMade` says.
  abbrev pub RefusedOr :
      (Reply (RubricReply F) × Database F → Type 0) → Reply (RubricReply F) × Database F → Type 0
  RefusedOr IsMade outcome = (IsRefused outcome.0 × (outcome.1 ≡ db)) ⊎ IsMade outcome

  -- A new draft.
  abbrev pub IsInserted :
      ℕ
      → (name scope : String) → Metadata
      → (source : Option String) → (actor : String) → Reply (RubricReply F) × Database F
      → Type 0
  IsInserted id name scope metadata source actor =
      IsDone (insert_rubric fl uuid fail now id name scope metadata actor db)
        (λ stored. (201, rubric_made (uuid.format stored) name scope "draft" 1 source actor actor))

  pub create-effect :
      (id : ℕ) (b : RubricCreateBody) (actor : String)
      → RefusedOr
          (IsInserted id b.name b.scope b.metadata none actor)
          (create_rubric_in fl uuid fail now id b actor db)
  unfolding create_rubric_in
  create-effect id b actor =
      transaction-effect write_rubric_store_err (λ e. tt) (internal "트랜잭션 시작 실패")
        (internal "rubric 저장 실패") tt tt
        (λ stored.
          (201, rubric_made (uuid.format stored) b.name b.scope "draft" 1 none actor actor))
        db (fail begin_rubric) (fail commit_tx) _

  -- The reply is the row as it is in the tables `u`, which are kept.
  abbrev pub IsReread : ℕ → Database F → Reply (RubricReply F) × Database F → Type 0
  IsReread id u outcome =
      (r : Rubric) × (get_rubric_by_id fl uuid fail now id u ≡ (ok r, u))
      × (outcome ≡ (success 200 (rubric (to_rubric_response uuid r)), u))

  reread_and_commit-effect :
      (id : ℕ) (unsaved : String) (u : Database F)
      → RefusedOr (IsReread id u) (settled db (reread_and_commit fl uuid fail now id unsaved u))
  reread_and_commit-effect id unsaved u =
      elim (read-cases u (get_rubric_by_id fl uuid fail now id u)
        (λ a v. get_rubric-ok fl uuid fail now id u)) [
          | inl (e, v, bad) ↦ inl (rw bad (tt, refl))
          | inr (r, got) ↦ elim (Option-cases (fail commit_tx)) [
            | inr (e, lost) ↦ inl (rw (got, lost) (tt, refl))
            | inl kept ↦ inr (r, got, rw (got, kept))
          ]
        ]

  -- No active rubric is in the way of a draft that becomes active.
  abbrev pub MayActivate : Rubric → RubricUpdateBody → Type 0
  MayActivate cur b =
      ((cur.status == status_draft && b.status == status_active) ≡ false)
      ⊎ (count_rubrics fl uuid fail now status_active b.scope db ≡ (ok 0, db))

  abbrev pub IsUpdated :
      ℕ → RubricUpdateBody → (actor : String) → Reply (RubricReply F) × Database F → Type 0
  IsUpdated id b actor outcome =
      (cur : Rubric) × (get_rubric_by_id fl uuid fail now id db ≡ (ok cur, db))
      × MayActivate cur b
      × (u : Database F) × (update_rubric fl uuid fail now id b.name b.scope b.status b.metadata
            actor db
          ≡ (ok tt, u))
      × IsReread id u outcome

  edit-effect :
      (id : ℕ) (b : RubricUpdateBody) (actor : String)
      → RefusedOr
          (λ outcome.
            (u : Database F) × (update_rubric fl uuid fail now id b.name b.scope b.status b.metadata
                actor db
              ≡ (ok tt, u))
            × IsReread id u outcome)
          (settled db (update_and_commit fl uuid fail now id b actor db))
  edit-effect id b actor =
      elim (step-cases
        (update_rubric fl uuid fail now id b.name b.scope b.status b.metadata actor db)) [
          | inl (e, v, bad) ↦ inl (rw bad (tt, refl))
          | inr (x, u, done) ↦ rw done (elim (reread_and_commit-effect id "rubric 갱신 실패" u) [
            | inl refused ↦ inl refused
            | inr reread ↦ inr (u, refl, reread)
          ])
        ]

  activation-effect :
      (id : ℕ) (cur : Rubric) (b : RubricUpdateBody) (actor : String)
      → RefusedOr
          (λ outcome.
            MayActivate cur b
            × (u : Database F) × (update_rubric fl uuid fail now id b.name b.scope b.status
                  b.metadata actor db
                ≡ (ok tt, u))
            × IsReread id u outcome)
          (settled db (
            unless_active fl uuid fail now cur b
              (update_and_commit fl uuid fail now id b actor)
              db))
  activation-effect id cur b actor =
      elim (Bool-cases (cur.status == status_draft && b.status == status_active)) [
        | inr free ↦ rw free (elim (edit-effect id b actor) [
          | inl refused ↦ inl refused
          | inr (u, done, reread) ↦ inr (inl refl, u, done, reread)
        ])
        | inl activates ↦
            elim (read-cases db (count_rubrics fl uuid fail now status_active b.scope db)
              (λ a v. count-ok fl uuid fail now status_active b.scope db)) [
                | inl (e, v, bad) ↦ inl (rw (activates, bad) (tt, refl))
                | inr (n, counted) ↦ elim (Bool-cases (ltb 0 n)) [
                  | inl taken ↦ inl (rw (activates, counted, taken) (tt, refl))
                  | inr none_there ↦
                      let zero_rows : n ≡ 0 = ground arith in
                      let nothing : count_rubrics fl uuid fail now status_active b.scope db
                          ≡ (ok 0, db) =
                        counted ∙ ap (λ k. (ok k, db)) zero_rows in
                      rw (activates, nothing)
                        (elim (edit-effect id b actor) [
                          | inl refused ↦ inl refused
                          | inr (u, done, reread) ↦ inr (inr refl, u, done, reread)
                        ])
                ]
              ]
      ]

  pub update-effect :
      (id : ℕ) (b : RubricUpdateBody) (actor : String)
      → RefusedOr (IsUpdated id b actor) (update_rubric_in fl uuid fail now id b actor db)
  unfolding update_rubric_in
  update-effect id b actor = elim (Option-cases (fail begin_rubric)) [
    | inr (e, bad) ↦ inl (rw bad (tt, refl))
    | inl begun ↦
        elim (read-cases db (get_rubric_by_id fl uuid fail now id db)
          (λ a v. get_rubric-ok fl uuid fail now id db)) [
            | inl (e, v, bad) ↦ inl (rw (begun, bad) (tt, refl))
            | inr (cur, got) ↦ elim (activation-effect id cur b actor) [
              | inl refused ↦ inl (rw (begun, got) refused)
              | inr (may, u, done, (r, reread, same)) ↦
                  inr (cur, got, may, u, done, (r, reread, rw (begun, got) same))
            ]
          ]
  ]

  abbrev pub IsArchived : ℕ → (reason actor : String) → Reply (RubricReply F) × Database F → Type 0
  IsArchived id reason actor outcome =
      (u : Database F) × (archive_rubric fl uuid fail now id reason actor db ≡ (ok tt, u))
      × IsReread id u outcome

  pub archive-effect :
      (id : ℕ) (reason actor : String)
      → RefusedOr
          (IsArchived id reason actor)
          (archive_rubric_in fl uuid fail now id reason actor db)
  unfolding archive_rubric_in
  archive-effect id reason actor = elim (Option-cases (fail begin_rubric)) [
    | inr (e, bad) ↦ inl (rw bad (tt, refl))
    | inl begun ↦ elim (step-cases (archive_rubric fl uuid fail now id reason actor db)) [
      | inl (e, v, bad) ↦ inl (rw (begun, bad) (tt, refl))
      | inr (x, u, done) ↦
          rw (begun, done)
            (elim (reread_and_commit-effect id "rubric archive 실패" u) [
              | inl refused ↦ inl refused
              | inr reread ↦ inr (u, refl, reread)
            ])
    ]
  ]
