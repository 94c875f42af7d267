-- ===== src/Rubric/Results.antt =====
-- What the requests of cmd/server/rubric_handlers.go have met and done where they are answered with
-- success.
use iroum_ax.Prelude.{
  String, ℕ, true, false, Option, none, some, ◌≡◌, refl, ◌⊎◌, inl, inr, ◌==◌, Bool-cases,
  Option-cases,
}
use iroum_ax.Prelude.Text.{trim_space}
use iroum_ax.Errors.{Result}
use iroum_ax.Audit.Uuid.{UuidLib}
use iroum_ax.Postgres.{Database, Floats, Faults}
use iroum_ax.Server.{Reply, guard_admin, IsRefused, resolve_created_by}
use iroum_ax.Rubric.Answers.{IsInserted, IsUpdated, IsArchived, update-effect}
use iroum_ax.Rubric.Parts.{IsBanded, IsCloned, clone-effect}
use iroum_ax.Rubric.Bodies.{
  RubricReply, RubricCreateBody, RubricUpdateBody, RubricCriterionBody, RubricBandBody,
}
use iroum_ax.Rubric.Handlers.{
  handle_create_rubric, handle_get_rubric, handle_update_rubric, handle_archive_rubric,
  handle_add_criterion, handle_add_band, handle_apply_rubric, handle_clone_new_version,
}
use iroum_ax.Rubric.Requests.{
  RubricRequest, create_rubric, get_rubric, find_rubrics, change_rubric, archive, add_weight,
  add_range, apply, clone, serve_rubric,
}
use iroum_ax.Rubric.Lookups.{
  IsGot, IsListed, IsReferred, IsScored, get-effect, list-effect, weight-effect, score-effect,
  named-effect, reason-effect, letter-effect,
}

module _ {F : Type 0} (fl : Floats F) (uuid : UuidLib)
    (sum_weighted : String → Database F → Result (Option F)) (fail : Faults) (now : ℕ)
    (db : Database F) where
  -- What a request that is answered with success has met and done, and its reply.
  abbrev pub IsResult : RubricRequest F → Reply (RubricReply F) × Database F → Type 0
  IsResult (create_rubric id user body) outcome =
      (guard_admin user ≡ true)
      × (b : RubricCreateBody) × (body ≡ some b)
      × ((trim_space b.name == "") ≡ false)
      × IsInserted fl uuid fail now db id b.name b.scope b.metadata none (resolve_created_by user)
          outcome
  IsResult (get_rubric raw_id) outcome =
      (id : ℕ) × (uuid.parse raw_id ≡ some id) × IsGot fl uuid sum_weighted fail now db id outcome
  IsResult (find_rubrics status scope limit offset) outcome =
      IsListed fl uuid sum_weighted fail now db status scope limit offset outcome
  IsResult (change_rubric user raw_id body) outcome =
      (guard_admin user ≡ true)
      × (id : ℕ) × (uuid.parse raw_id ≡ some id)
      × (b : RubricUpdateBody) × (body ≡ some b)
      × IsUpdated fl uuid fail now db id b (resolve_created_by user) outcome
  IsResult (archive user raw_id body) outcome =
      (guard_admin user ≡ true)
      × (id : ℕ) × (uuid.parse raw_id ≡ some id)
      × (reason : String) × (body ≡ some reason)
      × ((trim_space reason == "") ≡ false)
      × IsArchived fl uuid fail now db id reason (resolve_created_by user) outcome
  IsResult (add_weight new_id user raw_id body) outcome =
      (guard_admin user ≡ true)
      × (id : ℕ) × (uuid.parse raw_id ≡ some id)
      × (b : RubricCriterionBody F) × (body ≡ some b)
      × IsReferred fl uuid sum_weighted fail now db new_id user id b outcome
  IsResult (add_range new_id user raw_id body) outcome =
      (guard_admin user ≡ true)
      × (id : ℕ) × (uuid.parse raw_id ≡ some id)
      × (b : RubricBandBody F) × (body ≡ some b)
      × ((trim_space b.letter == "") ≡ false)
      × IsBanded fl uuid fail now db new_id id b (resolve_created_by user) outcome
  IsResult (apply raw_id body) outcome =
      (id : ℕ) × (uuid.parse raw_id ≡ some id)
      × (raw_score : String) × (body ≡ some raw_score)
      × IsScored fl uuid sum_weighted fail now db id raw_score outcome
  IsResult (clone new_id user raw_id) outcome =
      (guard_admin user ≡ true)
      × (id : ℕ) × (uuid.parse raw_id ≡ some id)
      × IsCloned fl uuid fail now db new_id id (resolve_created_by user) outcome

  -- Every request on rubrics is answered with an error and leaves the tables as they were; or it has
  -- passed its checks (the administrator's role for a write, the identifiers, the body, and, in the
  -- tables it found, the sum of the weights, the meeting of bands, the other active rubrics), its
  -- operation of the store has succeeded with the arguments of the request, the tables are what this
  -- operation leaves (for a read and an application: as they were), and the reply is the success that
  -- tells of it.
  pub serve_rubric-IsResult :
      (r : RubricRequest F)
      → let outcome = serve_rubric fl uuid sum_weighted fail now r db in
        (IsRefused outcome.0 × (outcome.1 ≡ db)) ⊎ IsResult r outcome
  unfolding serve_rubric handle_create_rubric handle_get_rubric handle_update_rubric
      handle_archive_rubric handle_add_criterion handle_add_band handle_apply_rubric
      handle_clone_new_version
  serve_rubric-IsResult (create_rubric id user body) = elim (Bool-cases (guard_admin user)) [
    | inr closed ↦ inl (rw closed (tt, refl))
    | inl through ↦ elim (Option-cases body) [
      | inl empty ↦ inl (rw (through, empty) (tt, refl))
      | inr (b, given) ↦
          rw (through, given)
            (elim (named-effect fl uuid sum_weighted fail now db id user b) [
              | inl refused ↦ inl refused
              | inr (named, done) ↦ inr (refl, b, refl, named, done)
            ])
    ]
  ]
  serve_rubric-IsResult (get_rubric raw_id) = elim (Option-cases (uuid.parse raw_id)) [
    | inl bad ↦ inl (rw bad (tt, refl))
    | inr (id, parsed) ↦ rw parsed (elim (get-effect fl uuid sum_weighted fail now db id) [
      | inl refused ↦ inl refused
      | inr done ↦ inr (id, refl, done)
    ])
  ]
  serve_rubric-IsResult (find_rubrics status scope limit offset) =
      list-effect fl uuid sum_weighted fail now db status scope limit offset
  serve_rubric-IsResult (change_rubric user raw_id body) = elim (Bool-cases (guard_admin user)) [
    | inr closed ↦ inl (rw closed (tt, refl))
    | inl through ↦ elim (Option-cases (uuid.parse raw_id)) [
      | inl bad ↦ inl (rw (through, bad) (tt, refl))
      | inr (id, parsed) ↦ elim (Option-cases body) [
        | inl empty ↦ inl (rw (through, parsed, empty) (tt, refl))
        | inr (b, given) ↦
            rw (through, parsed, given)
              (elim (update-effect fl uuid fail now db id b (resolve_created_by user)) [
                | inl refused ↦ inl refused
                | inr done ↦ inr (refl, id, refl, b, refl, done)
              ])
      ]
    ]
  ]
  serve_rubric-IsResult (archive user raw_id body) = elim (Bool-cases (guard_admin user)) [
    | inr closed ↦ inl (rw closed (tt, refl))
    | inl through ↦ elim (Option-cases (uuid.parse raw_id)) [
      | inl bad ↦ inl (rw (through, bad) (tt, refl))
      | inr (id, parsed) ↦ elim (Option-cases body) [
        | inl empty ↦ inl (rw (through, parsed, empty) (tt, refl))
        | inr (reason, given) ↦
            rw (through, parsed, given)
              (elim (reason-effect fl uuid sum_weighted fail now db user id reason) [
                | inl refused ↦ inl refused
                | inr (nonblank, done) ↦ inr (refl, id, refl, reason, refl, nonblank, done)
              ])
      ]
    ]
  ]
  serve_rubric-IsResult (add_weight new_id user raw_id body) =
      elim (Bool-cases (guard_admin user)) [
        | inr closed ↦ inl (rw closed (tt, refl))
        | inl through ↦ elim (Option-cases (uuid.parse raw_id)) [
          | inl bad ↦ inl (rw (through, bad) (tt, refl))
          | inr (id, parsed) ↦ elim (Option-cases body) [
            | inl empty ↦ inl (rw (through, parsed, empty) (tt, refl))
            | inr (b, given) ↦
                rw (through, parsed, given)
                  (elim (weight-effect fl uuid sum_weighted fail now db new_id user id b) [
                    | inl refused ↦ inl refused
                    | inr done ↦ inr (refl, id, refl, b, refl, done)
                  ])
          ]
        ]
      ]
  serve_rubric-IsResult (add_range new_id user raw_id body) = elim (Bool-cases (guard_admin user)) [
    | inr closed ↦ inl (rw closed (tt, refl))
    | inl through ↦ elim (Option-cases (uuid.parse raw_id)) [
      | inl bad ↦ inl (rw (through, bad) (tt, refl))
      | inr (id, parsed) ↦ elim (Option-cases body) [
        | inl empty ↦ inl (rw (through, parsed, empty) (tt, refl))
        | inr (b, given) ↦
            rw (through, parsed, given)
              (elim (letter-effect fl uuid sum_weighted fail now db new_id user id b) [
                | inl refused ↦ inl refused
                | inr (lettered, done) ↦ inr (refl, id, refl, b, refl, lettered, done)
              ])
      ]
    ]
  ]
  serve_rubric-IsResult (apply raw_id body) = elim (Option-cases (uuid.parse raw_id)) [
    | inl bad ↦ inl (rw bad (tt, refl))
    | inr (id, parsed) ↦ elim (Option-cases body) [
      | inl empty ↦ inl (rw (parsed, empty) (tt, refl))
      | inr (raw_score, given) ↦
          rw (parsed, given)
            (elim (score-effect fl uuid sum_weighted fail now db id raw_score) [
              | inl refused ↦ inl refused
              | inr done ↦ inr (id, refl, raw_score, refl, done)
            ])
    ]
  ]
  serve_rubric-IsResult (clone new_id user raw_id) = elim (Bool-cases (guard_admin user)) [
    | inr closed ↦ inl (rw closed (tt, refl))
    | inl through ↦ elim (Option-cases (uuid.parse raw_id)) [
      | inl bad ↦ inl (rw (through, bad) (tt, refl))
      | inr (id, parsed) ↦
          rw (through, parsed)
            (elim (clone-effect fl uuid fail now db new_id id (resolve_created_by user)) [
              | inl refused ↦ inl refused
              | inr done ↦ inr (refl, id, refl, done)
            ])
    ]
  ]
