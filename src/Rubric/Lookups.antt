-- ===== src/Rubric/Lookups.antt =====
-- What the handlers of cmd/server/rubric_handlers.go check before a transaction, and what follows.
use iroum_ax.Prelude.{
  String, ℕ, false, Option, none, some, List, ◌≡◌, refl, ◌⊎◌, inl, inr, ◌==◌, Bool-cases,
  Option-cases, map,
}
use iroum_ax.Prelude.Text.{trim_space, eqb}
use iroum_ax.Errors.{Result, ok, Result-cases}
use iroum_ax.Audit.Uuid.{UuidLib}
use iroum_ax.Auth.Rbac.{User}
use iroum_ax.Postgres.{
  Rubric, RubricCriterion, RubricBand, Score, Database, Floats, Faults, begin_rubric, begin_score,
  begin_eval_item,
}
use iroum_ax.Server.{
  Reply, success, IsRefused, internal, resolve_created_by, attempt, reply_with, in_transaction,
}
use iroum_ax.Server.Paging.{clamp_review_pagination}
use iroum_ax.Score.{get_score_by_id}
use iroum_ax.Rubric.{
  get_rubric_by_id, list_rubrics, count_rubrics, get_criteria_by_rubric, get_bands_by_rubric,
}
use iroum_ax.Rubric.Answers.{
  IsInserted, IsArchived, get_rubric-ok, criteria-ok, bands-ok, create-effect, archive-effect,
}
use iroum_ax.Rubric.Parts.{
  IsWeighed, IsBanded, IsApplied, criterion-effect, band-effect, apply-effect,
}
use iroum_ax.Rubric.Bodies.{
  RubricReply, rubric, rubrics, RubricCreateBody, RubricCriterionBody, RubricBandBody,
  write_rubric_store_err, to_rubric_response,
}
use iroum_ax.Rubric.Handlers.{
  with_parts, get_eval_item_by_id, create_named, archive_given, band_lettered, criterion_referred,
  apply_referred, handle_list_rubrics,
}
use iroum_ax.Server.Transactions.{step-cases, read-cases}

module _ {F : Type 0} (fl : Floats F) (uuid : UuidLib)
    (sum_weighted : String → Database F → Result (Option F)) (fail : Faults) (now : ℕ)
    (db : Database F) where
  abbrev pub Outcome : Type 0
  Outcome = Reply (RubricReply F) × Database F

  abbrev pub Refused : Outcome → Type 0
  Refused outcome = IsRefused outcome.0 × (outcome.1 ≡ db)

  abbrev pub IsGot : ℕ → Outcome → Type 0
  IsGot id outcome =
      (r : Rubric) × (get_rubric_by_id fl uuid fail now id db ≡ (ok r, db))
      × (criteria : List (RubricCriterion F)) × (get_criteria_by_rubric fl uuid fail now id db
          ≡ (ok criteria, db))
      × (bands : List (RubricBand F)) × (get_bands_by_rubric fl uuid fail now id db
          ≡ (ok bands, db))
      × (outcome ≡ (
        success 200
            (rubric (with_parts fl uuid fail now (to_rubric_response uuid r) criteria bands)),
        db,
      ))

  abbrev pub IsListed : (status scope limit offset : String) → Outcome → Type 0
  IsListed status scope limit offset outcome =
      let page = clamp_review_pagination limit offset in
      (items : List Rubric) × (u : Database F) × (list_rubrics fl uuid fail now (trim_space status)
          (trim_space scope) page.0 page.1 db
        ≡ (ok items, u))
      × (total : ℕ) × (v : Database F) × (count_rubrics fl uuid fail now (trim_space status)
            (trim_space scope) u
          ≡ (ok total, v))
      × (outcome ≡ (success 200 (rubrics (map (to_rubric_response uuid) items) total), db))

  -- The item of the criterion and what follows it.
  abbrev pub IsReferred : ℕ → Option User → ℕ → RubricCriterionBody F → Outcome → Type 0
  IsReferred new_id user id b outcome =
      (item : ℕ) × (uuid.parse (trim_space b.evaluation_item_id) ≡ some item)
      × (eqb item 0 ≡ false)
      × (get_eval_item_by_id fl uuid fail now (uuid.format item) db ≡ ok tt)
      × IsWeighed fl uuid fail now db new_id id item b.weight (resolve_created_by user) outcome

  -- The score, its item's sum, and what follows them.
  abbrev pub IsScored : ℕ → String → Outcome → Type 0
  IsScored id raw_score outcome =
      (score_id : ℕ) × (uuid.parse (trim_space raw_score) ≡ some score_id)
      × (eqb score_id 0 ≡ false)
      × (score : Score F) × ((get_score_by_id fl uuid fail now score_id db).0 ≡ ok score)
      × (value : F) × (sum_weighted score.evaluation_item_id db ≡ ok (some value))
      × IsApplied fl uuid fail now db id score_id value outcome

  pub get-effect :
      (id : ℕ)
      → let outcome =
          in_transaction
            (fail begin_rubric)
            (internal "트랜잭션 시작 실패")
            (attempt write_rubric_store_err (get_rubric_by_id fl uuid fail now id) (λ r.
              attempt write_rubric_store_err
                (get_criteria_by_rubric fl uuid fail now id)
                (λ criteria.
                  attempt write_rubric_store_err (get_bands_by_rubric fl uuid fail now id) (λ bands.
                    reply_with (
                      success 200 (
                        rubric (
                          with_parts fl uuid fail now
                            (to_rubric_response uuid r)
                            criteria
                            bands)))))))
            db in
        Refused outcome ⊎ IsGot id outcome
  get-effect id = elim (Option-cases (fail begin_rubric)) [
    | inr (e, bad) ↦ inl (rw bad (tt, refl))
    | inl begun ↦
        elim (read-cases db (get_rubric_by_id fl uuid fail now id db)
          (λ a u. get_rubric-ok fl uuid fail now id db)) [
            | inl (e, v, bad) ↦ inl (rw (begun, bad) (tt, refl))
            | inr (r, got) ↦
                elim (read-cases db (get_criteria_by_rubric fl uuid fail now id db)
                  (λ a u. criteria-ok fl uuid fail now id db)) [
                    | inl (e, v, bad) ↦ inl (rw (begun, got, bad) (tt, refl))
                    | inr (criteria, weights) ↦
                        elim (read-cases db (get_bands_by_rubric fl uuid fail now id db)
                          (λ a u. bands-ok fl uuid fail now id db)) [
                            | inl (e, v, bad) ↦ inl (rw (begun, got, weights, bad) (tt, refl))
                            | inr (bands, ranges) ↦ inr (
                              r,
                              got,
                              criteria,
                              weights,
                              bands,
                              ranges,
                              rw (begun, got, weights, ranges),
                            )
                          ]
                  ]
          ]
  ]

  pub list-effect :
      (status scope limit offset : String)
      → let outcome = handle_list_rubrics fl uuid fail now status scope limit offset db in
        Refused outcome ⊎ IsListed status scope limit offset outcome
  unfolding handle_list_rubrics
  list-effect status scope limit offset =
      let page = clamp_review_pagination limit offset in
      elim (Option-cases (fail begin_rubric)) [
        | inr (e, bad) ↦ inl (rw bad (tt, refl))
        | inl begun ↦
            elim (step-cases (
              list_rubrics fl uuid fail now (trim_space status) (trim_space scope) page.0 page.1
                db)) [
                  | inl (e, v, bad) ↦ inl (rw (begun, bad) (tt, refl))
                  | inr (items, u, listed) ↦
                      elim (step-cases
                        (count_rubrics fl uuid fail now (trim_space status) (trim_space scope) u)) [
                          | inl (e, v, bad) ↦ inl (rw (begun, listed, bad) (tt, refl))
                          | inr (total, v, counted) ↦
                              inr (items, u, listed, total, v, counted, rw (begun, listed, counted))
                        ]
                ]
      ]

  pub weight-effect :
      (new_id : ℕ) (user : Option User) (id : ℕ) (b : RubricCriterionBody F)
      → let outcome = criterion_referred fl uuid fail now new_id user id b db in
        Refused outcome ⊎ IsReferred new_id user id b outcome
  weight-effect new_id user id b =
      elim (Option-cases (uuid.parse (trim_space b.evaluation_item_id))) [
        | inl bad ↦ inl (rw bad (tt, refl))
        | inr (item, parsed) ↦ elim (Bool-cases (eqb item 0)) [
          | inl nil ↦ inl (rw (parsed, nil) (tt, refl))
          | inr given ↦ elim (Option-cases (fail begin_eval_item)) [
            | inr (e, bad) ↦ inl (rw (parsed, given, bad) (tt, refl))
            | inl begun ↦
                elim (Result-cases (get_eval_item_by_id fl uuid fail now (uuid.format item) db)) [
                  | inl (e, bad) ↦ inl (rw (parsed, given, begun, bad) (tt, refl))
                  | inr (x, found) ↦
                      rw (parsed, given, begun, found)
                        (elim (criterion-effect fl uuid fail now db new_id id item b.weight
                          (resolve_created_by user)) [
                            | inl refused ↦ inl refused
                            | inr done ↦ inr (item, refl, given, found, done)
                          ])
                ]
          ]
        ]
      ]

  pub score-effect :
      (id : ℕ) (raw_score : String)
      → let outcome = apply_referred fl uuid fail now sum_weighted id raw_score db in
        Refused outcome ⊎ IsScored id raw_score outcome
  score-effect id raw_score = elim (Option-cases (uuid.parse (trim_space raw_score))) [
    | inl bad ↦ inl (rw bad (tt, refl))
    | inr (score_id, parsed) ↦ elim (Bool-cases (eqb score_id 0)) [
      | inl nil ↦ inl (rw (parsed, nil) (tt, refl))
      | inr given ↦ elim (Option-cases (fail begin_score)) [
        | inr (e, bad) ↦ inl (rw (parsed, given, bad) (tt, refl))
        | inl begun ↦ elim (Result-cases (get_score_by_id fl uuid fail now score_id db).0) [
          | inl (e, bad) ↦ inl (rw (parsed, given, begun, bad) (tt, refl))
          | inr (score, found) ↦ elim (Result-cases (sum_weighted score.evaluation_item_id db)) [
            | inl (e, bad) ↦ inl (rw (parsed, given, begun, found, bad) (tt, refl))
            | inr (none, summed) ↦ inl (rw (parsed, given, begun, found, summed) (tt, refl))
            | inr (some value, summed) ↦ elim (apply-effect fl uuid fail now db id score_id value) [
              | inl refused ↦ inl (rw (parsed, given, begun, found, summed) refused)
              | inr (band, u, got, same) ↦ inr (
                score_id,
                parsed,
                given,
                score,
                found,
                value,
                summed,
                (band, u, got, rw (parsed, given, begun, found, summed) same),
              )
            ]
          ]
        ]
      ]
    ]
  ]

  pub named-effect :
      (id : ℕ) (user : Option User) (b : RubricCreateBody)
      → let outcome = create_named fl uuid fail now id user b db in
        Refused outcome
        ⊎ (((trim_space b.name == "") ≡ false)
            × IsInserted fl uuid fail now db id b.name b.scope b.metadata none
                (resolve_created_by user)
                outcome)
  named-effect id user b = elim (Bool-cases (trim_space b.name == "")) [
    | inl blank ↦ inl (rw blank (tt, refl))
    | inr named ↦ elim (create-effect fl uuid fail now db id b (resolve_created_by user)) [
      | inl refused ↦ inl (rw named refused)
      | inr (n, u, done, same) ↦ inr (named, (n, u, done, rw named same))
    ]
  ]

  pub reason-effect :
      (user : Option User) (id : ℕ) (reason : String)
      → let outcome = archive_given fl uuid fail now user id reason db in
        Refused outcome
        ⊎ (((trim_space reason == "") ≡ false)
            × IsArchived fl uuid fail now db id reason (resolve_created_by user) outcome)
  reason-effect user id reason = elim (Bool-cases (trim_space reason == "")) [
    | inl blank ↦ inl (rw blank (tt, refl))
    | inr given ↦ elim (archive-effect fl uuid fail now db id reason (resolve_created_by user)) [
      | inl refused ↦ inl (rw given refused)
      | inr (u, done, (r, read, same)) ↦ inr (given, (u, done, (r, read, rw given same)))
    ]
  ]

  pub letter-effect :
      (new_id : ℕ) (user : Option User) (id : ℕ) (b : RubricBandBody F)
      → let outcome = band_lettered fl uuid fail now new_id user id b db in
        Refused outcome
        ⊎ (((trim_space b.letter == "") ≡ false)
            × IsBanded fl uuid fail now db new_id id b (resolve_created_by user) outcome)
  letter-effect new_id user id b = elim (Bool-cases (trim_space b.letter == "")) [
    | inl blank ↦ inl (rw blank (tt, refl))
    | inr given ↦ elim (band-effect fl uuid fail now db new_id id b (resolve_created_by user)) [
      | inl refused ↦ inl (rw given refused)
      | inr (existing, got, apart, (n, u, done, same)) ↦
          inr (given, (existing, got, apart, (n, u, done, rw given same)))
    ]
  ]
