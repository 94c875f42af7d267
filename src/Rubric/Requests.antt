-- ===== src/Rubric/Requests.antt =====
-- The requests of cmd/server/rubric_handlers.go as one type, and the routes that serve
-- them.
use iroum_ax.Prelude.{String, ℕ, Option}
use iroum_ax.Errors.{Result}
use iroum_ax.Audit.Uuid.{UuidLib}
use iroum_ax.Auth.Rbac.{User}
use iroum_ax.Postgres.{Database, Floats, Faults}
use iroum_ax.Server.{Reply}
use iroum_ax.Rubric.Bodies.{
  RubricReply, RubricCreateBody, RubricUpdateBody, RubricCriterionBody, RubricBandBody,
}
use iroum_ax.Rubric.Handlers.{
  handle_create_rubric, handle_get_rubric, handle_list_rubrics, handle_update_rubric,
  handle_archive_rubric, handle_add_criterion, handle_add_band, handle_apply_rubric,
  handle_clone_new_version,
}

pub data RubricRequest (F : Type 0) : Type 0 where
  -- The identifiers `id` and `new_id` are the ones that a new row would get.
  create_rubric : (id : ℕ) → Option User → Option RubricCreateBody → RubricRequest F
  get_rubric : (raw_id : String) → RubricRequest F
  find_rubrics : (status scope limit offset : String) → RubricRequest F
  change_rubric : Option User → (raw_id : String) → Option RubricUpdateBody → RubricRequest F
  archive : Option User → (raw_id : String) → Option String → RubricRequest F
  add_weight :
      (new_id : ℕ)
      → Option User
      → (raw_id : String) → Option (RubricCriterionBody F)
      → RubricRequest F
  add_range :
      (new_id : ℕ) → Option User → (raw_id : String) → Option (RubricBandBody F) → RubricRequest F
  apply : (raw_id : String) → Option String → RubricRequest F
  clone : (new_id : ℕ) → Option User → (raw_id : String) → RubricRequest F

module _ {F : Type 0} (fl : Floats F) (uuid : UuidLib)
    (sum_weighted : String → Database F → Result (Option F)) where
  unfoldable pub serve_rubric :
      Faults → ℕ → RubricRequest F → Database F → Reply (RubricReply F) × Database F
  unfolding handle_create_rubric handle_get_rubric handle_list_rubrics handle_update_rubric
      handle_archive_rubric handle_add_criterion handle_add_band handle_apply_rubric
      handle_clone_new_version
  serve_rubric fail now (create_rubric id user body) =
      handle_create_rubric fl uuid fail now id user body
  serve_rubric fail now (get_rubric raw_id) = handle_get_rubric fl uuid fail now raw_id
  serve_rubric fail now (find_rubrics status scope limit offset) =
      handle_list_rubrics fl uuid fail now status scope limit offset
  serve_rubric fail now (change_rubric user raw_id body) =
      handle_update_rubric fl uuid fail now user raw_id body
  serve_rubric fail now (archive user raw_id body) =
      handle_archive_rubric fl uuid fail now user raw_id body
  serve_rubric fail now (add_weight new_id user raw_id body) =
      handle_add_criterion fl uuid fail now new_id user raw_id body
  serve_rubric fail now (add_range new_id user raw_id body) =
      handle_add_band fl uuid fail now new_id user raw_id body
  serve_rubric fail now (apply raw_id body) =
      handle_apply_rubric fl uuid fail now sum_weighted raw_id body
  serve_rubric fail now (clone new_id user raw_id) =
      handle_clone_new_version fl uuid fail now new_id user raw_id
