-- ===== src/Audit/Uuid.antt =====
-- The calls of github.com/google/uuid: a parameter of the model.
use iroum_ax.Prelude.{String, ℕ, Option, some, ◌≡◌}

pub record UuidLib : Type 0 where
  -- `UUID.String` and `uuid.Parse`.
  pub format : ℕ → String
  pub parse : String → Option ℕ

-- Documented: the canonical form of an identifier parses to the identifier.
abbrev pub ParsesFormat : UuidLib → Type 0
ParsesFormat uuid = (id : ℕ) → uuid.parse (uuid.format id) ≡ some id
