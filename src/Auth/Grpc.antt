-- ===== src/Auth/Grpc.antt =====
-- The parts of google.golang.org/grpc that the interceptors of auth/ read and write. The request that a
-- handler is given is not changed by them and is left out.
use iroum_ax.Prelude.{String, Option, List, []}
use iroum_ax.Auth.Rbac.{User}
use iroum_ax.Auth.Http.{ForbiddenEvent}

pub data Code : Type 0 where
  unavailable permission_denied unauthenticated : Code

-- `authorization` is `md.Get("authorization")` of the incoming metadata, none where there is none.
pub record Call : Type 0 where
  pub full_method : String
  pub authorization : Option (List String)
  pub user : Option User

-- `(any, error)`: what a handler sends, or a status.
pub data Answer {ℓ} (A : Type ℓ) : Type ℓ where
  sent : A → Answer A
  status : Code → String → Answer A

pub record Outcome {ℓ} (A : Type ℓ) : Type ℓ where
  pub answer : Answer A
  pub audited : List ForbiddenEvent

-- `grpc.UnaryHandler`.
abbrev pub UnaryHandler {ℓ} : Type ℓ → Type ℓ
UnaryHandler A = Call → Outcome A

abbrev pub refusal {ℓ} : {A : Type ℓ} → Code → String → Outcome A
refusal code message = record { answer = status code message; audited = [] }
