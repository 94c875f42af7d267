-- ===== src/Auth/Http.antt =====
-- The parts of net/http that the middleware of auth/ reads and writes. A response is the status, the
-- headers set and the value that is encoded as JSON; what a recorder is told is kept beside it.
use iroum_ax.Prelude.{String, ℕ, Option, List, []}
use iroum_ax.Auth.Rbac.{User, Role}

-- `user` and `granted` are the request context's values, none where the key is absent or nil.
pub record Request : Type 0 where
  pub method : String
  pub path : String
  -- `Header.Get("Authorization")`, empty where the header is missing.
  pub authorization : String
  pub user : Option User
  pub granted : Option String

-- The values that the middleware encodes, and one for what handlers send.
pub data Body : Type 0 where
  -- `{"error": {"code", "message", "details": {"required", "granted"}}}`.
  forbidden_body : (code message required : String) → List String → Body
  -- `{"error": {"code", "message"}}`.
  error_body : (code message : String) → Body
  -- `{"error": code}`.
  code_body : (code : String) → Body
  content : String → Body

pub record Response : Type 0 where
  pub status : ℕ
  pub headers : List (String × String)
  pub body : Body

-- A call of `auditRecorder.LogForbiddenEvent`.
pub record ForbiddenEvent : Type 0 where
  pub method : String
  pub path : String
  pub required : String
  pub user_id : String
  pub granted_roles : List Role

pub record Reply : Type 0 where
  pub response : Response
  pub audited : List ForbiddenEvent

-- `http.Handler`.
abbrev pub Handler : Type 0
Handler = Request → Reply

abbrev pub plain : Response → Reply
plain response = record { response = response; audited = [] }

abbrev pub json_header : String × String
json_header = ("Content-Type", "application/json")
