-- ===== src/Auth/Authz.antt =====
-- auth/authz_middleware.go: the authorization middleware of REST and of gRPC. A recorder that is nil
-- is told nothing, and the error of one that fails is dropped.
pub mod Access
pub mod Routes
use Prim.Native.String
use iroum_ax.Prelude.{
  String, ℕ, Bool, true, false, Option, none, some, List, [], ◌∷◌, map, if◌then◌else◌, ◌==◌,
}
use iroum_ax.Errors.{Error, Result, ok, err, errors_is, insufficient_permission}
use iroum_ax.Auth.Rbac.{User, Role, role_name, user_roles, authorize}
use iroum_ax.Auth.Mapping.{Lookup, lookup_rest_permission, lookup_grpc_permission}
use iroum_ax.Auth.Http.{
  Request, Body, forbidden_body, error_body, Response, ForbiddenEvent, Reply, Handler, plain,
  json_header,
}
use iroum_ax.Auth.Grpc.{
  Call, status, Outcome, UnaryHandler, unavailable, permission_denied, refusal,
}

abbrev pub with_granted_permission : Request → String → Request
with_granted_permission r perm = record r { granted = some perm }

-- `GrantedPermissionFromContext`: the empty permission counts as none.
unfoldable pub granted_permission_from_context : Request → Option String
granted_permission_from_context r = elim r.granted [
  | none ↦ none
  | some p ↦ if p == "" then none else some p
]

abbrev pub forbidden_response : String → List Role → Response
forbidden_response required roles = record {
  status = 403;
  headers =
      json_header
      ∷ (
        "WWW-Authenticate",
        String.◌++◌ "Bearer realm=\"iroum-ax\", error=\"insufficient_scope\", scope=\""
            (String.◌++◌ required "\""),
      )
      ∷ [];
  body = forbidden_body "PERMISSION_DENIED" "insufficient scope" required (map role_name roles);
}

abbrev pub mapping_missing_response : Response
mapping_missing_response = record {
  status = 503;
  headers = json_header ∷ [];
  body = error_body "AUTHZ_MAPPING_MISSING" "authorization mapping not defined for this method";
}

abbrev pub user_missing_response : Response
user_missing_response = record {
  status = 500;
  headers = json_header ∷ [];
  body = error_body "AUTHZ_USER_MISSING" "authenticated user context not propagated";
}

-- `if recorder != nil { recorder.LogForbiddenEvent(…) }`.
abbrev pub told : Bool → ForbiddenEvent → List ForbiddenEvent
told true e = e ∷ []
told false e = []

-- The handling of `Authorize`'s error.
unfoldable pub deny : Bool → Request → String → User → Error → Reply
unfolding errors_is user_roles
deny has_recorder r perm user e =
    if errors_is e insufficient_permission
    then record {
      response = forbidden_response perm (user_roles user);
      audited = told has_recorder (record {
        method = r.method;
        path = r.path;
        required = perm;
        user_id = user.uid;
        granted_roles = user_roles user;
      });
    }
    else plain user_missing_response

-- From the result of `Authorize` on.
unfoldable pub answer : Bool → Handler → Request → String → User → Result (Unit {0}) → Reply
unfolding deny
answer has_recorder next r perm user (err e) = deny has_recorder r perm user e
answer has_recorder next r perm user (ok done) = next (with_granted_permission r perm)

-- From `UserFromContext` on; `Authorize` reads the same user from the context.
unfoldable pub check_user : Bool → Handler → Request → String → Option User → Reply
unfolding authorize answer
check_user has_recorder next r perm none = plain user_missing_response
check_user has_recorder next r perm (some user) =
    answer has_recorder next r perm user (authorize (some user) perm)

unfoldable pub rest_authz_middleware : Bool → Bool → Handler → Handler
unfolding lookup_rest_permission check_user
rest_authz_middleware has_recorder auth_enabled next r =
    let mapping = lookup_rest_permission r.method r.path in
    if auth_enabled
    then if mapping.bypass
      then next r
      else if mapping.found
      then check_user has_recorder next r mapping.perm r.user
      else plain mapping_missing_response
    else next r

-- The denial of a gRPC call, of which the recorder is told where there is a user.
abbrev pub denied_call {ℓ} : {A : Type ℓ} → Bool → Call → String → Option User → Outcome A
denied_call has_recorder c perm user = record {
  answer = status permission_denied (String.◌++◌ "insufficient scope: required=" perm);
  audited = elim user [
    | none ↦ []
    | some u ↦ told has_recorder (record {
      method = c.full_method;
      path = "";
      required = perm;
      user_id = u.uid;
      granted_roles = user_roles u;
    })
  ];
}

abbrev pub answer_call {ℓ} :
    {A : Type ℓ} → Bool → UnaryHandler A → Call → String → Result (Unit {0}) → Outcome A
answer_call has_recorder handler c perm (err e) = denied_call has_recorder c perm c.user
answer_call has_recorder handler c perm (ok done) = handler c

unfoldable pub unary_authz_interceptor {ℓ} :
    {A : Type ℓ} → Bool → Bool → UnaryHandler A → UnaryHandler A
unfolding lookup_grpc_permission authorize user_roles
unary_authz_interceptor has_recorder auth_enabled handler c =
    let mapping = lookup_grpc_permission c.full_method in
    if auth_enabled
    then if mapping.bypass
      then handler c
      else if mapping.found
      then answer_call has_recorder handler c mapping.perm (authorize c.user mapping.perm)
      else refusal unavailable
          (String.◌++◌ "authorization mapping not defined for this method: " c.full_method)
    else handler c
