-- ===== src/Auth/Authn.antt =====
-- The authentication of auth/middleware.go: `RESTMiddleware` and `UnaryServerInterceptor`. A validator
-- is given by its `Verify`; none is the nil validator.
pub mod Guard
use Prim.Native.String
use iroum_ax.Prelude.{
  String, ℕ, Bool, true, false, Option, none, some, List, [], ◌∷◌, if◌then◌else◌, ◌==◌,
}
use iroum_ax.Prelude.Text.{cut_prefix}
use iroum_ax.Errors.{Error, Result, ok, err, errors_is, token_expired}
use iroum_ax.Auth.Rbac.{User}
use iroum_ax.Auth.Claims.{ValidatedToken, validated_token_to_user}
use iroum_ax.Auth.Http.{Request, code_body, Response, Reply, Handler, plain, json_header}
use iroum_ax.Auth.Grpc.{Call, Outcome, UnaryHandler, unauthenticated, refusal}

abbrev pub Verify : Type 0
Verify = String → Result ValidatedToken

-- `writeAuthError`.
abbrev pub auth_error : String → String → Response
auth_error code www_auth = record {
  status = 401;
  headers = ("WWW-Authenticate", www_auth) ∷ json_header ∷ [];
  body = code_body code;
}

abbrev www_auth_of : Error → String
www_auth_of e =
    if errors_is e token_expired
    then "Bearer realm=\"iroum-ax\", error=\"invalid_token\", error_description=\"token expired\""
    else "Bearer realm=\"iroum-ax\", error=\"invalid_token\""

abbrev pub with_user : Request → User → Request
with_user r u = record r { user = some u }

-- From the result of `Verify` on.
unfoldable pub enter : Handler → Request → Result ValidatedToken → Reply
unfolding errors_is validated_token_to_user
enter next r (err e) = plain (auth_error "invalid_token" (www_auth_of e))
enter next r (ok vt) = next (with_user r (validated_token_to_user vt))

-- From the token of the header on.
unfoldable pub verify_bearer : Verify → Handler → Request → Option String → Reply
unfolding enter
verify_bearer verify next r none =
    plain (auth_error "invalid_request" "Bearer realm=\"iroum-ax\", error=\"invalid_request\"")
verify_bearer verify next r (some token) = enter next r (verify token)

unfoldable pub rest_middleware : Option Verify → Handler → Handler
unfolding cut_prefix verify_bearer
rest_middleware none next r = next r
rest_middleware (some verify) next r =
    if r.path == "/health"
    then next r
    else if r.authorization == ""
    then plain (auth_error "missing_authorization" "Bearer realm=\"iroum-ax\"")
    else verify_bearer verify next r (cut_prefix r.authorization "Bearer ")

-- `error_text` is what `%v` writes for an error.
module _ {ℓ} {A : Type ℓ} (error_text : Error → String) where
  abbrev pub enter_call : UnaryHandler A → Call → Result ValidatedToken → Outcome A
  enter_call handler c (err e) = refusal unauthenticated (String.◌++◌ "토큰 검증 실패: " (error_text e))
  enter_call handler c (ok vt) = handler (record c { user = some (validated_token_to_user vt) })

  abbrev pub verify_call : Verify → UnaryHandler A → Call → Option String → Outcome A
  verify_call verify handler c none =
      refusal unauthenticated "Authorization scheme이 올바르지 않습니다 (Bearer 필요)"
  verify_call verify handler c (some token) = enter_call handler c (verify token)

  abbrev pub authenticate : Verify → UnaryHandler A → Call → Option (List String) → Outcome A
  authenticate verify handler c none = refusal unauthenticated "인증 메타데이터가 없습니다"
  authenticate verify handler c (some []) = refusal unauthenticated "Authorization 헤더가 필요합니다"
  authenticate verify handler c (some (header ∷ more)) =
      verify_call verify handler c (cut_prefix header "Bearer ")

  unfoldable pub unary_server_interceptor : Option Verify → UnaryHandler A → UnaryHandler A
  unfolding cut_prefix validated_token_to_user
  unary_server_interceptor none handler c = handler c
  unary_server_interceptor (some verify) handler c =
      if c.full_method == "/grpc.health.v1.Health/Check"
      then handler c
      else authenticate verify handler c c.authorization
