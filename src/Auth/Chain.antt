-- ===== src/Auth/Chain.antt =====
-- auth/chain.go, which puts the authentication around the authorization around a handler, and the
-- handler that cmd/server/server.go mounts at "/".
pub mod Access
pub mod Calls
use iroum_ax.Prelude.{String, Bool, true, false, Option, none, some, List, [], ◌∷◌, if◌then◌else◌}
use iroum_ax.Errors.{Error}
use iroum_ax.Auth.Http.{Handler}
use iroum_ax.Auth.Grpc.{UnaryHandler}
use iroum_ax.Auth.Authn.{Verify, rest_middleware, unary_server_interceptor}
use iroum_ax.Auth.Authz.{rest_authz_middleware, unary_authz_interceptor}
use iroum_ax.Auth.Abac.{abac_middleware, default_abac_policies}

abbrev pub Middleware : Type 0
Middleware = Handler → Handler

-- `chainBuildOptions`.
pub record ChainBuildOptions : Type 0 where
  pub authn_middleware : Option Middleware
  pub authz_middleware : Option Middleware

-- `ChainOption`.
abbrev pub ChainOption : Type 0
ChainOption = ChainBuildOptions → ChainBuildOptions

abbrev pub with_middleware_override : Option Middleware → Option Middleware → ChainOption
with_middleware_override authn authz o = record {
  authn_middleware = authn;
  authz_middleware = authz;
}

unfoldable pub apply_options : List ChainOption → ChainBuildOptions → ChainBuildOptions
apply_options [] o = o
apply_options (opt ∷ opts) o = apply_options opts (opt o)

abbrev pub or_default : Option Middleware → Middleware → Middleware
or_default none default = default
or_default (some override) default = override

unfoldable pub build_rest_chain : Handler → Option Verify → Bool → Bool → List ChainOption → Handler
unfolding apply_options rest_middleware rest_authz_middleware
build_rest_chain handler verify has_recorder auth_enabled opts r =
    let o = apply_options opts (record { authn_middleware = none; authz_middleware = none }) in
    let authz = or_default o.authz_middleware (rest_authz_middleware has_recorder auth_enabled) in
    let authn = or_default o.authn_middleware (rest_middleware verify) in
    if auth_enabled then authn (authz handler) r else handler r

-- `BuildGRPCInterceptorChain`, in whose chain the first interceptor is the outermost.
unfoldable pub grpc_chain {ℓ} :
    {A : Type ℓ} → (Error → String) → Option Verify → Bool → Bool → UnaryHandler A → UnaryHandler A
unfolding unary_server_interceptor unary_authz_interceptor
grpc_chain error_text verify has_recorder auth_enabled handler c =
    if auth_enabled
    then unary_server_interceptor error_text verify
        (unary_authz_interceptor has_recorder auth_enabled handler) c
    else handler c

-- `outerMux.Handle("/", …)`, around the inner multiplexer.
unfoldable pub root_handler : Option Verify → Bool → Handler → Handler
unfolding abac_middleware build_rest_chain
root_handler verify auth_enabled inner_mux =
    build_rest_chain (abac_middleware default_abac_policies false auth_enabled inner_mux) verify
      false auth_enabled []
