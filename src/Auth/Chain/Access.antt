-- ===== src/Auth/Chain/Access.antt =====
-- Who reaches the REST handlers of cmd/server/server.go through the whole chain.
use iroum_ax.Prelude.{
  String, true, false, Option, none, some, ◌==◌, ◌≡◌, refl, sym, ◌∙◌, inl, inr, Bool-cases,
}
use iroum_ax.Auth.Rbac.{User}
use iroum_ax.Auth.Rbac.Decision.{MayUse}
use iroum_ax.Auth.Claims.{validated_token_to_user}
use iroum_ax.Auth.Mapping.{lookup_rest_permission}
use iroum_ax.Auth.Http.{Request, Handler}
use iroum_ax.Auth.Authn.{Verify, with_user, rest_middleware}
use iroum_ax.Auth.Authn.Guard.{IsAuthentic, authentic_reply, authentic_or_IsShut}
use iroum_ax.Auth.Authz.{with_granted_permission, rest_authz_middleware}
use iroum_ax.Auth.Authz.Access.{IsAdmitted, IsGuarded, admitted_reply, handler_unreached}
use iroum_ax.Auth.Abac.{
  has_admin_role, evaluate_policies, evaluate, abac_middleware, default_abac_policies,
}
use iroum_ax.Auth.Chain.{build_rest_chain, apply_options, root_handler}

-- The request has a token that is accepted, whose user may use the permission of the request's route.
pub record IsEntitled (verify : Verify) (r : Request) : Type 0 where
  pub authentic : IsAuthentic verify r
  pub mapped : (lookup_rest_permission r.method r.path).found ≡ true
  pub may :
      MayUse (validated_token_to_user authentic.vt) (lookup_rest_permission r.method r.path).perm

may_of : {u w : User} {p : String} → MayUse w p → u ≡ w → MayUse u p
may_of may same = rw same may

evaluate-default : (user : Option User) (r : Request) → evaluate default_abac_policies user r ≡ none
unfolding evaluate evaluate_policies
evaluate-default none r = refl
evaluate-default (some user) r = elim (Bool-cases (has_admin_role user)) [
  | inl yes_admin ↦ rw yes_admin
  | inr plain_user ↦ rw plain_user
]

abac_default :
    (next : Handler) (r : Request)
    → abac_middleware default_abac_policies false true next r ≡ next r
unfolding abac_middleware
abac_default next r = rw evaluate-default

-- The chain with authorization on.
abbrev guarded : Verify → Handler → Handler
guarded verify inner =
    rest_middleware (some verify)
      (rest_authz_middleware false true (abac_middleware default_abac_policies false true inner))

root_handler_lem :
    (verify : Verify) (inner : Handler) (r : Request)
    → root_handler (some verify) true inner r ≡ guarded verify inner r
unfolding root_handler build_rest_chain apply_options
root_handler_lem verify inner r = refl

-- With authorization on, an entitled request to a guarded path other than /health has the reply of the
-- inner multiplexer, which finds the user of the token and the permission in the request's context.
pub entitled_reply :
    (verify : Verify) (inner : Handler) (r : Request)
    → (r.path == "/health") ≡ false
    → IsGuarded r
    → (e : IsEntitled verify r)
    → root_handler (some verify) true inner r
      ≡ inner (
          with_granted_permission
            (with_user r (validated_token_to_user e.authentic.vt))
            (lookup_rest_permission r.method r.path).perm)
entitled_reply verify inner r path guard e =
    let user = validated_token_to_user e.authentic.vt in
    let entered : Request = with_user r user in
    let admitted : IsAdmitted entered = record {
      user = user;
      present = refl;
      mapped = e.mapped;
      may = e.may;
    } in
    root_handler_lem verify inner r
    ∙ authentic_reply verify _ r path e.authentic
    ∙ admitted_reply false (abac_middleware default_abac_policies false true inner) entered guard
        admitted
    ∙ abac_default inner _

-- With authorization on, the reply to a request to a guarded path other than /health that is not
-- entitled is the same whatever handlers are mounted: none of them is reached.
pub handlers_unreached :
    (verify : Verify) (inner other : Handler) (r : Request)
    → (r.path == "/health") ≡ false
    → IsGuarded r
    → ¬ IsEntitled verify r
    → root_handler (some verify) true inner r ≡ root_handler (some verify) true other r
handlers_unreached verify inner other r path guard outside =
    let behind : Handler → Handler =
      λ h. rest_authz_middleware false true (abac_middleware default_abac_policies false true h) in
    elim (authentic_or_IsShut verify r path) [
      | inr shut ↦
          root_handler_lem verify inner r
          ∙ (shut (behind inner) (behind other)).0
          ∙ sym (root_handler_lem verify other r)
      | inl a ↦
          let user = validated_token_to_user a.vt in
          let entered : Request = with_user r user in
          let not_admitted : ¬ IsAdmitted entered = λ admitted. outside (record {
            authentic = a;
            mapped = admitted.mapped;
            may = may_of admitted.may (cc admitted.present);
          }) in
          root_handler_lem verify inner r
          ∙ authentic_reply verify (behind inner) r path a
          ∙ handler_unreached false (abac_middleware default_abac_policies false true inner)
              (abac_middleware default_abac_policies false true other) entered guard not_admitted
          ∙ sym (authentic_reply verify (behind other) r path a)
          ∙ sym (root_handler_lem verify other r)
    ]
