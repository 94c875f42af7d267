-- ===== src/Auth/Authz/Access.antt =====
-- Who reaches a handler through the REST authorization of auth/authz_middleware.go.
use iroum_ax.Prelude.{
  String, Bool, true, false, some, ◌≡◌, ◌∙◌, sym, ap, Bool-cases, Option-cases, inl, inr,
}
use iroum_ax.Errors.{Result-cases}
use iroum_ax.Auth.Rbac.{User, user_roles, authorize}
use iroum_ax.Auth.Rbac.Decision.{MayUse, authorize_iff, authorize_refusal}
use iroum_ax.Auth.Mapping.{lookup_rest_permission}
use iroum_ax.Auth.Http.{Request, Reply, Handler}
use iroum_ax.Auth.Authz.{
  with_granted_permission, forbidden_response, told, deny, answer, check_user,
  rest_authz_middleware,
}

-- The request has a mapped permission and a user who may use it.
pub record IsAdmitted (r : Request) : Type 0 where
  pub user : User
  pub present : r.user ≡ some user
  pub mapped : (lookup_rest_permission r.method r.path).found ≡ true
  pub may : MayUse user (lookup_rest_permission r.method r.path).perm

check_user-admitted :
    (recorder : Bool) (next : Handler) (r : Request) (perm : String) (u : User)
    → MayUse u perm
    → check_user recorder next r perm (some u) ≡ next (with_granted_permission r perm)
unfolding check_user answer
check_user-admitted recorder next r perm u may = rw ((authorize_iff u perm).1 may)

abbrev pub forbidden_reply : Bool → Request → String → User → Reply
forbidden_reply recorder r perm u = record {
  response = forbidden_response perm (user_roles u);
  audited = told recorder (record {
    method = r.method;
    path = r.path;
    required = perm;
    user_id = u.uid;
    granted_roles = user_roles u;
  });
}

check_user-refused :
    (recorder : Bool) (next : Handler) (r : Request) (perm : String) (u : User)
    → ¬ MayUse u perm
    → check_user recorder next r perm (some u) ≡ forbidden_reply recorder r perm u
unfolding check_user answer deny
check_user-refused recorder next r perm u not_may = elim (Result-cases (authorize (some u) perm)) [
  | inl (e, refused) ↦ rw (refused, authorize_refusal (some u) perm refused)
  | inr (done, allowed) ↦ absurd (not_may ((authorize_iff u perm).0 allowed))
]

-- Neither authorization that is off nor a bypass lets the request pass unseen.
abbrev pub IsGuarded : Request → Type 0
IsGuarded r = (lookup_rest_permission r.method r.path).bypass ≡ false

-- With authorization on, a guarded request whose user may use the mapped permission has the reply of
-- the handler, which is given the request with that permission added to its context.
pub admitted_reply :
    (recorder : Bool) (next : Handler) (r : Request)
    → IsGuarded r
    → (admitted : IsAdmitted r)
    → rest_authz_middleware recorder true next r
      ≡ next (with_granted_permission r (lookup_rest_permission r.method r.path).perm)
unfolding rest_authz_middleware
admitted_reply recorder next r guarded admitted =
    let perm = (lookup_rest_permission r.method r.path).perm in
    rw (guarded, admitted.mapped)
      (ap (λ user. check_user recorder next r perm user) admitted.present
        ∙ check_user-admitted recorder next r perm admitted.user admitted.may)

-- With authorization on, a guarded and mapped request of a user who may not use the permission is
-- answered with 403, the permission and the user's roles, and the recorder, where there is one, is
-- told of it once; the handler has no part in the reply.
pub refused_reply :
    (recorder : Bool) (next : Handler) (r : Request) (u : User)
    → IsGuarded r
    → (lookup_rest_permission r.method r.path).found ≡ true
    → r.user ≡ some u
    → ¬ MayUse u (lookup_rest_permission r.method r.path).perm
    → rest_authz_middleware recorder true next r
      ≡ forbidden_reply recorder r (lookup_rest_permission r.method r.path).perm u
unfolding rest_authz_middleware
refused_reply recorder next r u guarded mapped present not_may =
    let perm = (lookup_rest_permission r.method r.path).perm in
    rw (guarded, mapped)
      (ap (λ user. check_user recorder next r perm user) present
        ∙ check_user-refused recorder next r perm u not_may)

-- With authorization on, the reply to a guarded request that is not admitted is the same for every
-- handler: what is behind the middleware is not reached.
pub handler_unreached :
    (recorder : Bool) (next other : Handler) (r : Request)
    → IsGuarded r
    → ¬ IsAdmitted r
    → rest_authz_middleware recorder true next r ≡ rest_authz_middleware recorder true other r
unfolding rest_authz_middleware check_user
handler_unreached recorder next other r guarded outside =
    elim (Bool-cases (lookup_rest_permission r.method r.path).found) [
      | inr unmapped ↦ rw (guarded, unmapped)
      | inl mapped ↦ elim (Option-cases r.user) [
        | inl nobody ↦
            let perm = (lookup_rest_permission r.method r.path).perm in
            rw (guarded, mapped)
              (ap (λ user. check_user recorder next r perm user) nobody
                ∙ ap (λ user. check_user recorder other r perm user) (sym nobody))
        | inr (u, present) ↦
            let not_may : ¬ MayUse u (lookup_rest_permission r.method r.path).perm =
              λ may. outside (record { user = u; present = present; mapped = mapped; may = may }) in
            refused_reply recorder next r u guarded mapped present not_may
            ∙ sym (refused_reply recorder other r u guarded mapped present not_may)
      ]
    ]
