-- ===== src/Auth/Rbac/Decision.antt =====
-- The decision of auth/rbac.go against a description by membership alone.
use iroum_ax.Prelude.{
  String, true, Option, none, some, [], lookup, ◌≡◌, refl, ◌↔◌, inl, inr, arith, Memᴰ, Bool-cases,
}
use iroum_ax.Errors.{Error, ok, err, errors_is, insufficient_permission}
use iroum_ax.Auth.Rbac.Grants.{granted_from_roles, grant_roles_gives}
use iroum_ax.Auth.Rbac.Scopes.{HoldsRole, mem-user_roles}
use iroum_ax.Auth.Rbac.{
  User, Role, permission_matrix, effective_permissions, held, user_roles, authorize,
}

pub record MayUse (user : User) (p : String) : Type 0 where
  pub role : Role
  pub holds : HoldsRole user role
  pub listed : Memᴰ p (permission_matrix role)

permission_iff :
    (user : User) (p : String)
    → (held (lookup p (effective_permissions (user_roles user))) ≡ true) ↔ MayUse user p
unfolding effective_permissions
permission_iff user p = (
  λ h. elim (granted_from_roles p (user_roles user) [] h) [
    | inl (r, mem, listed) ↦ record {
      role = r;
      holds = (mem-user_roles user r).0 mem;
      listed = listed;
    }
    | inr before ↦ absurd (unfold lookup in (cc before))
  ],
  λ may.
      grant_roles_gives p may.role (user_roles user) [] ((mem-user_roles user may.role).1 may.holds)
        may.listed,
)

-- A user is allowed a permission exactly if, for some role whose row of the permission matrix lists
-- it, one of the user's scopes has the token `iroum-ax:<role>` among its words.
pub authorize_iff : (user : User) (p : String) → (authorize (some user) p ≡ ok tt) ↔ MayUse user p
unfolding authorize
authorize_iff user p =
    let (to_may, of_may) = permission_iff user p in
    elim (Bool-cases (held (lookup p (effective_permissions (user_roles user))))) [
      | inl yes_held ↦ rw yes_held ((λ h. to_may yes_held), (λ may. refl))
      | inr not_held ↦
          rw not_held ((λ h. absurd (cc h)), (λ may. absurd (cc (of_may may, not_held))))
    ]

-- Every refusal, also that of a request with no user, is an error that `errors.Is` finds to be
-- ErrInsufficientPermission.
pub authorize_refusal :
    (user : Option User) (p : String) {e : Error}
    → authorize user p ≡ err e
    → errors_is e insufficient_permission ≡ true
unfolding authorize errors_is
authorize_refusal none p h = ground arith
authorize_refusal (some user) p h = ground arith
