-- ===== src/Auth/Rbac.antt =====
-- auth/rbac.go: roles out of scopes, the permission matrix and the decision.
pub mod Grants
pub mod Scopes
pub mod Decision
use Prim.Native.String
use iroum_ax.Prelude.{
  String, Bool, true, false, Option, none, some, List, [], ◌∷◌, if◌then◌else◌, ◌==◌, lookup, insert,
}
use iroum_ax.Prelude.Text.{fields, join_spaced, is_space}
use iroum_ax.Errors.{Result, ok, err, sentinel, wrap, insufficient_permission}

-- auth/middleware.go: the authenticated user of a request.
pub record User : Type 0 where
  pub uid : String
  pub issuer : String
  pub roles : List String
  pub scopes : List String

pub data Role : Type 0 where
  admin analyst viewer : Role

unfoldable pub role_name : Role → String
role_name admin = "admin"
role_name analyst = "analyst"
role_name viewer = "viewer"

unfoldable pub permission_matrix : Role → List String
permission_matrix admin =
    "read:workflow" ∷ "write:workflow" ∷ "delete:workflow" ∷ "read:recommendation"
    ∷ "write:recommendation" ∷ "read:audit" ∷ "audit:read" ∷ []
permission_matrix analyst =
    "read:workflow" ∷ "write:workflow" ∷ "read:recommendation" ∷ "write:recommendation"
    ∷ "read:audit" ∷ []
permission_matrix viewer = "read:workflow" ∷ "read:recommendation" ∷ []

-- `^iroum-ax:(admin|analyst|viewer)$`; `$` matches at the end of the text alone.
unfoldable pub role_of_token : String → Option Role
role_of_token token =
    if token == "iroum-ax:admin"
    then some admin
    else if token == "iroum-ax:analyst"
    then some analyst
    else if token == "iroum-ax:viewer"
    then some viewer
    else none

abbrev pub cons_some {ℓ} : {A : Type ℓ} → Option A → List A → List A
cons_some none xs = xs
cons_some (some x) xs = x ∷ xs

-- The loop over the tokens.
unfoldable pub roles_of_tokens : List String → List Role
roles_of_tokens [] = []
roles_of_tokens (token ∷ tokens) = cons_some (role_of_token token) (roles_of_tokens tokens)

unfoldable pub parse_roles_from_scope : String → List Role
unfolding fields is_space role_of_token roles_of_tokens
parse_roles_from_scope scope = if scope == "" then [] else roles_of_tokens (fields scope)

-- The two loops of `EffectivePermissions`, over a role's permissions and over the roles.
unfoldable pub grant : List String → List (String × Bool) → List (String × Bool)
unfolding insert
grant [] perms = perms
grant (p ∷ ps) perms = grant ps (insert p true perms)

unfoldable pub grant_roles : List Role → List (String × Bool) → List (String × Bool)
unfolding grant permission_matrix
grant_roles [] perms = perms
grant_roles (r ∷ rs) perms = grant_roles rs (grant (permission_matrix r) perms)

unfoldable pub effective_permissions : List Role → List (String × Bool)
unfolding grant_roles
effective_permissions roles = grant_roles roles []

-- `perms[p]` of a map to bool, false on a missing key.
abbrev pub held : Option Bool → Bool
held none = false
held (some b) = b

unfoldable pub user_roles : User → List Role
unfolding parse_roles_from_scope join_spaced
user_roles user = parse_roles_from_scope (join_spaced user.scopes)

-- `%v` of the roles.
abbrev show_names : List Role → String
show_names [] = ""
show_names (r ∷ []) = role_name r
show_names (r ∷ rs) = String.◌++◌ (role_name r) (String.◌++◌ " " (show_names rs))

abbrev denied_message : String → List Role → String
denied_message required roles =
    String.◌++◌ "required="
      (String.◌++◌ required (String.◌++◌ " granted_roles=[" (String.◌++◌ (show_names roles) "]")))

-- `UserFromContext` gives the argument.
unfoldable pub authorize : Option User → String → Result (Unit {0})
unfolding user_roles effective_permissions lookup
authorize none required = err (wrap "context에 사용자 정보 없음" (sentinel insufficient_permission))
authorize (some user) required =
    let roles = user_roles user in
    if held (lookup required (effective_permissions roles))
    then ok tt
    else err (wrap (denied_message required roles) (sentinel insufficient_permission))
