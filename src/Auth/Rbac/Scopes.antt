-- ===== src/Auth/Rbac/Scopes.antt =====
-- The roles that auth/rbac.go reads out of a user's scopes.
use iroum_ax.Prelude.{
  String, Option, none, some, List, [], ◌∷◌, ◌==◌, ◌≡◌, refl, sym, ◌∙◌, ap, ◌↔◌, inl, inr, arith,
  Memᴰ, Bool-cases, Option-cases,
}
use mathlib.Core.List.Memᴰ
use text.Mathlib.TextEquality.{eq_iff}
use iroum_ax.Prelude.Text.{fields, join_spaced, all_fields, fields-join_spaced, fields-nil}
use iroum_ax.Auth.Rbac.{
  User, Role, admin, analyst, viewer, role_of_token, cons_some, roles_of_tokens,
  parse_roles_from_scope, user_roles,
}

-- The token that stands for a role.
abbrev pub role_token : Role → String
role_token admin = "iroum-ax:admin"
role_token analyst = "iroum-ax:analyst"
role_token viewer = "iroum-ax:viewer"

-- A scope of the user has the role's token among its words.
abbrev pub HoldsRole : User → Role → Type 0
HoldsRole user r = (scope : String) × Memᴰ scope user.scopes × Memᴰ (role_token r) (fields scope)

role_of_token_lem : (t : String) (r : Role) → role_of_token t ≡ some r → t ≡ role_token r
unfolding role_of_token
role_of_token_lem t r h =
    ground
      (arith, eq_iff t "iroum-ax:admin", eq_iff t "iroum-ax:analyst", eq_iff t "iroum-ax:viewer")

role_of-token : (r : Role) → role_of_token (role_token r) ≡ some r
unfolding role_of_token
role_of-token admin = refl
role_of-token analyst = refl
role_of-token viewer = refl

token_of_role : (r : Role) (ts : List String) → Memᴰ r (roles_of_tokens ts) → Memᴰ (role_token r) ts
unfolding roles_of_tokens
token_of_role r [] h = elim h [ ]
token_of_role r (t ∷ ts) h = elim (Option-cases (role_of_token t)) [
  | inl unknown ↦ Memᴰ.tail (token_of_role r ts (rw (unknown, cons_some) at h))
  | inr (q, known) ↦ elim (Memᴰ.cases_cons (rw (known, cons_some) at h)) [
    | inl same ↦ Memᴰ.head (ap role_token same ∙ sym (role_of_token_lem t q known))
    | inr later ↦ Memᴰ.tail (token_of_role r ts later)
  ]
]

mem-cons_some : {r : Role} (o : Option Role) {rs : List Role} → Memᴰ r rs → Memᴰ r (cons_some o rs)
mem-cons_some none h = h
mem-cons_some (some q) h = Memᴰ.tail h

role_of_mem_token :
    (r : Role) (ts : List String) → Memᴰ (role_token r) ts → Memᴰ r (roles_of_tokens ts)
unfolding roles_of_tokens
role_of_mem_token r [] h = elim h [ ]
role_of_mem_token r (t ∷ ts) (Memᴰ.head e) = rw (← e, role_of-token) (Memᴰ.head refl)
role_of_mem_token r (t ∷ ts) (Memᴰ.tail h) =
    mem-cons_some (role_of_token t) (role_of_mem_token r ts h)

scope_of_field :
    (t : String) (scopes : List String)
    → Memᴰ t (all_fields scopes)
    → (s : String) × Memᴰ s scopes × Memᴰ t (fields s)
scope_of_field t [] h = elim h [ ]
scope_of_field t (s ∷ scopes) h = elim (Memᴰ.append_cases (fields s) h) [
  | inl here ↦ (s, Memᴰ.head refl, here)
  | inr there ↦ let (s', mem, field) = scope_of_field t scopes there in (s', Memᴰ.tail mem, field)
]

field_of_scope :
    (t s : String) (scopes : List String)
    → Memᴰ s scopes
    → Memᴰ t (fields s)
    → Memᴰ t (all_fields scopes)
field_of_scope t s [] h field = elim h [ ]
field_of_scope t s (q ∷ scopes) (Memᴰ.head e) field =
    Memᴰ.append_left (all_fields scopes) (rw (← e) field)
field_of_scope t s (q ∷ scopes) (Memᴰ.tail h) field =
    Memᴰ.append_right (fields q) (field_of_scope t s scopes h field)

user_roles_lem : (user : User) → user_roles user ≡ roles_of_tokens (all_fields user.scopes)
unfolding user_roles parse_roles_from_scope roles_of_tokens
user_roles_lem user = elim (Bool-cases (join_spaced user.scopes == "")) [
  | inl empty ↦
      let none_left : all_fields user.scopes ≡ [] =
        sym (fields-join_spaced user.scopes)
        ∙ ap fields ((eq_iff (join_spaced user.scopes) "").0 empty)
        ∙ fields-nil in
      rw (empty, none_left)
  | inr text ↦ rw (text, fields-join_spaced)
]

-- A user holds a role in the code exactly if one of the user's scopes has the role's token among its
-- words.
pub mem-user_roles : (user : User) (r : Role) → Memᴰ r (user_roles user) ↔ HoldsRole user r
mem-user_roles user r = rw user_roles_lem (
  λ h. scope_of_field (role_token r) user.scopes (token_of_role r _ h),
  λ (s, mem, field). role_of_mem_token r _ (field_of_scope _ s user.scopes mem field),
)
