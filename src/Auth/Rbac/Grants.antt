-- ===== src/Auth/Rbac/Grants.antt =====
-- The permissions that the loops of auth/rbac.go collect.
use iroum_ax.Prelude.{
  String, Bool, true, List, [], ◌∷◌, ◌==◌, lookup, insert, lookup-insert, ◌≡◌, refl, sym, ◌⊎◌, inl,
  inr, Memᴰ, Bool-cases,
}
use text.Mathlib.TextEquality.{eq_iff}
use iroum_ax.Auth.Rbac.{Role, permission_matrix, grant, grant_roles, held}

granted_from :
    (p : String) (ps : List String) (m : List (String × Bool))
    → held (lookup p (grant ps m)) ≡ true
    → Memᴰ p ps ⊎ (held (lookup p m) ≡ true)
unfolding grant
granted_from p [] m h = inr h
granted_from p (q ∷ ps) m h = elim (granted_from p ps (insert q true m) h) [
  | inl later ↦ inl (Memᴰ.tail later)
  | inr sooner ↦ elim (Bool-cases (q == p)) [
    | inl same ↦ inl (Memᴰ.head (sym ((eq_iff q p).0 same)))
    | inr other ↦ inr (rw (lookup-insert, other) at sooner)
  ]
]

grant_keeps :
    (p : String) (ps : List String) (m : List (String × Bool))
    → held (lookup p m) ≡ true
    → held (lookup p (grant ps m)) ≡ true
unfolding grant
grant_keeps p [] m h = h
grant_keeps p (q ∷ ps) m h =
    grant_keeps p ps (insert q true m) (
      rw lookup-insert (elim (Bool-cases (q == p)) [ inl same ↦ rw same | inr other ↦ rw other h ]))

grant_gives :
    (p : String) (ps : List String) (m : List (String × Bool))
    → Memᴰ p ps
    → held (lookup p (grant ps m)) ≡ true
unfolding grant
grant_gives p [] m h = elim h [ ]
grant_gives p (q ∷ ps) m (Memᴰ.head e) =
    grant_keeps p ps (insert q true m) (rw (lookup-insert, (eq_iff q p).1 (sym e)))
grant_gives p (q ∷ ps) m (Memᴰ.tail h) = grant_gives p ps (insert q true m) h

-- A role of the list has the permission.
abbrev pub Gives : String → List Role → Type 0
Gives p roles = (r : Role) × Memᴰ r roles × Memᴰ p (permission_matrix r)

pub granted_from_roles :
    (p : String) (rs : List Role) (m : List (String × Bool))
    → held (lookup p (grant_roles rs m)) ≡ true
    → Gives p rs ⊎ (held (lookup p m) ≡ true)
unfolding grant_roles
granted_from_roles p [] m h = inr h
granted_from_roles p (r ∷ rs) m h =
    elim (granted_from_roles p rs (grant (permission_matrix r) m) h) [
      | inl (role, mem, gives) ↦ inl (role, Memᴰ.tail mem, gives)
      | inr sooner ↦ elim (granted_from p (permission_matrix r) m sooner) [
        | inl gives ↦ inl (r, Memᴰ.head refl, gives)
        | inr before ↦ inr before
      ]
    ]

grant_roles_keeps :
    (p : String) (rs : List Role) (m : List (String × Bool))
    → held (lookup p m) ≡ true
    → held (lookup p (grant_roles rs m)) ≡ true
unfolding grant_roles
grant_roles_keeps p [] m h = h
grant_roles_keeps p (r ∷ rs) m h =
    grant_roles_keeps p rs (grant (permission_matrix r) m) (grant_keeps p (permission_matrix r) m h)

pub grant_roles_gives :
    (p : String) (r : Role) (rs : List Role) (m : List (String × Bool))
    → Memᴰ r rs
    → Memᴰ p (permission_matrix r)
    → held (lookup p (grant_roles rs m)) ≡ true
unfolding grant_roles
grant_roles_gives p r [] m h gives = elim h [ ]
grant_roles_gives p r (q ∷ rs) m (Memᴰ.head e) gives =
    grant_roles_keeps p rs (grant (permission_matrix q) m)
      (grant_gives p (permission_matrix q) m (rw (← e) gives))
grant_roles_gives p r (q ∷ rs) m (Memᴰ.tail h) gives =
    grant_roles_gives p r rs (grant (permission_matrix q) m) h gives
