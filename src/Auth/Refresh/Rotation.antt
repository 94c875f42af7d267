-- ===== src/Auth/Refresh/Rotation.antt =====
-- Reuse of refresh tokens in auth/refresh.go.
use iroum_ax.Prelude.{
  String, ℤ, Bool, true, false, Option, none, some, List, [], ◌∷◌, ◌==◌, ◌≡◌, refl, sym, ap, ◌⊎◌,
  inl, inr, Memᴰ, Bool-cases,
}
use mathlib.Core.List.Memᴰ
use iroum_ax.Errors.{Error, ok, err, errors_is, refresh_token_reuse_detected, Result-cases}
use iroum_ax.Auth.Refresh.{TokenStore, RefreshService, invalidated, check_members, do_refresh}

-- Nothing that the service asks of the blacklist fails.
abbrev pub Answers : {S : Type 0} → TokenStore S → S → Type 0
Answers store s = (jti : String) → (b : Bool) × (store.is_blacklisted jti s ≡ ok b)

module _ {S : Type 0} (service : RefreshService S) (jti family user_id : String) (expiry : Option ℤ)
    (s : S) where
  -- A member other than the token has been used.
  pub record HasUsedMember (members : List String) : Type 0 where
    pub member : String
    pub listed : Memᴰ member members
    pub other : (member == jti) ≡ false
    pub used : service.store.is_blacklisted member s ≡ ok true

  -- Every member other than the token is unused.
  abbrev pub AllUnused : List String → Type 0
  AllUnused members =
      (member : String)
      → Memᴰ member members
      → (member == jti) ≡ false
      → service.store.is_blacklisted member s ≡ ok false

  later_used :
      (m : String) (members : List String)
      → ((m == jti) ≡ true) ⊎ (service.store.is_blacklisted m s ≡ ok false)
      → HasUsedMember (m ∷ members)
      → HasUsedMember members
  later_used m members excluded h = elim (Memᴰ.cases_cons h.listed) [
    | inl same ↦
        let other : (m == jti) ≡ false = rw (sym same) h.other in
        let used : service.store.is_blacklisted m s ≡ ok true = rw (sym same) h.used in
        elim excluded [
          | inl itself ↦ absurd (cc (itself, other))
          | inr unused ↦ absurd (cc (unused, used))
        ]
    | inr later ↦ record { member = h.member; listed = later; other = h.other; used = h.used }
  ]

  check_members-used :
      (members : List String)
      → Answers service.store s
      → HasUsedMember members
      → check_members service jti family user_id expiry members s
        ≡ some (
            invalidated service jti family user_id expiry
              (service.store.invalidate_family family s))
  unfolding check_members
  check_members-used [] answers h = elim h.listed [ ]
  check_members-used (m ∷ members) answers h = elim (Bool-cases (m == jti)) [
    | inl itself ↦
        rw itself (check_members-used members answers (later_used m members (inl itself) h))
    | inr other ↦ elim (Result-cases (service.store.is_blacklisted m s)) [
      | inl (e, failed) ↦ absurd (cc (failed, (answers m).1))
      | inr (true, used) ↦ rw (other, used)
      | inr (false, unused) ↦
          rw (other, unused)
            (check_members-used members answers (later_used m members (inr unused) h))
    ]
  ]

  pub check_members-none :
      (members : List String)
      → check_members service jti family user_id expiry members s ≡ none
      → AllUnused members
  unfolding check_members
  check_members-none [] h member listed other = elim listed [ ]
  check_members-none (m ∷ members) h member listed other = elim (Bool-cases (m == jti)) [
    | inl itself ↦ elim (Memᴰ.cases_cons listed) [
      | inl same ↦ absurd (cc (ap (λ x. x == jti) same, itself, other))
      | inr later ↦ check_members-none members (rw itself at h) member later other
    ]
    | inr not_itself ↦ elim (Result-cases (service.store.is_blacklisted m s)) [
      | inl (e, failed) ↦ absurd (cc (rw (not_itself, failed) at h))
      | inr (true, used) ↦ absurd (cc (rw (not_itself, used) at h))
      | inr (false, unused) ↦ elim (Memᴰ.cases_cons listed) [
        | inl same ↦ rw same unused
        | inr later ↦ check_members-none members (rw (not_itself, unused) at h) member later other
      ]
    ]
  ]

  pub none-check_members :
      (members : List String)
      → AllUnused members
      → check_members service jti family user_id expiry members s ≡ none
  unfolding check_members
  none-check_members [] all = refl
  none-check_members (m ∷ members) all = elim (Bool-cases (m == jti)) [
    | inl itself ↦ rw itself (none-check_members members (λ x listed. all x (Memᴰ.tail listed)))
    | inr other ↦
        rw (other, all m (Memᴰ.head refl) other)
          (none-check_members members (λ x listed. all x (Memᴰ.tail listed)))
  ]

-- A token that is not blacklisted itself but has a used relative in its family gets no pair: the
-- family is invalidated and the error is the one of a detected reuse. The store answers every question
-- and the invalidation succeeds.
pub reuse_detected :
    {S : Type 0} (service : RefreshService S) (jti family user_id : String) (expiry : Option ℤ)
    (s s' : S) (members : List String)
    → Answers service.store s
    → service.store.is_blacklisted jti s ≡ ok false
    → service.store.get_family_members family s ≡ ok members
    → HasUsedMember service jti family user_id expiry s members
    → service.store.invalidate_family family s ≡ (none, s')
    → (e : Error) × (do_refresh service jti family user_id expiry s ≡ (err e, s'))
      × (errors_is e refresh_token_reuse_detected ≡ true)
unfolding do_refresh errors_is
reuse_detected service jti family user_id expiry s s' members answers unused listed used invalid =
    rw
      (
        unused,
        listed,
        check_members-used service jti family user_id expiry s members answers used,
        invalid,
      )
      (_, refl, refl)
