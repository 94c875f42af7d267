-- ===== src/Auth/Refresh/Replay.antt =====
-- A refresh token that is used twice in auth/refresh.go.
use iroum_ax.Prelude.{
  String, ℤ, true, false, Option, none, some, List, [], ◌∷◌, ◌==◌, ◌≡◌, refl, sym, ap, ◌∙◌, ◌⊎◌,
  inl, inr, Memᴰ, Bool-cases, Option-cases,
}
use mathlib.Core.Option.{some-injective}
use text.Mathlib.TextPositions.{eq_refl}
use iroum_ax.Errors.{Error, Result, ok, err, Result-cases}
use iroum_ax.Auth.Refresh.{
  TokenStore, RefreshTokenPair, RefreshService, invalidated, added, check_members, do_refresh,
}
use iroum_ax.Auth.Refresh.Rotation.{AllUnused, check_members-none, none-check_members}

-- Documented of `AddToFamily` and `GetFamilyMembers`, which are SADD and SMEMBERS: adding a token
-- changes no entry of the blacklist, and the family has no member more than the token.
pub record OnlyAdds {S : Type 0} (store : TokenStore S) : Type 0 where
  pub kept :
      (family jti : String) (expiry : Option ℤ) (s s' : S)
      → store.add_to_family family jti expiry s ≡ (none, s')
      → (x : String) → store.is_blacklisted x s' ≡ store.is_blacklisted x s
  pub members :
      (family jti : String) (expiry : Option ℤ) (s s' : S) (before : List String)
      → store.add_to_family family jti expiry s ≡ (none, s')
      → store.get_family_members family s ≡ ok before
      → (after : List String) × (store.get_family_members family s' ≡ ok after)
        × ((x : String) → Memᴰ x after → (x ≡ jti) ⊎ Memᴰ x before)

abbrev outcome : {S : Type 0} → Result RefreshTokenPair × S → Result RefreshTokenPair
outcome r = r.0

module _ {S : Type 0} (service : RefreshService S) (jti family user_id : String)
    (expiry : Option ℤ) where
  invalidated-err :
      (result : Option Error × S)
      → (e : Error) × ((invalidated service jti family user_id expiry result).0 ≡ err e)
  invalidated-err (some e, s) = (_, refl)
  invalidated-err (none, s) = (_, refl)

  check_members-err :
      (members : List String) (s : S) {result : Result RefreshTokenPair × S}
      → check_members service jti family user_id expiry members s ≡ some result
      → (e : Error) × (result.0 ≡ err e)
  unfolding check_members
  check_members-err [] s h = absurd (cc h)
  check_members-err (m ∷ members) s h = elim (Bool-cases (m == jti)) [
    | inl itself ↦ check_members-err members s (rw itself at h)
    | inr other ↦ elim (Result-cases (service.store.is_blacklisted m s)) [
      | inl (e, failed) ↦ (_, ap outcome (sym (some-injective _ _ (rw (other, failed) at h))))
      | inr (true, used) ↦
          let same = some-injective _ _ (rw (other, used) at h) in
          let (e, refused) = invalidated-err (service.store.invalidate_family family s) in
          (e, ap outcome (sym same) ∙ refused)
      | inr (false, unused) ↦ check_members-err members s (rw (other, unused) at h)
    ]
  ]

  -- What a refresh has found and done that gives a pair.
  pub record IsGranted (s s' : S) (pair : RefreshTokenPair) : Type 0 where
    pub unused : service.store.is_blacklisted jti s ≡ ok false
    pub members : List String
    pub listed : service.store.get_family_members family s ≡ ok members
    pub clean : check_members service jti family user_id expiry members s ≡ none
    pub recorded : service.store.add_to_family family jti expiry s ≡ (none, s')
    pub issue : service.issue_token_pair user_id family ≡ ok pair

  added-ok :
      (result : Option Error × S) {pair : RefreshTokenPair} {s' : S}
      → added service jti family user_id expiry result ≡ (ok pair, s')
      → (result ≡ (none, s')) × (service.issue_token_pair user_id family ≡ ok pair)
  added-ok (some e, s) h = absurd (cc (ap outcome h))
  added-ok (none, s) h = elim (Result-cases (service.issue_token_pair user_id family)) [
    | inl (e, failed) ↦ absurd (cc (ap outcome (rw failed at h)))
    | inr (there, issue) ↦
        let same : (ok there, s) ≡ (ok _, _) = rw issue at h in
        (ap (λ (r : Result RefreshTokenPair × S). (none, r.1)) same, issue ∙ ap outcome same)
  ]

  do_refresh-IsGranted :
      (s s' : S) (pair : RefreshTokenPair)
      → do_refresh service jti family user_id expiry s ≡ (ok pair, s')
      → IsGranted s s' pair
  unfolding do_refresh
  do_refresh-IsGranted s s' pair h = elim (Result-cases (service.store.is_blacklisted jti s)) [
    | inl (e, failed) ↦ absurd (cc (ap outcome (rw failed at h)))
    | inr (true, used) ↦ absurd (cc (ap outcome (rw used at h)))
    | inr (false, unused) ↦ elim (Result-cases (service.store.get_family_members family s)) [
      | inl (e, failed) ↦ absurd (cc (ap outcome (rw (unused, failed) at h)))
      | inr (members, listed) ↦
          elim (Option-cases (check_members service jti family user_id expiry members s)) [
            | inr (result, stopped) ↦
                let same : result ≡ (ok pair, s') = rw (unused, listed, stopped) at h in
                let (e, refused) = check_members-err members s stopped in
                absurd (cc (ap outcome same, refused))
            | inl clean ↦
                let (recorded, issue) =
                  added-ok (service.store.add_to_family family jti expiry s)
                    (rw (unused, listed, clean) at h) in
                record {
                  unused = unused;
                  members = members;
                  listed = listed;
                  clean = clean;
                  recorded = recorded;
                  issue = issue;
                }
          ]
    ]
  ]

-- A refresh that gives a pair does not use its token up: with a store whose `AddToFamily` only adds, the
-- same call behind it gives a pair again, as soon as the store accepts the addition.
pub refresh_replayed :
    {S : Type 0} (service : RefreshService S) (jti family user_id : String) (expiry : Option ℤ)
    (s s' s'' : S) (pair : RefreshTokenPair)
    → OnlyAdds service.store
    → do_refresh service jti family user_id expiry s ≡ (ok pair, s')
    → service.store.add_to_family family jti expiry s' ≡ (none, s'')
    → do_refresh service jti family user_id expiry s' ≡ (ok pair, s'')
unfolding do_refresh
refresh_replayed service jti family user_id expiry s s' s'' pair laws first again =
    let granted = do_refresh-IsGranted service jti family user_id expiry s s' pair first in
    let kept = laws.kept family jti expiry s s' granted.recorded in
    let (after, listed, fewer) =
      laws.members family jti expiry s s' granted.members granted.recorded granted.listed in
    let all_unused =
      check_members-none service jti family user_id expiry s granted.members granted.clean in
    let still_unused : AllUnused service jti family user_id expiry s' after = λ member mem other.
      elim (fewer member mem) [
        | inl itself ↦ absurd (cc (ap (λ x. x == jti) itself, eq_refl jti, other))
        | inr before ↦ kept member ∙ all_unused member before other
      ] in
    rw (
      kept jti,
      granted.unused,
      listed,
      none-check_members service jti family user_id expiry s' after still_unused,
      again,
      granted.issue,
    )
