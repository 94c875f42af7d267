-- ===== src/Auth/Validator/Stages.antt =====
-- The stages of `Verify` in auth/validator.go that a token must pass.
use iroum_ax.Prelude.{
  String, ℕ, ℤ, pos, negsuc, ◌+◌, ◌*◌, ◌≤◌, true, false, Option, none, some, List, [], ◌∷◌, ◌==◌,
  ◌⊎◌, inl, inr, ◌≡◌, refl, sym, ◌↔◌, arith, Memᴰ, Bool-cases,
}
use text.Mathlib.TextEquality.{eq_iff}
use iroum_ax.Errors.{ok, Result-cases}
use iroum_ax.Auth.Claims.{
  Claims, get, text_or_empty, get_time_claim_unix, extract_audience, ValidatedToken,
}
use iroum_ax.Auth.Validator.{
  Validator, contains_string, check_kty, second, is_past, is_future, token_of, accept, on_blacklist,
  check_blacklist, check_identity, check_times,
}

-- The time, in seconds, is not before the current time by more than the skew, in nanoseconds.
abbrev pub IsNotPast : ℕ → ℕ → ℤ → Type 0
IsNotPast skew now (pos n) = now ≤ n * second + skew
IsNotPast skew now (negsuc n) = now + (n + 1) * second ≤ skew

-- The time is not after the current time by more than the skew.
abbrev pub IsNotFuture : ℕ → ℕ → ℤ → Type 0
IsNotFuture skew now (pos n) = n * second ≤ now + skew
IsNotFuture skew now (negsuc n) = Unit

abbrev pub Claimed : (ℤ → Type 0) → Option ℤ → Type 0
Claimed P none = Unit
Claimed P (some t) = P t

pub contains_string-mem : (ss : List String) (s : String) → contains_string ss s ≡ true → Memᴰ s ss
unfolding contains_string
contains_string-mem [] s h = absurd (cc h)
contains_string-mem (q ∷ ss) s h = elim (Bool-cases (q == s)) [
  | inl same ↦ Memᴰ.head (sym ((eq_iff q s).0 same))
  | inr other ↦ Memᴰ.tail (contains_string-mem ss s (rw other at h))
]

pub mem-contains_string : (ss : List String) (s : String) → Memᴰ s ss → contains_string ss s ≡ true
unfolding contains_string
mem-contains_string [] s h = elim h [ ]
mem-contains_string (q ∷ ss) s (Memᴰ.head e) = rw ((eq_iff q s).1 (sym e))
mem-contains_string (q ∷ ss) s (Memᴰ.tail h) = elim (Bool-cases (q == s)) [
  | inl same ↦ rw same
  | inr other ↦ rw other (mem-contains_string ss s h)
]

is_past-Claimed :
    (skew now : ℕ) (t : Option ℤ) → (is_past skew now t ≡ false) ↔ Claimed (IsNotPast skew now) t
unfolding is_past
is_past-Claimed skew now none = ((λ h. tt), (λ h. refl))
is_past-Claimed skew now (some (pos n)) = ground arith
is_past-Claimed skew now (some (negsuc n)) = ground arith

is_future-Claimed :
    (skew now : ℕ) (t : Option ℤ)
    → (is_future skew now t ≡ false) ↔ Claimed (IsNotFuture skew now) t
unfolding is_future
is_future-Claimed skew now none = ((λ h. tt), (λ h. refl))
is_future-Claimed skew now (some (pos n)) = ground arith
is_future-Claimed skew now (some (negsuc n)) = ((λ h. tt), (λ h. refl))

pub check_kty-none :
    (alg kty : String) (o : Option String) → (check_kty alg kty o ≡ none) ↔ (o ≡ some kty)
check_kty-none alg kty none = ground arith
check_kty-none alg kty (some expected) = ground (arith, eq_iff kty expected)

-- The last three fields of `IsAcceptable`.
abbrev HasIdentity : {Key : Type 0} → Validator Key → Claims → Type 0
HasIdentity v claims =
    Memᴰ v.expected_audience (extract_audience claims)
    × (text_or_empty (get "iss" claims) ≡ v.expected_issuer)
    × ((text_or_empty (get "jti" claims) ≡ "")
        ⊎ (v.is_blacklisted (text_or_empty (get "jti" claims)) ≡ ok false))

module _ {Key : Type 0} (v : Validator Key) (now : ℕ) where
  check_blacklist-ok :
      (claims : Claims) (jti : String) {vt : ValidatedToken}
      → (check_blacklist v now claims jti).result ≡ ok vt
      → ((jti ≡ "") ⊎ (v.is_blacklisted jti ≡ ok false)) × (vt ≡ token_of claims)
  unfolding check_blacklist on_blacklist
  check_blacklist-ok claims jti h = elim (Bool-cases (jti == "")) [
    | inl empty ↦ (inl ((eq_iff jti "").0 empty), cc (rw empty at h))
    | inr some_jti ↦ elim (Result-cases (v.is_blacklisted jti)) [
      | inl (e, failed) ↦ absurd (cc (rw (some_jti, failed) at h))
      | inr (true, listed) ↦ absurd (cc (rw (some_jti, listed) at h))
      | inr (false, unlisted) ↦ (inr unlisted, cc (rw (some_jti, unlisted) at h))
    ]
  ]

  check_identity-ok :
      (claims : Claims) {vt : ValidatedToken}
      → (check_identity v now claims).result ≡ ok vt
      → HasIdentity v claims × (vt ≡ token_of claims)
  unfolding check_identity
  check_identity-ok claims h =
      let iss = text_or_empty (get "iss" claims) in
      elim (Bool-cases (contains_string (extract_audience claims) v.expected_audience)) [
        | inr strange ↦ absurd (cc (rw strange at h))
        | inl audience ↦ elim (Bool-cases (iss == v.expected_issuer)) [
          | inr strange ↦ absurd (cc (rw (audience, strange) at h))
          | inl issuer ↦
              let (unlisted, same) =
                check_blacklist-ok claims (text_or_empty (get "jti" claims))
                  (rw (audience, issuer) at h) in
              (
                (
                  contains_string-mem (extract_audience claims) v.expected_audience audience,
                  (eq_iff iss v.expected_issuer).0 issuer,
                  unlisted,
                ),
                same,
              )
        ]
      ]

  check_identity-accepts :
      (claims : Claims) → HasIdentity v claims → check_identity v now claims ≡ accept v now claims
  unfolding check_identity check_blacklist on_blacklist
  check_identity-accepts claims (audience, issuer, inl empty) = rw (
    mem-contains_string (extract_audience claims) v.expected_audience audience,
    (eq_iff (text_or_empty (get "iss" claims)) v.expected_issuer).1 issuer,
    (eq_iff (text_or_empty (get "jti" claims)) "").1 empty,
  )
  check_identity-accepts claims (audience, issuer, inr unlisted) =
      rw
        (
          mem-contains_string (extract_audience claims) v.expected_audience audience,
          (eq_iff (text_or_empty (get "iss" claims)) v.expected_issuer).1 issuer,
          unlisted,
        )
        (elim (Bool-cases (text_or_empty (get "jti" claims) == "")) [
          | inl empty ↦ rw empty
          | inr some_jti ↦ rw some_jti
        ])

  -- The fields of `IsAcceptable` on the times.
  abbrev HasTimes : Claims → Type 0
  HasTimes claims =
      Claimed (IsNotPast v.clock_skew now) (get_time_claim_unix claims "exp")
      × Claimed (IsNotFuture v.clock_skew now) (get_time_claim_unix claims "iat")
      × Claimed (IsNotFuture v.clock_skew now) (get_time_claim_unix claims "nbf")

  pub check_times-ok :
      (claims : Claims) {vt : ValidatedToken}
      → (check_times v now claims).result ≡ ok vt
      → HasTimes claims × HasIdentity v claims × (vt ≡ token_of claims)
  unfolding check_times
  check_times-ok claims h =
      let exp = get_time_claim_unix claims "exp" in
      let iat = get_time_claim_unix claims "iat" in
      let nbf = get_time_claim_unix claims "nbf" in
      elim (Bool-cases (is_past v.clock_skew now exp)) [
        | inl past ↦ absurd (cc (rw past at h))
        | inr unexpired ↦ elim (Bool-cases (is_future v.clock_skew now iat)) [
          | inl future ↦ absurd (cc (rw (unexpired, future) at h))
          | inr issued ↦ elim (Bool-cases (is_future v.clock_skew now nbf)) [
            | inl future ↦ absurd (cc (rw (unexpired, issued, future) at h))
            | inr begun ↦
                let (identity, same) =
                  check_identity-ok claims (rw (unexpired, issued, begun) at h) in
                (
                  (
                    (is_past-Claimed v.clock_skew now exp).0 unexpired,
                    (is_future-Claimed v.clock_skew now iat).0 issued,
                    (is_future-Claimed v.clock_skew now nbf).0 begun,
                  ),
                  identity,
                  same,
                )
          ]
        ]
      ]

  pub check_times-accepts :
      (claims : Claims)
      → HasTimes claims
      → HasIdentity v claims
      → check_times v now claims ≡ accept v now claims
  unfolding check_times
  check_times-accepts claims (unexpired, issued, begun) identity = rw (
    (is_past-Claimed v.clock_skew now (get_time_claim_unix claims "exp")).1 unexpired,
    (is_future-Claimed v.clock_skew now (get_time_claim_unix claims "iat")).1 issued,
    (is_future-Claimed v.clock_skew now (get_time_claim_unix claims "nbf")).1 begun,
    check_identity-accepts claims identity,
  )
