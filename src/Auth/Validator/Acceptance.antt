-- ===== src/Auth/Validator/Acceptance.antt =====
-- Which tokens auth/validator.go accepts.
use iroum_ax.Prelude.{
  String, ℕ, false, some, ◌⊎◌, inl, inr, ◌≡◌, sym, ap, ◌↔◌, Memᴰ, Bool-cases, Option-cases,
  Sum-cases, ◌∙◌,
}
use iroum_ax.Errors.{ok, Result-cases}
use iroum_ax.Auth.Claims.{
  Claims, get, text_or_empty, get_time_claim_unix, extract_audience, ValidatedToken,
}
use iroum_ax.Auth.Validator.{
  JwtLib, Validator, Verified, contains_string, expected_kty, check_kty, check_alg_kty_consistency,
  extract_header, token_of, accept, on_signature, on_consistency, on_key, on_header, verify,
}
use iroum_ax.Auth.Validator.Stages.{
  IsNotPast, IsNotFuture, Claimed, contains_string-mem, mem-contains_string, check_kty-none,
  check_times-ok, check_times-accepts,
}

-- What makes a token acceptable, whatever the order of the checks.
pub record IsAcceptable {Key : Type 0} (v : Validator Key) (now : ℕ) (lib : JwtLib Key)
    (token : String) (claims : Claims) : Type 0 where
  pub alg : String
  pub kid : String
  pub key : Key
  pub jwks_alg : String
  pub kty : String
  pub header : extract_header lib token ≡ ok (alg, kid)
  pub allowed : Memᴰ alg v.allowed_algorithms
  pub found : v.get_key kid ≡ ok (key, jwks_alg, kty)
  pub consistent : expected_kty alg ≡ some kty
  pub signed : lib.parse_with_claims token key ≡ inr claims
  pub unexpired : Claimed (IsNotPast v.clock_skew now) (get_time_claim_unix claims "exp")
  pub issued : Claimed (IsNotFuture v.clock_skew now) (get_time_claim_unix claims "iat")
  pub begun : Claimed (IsNotFuture v.clock_skew now) (get_time_claim_unix claims "nbf")
  pub audience : Memᴰ v.expected_audience (extract_audience claims)
  pub issuer : text_or_empty (get "iss" claims) ≡ v.expected_issuer
  pub unlisted :
      (text_or_empty (get "jti" claims) ≡ "")
      ⊎ (v.is_blacklisted (text_or_empty (get "jti" claims)) ≡ ok false)

-- An acceptable token is accepted, with the values of its claims and nothing told to the observer.
pub verify-accepts :
    {Key : Type 0} (v : Validator Key) (now : ℕ) (lib : JwtLib Key) (token : String)
    (claims : Claims)
    → IsAcceptable v now lib token claims
    → verify v now lib token ≡ accept v now claims
unfolding verify on_header on_key on_consistency on_signature check_alg_kty_consistency
verify-accepts v now lib token claims a = rw (
  a.header,
  mem-contains_string v.allowed_algorithms a.alg a.allowed,
  a.found,
  (check_kty-none a.alg a.kty (expected_kty a.alg)).1 a.consistent,
  a.signed,
  check_times-accepts v now claims (a.unexpired, a.issued, a.begun)
      (a.audience, a.issuer, a.unlisted),
)

verify-ok :
    {Key : Type 0} (v : Validator Key) (now : ℕ) (lib : JwtLib Key) (token : String)
    (vt : ValidatedToken)
    → (verify v now lib token).result ≡ ok vt
    → (claims : Claims) × IsAcceptable v now lib token claims × (vt ≡ token_of claims)
unfolding verify on_header on_key on_consistency on_signature check_alg_kty_consistency
verify-ok v now lib token vt h = elim (Result-cases (extract_header lib token)) [
  | inl (e, failed) ↦ absurd (cc (rw failed at h))
  | inr ((alg, kid), header) ↦ elim (Bool-cases (contains_string v.allowed_algorithms alg)) [
    | inr strange ↦ absurd (cc (rw (header, strange) at h))
    | inl allowed ↦ elim (Result-cases (v.get_key kid)) [
      | inl (e, failed) ↦ absurd (cc (rw (header, allowed, failed) at h))
      | inr ((key, jwks_alg, kty), found) ↦
          elim (Option-cases (check_kty alg kty (expected_kty alg))) [
            | inr (e, mixed) ↦ absurd (cc (rw (header, allowed, found, mixed) at h))
            | inl consistent ↦ elim (Sum-cases (lib.parse_with_claims token key)) [
              | inl (t, unsigned) ↦
                  absurd (cc (rw (header, allowed, found, consistent, unsigned) at h))
              | inr (claims, signed) ↦
                  let (times, identity, same) =
                    check_times-ok v now claims
                      (rw (header, allowed, found, consistent, signed) at h) in
                  (
                    claims,
                    record {
                      alg = alg;
                      kid = kid;
                      key = key;
                      jwks_alg = jwks_alg;
                      kty = kty;
                      header = header;
                      allowed = contains_string-mem v.allowed_algorithms alg allowed;
                      found = found;
                      consistent = (check_kty-none alg kty (expected_kty alg)).0 consistent;
                      signed = signed;
                      unexpired = times.0;
                      issued = times.1;
                      begun = times.2;
                      audience = identity.0;
                      issuer = identity.1;
                      unlisted = identity.2;
                    },
                    same,
                  )
            ]
          ]
    ]
  ]
]

-- A token is accepted exactly if it is acceptable: its header names an allowed algorithm and a key
-- that the key set has and whose type fits the algorithm, it is signed with that key, it is within
-- its times up to the clock skew, it is for the expected audience and from the expected issuer, and
-- its jti, if it has one, is not on the blacklist. What is returned are the values of its claims.
pub verify_iff :
    {Key : Type 0} (v : Validator Key) (now : ℕ) (lib : JwtLib Key) (token : String)
    (vt : ValidatedToken)
    → ((verify v now lib token).result ≡ ok vt)
      ↔ ((claims : Claims) × IsAcceptable v now lib token claims × (vt ≡ token_of claims))
verify_iff v now lib token vt = (
  verify-ok v now lib token vt,
  λ (claims, acceptable, same).
      ap (λ (x : Verified). x.result) (verify-accepts v now lib token claims acceptable)
      ∙ ap ok (sym same),
)
