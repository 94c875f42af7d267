-- ===== src/Auth/Validator/Reports.antt =====
-- What auth/validator.go tells the rejection observer.
use iroum_ax.Prelude.{
  String, ℕ, Bool, true, false, Option, none, some, ◌==◌, inl, inr, ◌≡◌, refl, Bool-cases,
  Sum-cases, if◌then◌else◌, length,
}
use iroum_ax.Prelude.Text.{join_spaced}
use iroum_ax.Errors.{
  Error, sentinel, wrap, Result, ok, err, token_expired, token_invalid_audience,
  token_invalid_issuer,
}
use iroum_ax.Auth.Claims.{
  Claims, get, text_or_empty, get_time_claim_unix, extract_audience, ValidatedToken,
}
use iroum_ax.Auth.Validator.{
  JwtLib, Validator, Verified, contains_string, check_alg_kty_consistency, is_past, is_future,
  extract_header, reject, accept, on_blacklist, check_blacklist, check_identity, check_times,
  on_signature, on_consistency, on_key, on_header, verify,
}

-- One report of a rejection if somebody observes, none of an acceptance.
abbrev pub expected_reports : Result ValidatedToken → Bool → ℕ
expected_reports (ok vt) observed = 0
expected_reports (err e) true = 1
expected_reports (err e) false = 0

pub record IsReported {Key : Type 0} (v : Validator Key) (r : Verified) : Type 0 where
  pub count : length r.rejections ≡ expected_reports r.result v.observed

if-IsReported :
    {Key : Type 0} (v : Validator Key) (b : Bool) {x y : Verified}
    → IsReported v x
    → IsReported v y
    → IsReported v (if b then x else y)
if-IsReported v true h k = h
if-IsReported v false h k = k

-- The blacklist always answers.
abbrev pub Answers : {Key : Type 0} → Validator Key → Type 0
Answers v = (jti : String) → (b : Bool) × (v.is_blacklisted jti ≡ ok b)

module _ {Key : Type 0} (v : Validator Key) (now : ℕ) where
  reject-IsReported : (reason : String) (e : Error) → IsReported v (reject v now reason e)
  reject-IsReported reason e = record {
    count = elim (Bool-cases v.observed) [
      | inl watched ↦ rw watched
      | inr unwatched ↦ rw unwatched
    ];
  }

  accept-IsReported : (claims : Claims) → IsReported v (accept v now claims)
  accept-IsReported claims = record { count = refl }

  on_blacklist-IsReported :
      (claims : Claims) (jti : String) (b : Bool)
      → IsReported v (on_blacklist v now claims jti (ok b))
  unfolding on_blacklist
  on_blacklist-IsReported claims jti true = reject-IsReported _ _
  on_blacklist-IsReported claims jti false = accept-IsReported claims

  check_blacklist-IsReported :
      Answers v → (claims : Claims) (jti : String) → IsReported v (check_blacklist v now claims jti)
  unfolding check_blacklist
  check_blacklist-IsReported answers claims jti =
      if-IsReported v (jti == "") (accept-IsReported claims)
        (let (b, answer) = answers jti in rw answer (on_blacklist-IsReported claims jti b))

  check_identity-IsReported :
      Answers v → (claims : Claims) → IsReported v (check_identity v now claims)
  unfolding check_identity
  check_identity-IsReported answers claims =
      let aud = extract_audience claims in
      let iss = text_or_empty (get "iss" claims) in
      elim (Bool-cases (contains_string aud v.expected_audience)) [
        | inr strange ↦ rw strange (
            reject-IsReported "invalid_audience"
              (wrap (join_spaced aud) (sentinel token_invalid_audience)))
        | inl audience ↦ elim (Bool-cases (iss == v.expected_issuer)) [
          | inr strange ↦
              rw (audience, strange)
                (reject-IsReported "invalid_issuer" (wrap iss (sentinel token_invalid_issuer)))
          | inl issuer ↦
              rw (audience, issuer)
                (check_blacklist-IsReported answers claims (text_or_empty (get "jti" claims)))
        ]
      ]

  check_times-IsReported : Answers v → (claims : Claims) → IsReported v (check_times v now claims)
  unfolding check_times
  check_times-IsReported answers claims =
      elim (Bool-cases (is_past v.clock_skew now (get_time_claim_unix claims "exp"))) [
        | inl past ↦ rw past (reject-IsReported "expired" (sentinel token_expired))
        | inr unexpired ↦
            elim (Bool-cases (is_future v.clock_skew now (get_time_claim_unix claims "iat"))) [
              | inl future ↦ rw (unexpired, future) (reject-IsReported "expired" _)
              | inr issued ↦
                  elim (Bool-cases
                    (is_future v.clock_skew now (get_time_claim_unix claims "nbf"))) [
                      | inl future ↦ rw (unexpired, issued, future) (reject-IsReported "expired" _)
                      | inr begun ↦
                          rw (unexpired, issued, begun) (check_identity-IsReported answers claims)
                    ]
            ]
      ]

  on_consistency-IsReported :
      Answers v
      → (lib : JwtLib Key) (token : String) (key : Key) (mismatch : Option Error)
      → IsReported v (on_consistency v now lib token key mismatch)
  unfolding on_consistency on_signature
  on_consistency-IsReported answers lib token key (some e) = reject-IsReported _ _
  on_consistency-IsReported answers lib token key none =
      elim (Sum-cases (lib.parse_with_claims token key)) [
        | inl (t, unsigned) ↦ rw unsigned (reject-IsReported _ _)
        | inr (claims, signed) ↦ rw signed (check_times-IsReported answers claims)
      ]

  on_key-IsReported :
      Answers v
      → (lib : JwtLib Key) (token alg : String) (found : Result (Key × String × String))
      → IsReported v (on_key v now lib token alg found)
  unfolding on_key
  on_key-IsReported answers lib token alg (err e) = reject-IsReported _ _
  on_key-IsReported answers lib token alg (ok (key, jwks_alg, kty)) =
      on_consistency-IsReported answers lib token key (check_alg_kty_consistency alg kty)

  on_header-IsReported :
      Answers v
      → (lib : JwtLib Key) (token : String) (header : Result (String × String))
      → IsReported v (on_header v now lib token header)
  unfolding on_header
  on_header-IsReported answers lib token (err e) = reject-IsReported _ _
  on_header-IsReported answers lib token (ok (alg, kid)) =
      if-IsReported v _ (on_key-IsReported answers lib token alg (v.get_key kid))
        (reject-IsReported _ _)

-- Where the blacklist always answers, every rejection of a token is told to the observer, if there is
-- one, exactly once, and nothing is told of an acceptance.
pub verify-IsReported :
    {Key : Type 0} (v : Validator Key) (now : ℕ) (lib : JwtLib Key) (token : String)
    → Answers v
    → IsReported v (verify v now lib token)
unfolding verify
verify-IsReported v now lib token answers =
    on_header-IsReported v now answers lib token (extract_header lib token)
