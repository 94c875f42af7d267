-- ===== src/Tests/Tokens.antt =====
-- A token that auth/validator.go accepts.
use iroum_ax.Prelude.{ℕ, true, false, ◌≡◌, ◌↔◌, refl, inl, inr, ◌==◌, if◌then◌else◌, pos}
use iroum_ax.Errors.{ok, err, plain_error}
use iroum_ax.Auth.Claims.{Claims, text, number, end, claim}
use iroum_ax.Auth.Validator.{JwtLib, Validator, default_allowed_algorithms, verify, token_of}
use iroum_ax.Auth.Validator.Acceptance.{IsAcceptable, verify_iff}
use iroum_ax.Auth.Validator.Reports.{Answers, IsReported, verify-IsReported}

abbrev claims : Claims
claims =
    claim "iss" (text "https://idp")
      (claim "aud" (text "api") (claim "exp" (number (pos 100)) (claim "sub" (text "u1") end)))

-- The decoders know one header, and the library one signature; a key is its number.
abbrev lib : JwtLib ℕ
lib = record {
  decode_base64 =
      λ part. if part == "h" then ok "header" else err (plain_error "illegal base64 data");
  unmarshal = λ bytes. ok (claim "alg" (text "RS256") (claim "kid" (text "k1") end));
  parse_with_claims =
      λ token key. if token == "h.p.s" then inr claims else inl "verification error";
}

abbrev validator : Validator ℕ
validator = record {
  get_key = λ kid. ok (7, "RS256", "RSA");
  is_blacklisted = λ jti. ok false;
  observed = true;
  allowed_algorithms = default_allowed_algorithms;
  expected_issuer = "https://idp";
  expected_audience = "api";
  clock_skew = 30000000000;
}

abbrev now : ℕ
now = 120000000000

good : (verify validator now lib "h.p.s").result ≡ ok (token_of claims)
unfolding verify
good = refl

verify_iff_example :
    ((verify validator now lib "h.p.s").result ≡ ok (token_of claims))
    ↔ ((c : Claims) × IsAcceptable validator now lib "h.p.s" c × (token_of claims ≡ token_of c))
verify_iff_example = verify_iff validator now lib "h.p.s" (token_of claims)

validator-Answers : Answers validator
validator-Answers jti = (false, refl)

verify-IsReported_example : IsReported validator (verify validator now lib "h.p.x")
verify-IsReported_example = verify-IsReported validator now lib "h.p.x" validator-Answers
