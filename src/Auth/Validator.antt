-- ===== src/Auth/Validator.antt =====
-- auth/validator.go: `TokenValidator.Verify`. The base64 and JSON decoders and the JWT library, which
-- checks the signature, are the parameter `JwtLib`; the key set, the blacklist and the clock are the
-- validator's own and the caller's.
pub mod Stages
pub mod Acceptance
pub mod Algorithms
pub mod Reports
use Prim.Native.String
use iroum_ax.Prelude.{
  String, ℕ, ℤ, pos, negsuc, ◌+◌, ◌*◌, Bool, true, false, not, ◌||◌, Option, none, some, List, [],
  ◌∷◌, if◌then◌else◌, ltb, ◌==◌, ◌⊎◌, inl, inr,
}
use iroum_ax.Prelude.Text.{has_prefix, join_spaced, before_dot}
use iroum_ax.Errors.{
  Error, sentinel, wrap, both, plain_error, Result, ok, err, token_expired, token_invalid_signature,
  token_invalid_issuer, token_invalid_audience, algorithm_not_allowed, algorithm_key_mismatch,
  token_blacklisted,
}
use iroum_ax.Auth.Claims.{
  Claims, get, text_or_empty, get_time_claim_unix, extract_audience, extract_scopes, ValidatedToken,
}

-- `base64.RawURLEncoding.DecodeString`, `json.Unmarshal` into a map and `jwt.ParseWithClaims`, of
-- which the last gives the claims of a token that is signed with the key, and a text otherwise.
pub record JwtLib (Key : Type 0) : Type 0 where
  pub decode_base64 : String → Result String
  pub unmarshal : String → Result Claims
  pub parse_with_claims : String → Key → String ⊎ Claims

-- Durations are nanoseconds. `observed` is whether there is a rejection observer.
pub record Validator (Key : Type 0) : Type 0 where
  -- `jwksProvider.GetKey`: the key, its alg and its kty.
  pub get_key : String → Result (Key × String × String)
  pub is_blacklisted : String → Result Bool
  pub observed : Bool
  pub allowed_algorithms : List String
  pub expected_issuer : String
  pub expected_audience : String
  pub clock_skew : ℕ

-- The result of `Verify`, and the reasons that the observer is told.
pub record Verified : Type 0 where
  pub result : Result ValidatedToken
  pub rejections : List String

abbrev pub default_allowed_algorithms : List String
default_allowed_algorithms = "RS256" ∷ "ES256" ∷ "EdDSA" ∷ []

-- `containsString`, and the loop of `isAllowedAlg`.
unfoldable pub contains_string : List String → String → Bool
contains_string [] target = false
contains_string (s ∷ ss) target = if s == target then true else contains_string ss target

-- The switch of `checkAlgKTYConsistency`, none in its default case.
unfoldable pub expected_kty : String → Option String
unfolding has_prefix
expected_kty alg =
    if has_prefix alg "RS" || has_prefix alg "PS"
    then some "RSA"
    else if has_prefix alg "ES"
    then some "EC"
    else if alg == "EdDSA"
    then some "OKP"
    else none

abbrev check_kty : String → String → Option String → Option Error
check_kty alg kty none = some (wrap alg (sentinel algorithm_not_allowed))
check_kty alg kty (some expected) =
    if kty == expected then none else some (wrap alg (sentinel algorithm_key_mismatch))

unfoldable pub check_alg_kty_consistency : String → String → Option Error
unfolding expected_kty
check_alg_kty_consistency alg kty = check_kty alg kty (expected_kty alg)

abbrev pub second : ℕ
second = 1000000000

-- `t.Add(skew).Before(now)`.
unfoldable pub is_past : ℕ → ℕ → Option ℤ → Bool
is_past skew now none = false
is_past skew now (some (pos n)) = ltb (n * second + skew) now
is_past skew now (some (negsuc n)) = ltb skew (now + (n + 1) * second)

-- `t.Add(-skew).After(now)`.
unfoldable pub is_future : ℕ → ℕ → Option ℤ → Bool
is_future skew now none = false
is_future skew now (some (pos n)) = ltb (now + skew) (n * second)
is_future skew now (some (negsuc n)) = false

module _ {Key : Type 0} (lib : JwtLib Key) where
  abbrev header_of : Result Claims → Result (String × String)
  header_of (err e) = err (wrap "JWT 헤더 파싱 실패" e)
  header_of (ok header) = ok (text_or_empty (get "alg" header), text_or_empty (get "kid" header))

  abbrev unmarshal_header : Result String → Result (String × String)
  unmarshal_header (err e) = err (wrap "JWT 헤더 디코딩 실패" e)
  unmarshal_header (ok bytes) = header_of (lib.unmarshal bytes)

  abbrev decode_header : Option String → Result (String × String)
  decode_header none = err (plain_error "JWT 형식이 유효하지 않습니다")
  decode_header (some part) = unmarshal_header (lib.decode_base64 part)

  unfoldable pub extract_header : String → Result (String × String)
  unfolding get before_dot
  extract_header token = decode_header (before_dot token)

unfoldable pub token_of : Claims → ValidatedToken
unfolding get get_time_claim_unix extract_audience extract_scopes
token_of claims = record {
  expires_at = get_time_claim_unix claims "exp";
  claims = claims;
  subject = text_or_empty (get "sub" claims);
  issuer = text_or_empty (get "iss" claims);
  audience = extract_audience claims;
  scopes = extract_scopes claims;
}

-- `Verify` from its end to its beginning.
module _ {Key : Type 0} (v : Validator Key) (now : ℕ) where
  -- `recordRejection` and the error returned behind it.
  abbrev pub reject : String → Error → Verified
  reject reason e = record { result = err e; rejections = if v.observed then reason ∷ [] else [] }

  abbrev pub accept : Claims → Verified
  accept claims = record { result = ok (token_of claims); rejections = [] }

  unfoldable pub on_blacklist : Claims → String → Result Bool → Verified
  unfolding token_of
  on_blacklist claims jti (err e) = record { result = err (wrap "블랙리스트 조회 실패" e); rejections = [] }
  on_blacklist claims jti (ok true) = reject "blacklisted" (wrap jti (sentinel token_blacklisted))
  on_blacklist claims jti (ok false) = accept claims

  unfoldable pub check_blacklist : Claims → String → Verified
  unfolding token_of on_blacklist
  check_blacklist claims jti =
      if jti == "" then accept claims else on_blacklist claims jti (v.is_blacklisted jti)

  unfoldable pub check_identity : Claims → Verified
  unfolding get extract_audience contains_string check_blacklist
  check_identity claims =
      let aud = extract_audience claims in
      let iss = text_or_empty (get "iss" claims) in
      if not (contains_string aud v.expected_audience)
      then reject "invalid_audience" (wrap (join_spaced aud) (sentinel token_invalid_audience))
      else if not (iss == v.expected_issuer)
      then reject "invalid_issuer" (wrap iss (sentinel token_invalid_issuer))
      else check_blacklist claims (text_or_empty (get "jti" claims))

  unfoldable pub check_times : Claims → Verified
  unfolding get_time_claim_unix is_past is_future check_identity
  check_times claims =
      if is_past v.clock_skew now (get_time_claim_unix claims "exp")
      then reject "expired" (sentinel token_expired)
      else if is_future v.clock_skew now (get_time_claim_unix claims "iat")
      then reject "expired" (wrap "iat가 현재 시각보다 미래입니다" (sentinel token_expired))
      else if is_future v.clock_skew now (get_time_claim_unix claims "nbf")
      then reject "expired" (wrap "nbf 이전 토큰" (sentinel token_expired))
      else check_identity claims

  -- The claims that the library is given are `jwt.MapClaims`, so their assertion to it cannot fail.
  unfoldable pub on_signature : String ⊎ Claims → Verified
  unfolding check_times
  on_signature (inl text) =
      reject "invalid_signature" (wrap text (sentinel token_invalid_signature))
  on_signature (inr claims) = check_times claims

  unfoldable pub on_consistency : JwtLib Key → String → Key → Option Error → Verified
  unfolding on_signature
  on_consistency lib token key (some e) = reject "alg_mismatch" e
  on_consistency lib token key none = on_signature (lib.parse_with_claims token key)

  unfoldable pub on_key : JwtLib Key → String → String → Result (Key × String × String) → Verified
  unfolding on_consistency check_alg_kty_consistency
  on_key lib token alg (err e) = reject "jwks_unavailable" (wrap "JWKS 키 조회 실패" e)
  on_key lib token alg (ok (key, jwks_alg, kty)) =
      on_consistency lib token key (check_alg_kty_consistency alg kty)

  unfoldable pub on_header : JwtLib Key → String → Result (String × String) → Verified
  unfolding contains_string on_key
  on_header lib token (err e) =
      reject "invalid_signature" (both (sentinel token_invalid_signature) e)
  on_header lib token (ok (alg, kid)) =
      if contains_string v.allowed_algorithms alg
      then on_key lib token alg (v.get_key kid)
      else reject "algorithm_not_allowed" (wrap alg (sentinel algorithm_not_allowed))

  unfoldable pub verify : JwtLib Key → String → Verified
  unfolding extract_header on_header
  verify lib token = on_header lib token (extract_header lib token)
