-- ===== src/Auth/Jwks.antt =====
-- auth/jwks_cache.go: the cache of the identity provider's keys. What the endpoint answers is an
-- argument, as are base64 and the construction of keys out of bytes. `GetKey` holds its locks only
-- around single reads and writes, so what other goroutines do to the cache between them is an argument
-- too.
pub mod Freshness
pub mod Outage
use iroum_ax.Prelude.{
  String, ℕ, ◌+◌, ◌-◌, Bool, true, false, Option, none, some, List, [], ◌∷◌, if◌then◌else◌, ltb,
  ◌==◌, ◌||◌, lookup, insert, ◌⊎◌, inl, inr,
}
use iroum_ax.Prelude.Text.{eqb}
use iroum_ax.Errors.{Error, sentinel, wrap, plain_error, Result, ok, err, jwks_unavailable}

-- `jwkJSON`, without the field `use`, which nothing reads.
pub record Jwk : Type 0 where
  pub kid : String
  pub kty : String
  pub alg : String
  pub n : String
  pub e : String
  pub crv : String
  pub x : String
  pub y : String

pub record CachedKey (Key : Type 0) : Type 0 where
  pub key : Key
  pub alg : String
  pub kty : String
  pub kid : String

-- Durations and times are nanoseconds; `last_success_at` is none before the first success.
pub record JwksCache (Key : Type 0) : Type 0 where
  pub cache : List (String × CachedKey Key)
  pub last_success_at : Option ℕ
  pub ttl : ℕ
  pub stale_max_age : ℕ
  pub refreshing : Bool

pub data Curve : Type 0 where
  p256 p384 p521 : Curve

pub record KeyLib (Key : Type 0) : Type 0 where
  pub decode_base64 : String → Result (List ℕ)
  pub rsa_key : List ℕ → List ℕ → Key
  pub ec_key : Curve → List ℕ → List ℕ → Key

-- What comes of the request to the endpoint: none of it, or a status and, where it decodes, the keys.
pub data Response : Type 0 where
  failed : String → Response
  responded : ℕ → String ⊎ List Jwk → Response

module _ {Key : Type 0} where
  unfoldable pub new_jwks_cache : JwksCache Key
  new_jwks_cache = record {
    cache = [];
    last_success_at = none;
    ttl = 3600000000000;
    stale_max_age = 14400000000000;
    refreshing = false;
  }

  -- The clock is monotonic, so that it is never before the last success.
  unfoldable pub cache_age : ℕ → JwksCache Key → ℕ
  cache_age now c = elim c.last_success_at [
    | none ↦ c.stale_max_age + 1
    | some success ↦ now - success
  ]

  unfoldable pub reachable : ℕ → JwksCache Key → Bool
  unfolding cache_age
  reachable now c = elim c.last_success_at [
    | none ↦ false
    | some success ↦ ltb (cache_age now c) c.stale_max_age
  ]

module _ {Key : Type 0} (lib : KeyLib Key) where
  -- Two fields decoded one after the other, and the key made of them.
  abbrev both_fields : String → String → (List ℕ → List ℕ → Key) → Result Key
  both_fields first second make = elim (lib.decode_base64 first) [
    | err failure ↦ err (wrap "JWK" failure)
    | ok a ↦ elim (lib.decode_base64 second) [
      | err failure ↦ err (wrap "JWK" failure)
      | ok b ↦ ok (make a b)
    ]
  ]

  unfoldable pub parse_rsa_key : Jwk → Result Key
  parse_rsa_key k =
      if k.n == "" || k.e == ""
      then err (plain_error "RSA JWK: n 또는 e 필드가 비어 있습니다")
      else both_fields k.n k.e lib.rsa_key

  abbrev on_curve : Curve → Jwk → Result Key
  on_curve curve k = both_fields k.x k.y (lib.ec_key curve)

  unfoldable pub parse_ec_key : Jwk → Result Key
  parse_ec_key k =
      if k.crv == "" || k.x == "" || k.y == ""
      then err (plain_error "EC JWK: crv/x/y 필드가 비어 있습니다")
      else if k.crv == "P-256"
      then on_curve p256 k
      else if k.crv == "P-384"
      then on_curve p384 k
      else if k.crv == "P-521"
      then on_curve p521 k
      else err (plain_error "EC JWK: 지원하지 않는 crv")

  unfoldable pub parse_jwk_key : Jwk → Result Key
  unfolding parse_rsa_key parse_ec_key
  parse_jwk_key k =
      if k.kty == "RSA"
      then parse_rsa_key k
      else if k.kty == "EC"
      then parse_ec_key k
      else err (plain_error "지원하지 않는 kty")

  -- A key that does not parse is passed over.
  unfoldable pub store_key :
      Jwk → Result Key → List (String × CachedKey Key) → List (String × CachedKey Key)
  unfolding insert
  store_key k (err failure) cache = cache
  store_key k (ok key) cache =
      insert k.kid (record { key = key; alg = k.alg; kty = k.kty; kid = k.kid }) cache

  -- The loop of `refresh`.
  unfoldable pub cache_keys :
      List Jwk → List (String × CachedKey Key) → List (String × CachedKey Key)
  unfolding parse_jwk_key store_key
  cache_keys [] cache = cache
  cache_keys (k ∷ ks) cache = cache_keys ks (store_key k (parse_jwk_key k) cache)

  abbrev refresh_with : ℕ → String ⊎ List Jwk → JwksCache Key → Option Error × JwksCache Key
  refresh_with now (inl message) c = (some (plain_error message), c)
  refresh_with now (inr keys) c =
      (none, record c { cache = cache_keys keys []; last_success_at = some now })

  -- `refresh`, at whose end the time is `now`.
  unfoldable pub refresh : ℕ → Response → JwksCache Key → Option Error × JwksCache Key
  unfolding cache_keys
  refresh now (failed message) c = (some (plain_error message), c)
  refresh now (responded status keys) c =
      if eqb status 200 then refresh_with now keys c else (some (plain_error "JWKS non-200 응답"), c)

  -- The goroutine of a background refresh, from its start to its deferred reset of the flag.
  unfoldable pub background_refresh : ℕ → Response → JwksCache Key → JwksCache Key
  unfolding refresh
  background_refresh now response c = record ((refresh now response c).1) { refreshing = false }

-- Where the first look into the cache leads.
pub data FirstLook (Key : Type 0) : Type 0 where
  -- Within the TTL, and behind it.
  fresh : CachedKey Key → FirstLook Key
  stale : CachedKey Key → FirstLook Key
  -- The blocking fetch; the flag is `found`.
  blocked : Bool → FirstLook Key

module _ {Key : Type 0} where
  abbrev look_at : ℕ → JwksCache Key → Option (CachedKey Key) → FirstLook Key
  look_at age c none = blocked false
  look_at age c (some cached) =
      if ltb age c.ttl
      then fresh cached
      else if ltb age c.stale_max_age
      then stale cached
      else blocked true

  unfoldable pub first_look : ℕ → String → JwksCache Key → FirstLook Key
  unfolding cache_age lookup
  first_look now kid c = look_at (cache_age now c) c (lookup kid c.cache)

  -- The last read, behind a fetch that succeeded.
  abbrev last_look : Option (CachedKey Key) → Result (CachedKey Key)
  last_look none = err (plain_error "kid가 JWKS에 존재하지 않습니다")
  last_look (some cached) = ok cached

-- What surrounds one call of `GetKey`: the times of its parts, the endpoint's answer, and what the
-- other goroutines do between its first read and the next lock, and before its last read.
pub record Surroundings (Key : Type 0) : Type 0 where
  pub begun_at : ℕ
  pub locked_at : ℕ
  pub fetched_at : ℕ
  pub response : Response
  pub meanwhile : JwksCache Key → JwksCache Key
  pub afterwards : JwksCache Key → JwksCache Key

module _ {Key : Type 0} (lib : KeyLib Key) (w : Surroundings Key) (kid : String) where
  abbrev conclude : Bool → Option Error × JwksCache Key → Result (CachedKey Key) × JwksCache Key
  conclude true (some e, c) = (err (wrap "fetch 실패 및 stale 만료" (sentinel jwks_unavailable)), c)
  conclude false (some e, c) = (err (wrap "fetch 실패" (sentinel jwks_unavailable)), c)
  conclude found (none, c) = let last = w.afterwards c in (last_look (lookup kid last.cache), last)

  unfoldable pub fetch_or_reuse :
      Bool → JwksCache Key → Option (CachedKey Key) → Result (CachedKey Key) × JwksCache Key
  unfolding cache_age refresh lookup
  fetch_or_reuse found c none = conclude found (refresh lib w.fetched_at w.response c)
  fetch_or_reuse found c (some cached) =
      if ltb (cache_age w.locked_at c) c.ttl
      then (ok cached, c)
      else conclude found (refresh lib w.fetched_at w.response c)

  unfoldable pub after_look : JwksCache Key → FirstLook Key → Result (CachedKey Key) × JwksCache Key
  unfolding fetch_or_reuse lookup
  after_look c (fresh cached) = (ok cached, c)
  -- A background refresh runs from here on: it is started unless one runs already.
  after_look c (stale cached) = (ok cached, record (w.meanwhile c) { refreshing = true })
  after_look c (blocked found) =
      let c' = w.meanwhile c in fetch_or_reuse found c' (lookup kid c'.cache)

  unfoldable pub get_key : JwksCache Key → Result (CachedKey Key) × JwksCache Key
  unfolding first_look after_look
  get_key c =
      if kid == ""
      then (err (plain_error "kid가 비어 있습니다"), c)
      else after_look c (first_look w.begun_at kid c)
