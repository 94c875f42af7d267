-- ===== src/Auth/Validator/Algorithms.antt =====
-- The algorithms and the key types that auth/validator.go accepts by default.
use iroum_ax.Prelude.{String, ℕ, some, List, [], ◌∷◌, ◌≡◌, Memᴰ}
use iroum_ax.Errors.{ok}
use iroum_ax.Prelude.Text.{has_prefix}
use iroum_ax.Auth.Claims.{ValidatedToken}
use iroum_ax.Auth.Validator.{
  JwtLib, Validator, default_allowed_algorithms, expected_kty, extract_header, verify,
}
use iroum_ax.Auth.Validator.Acceptance.{verify_iff}

abbrev pub pairs : List (String × String)
pairs = ("RS256", "RSA") ∷ ("ES256", "EC") ∷ ("EdDSA", "OKP") ∷ []

pair_of :
    (alg kty : String)
    → Memᴰ alg default_allowed_algorithms
    → expected_kty alg ≡ some kty
    → Memᴰ (alg, kty) pairs
unfolding expected_kty has_prefix
pair_of alg kty (Memᴰ.head e) k =
    let same : some "RSA" ≡ some kty = rw e at k in Memᴰ.head (cc (e, same))
pair_of alg kty (Memᴰ.tail (Memᴰ.head e)) k =
    let same : some "EC" ≡ some kty = rw e at k in Memᴰ.tail (Memᴰ.head (cc (e, same)))
pair_of alg kty (Memᴰ.tail (Memᴰ.tail (Memᴰ.head e))) k =
    let same : some "OKP" ≡ some kty = rw e at k in Memᴰ.tail (Memᴰ.tail (Memᴰ.head (cc (e, same))))
pair_of alg kty (Memᴰ.tail (Memᴰ.tail (Memᴰ.tail h))) k = elim h [ ]

-- What a validator with the default algorithms accepts names RS256 with an RSA key, ES256 with an EC
-- key or EdDSA with an OKP key: no symmetric or unsigned token and none whose key is of another type.
pub accepted_pairs :
    {Key : Type 0} (v : Validator Key) (now : ℕ) (lib : JwtLib Key) (token : String)
    (vt : ValidatedToken)
    → v.allowed_algorithms ≡ default_allowed_algorithms
    → (verify v now lib token).result ≡ ok vt
    → (alg : String) × (kid : String) × (key : Key) × (jwks_alg : String) × (kty : String)
      × (extract_header lib token ≡ ok (alg, kid))
      × (v.get_key kid ≡ ok (key, jwks_alg, kty))
      × Memᴰ (alg, kty) pairs
accepted_pairs v now lib token vt default h =
    let (claims, a, same) = (verify_iff v now lib token vt).0 h in
    (
      a.alg,
      a.kid,
      a.key,
      a.jwks_alg,
      a.kty,
      a.header,
      a.found,
      pair_of a.alg a.kty (rw default at a.allowed) a.consistent,
    )
