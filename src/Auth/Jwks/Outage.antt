-- ===== src/Auth/Jwks/Outage.antt =====
-- What auth/jwks_cache.go does while the endpoint fails, and with keys that are withdrawn.
use iroum_ax.Prelude.{
  String, ℕ, ◌≤◌, Bool, true, false, none, some, List, [], ◌∷◌, ltb, ◌==◌, inl, inr, ◌≡◌, ◌≢◌, refl,
  ◌∙◌, arith, lookup, lookup-insert, Memᴰ, Bool-cases, Option-cases,
}
use native.Mathlib.Nat.{le_refl}
use iroum_ax.Prelude.Text.{eqb}
use text.Mathlib.TextEquality.{eq_iff}
use iroum_ax.Errors.{Error, Result, ok, err, errors_is, jwks_unavailable}
use iroum_ax.Auth.Jwks.{
  Jwk, CachedKey, JwksCache, KeyLib, Response, failed, responded, cache_age, parse_jwk_key,
  store_key, cache_keys, refresh, first_look, Surroundings, conclude, fetch_or_reuse, after_look,
  get_key,
}

module _ {Key : Type 0} (lib : KeyLib Key) where
  refresh_failed :
      (now : ℕ) (response : Response) (c : JwksCache Key) {e : Error}
      → (refresh lib now response c).0 ≡ some e
      → (refresh lib now response c).1 ≡ c
  unfolding refresh
  refresh_failed now (failed message) c h = refl
  refresh_failed now (responded status (inl message)) c h = elim (Bool-cases (eqb status 200)) [
    | inl success ↦ rw success
    | inr failure ↦ rw failure
  ]
  refresh_failed now (responded status (inr keys)) c h = elim (Bool-cases (eqb status 200)) [
    | inl success ↦ absurd (cc (rw success at h))
    | inr failure ↦ rw failure
  ]

  lookup-store_key :
      (kid : String) (k : Jwk) (parsed : Result Key) (cache : List (String × CachedKey Key))
      → (k.kid == kid) ≡ false
      → lookup kid (store_key lib k parsed cache) ≡ lookup kid cache
  unfolding store_key
  lookup-store_key kid k (err e) cache other = refl
  lookup-store_key kid k (ok key) cache other = rw (lookup-insert, other)

  cache_keys-absent :
      (kid : String) (keys : List Jwk) (cache : List (String × CachedKey Key))
      → ((k : Jwk) → Memᴰ k keys → k.kid ≢ kid)
      → lookup kid (cache_keys lib keys cache) ≡ lookup kid cache
  unfolding cache_keys
  cache_keys-absent kid [] cache others = refl
  cache_keys-absent kid (k ∷ keys) cache others = elim (Bool-cases (k.kid == kid)) [
    | inl same ↦ absurd (others k (Memᴰ.head refl) ((eq_iff k.kid kid).0 same))
    | inr other ↦
        cache_keys-absent kid keys _ (λ j mem. others j (Memᴰ.tail mem))
        ∙ lookup-store_key kid k (parse_jwk_key lib k) cache other
  ]

cache_age-le :
    {Key : Type 0} (c : JwksCache Key) (first second : ℕ)
    → first ≤ second
    → cache_age first c ≤ cache_age second c
unfolding cache_age
cache_age-le c first second h = elim (Option-cases c.last_success_at) [
  | inl never ↦ rw never (le_refl _)
  | inr (success, known) ↦ rw known (omega (arith, h))
]

-- Every key that is cached under the identifier is too old to be used.
abbrev pub IsExpired : {Key : Type 0} → ℕ → String → JwksCache Key → Type 0
IsExpired {Key} now kid c =
    (cached : CachedKey Key) → lookup kid c.cache ≡ some cached → c.stale_max_age ≤ cache_age now c

module _ {Key : Type 0} (lib : KeyLib Key) (w : Surroundings Key) (kid : String)
    (c : JwksCache Key) where
  abbrev pub IsUnavailable : Result (CachedKey Key) × JwksCache Key → Type 0
  IsUnavailable r = (e : Error) × (r.0 ≡ err e) × (errors_is e jwks_unavailable ≡ true) × (r.1 ≡ c)

  conclude_failed :
      (found : Bool) {e : Error}
      → (refresh lib w.fetched_at w.response c).0 ≡ some e
      → IsUnavailable (conclude lib w kid found (refresh lib w.fetched_at w.response c))
  unfolding errors_is
  conclude_failed true h = rw h (_, refl, refl, refresh_failed lib w.fetched_at w.response c h)
  conclude_failed false h = rw h (_, refl, refl, refresh_failed lib w.fetched_at w.response c h)

  fetch_failed :
      (found : Bool) {e : Error}
      → (refresh lib w.fetched_at w.response c).0 ≡ some e
      → c.ttl ≤ c.stale_max_age
      → w.begun_at ≤ w.locked_at
      → IsExpired w.begun_at kid c
      → IsUnavailable (fetch_or_reuse lib w kid found c (lookup kid c.cache))
  unfolding fetch_or_reuse
  fetch_failed found h bounds order expired = elim (Option-cases (lookup kid c.cache)) [
    | inl absent ↦ rw absent (conclude_failed found h)
    | inr (there, present) ↦
        let old : ltb (cache_age w.locked_at c) c.ttl ≡ false =
          ground
            (arith, expired there present, cache_age-le c w.begun_at w.locked_at order, bounds) in
        rw (present, old) (conclude_failed found h)
  ]

-- A key whose cached copy is older than is tolerated, or that has none, is refused with
-- ErrJWKSUnavailable while the endpoint fails, and the cache stays as it is; no other goroutine
-- changes the cache in this time, and the TTL is not above the tolerated age.
pub outage_refusal :
    {Key : Type 0} (lib : KeyLib Key) (w : Surroundings Key) (kid : String) (c : JwksCache Key)
    {e : Error}
    → (kid == "") ≡ false
    → (refresh lib w.fetched_at w.response c).0 ≡ some e
    → c.ttl ≤ c.stale_max_age
    → w.begun_at ≤ w.locked_at
    → IsExpired w.begun_at kid c
    → w.meanwhile c ≡ c
    → IsUnavailable lib w kid c (get_key lib w kid c)
unfolding get_key first_look after_look
outage_refusal lib w kid c named failing bounds order expired alone =
    let fetch = λ (found : Bool). fetch_failed lib w kid c found failing bounds order expired in
    elim (Option-cases (lookup kid c.cache)) [
      | inl absent ↦ rw (named, absent, alone) (fetch false)
      | inr (there, present) ↦
          let old : ltb (cache_age w.begun_at c) c.ttl ≡ false =
            ground (arith, expired there present, bounds) in
          let unusable : ltb (cache_age w.begun_at c) c.stale_max_age ≡ false =
            ground (arith, expired there present) in
          rw (named, present, old, unusable, alone) (fetch true)
    ]

-- After a refresh that succeeds, the cache has no key under an identifier that the endpoint does not
-- list any more.
pub refresh_withdraws :
    {Key : Type 0} (lib : KeyLib Key) (now : ℕ) (keys : List Jwk) (c : JwksCache Key) (kid : String)
    → ((k : Jwk) → Memᴰ k keys → k.kid ≢ kid)
    → lookup kid (refresh lib now (responded 200 (inr keys)) c).1.cache ≡ none
unfolding refresh lookup
refresh_withdraws lib now keys c kid others = cache_keys-absent lib kid keys [] others
