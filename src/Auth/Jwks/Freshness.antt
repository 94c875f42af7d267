-- ===== src/Auth/Jwks/Freshness.antt =====
-- How old the keys are that auth/jwks_cache.go gives.
use iroum_ax.Prelude.{
  String, ◌≤◌, ◌<◌, Bool, true, false, Option, none, some, ltb, ltb→lt, ◌==◌, inl, inr, ◌≡◌, ap,
  ◌∙◌, arith, lookup, Bool-cases, Option-cases,
}
use iroum_ax.Errors.{Error, ok}
use iroum_ax.Auth.Jwks.{
  CachedKey, JwksCache, KeyLib, cache_age, refresh, first_look, Surroundings, fetch_or_reuse,
  conclude, after_look, get_key,
}

module _ {Key : Type 0} (lib : KeyLib Key) (w : Surroundings Key) (kid : String)
    (c : JwksCache Key) where
  abbrev waited : JwksCache Key
  waited = w.meanwhile c

  abbrev refreshed : Option Error × JwksCache Key
  refreshed = refresh lib w.fetched_at w.response waited

  -- Where a key can come from.
  pub data Source (cached : CachedKey Key) : Type 0 where
    -- The cache, within the age that is tolerated.
    from_cache :
        lookup kid c.cache ≡ some cached → cache_age w.begun_at c < c.stale_max_age → Source cached
    -- The cache that somebody else refreshed meanwhile, within its TTL.
    from_other :
        lookup kid waited.cache ≡ some cached
        → cache_age w.locked_at waited < waited.ttl
        → Source cached
    -- The cache behind a fetch of this call that succeeded.
    from_endpoint :
        refreshed.0 ≡ none
        → lookup kid (w.afterwards refreshed.1).cache ≡ some cached
        → Source cached

  concluded :
      (found : Bool) (cached : CachedKey Key)
      → (conclude lib w kid found refreshed).0 ≡ ok cached
      → Source cached
  concluded found cached h = elim (Option-cases refreshed.0) [
    | inr (e, failing) ↦ elim (Bool-cases found) [
      | inl known ↦ absurd (cc (rw (known, failing) at h))
      | inr unknown ↦ absurd (cc (rw (unknown, failing) at h))
    ]
    | inl fetched ↦ elim (Option-cases (lookup kid (w.afterwards refreshed.1).cache)) [
      | inl absent ↦ absurd (cc (rw (fetched, absent) at h))
      | inr (there, present) ↦
          let same : there ≡ cached = cc (rw (fetched, present) at h) in
          from_endpoint fetched (present ∙ ap some same)
    ]
  ]

  fetch-Source :
      (found : Bool) (cached : CachedKey Key)
      → (fetch_or_reuse lib w kid found waited (lookup kid waited.cache)).0 ≡ ok cached
      → Source cached
  unfolding fetch_or_reuse
  fetch-Source found cached h = elim (Option-cases (lookup kid waited.cache)) [
    | inl absent ↦ concluded found cached (rw absent at h)
    | inr (there, present) ↦ elim (Bool-cases (ltb (cache_age w.locked_at waited) waited.ttl)) [
      | inl young ↦
          let same : there ≡ cached = cc (rw (present, young) at h) in
          from_other (present ∙ ap some same) (ltb→lt _ _ young)
      | inr old ↦ concluded found cached (rw (present, old) at h)
    ]
  ]

-- A key that `GetKey` gives is from the cache at an age below the tolerated one, or from the cache
-- that another goroutine refreshed while this one waited, within its TTL, or from the cache behind a
-- fetch of this call that succeeded, whatever else happens to the cache meanwhile. This is for a TTL
-- that is not above the tolerated age.
pub get_key-Source :
    {Key : Type 0} (lib : KeyLib Key) (w : Surroundings Key) (kid : String) (c : JwksCache Key)
    (cached : CachedKey Key)
    → c.ttl ≤ c.stale_max_age
    → (get_key lib w kid c).0 ≡ ok cached
    → Source lib w kid c cached
unfolding get_key first_look after_look
get_key-Source lib w kid c cached bounds h = elim (Bool-cases (kid == "")) [
  | inl empty ↦ absurd (cc (rw empty at h))
  | inr named ↦ elim (Option-cases (lookup kid c.cache)) [
    | inl absent ↦ fetch-Source lib w kid c false cached (rw (named, absent) at h)
    | inr (there, present) ↦ elim (Bool-cases (ltb (cache_age w.begun_at c) c.ttl)) [
      | inl young ↦
          let same : there ≡ cached = cc (rw (named, present, young) at h) in
          from_cache (present ∙ ap some same) (omega (arith, ltb→lt _ _ young, bounds))
      | inr old ↦ elim (Bool-cases (ltb (cache_age w.begun_at c) c.stale_max_age)) [
        | inl usable ↦
            let same : there ≡ cached = cc (rw (named, present, old, usable) at h) in
            from_cache (present ∙ ap some same) (ltb→lt _ _ usable)
        | inr expired ↦
            fetch-Source lib w kid c true cached (rw (named, present, old, expired) at h)
      ]
    ]
  ]
]
