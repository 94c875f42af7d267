-- ===== src/Tests/Sessions.antt =====
-- Refresh tokens and keys in small stores.
use iroum_ax.Prelude.{
  ℕ, String, Bool, true, false, Option, none, some, List, [], ◌∷◌, ◌≡◌, refl, sym, ap, inl, inr,
  Memᴰ, ◌==◌, if◌then◌else◌, arith,
}
use mathlib.Core.List.Memᴰ
use iroum_ax.Errors.{plain_error, Error, ok, err, errors_is, refresh_token_reuse_detected}
use iroum_ax.Auth.Jwks.{
  CachedKey, JwksCache, KeyLib, failed, refresh, Surroundings, get_key, cache_age,
}
use iroum_ax.Auth.Jwks.Freshness.{Source, get_key-Source}
use iroum_ax.Auth.Jwks.Outage.{IsExpired, IsUnavailable, outage_refusal}
use iroum_ax.Auth.Refresh.{TokenStore, RefreshTokenPair, RefreshService, do_refresh}
use iroum_ax.Auth.Refresh.Rotation.{Answers, HasUsedMember, reuse_detected}
use iroum_ax.Auth.Refresh.Replay.{OnlyAdds, refresh_replayed}

-- The state is the members of the one family and the blacklist.
abbrev State : Type 0
State = List String × List String

contains : String → List String → Bool
contains jti [] = false
contains jti (x ∷ xs) = if x == jti then true else contains jti xs

abbrev memory : TokenStore State
memory = record {
  blacklist_jti = λ jti expiry s. (none, (s.0, jti ∷ s.1));
  is_blacklisted = λ jti s. ok (contains jti s.1);
  invalidate_family = λ family s. (none, (s.0, s.0));
  add_to_family = λ family jti expiry s. (none, (jti ∷ s.0, s.1));
  get_family_members = λ family s. ok s.0;
}

abbrev pair : RefreshTokenPair
pair = record { access_token = "a"; refresh_token = "r" }

abbrev service : RefreshService State
service = record { store = memory; issue_token_pair = λ user family. ok pair; log_event = none }

after_add : {a b : State} → ◌≡◌ {A = Option Error × State} (none, a) (none, b) → b ≡ a
after_add h = sym (ap (λ (r : Option Error × State). r.1) h)

memory-OnlyAdds : OnlyAdds memory
memory-OnlyAdds = record {
  kept = λ family jti expiry s s' h x. ap (λ (t : State). ok (contains x t.1)) (after_add h);
  members = λ family jti expiry s s' before h known.
      let grown : s'.0 ≡ jti ∷ s.0 = ap (λ (t : State). t.0) (after_add h) in
      let old : s.0 ≡ before = cc known in
      (
        s'.0,
        refl,
        λ x mem. elim (Memᴰ.cases_cons (rw grown at mem)) [
          | inl same ↦ inl same
          | inr earlier ↦ inr (rw old at earlier)
        ],
      );
}

refreshed : do_refresh service "j" "f" "u" none ([], []) ≡ (ok pair, ("j" ∷ [], []))
unfolding do_refresh contains
refreshed = refl

refresh_replayed_example :
    do_refresh service "j" "f" "u" none ("j" ∷ [], []) ≡ (ok pair, ("j" ∷ "j" ∷ [], []))
refresh_replayed_example =
    refresh_replayed service "j" "f" "u" none ([], []) ("j" ∷ [], []) ("j" ∷ "j" ∷ [], []) pair
      memory-OnlyAdds refreshed refl

memory-Answers : (s : State) → Answers memory s
memory-Answers s jti = (contains jti s.1, refl)

unused : memory.is_blacklisted "j" ("k" ∷ [], "k" ∷ []) ≡ ok false
unfolding contains
unused = refl

used : HasUsedMember service "j" "f" "u" none ("k" ∷ [], "k" ∷ []) ("k" ∷ [])
unfolding contains
used = record { member = "k"; listed = Memᴰ.head refl; other = refl; used = refl }

reuse_detected_example :
    (e : Error) × (do_refresh service "j" "f" "u" none ("k" ∷ [], "k" ∷ [])
      ≡ (err e, ("k" ∷ [], "k" ∷ [])))
    × (errors_is e refresh_token_reuse_detected ≡ true)
reuse_detected_example =
    reuse_detected service "j" "f" "u" none ("k" ∷ [], "k" ∷ []) ("k" ∷ [], "k" ∷ []) ("k" ∷ [])
      (memory-Answers ("k" ∷ [], "k" ∷ [])) unused refl used refl

-- A key is its number of bytes.
abbrev lib : KeyLib ℕ
lib = record { decode_base64 = λ s. ok (1 ∷ []); rsa_key = λ n e. 1; ec_key = λ curve x y. 2 }

abbrev cached : CachedKey ℕ
cached = record { key = 1; alg = "RS256"; kty = "RSA"; kid = "k1" }

abbrev cache : JwksCache ℕ
cache = record {
  cache = ("k1", cached) ∷ [];
  last_success_at = some 10;
  ttl = 100;
  stale_max_age = 400;
  refreshing = false;
}

abbrev outage : ℕ → Surroundings ℕ
outage now = record {
  begun_at = now;
  locked_at = now;
  fetched_at = now;
  response = failed "connection refused";
  meanwhile = λ c. c;
  afterwards = λ c. c;
}

stale_ok : (get_key lib (outage 200) "k1" cache).0 ≡ ok cached
unfolding get_key
stale_ok = refl

get_key-Source_example : Source lib (outage 200) "k1" cache cached
get_key-Source_example = get_key-Source lib (outage 200) "k1" cache cached (omega arith) stale_ok

expired : IsExpired 500 "k1" cache
unfolding cache_age
expired key h = omega arith

refused :
    (refresh lib 500 (failed "connection refused") cache).0
    ≡ some (plain_error "connection refused")
unfolding refresh
refused = refl

outage_refusal_example :
    IsUnavailable lib (outage 500) "k1" cache (get_key lib (outage 500) "k1" cache)
outage_refusal_example =
    outage_refusal lib (outage 500) "k1" cache refl refused (omega arith) (omega arith) expired refl
