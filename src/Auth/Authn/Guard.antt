-- ===== src/Auth/Authn/Guard.antt =====
-- Who passes the REST authentication of auth/middleware.go.
use Prim.Native.String
use iroum_ax.Prelude.{
  String, false, none, some, ◌==◌, ◌≡◌, ◌≢◌, ◌⊎◌, refl, sym, ap, ◌∙◌, inl, inr, Bool-cases,
  Option-cases,
}
use text.Mathlib.TextEquality.{eq_iff}
use iroum_ax.Prelude.Text.{cut_prefix, cut_prefix_lem, cut_prefix-append}
use iroum_ax.Errors.{ok, Result-cases}
use iroum_ax.Auth.Claims.{ValidatedToken, validated_token_to_user}
use iroum_ax.Auth.Http.{Request, Handler}
use iroum_ax.Auth.Authn.{Verify, with_user, enter, verify_bearer, rest_middleware}

-- The request carries a bearer token that `Verify` accepts.
pub record IsAuthentic (verify : Verify) (r : Request) : Type 0 where
  pub bearer : String
  pub header : r.authorization ≡ String.◌++◌ "Bearer " bearer
  pub vt : ValidatedToken
  pub accepted : verify bearer ≡ ok vt

none_cut : cut_prefix "" "Bearer " ≡ none
unfolding cut_prefix
none_cut = refl

pub bearer_missing : (bearer : String) → String.◌++◌ "Bearer " bearer ≢ ""
bearer_missing bearer h =
    absurd (cc (ap (λ s. cut_prefix s "Bearer ") h, cut_prefix-append "Bearer " bearer, none_cut))

-- A request to a path other than /health with an authentic token has the reply of what is behind the
-- authentication, which finds the user of the token's claims in the context.
pub authentic_reply :
    (verify : Verify) (next : Handler) (r : Request)
    → (r.path == "/health") ≡ false
    → (a : IsAuthentic verify r)
    → rest_middleware (some verify) next r ≡ next (with_user r (validated_token_to_user a.vt))
unfolding rest_middleware verify_bearer enter
authentic_reply verify next r path a =
    let cut : cut_prefix r.authorization "Bearer " ≡ some a.bearer =
      rw a.header (cut_prefix-append "Bearer " a.bearer) in
    elim (Bool-cases (r.authorization == "")) [
      | inl missing ↦
          absurd (bearer_missing a.bearer (sym a.header ∙ (eq_iff r.authorization "").0 missing))
      | inr header ↦
          rw (path, header) (ap (λ token. verify_bearer verify next r token) cut ∙ rw a.accepted)
    ]

-- The reply is one that no handler has a part in, with status 401.
abbrev pub IsShut : Verify → Request → Type 0
IsShut verify r =
    (next other : Handler)
    → (rest_middleware (some verify) next r ≡ rest_middleware (some verify) other r)
      × ((rest_middleware (some verify) next r).response.status ≡ 401)

pub authentic_or_IsShut :
    (verify : Verify) (r : Request)
    → (r.path == "/health") ≡ false
    → IsAuthentic verify r ⊎ IsShut verify r
unfolding rest_middleware verify_bearer enter
authentic_or_IsShut verify r path = elim (Bool-cases (r.authorization == "")) [
  | inl missing ↦ inr (λ next other. (rw (path, missing), rw (path, missing)))
  | inr header ↦ elim (Option-cases (cut_prefix r.authorization "Bearer ")) [
    | inl no_bearer ↦
        inr (λ next other. (rw (path, header, no_bearer), rw (path, header, no_bearer)))
    | inr (bearer, cut) ↦ elim (Result-cases (verify bearer)) [
      | inl (e, refused) ↦
          inr (λ next other. (rw (path, header, cut, refused), rw (path, header, cut, refused)))
      | inr (vt, accepted) ↦ inl (record {
        bearer = bearer;
        header = cut_prefix_lem r.authorization "Bearer " bearer cut;
        vt = vt;
        accepted = accepted;
      })
    ]
  ]
]

-- The reply to a request to a path other than /health without an authentic token is 401 and is the
-- same for every handler.
pub unauthentic_reply :
    (verify : Verify) (r : Request)
    → (r.path == "/health") ≡ false
    → ¬ IsAuthentic verify r
    → IsShut verify r
unauthentic_reply verify r path strange = elim (authentic_or_IsShut verify r path) [
  | inl a ↦ absurd (strange a)
  | inr shut ↦ shut
]
