-- ===== src/Auth/Chain/Calls.antt =====
-- Who reaches a gRPC handler through the interceptors of auth/chain.go.
use Prim.Native.String
use iroum_ax.Prelude.{
  String, Bool, true, false, Option, none, some, List, [], ◌∷◌, ◌==◌, ◌≡◌, refl, sym, ap, ◌∙◌, ◌⊎◌,
  inl, inr, Bool-cases, Option-cases,
}
use iroum_ax.Prelude.Text.{cut_prefix, cut_prefix_lem, cut_prefix-append}
use iroum_ax.Errors.{Error, ok, Result-cases}
use iroum_ax.Auth.Rbac.{User, authorize}
use iroum_ax.Auth.Rbac.Decision.{MayUse, authorize_iff}
use iroum_ax.Auth.Claims.{ValidatedToken, validated_token_to_user}
use iroum_ax.Auth.Mapping.{lookup_grpc_permission}
use iroum_ax.Auth.Grpc.{Call, UnaryHandler}
use iroum_ax.Auth.Authn.{Verify, authenticate, verify_call, enter_call, unary_server_interceptor}
use iroum_ax.Auth.Authz.{unary_authz_interceptor}
use iroum_ax.Auth.Chain.{grpc_chain}

-- The first authorization header of the call carries a bearer token that `Verify` accepts.
pub record IsAuthenticCall (verify : Verify) (c : Call) : Type 0 where
  pub bearer : String
  pub more : List String
  pub header : c.authorization ≡ some (String.◌++◌ "Bearer " bearer ∷ more)
  pub vt : ValidatedToken
  pub accepted : verify bearer ≡ ok vt

-- It is authentic, and its user may use the permission of the method.
pub record IsEntitledCall (verify : Verify) (c : Call) : Type 0 where
  pub authentic : IsAuthenticCall verify c
  pub mapped : (lookup_grpc_permission c.full_method).found ≡ true
  pub may :
      MayUse (validated_token_to_user authentic.vt) (lookup_grpc_permission c.full_method).perm

abbrev pub called_by : Call → User → Call
called_by c u = record c { user = some u }

module _ {ℓ} {A : Type ℓ} (error_text : Error → String) (verify : Verify) where
  authentic_call :
      (handler : UnaryHandler A) (c : Call) (a : IsAuthenticCall verify c)
      → authenticate error_text verify handler c c.authorization
        ≡ handler (called_by c (validated_token_to_user a.vt))
  authentic_call handler c a =
      ap (λ h. authenticate error_text verify handler c h) a.header
      ∙ ap (λ t. verify_call error_text verify handler c t) (cut_prefix-append "Bearer " a.bearer)
      ∙ ap (λ r. enter_call error_text handler c r) a.accepted

  authentic_call_or :
      (c : Call)
      → IsAuthenticCall verify c
        ⊎ ((handler other : UnaryHandler A)
            → authenticate error_text verify handler c c.authorization
              ≡ authenticate error_text verify other c c.authorization)
  authentic_call_or c = go c.authorization refl
    where
      headed :
          (header : String) (more : List String)
          → c.authorization ≡ some (header ∷ more)
          → IsAuthenticCall verify c
            ⊎ ((handler other : UnaryHandler A)
                → authenticate error_text verify handler c (some (header ∷ more))
                  ≡ authenticate error_text verify other c (some (header ∷ more)))
      headed header more known = elim (Option-cases (cut_prefix header "Bearer ")) [
        | inl no_bearer ↦ inr (λ handler other. rw no_bearer)
        | inr (bearer, cut) ↦ elim (Result-cases (verify bearer)) [
          | inl (e, refused) ↦ inr (λ handler other. rw (cut, refused))
          | inr (vt, accepted) ↦ inl (record {
            bearer = bearer;
            more = more;
            header = known ∙ ap (λ s. some (s ∷ more)) (cut_prefix_lem header "Bearer " bearer cut);
            vt = vt;
            accepted = accepted;
          })
        ]
      ]

      go :
          (authorization : Option (List String))
          → c.authorization ≡ authorization
          → IsAuthenticCall verify c
            ⊎ ((handler other : UnaryHandler A)
                → authenticate error_text verify handler c authorization
                  ≡ authenticate error_text verify other c authorization)
      go none known = inr (λ handler other. refl)
      go (some []) known = inr (λ handler other. refl)
      go (some (header ∷ more)) known = headed header more known

-- The call is to another method than the health check and to none that bypasses authorization.
abbrev pub IsGuardedCall : Call → Type 0
IsGuardedCall c =
    ((c.full_method == "/grpc.health.v1.Health/Check") ≡ false)
    × ((lookup_grpc_permission c.full_method).bypass ≡ false)

-- With authorization on, an entitled call to a guarded method has the outcome of the handler, which
-- finds the user of the token in the context.
pub entitled_call {ℓ} :
    {A : Type ℓ} (error_text : Error → String) (verify : Verify) (recorder : Bool)
    (handler : UnaryHandler A) (c : Call)
    → IsGuardedCall c
    → (e : IsEntitledCall verify c)
    → grpc_chain error_text (some verify) recorder true handler c
      ≡ handler (called_by c (validated_token_to_user e.authentic.vt))
unfolding grpc_chain unary_server_interceptor unary_authz_interceptor
entitled_call error_text verify recorder handler c (named, guard) e =
    let user = validated_token_to_user e.authentic.vt in
    rw named (
      authentic_call error_text verify (unary_authz_interceptor recorder true handler) c e.authentic
      ∙ rw (guard, e.mapped, (authorize_iff user _).1 e.may))

authz_uncalled {ℓ} :
    {A : Type ℓ} (recorder : Bool) (handler other : UnaryHandler A) (c : Call) (u : User)
    → (lookup_grpc_permission c.full_method).bypass ≡ false
    → ¬ (
        ((lookup_grpc_permission c.full_method).found ≡ true)
        × MayUse u (lookup_grpc_permission c.full_method).perm)
    → unary_authz_interceptor recorder true handler (called_by c u)
      ≡ unary_authz_interceptor recorder true other (called_by c u)
unfolding unary_authz_interceptor
authz_uncalled recorder handler other c u guard refused =
    let perm = (lookup_grpc_permission c.full_method).perm in
    elim (Bool-cases (lookup_grpc_permission c.full_method).found) [
      | inr unmapped ↦ rw (guard, unmapped)
      | inl mapped ↦ elim (Result-cases (authorize (some u) perm)) [
        | inl (e, denied) ↦ rw (guard, mapped, denied)
        | inr (done, allowed) ↦ absurd (refused (mapped, (authorize_iff u perm).0 allowed))
      ]
    ]

-- With authorization on, the outcome of a call to a guarded method that is not entitled is the same
-- for every handler.
pub handler_uncalled {ℓ} :
    {A : Type ℓ} (error_text : Error → String) (verify : Verify) (recorder : Bool)
    (handler other : UnaryHandler A) (c : Call)
    → IsGuardedCall c
    → ¬ IsEntitledCall verify c
    → grpc_chain error_text (some verify) recorder true handler c
      ≡ grpc_chain error_text (some verify) recorder true other c
unfolding grpc_chain unary_server_interceptor
handler_uncalled error_text verify recorder handler other c (named, guard) outside =
    let behind : UnaryHandler _ → UnaryHandler _ = unary_authz_interceptor recorder true in
    elim (authentic_call_or error_text verify c) [
      | inr shut ↦ rw named (shut (behind handler) (behind other))
      | inl a ↦
          let user = validated_token_to_user a.vt in
          rw named (
            authentic_call error_text verify (behind handler) c a
            ∙ authz_uncalled recorder handler other c user guard
                (λ (mapped, may). outside (record { authentic = a; mapped = mapped; may = may }))
            ∙ sym (authentic_call error_text verify (behind other) c a))
    ]
