-- ===== src/Tests/Calls.antt =====
-- gRPC calls with and without a token.
use iroum_ax.Prelude.{ℕ, String, true, Option, none, some, List, [], ◌∷◌, ◌≡◌, refl, Memᴰ}
use iroum_ax.Prelude.Text.{fields}
use iroum_ax.Errors.{Error, ok}
use iroum_ax.Auth.Rbac.{viewer, permission_matrix}
use iroum_ax.Auth.Claims.{ValidatedToken, end, validated_token_to_user}
use iroum_ax.Auth.Mapping.{lookup_grpc_permission}
use iroum_ax.Auth.Grpc.{Call, sent, UnaryHandler}
use iroum_ax.Auth.Authn.{Verify}
use iroum_ax.Auth.Chain.{grpc_chain}
use iroum_ax.Auth.Chain.Calls.{IsAuthenticCall, IsEntitledCall, IsGuardedCall, handler_uncalled}

abbrev token : ValidatedToken
token = record {
  expires_at = none;
  claims = end;
  subject = "u1";
  issuer = "https://idp";
  audience = "api" ∷ [];
  scopes = "iroum-ax:viewer" ∷ [];
}

abbrev verifier : Verify
verifier t = ok token

abbrev get_workflow_method : String
get_workflow_method = "/iroum.ax.v1.WorkflowService/GetWorkflow"

abbrev call : Option (List String) → Call
call authorization = record {
  full_method = get_workflow_method;
  authorization = authorization;
  user = none;
}

abbrev replies : ℕ → UnaryHandler ℕ
replies n c = record { answer = sent n; audited = [] }

abbrev text_of : Error → String
text_of e = "error"

guarded : (authorization : Option (List String)) → IsGuardedCall (call authorization)
unfolding lookup_grpc_permission
guarded authorization = (refl, refl)

abbrev authentic : IsAuthenticCall verifier (call (some ("Bearer t" ∷ [])))
authentic = record { bearer = "t"; more = []; header = refl; vt = token; accepted = refl }

entitled : IsEntitledCall verifier (call (some ("Bearer t" ∷ [])))
unfolding lookup_grpc_permission validated_token_to_user permission_matrix fields
entitled = record {
  authentic = authentic;
  mapped = refl;
  may = record {
    role = viewer;
    holds = ("iroum-ax:viewer", Memᴰ.head refl, Memᴰ.head refl);
    listed = Memᴰ.head refl;
  };
}

outside : ¬ IsEntitledCall verifier (call none)
outside e = absurd (cc e.authentic.header)

handler_uncalled_example :
    grpc_chain text_of (some verifier) true true (replies 1) (call none)
    ≡ grpc_chain text_of (some verifier) true true (replies 2) (call none)
handler_uncalled_example =
    handler_uncalled text_of verifier true (replies 1) (replies 2) (call none) (guarded none)
      outside
