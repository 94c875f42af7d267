-- ===== src/Tests/Access.antt =====
-- Requests to the REST handlers with and without a token.
use iroum_ax.Prelude.{
  String, true, false, Option, none, some, [], ◌∷◌, ◌≡◌, ◌≢◌, ◌↔◌, refl, sym, Memᴰ, ◌==◌,
  if◌then◌else◌,
}
use iroum_ax.Prelude.Text.{fields}
use iroum_ax.Errors.{ok, err, sentinel, token_expired}
use iroum_ax.Auth.Rbac.{User, analyst, permission_matrix, user_roles, authorize}
use iroum_ax.Auth.Rbac.Scopes.{HoldsRole}
use iroum_ax.Auth.Rbac.Decision.{MayUse, authorize_iff}
use iroum_ax.Auth.Claims.{ValidatedToken, end, validated_token_to_user}
use iroum_ax.Auth.Mapping.{lookup_rest_permission}
use iroum_ax.Auth.Http.{Request, content, Handler, plain}
use iroum_ax.Auth.Authn.{Verify, with_user}
use iroum_ax.Auth.Authn.Guard.{IsAuthentic, bearer_missing}
use iroum_ax.Auth.Authz.{with_granted_permission, rest_authz_middleware, mapping_missing_response}
use iroum_ax.Auth.Authz.Access.{IsAdmitted, IsGuarded}
use iroum_ax.Auth.Authz.Routes.{unmapped_unavailable}
use iroum_ax.Auth.Chain.{root_handler}
use iroum_ax.Auth.Chain.Access.{IsEntitled, entitled_reply, handlers_unreached}

abbrev analyst_user : User
analyst_user = record {
  uid = "u1";
  issuer = "https://idp";
  roles = [];
  scopes = "openid iroum-ax:analyst" ∷ [];
}

abbrev token : ValidatedToken
token = record {
  expires_at = none;
  claims = end;
  subject = "u1";
  issuer = "https://idp";
  audience = "api" ∷ [];
  scopes = "openid iroum-ax:analyst" ∷ [];
}

abbrev verifier : Verify
verifier t = if t == "good" then ok token else err (sentinel token_expired)

abbrev request : String → String → String → Option User → Request
request method path authorization user = record {
  method = method;
  path = path;
  authorization = authorization;
  user = user;
  granted = none;
}

abbrev says : String → Handler
says text r = plain (record { status = 200; headers = []; body = content text })

abbrev listing : Request
listing = request "GET" "/api/v1/workflows" "Bearer good" (some analyst_user)

abbrev deletion : Request
deletion = request "DELETE" "/api/v1/workflows/1" "Bearer good" (some analyst_user)

abbrev anonymous : Request
anonymous = request "GET" "/api/v1/workflows" "" none

analyst_user-HoldsRole : HoldsRole analyst_user analyst
unfolding fields
analyst_user-HoldsRole = ("openid iroum-ax:analyst", Memᴰ.head refl, Memᴰ.tail (Memᴰ.head refl))

may_read : MayUse analyst_user "read:workflow"
unfolding permission_matrix
may_read = record { role = analyst; holds = analyst_user-HoldsRole; listed = Memᴰ.head refl }

listing_mapped :
    lookup_rest_permission "GET" "/api/v1/workflows"
    ≡ record { perm = "read:workflow"; bypass = false; found = true }
unfolding lookup_rest_permission
listing_mapped = refl

deletion_mapped :
    lookup_rest_permission "DELETE" "/api/v1/workflows/1"
    ≡ record { perm = "delete:workflow"; bypass = false; found = true }
unfolding lookup_rest_permission
deletion_mapped = refl

listing-IsGuarded : IsGuarded listing
unfolding lookup_rest_permission
listing-IsGuarded = refl

deletion-IsGuarded : IsGuarded deletion
unfolding lookup_rest_permission
deletion-IsGuarded = refl

deletion_found : (lookup_rest_permission deletion.method deletion.path).found ≡ true
unfolding lookup_rest_permission
deletion_found = refl

may_list : MayUse analyst_user (lookup_rest_permission listing.method listing.path).perm
unfolding lookup_rest_permission
may_list = may_read

listing-IsAdmitted : IsAdmitted listing
unfolding lookup_rest_permission
listing-IsAdmitted = record { user = analyst_user; present = refl; mapped = refl; may = may_read }

refused : authorize (some analyst_user) "delete:workflow" ≢ ok tt
unfolding authorize user_roles
refused h = absurd (cc h)

may_not_delete : ¬ MayUse analyst_user (lookup_rest_permission deletion.method deletion.path).perm
unfolding lookup_rest_permission
may_not_delete may = refused ((authorize_iff analyst_user "delete:workflow").1 may)

anonymous_outside : ¬ IsAdmitted anonymous
anonymous_outside admitted = absurd (cc admitted.present)

unmapped_unavailable_example :
    rest_authz_middleware true true
      (says "scores")
      (request "GET" "/api/v1/scores/1" "" (some analyst_user))
    ≡ plain mapping_missing_response
unmapped_unavailable_example =
    unmapped_unavailable true (says "scores")
      (request "GET" "/api/v1/scores/1" "" (some analyst_user)) "/api/v1/scores" "/1"
      (Memᴰ.head refl) refl refl refl

abbrev listing_authentic : IsAuthentic verifier listing
listing_authentic = record { bearer = "good"; header = refl; vt = token; accepted = refl }

anonymous_strange : ¬ IsAuthentic verifier anonymous
anonymous_strange a = bearer_missing a.bearer (sym a.header)

listing-IsEntitled : IsEntitled verifier listing
unfolding validated_token_to_user lookup_rest_permission permission_matrix
listing-IsEntitled = record {
  authentic = listing_authentic;
  mapped = refl;
  may = record { role = analyst; holds = analyst_user-HoldsRole; listed = Memᴰ.head refl };
}

entitled_reply_example :
    root_handler (some verifier) true (says "list") listing
    ≡ says "list" (
        with_granted_permission
          (with_user listing (validated_token_to_user token))
          (lookup_rest_permission listing.method listing.path).perm)
entitled_reply_example =
    entitled_reply verifier (says "list") listing refl listing-IsGuarded listing-IsEntitled

anonymous_not-IsEntitled : ¬ IsEntitled verifier anonymous
anonymous_not-IsEntitled e = anonymous_strange e.authentic

handlers_unreached_example :
    root_handler (some verifier) true (says "a") anonymous
    ≡ root_handler (some verifier) true (says "b") anonymous
handlers_unreached_example =
    handlers_unreached verifier (says "a") (says "b") anonymous refl listing-IsGuarded
      anonymous_not-IsEntitled

authorize_iff_example :
    (authorize (some analyst_user) "read:workflow" ≡ ok tt) ↔ MayUse analyst_user "read:workflow"
authorize_iff_example = authorize_iff analyst_user "read:workflow"
