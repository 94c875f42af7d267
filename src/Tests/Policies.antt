-- ===== src/Tests/Policies.antt =====
-- Policies of auth/abac.go on small requests.
use iroum_ax.Prelude.{String, true, none, some, List, [], ◌∷◌, ◌≡◌, ◌↔◌, ◌⊎◌, refl}
use iroum_ax.Auth.Rbac.{User, admin}
use iroum_ax.Auth.Rbac.Scopes.{HoldsRole}
use iroum_ax.Auth.Http.{Request, content, Handler, plain}
use iroum_ax.Auth.Abac.{
  Policy, evaluate, ownership_condition, org_unit_condition, kst_hour, abac_middleware,
}
use iroum_ax.Auth.Abac.Narrowing.{AllAllow, evaluate_iff, abac_narrows}

abbrev user : User
user = record { uid = "u1"; issuer = "idp"; roles = []; scopes = "iroum-ax-org:finance" ∷ [] }

abbrev request : Request
request = record {
  method = "GET";
  path = "/api/v1/workflows/1";
  authorization = "";
  user = some user;
  granted = none;
}

abbrev policies : List Policy
policies =
    record {
      path_prefix = "/api/v1/workflows";
      conditions =
          ownership_condition (some (λ r. some "u1"))
          ∷ org_unit_condition (some (λ r. "sales"))
          ∷ [];
    }
    ∷ []

abbrev says : String → Handler
says text r = plain (record { status = 200; headers = []; body = content text })

other_org : evaluate policies (some user) request ≡ some "org_unit:cross-org"
unfolding evaluate ownership_condition org_unit_condition
other_org = refl

evaluate_iff_example :
    (evaluate policies (some user) request ≡ none)
    ↔ (HoldsRole user admin ⊎ AllAllow policies user request)
evaluate_iff_example = evaluate_iff policies user request

abac_narrows_example :
    ((evaluate policies (some user) request ≡ none)
      × (abac_middleware policies true true (says "a") request ≡ says "a" request))
    ⊎ ((reason : String) × (evaluate policies (some user) request ≡ some reason)
        × (abac_middleware policies true true (says "a") request
            ≡ abac_middleware policies true true (says "b") request)
        × ((abac_middleware policies true true (says "a") request).response.status ≡ 403))
abac_narrows_example = abac_narrows policies true (says "a") (says "b") request

nine_in_korea : kst_hour 0 ≡ 9
unfolding kst_hour
nine_in_korea = refl
