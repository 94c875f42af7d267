-- ===== src/Auth/Abac.antt =====
-- auth/abac.go: conditions on attributes, which narrow what authorization has let pass.
pub mod Narrowing
use Prim.Native.String
use iroum_ax.Prelude.{
  String, ℕ, ℤ, pos, negsuc, ◌+◌, ◌*◌, ◌/◌, ◌%◌, Bool, true, false, not, ◌||◌, Option, none, some,
  List, [], ◌∷◌, if◌then◌else◌, ◌==◌, ltb, leb,
}
use iroum_ax.Prelude.Text.{has_prefix, cut_prefix}
use iroum_ax.Auth.Rbac.{User, Role, admin, analyst, viewer, user_roles}
use iroum_ax.Auth.Http.{
  Request, forbidden_body, Response, ForbiddenEvent, Reply, Handler, plain, json_header,
}
use iroum_ax.Auth.Authz.{told}

-- The result of `Evaluate`: none to allow, or the reason to deny.
abbrev pub Verdict : Type 0
Verdict = Option String

-- `ABACCondition`.
abbrev pub Condition : Type 0
Condition = User → Request → Verdict

pub record Policy : Type 0 where
  pub path_prefix : String
  pub conditions : List Condition

abbrev is_admin : Role → Bool
is_admin admin = true
is_admin analyst = false
is_admin viewer = false

unfoldable pub any_admin : List Role → Bool
any_admin [] = false
any_admin (r ∷ rs) = if is_admin r then true else any_admin rs

unfoldable pub has_admin_role : User → Bool
unfolding user_roles any_admin
has_admin_role user = any_admin (user_roles user)

-- `verdict`, or what comes next if it allows.
abbrev pub or_else : Verdict → Verdict → Verdict
or_else none next = next
or_else (some reason) next = some reason

-- The loop over a policy's conditions.
unfoldable pub evaluate_conditions : List Condition → User → Request → Verdict
evaluate_conditions [] user r = none
evaluate_conditions (cond ∷ conds) user r = or_else (cond user r) (evaluate_conditions conds user r)

-- The loop over the policies.
unfoldable pub evaluate_policies : List Policy → User → Request → Verdict
unfolding has_prefix evaluate_conditions
evaluate_policies [] user r = none
evaluate_policies (p ∷ ps) user r =
    let rest = evaluate_policies ps user r in
    if not (has_prefix r.path p.path_prefix)
    then rest
    else or_else (evaluate_conditions p.conditions user r) rest

-- `ABACEvaluator.Evaluate`.
unfoldable pub evaluate : List Policy → Option User → Request → Verdict
unfolding has_admin_role evaluate_policies
evaluate policies none r = none
evaluate policies (some user) r =
    if has_admin_role user then none else evaluate_policies policies user r

-- The loop of `OrgUnitFromUser`.
unfoldable pub org_unit_of : List String → String
unfolding cut_prefix
org_unit_of [] = ""
org_unit_of (s ∷ ss) = elim (cut_prefix s "iroum-ax-org:") [
  | none ↦ org_unit_of ss
  | some unit ↦ unit
]

unfoldable pub org_unit_from_user : Option User → String
unfolding org_unit_of
org_unit_from_user none = ""
org_unit_from_user (some user) = org_unit_of user.scopes

abbrev owned_by : User → Option String → Verdict
owned_by user none = none
owned_by user (some owner) = if user.uid == owner then none else some "ownership:mismatch"

-- `OwnershipCondition`; a function field that is nil is none.
unfoldable pub ownership_condition : Option (Request → Option String) → Condition
ownership_condition none user r = none
ownership_condition (some owner_from_request) user r = owned_by user (owner_from_request r)

abbrev same_org : String → Option String → Verdict
same_org user_org none = none
same_org user_org (some res_org) =
    if res_org == "" then none else if user_org == res_org then none else some "org_unit:cross-org"

abbrev org_of : Option (Request → String) → Request → Option String
org_of none r = none
org_of (some resource_org) r = some (resource_org r)

unfoldable pub org_unit_condition : Option (Request → String) → Condition
unfolding org_unit_from_user
org_unit_condition resource_org user r =
    let user_org = org_unit_from_user (some user) in
    if user_org == "" then none else same_org user_org (org_of resource_org r)

-- `now().In(KST).Hour()` for a time in seconds since 1970.
unfoldable pub kst_hour : ℕ → ℕ
kst_hour now = (now + 9 * 3600) / 3600 % 24

-- `hour < bound` for a bound that may be negative.
abbrev pub hour_below : ℕ → ℤ → Bool
hour_below hour (pos n) = ltb hour n
hour_below hour (negsuc n) = false

unfoldable pub time_window_condition : ℕ → ℤ → ℤ → Condition
unfolding kst_hour
time_window_condition now start_hour end_hour user r =
    let hour = kst_hour now in
    if hour_below hour start_hour || not (hour_below hour end_hour)
    then some "time_window:outside_hours"
    else none

abbrev pub abac_denied_response : String → Response
abac_denied_response reason = record {
  status = 403;
  headers = json_header ∷ [];
  body = forbidden_body "ABAC_CONDITION_DENIED" "ABAC condition denied" reason [];
}

abbrev denied_event : Bool → Request → String → Option User → List ForbiddenEvent
denied_event has_recorder r reason none = []
denied_event has_recorder r reason (some user) = told has_recorder (record {
  method = r.method;
  path = r.path;
  required = reason;
  user_id = user.uid;
  granted_roles = user_roles user;
})

abbrev conclude : Bool → Handler → Request → Verdict → Reply
conclude has_recorder next r none = next r
conclude has_recorder next r (some reason) = record {
  response = abac_denied_response reason;
  audited = denied_event has_recorder r reason r.user;
}

unfoldable pub abac_middleware : List Policy → Bool → Bool → Handler → Handler
unfolding evaluate user_roles
abac_middleware policies has_recorder auth_enabled next r =
    if auth_enabled then conclude has_recorder next r (evaluate policies r.user r) else next r

abbrev pub default_abac_policies : List Policy
default_abac_policies = []
