-- ===== src/Store/Query.antt =====
-- `QueryAuditLogs` and `ListWorkflows` of store/fake_store.go. An argument `limit` is not negative, as
-- the handlers see to, and `offset` of `ListWorkflows` neither (a negative one panics).
pub mod Pages
pub mod Filter
use iroum_ax.Prelude.{
  String, ℕ, ℤ, pos, negsuc, ◌+◌, ◌-◌, Bool, true, false, not, Option, none, some, List, [], ◌∷◌,
  if◌then◌else◌, leb, ltb, ◌&&◌, ◌==◌, length, take, drop,
}
use iroum_ax.Prelude.Sorting.{sort_desc}
use iroum_ax.Types.{Workflow}
use iroum_ax.Audit.{Event, action_name}
use iroum_ax.Store.{FakeStore}

pub record AuditLogFilter : Type 0 where
  pub action : Option String
  pub resource_type : Option String
  pub resource_id : Option ℕ
  pub user_id : Option String
  pub since : Option ℕ
  pub until : Option ℕ

-- A field of the filter that is nil admits everything.
abbrev pub admits {ℓ} : {A : Type ℓ} → (A → Bool) → Option A → Bool
admits test none = true
admits test (some wanted) = test wanted

abbrev nat_eq : ℕ → ℕ → Bool
nat_eq a b = leb a b && leb b a

-- The six `continue`s of the loop.
unfoldable pub matches : AuditLogFilter → Event → Bool
unfolding action_name
matches filter e =
    if not (admits (λ a. action_name e.action == a) filter.action)
    then false
    else if not (admits (λ t. e.resource_type == t) filter.resource_type)
    then false
    else if not (admits (λ i. nat_eq e.resource_id i) filter.resource_id)
    then false
    else if not (admits (λ u. e.user_id == u) filter.user_id)
    then false
    else if not (admits (λ t. not (ltb e.timestamp t)) filter.since)
    then false
    else if not (admits (λ t. not (ltb t e.timestamp)) filter.until)
    then false
    else true

unfoldable pub select : AuditLogFilter → List Event → List Event
select filter [] = []
select filter (e ∷ es) = if matches filter e then e ∷ select filter es else select filter es

abbrev clamp : ℤ → ℕ
clamp (pos n) = n
clamp (negsuc n) = 0

-- `matched[offset:end]` with `end` cut down to the length.
abbrev page {ℓ} : {A : Type ℓ} → ℕ → ℕ → List A → List A
page limit offset xs =
    let end = offset + limit in
    let stop = if ltb (length xs) end then length xs else end in
    if leb (length xs) offset then [] else take (stop - offset) (drop offset xs)

abbrev pub timestamp : Event → ℕ
timestamp e = e.timestamp

-- The events of the page, and how many match in all.
unfoldable pub query_audit_logs : AuditLogFilter → ℕ → ℤ → FakeStore → List Event × ℕ
unfolding select sort_desc
query_audit_logs filter limit offset s =
    let matched = sort_desc timestamp (select filter s.audit_logs) in
    (page limit (clamp offset) matched, length matched)

abbrev pub rows {ℓ} : {V : Type ℓ} → List (String × V) → List V
rows [] = []
rows ((key, v) ∷ m) = v ∷ rows m

abbrev pub created_at : Workflow → ℕ
created_at w = w.created_at

unfoldable pub list_workflows : ℕ → ℕ → FakeStore → List Workflow
unfolding sort_desc
list_workflows limit offset s =
    let all = sort_desc created_at (rows s.workflows) in
    let rest = drop offset all in
    if leb (length all) offset
    then []
    else if ltb 0 limit && ltb limit (length rest)
    then take limit rest
    else rest
