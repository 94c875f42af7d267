-- ===== src/Store/Query/Pages.antt =====
-- The pages of `QueryAuditLogs` and `ListWorkflows` of store/fake_store.go, put together again.
use iroum_ax.Prelude.{
  ℕ, String, pos, zero, suc, ◌+◌, ◌*◌, ◌-◌, ◌≤◌, ◌<◌, ◌≡◌, refl, sym, ◌∙◌, ap, List, [], ◌∷◌, ◌++◌,
  arith, length, take, drop, leb, ltb, take_all, drop_all, take-nil, take-append-drop, length-drop,
  Bool-cases, inl, inr, true,
}
use mathlib.Core.List.{Perm}
use native.Mathlib.Nat.{suc-mul, zero-mul}
use iroum_ax.Prelude.Sorting.{
  sort_desc, sort_desc-perm, sort_desc-IsDescending, IsDescending, length-sort_desc,
}
use iroum_ax.Types.{Workflow}
use iroum_ax.Audit.{Event}
use iroum_ax.Store.{FakeStore}
use iroum_ax.Store.Query.{
  AuditLogFilter, select, query_audit_logs, list_workflows, page, rows, timestamp, created_at,
}

page_lem {ℓ} :
    {A : Type ℓ} (limit offset : ℕ) (xs : List A)
    → page limit offset xs ≡ take limit (drop offset xs)
page_lem limit offset xs = elim (Bool-cases (leb (length xs) offset)) [
  | inl past ↦ rw past (rw (drop_all offset xs (ground arith)) (sym (take-nil limit)))
  | inr within ↦ elim (Bool-cases (ltb (length xs) (offset + limit))) [
    | inl cut ↦
        let rest = drop offset xs in
        rw (within, cut)
          (take_all (length xs - offset) rest (omega (arith, length-drop offset xs))
            ∙ sym (take_all limit rest (ground (arith, length-drop offset xs))))
    | inr full ↦ rw (within, full) (ap (λ n. take n (drop offset xs)) (omega arith))
  ]
]

-- The first `n` pages of a query, put end to end.
abbrev pub audit_pages : AuditLogFilter → ℕ → ℕ → FakeStore → List Event
audit_pages filter limit zero s = []
audit_pages filter limit (suc n) s =
    audit_pages filter limit n s ++ (query_audit_logs filter limit (pos (n * limit)) s).0

audit_pages_lem :
    (filter : AuditLogFilter) (limit n : ℕ) (s : FakeStore)
    → audit_pages filter limit n s
      ≡ take (n * limit) (sort_desc timestamp (select filter s.audit_logs))
unfolding query_audit_logs
audit_pages_lem filter limit zero s = rw zero-mul
audit_pages_lem filter limit (suc n) s =
    let matched = sort_desc timestamp (select filter s.audit_logs) in
    rw (audit_pages_lem filter limit n s, page_lem, suc-mul)
      (take-append-drop (n * limit) limit matched)

-- Reading page after page until as many events are read as the query counts gives every event of the
-- log that the filter selects, as often as the log holds it, and the latest first.
pub audit_pages_complete :
    (filter : AuditLogFilter) (limit n : ℕ) (s : FakeStore)
    → (query_audit_logs filter limit (pos 0) s).1 ≤ n * limit
    → Perm (audit_pages filter limit n s) (select filter s.audit_logs)
      × IsDescending timestamp (audit_pages filter limit n s)
unfolding query_audit_logs
audit_pages_complete filter limit n s enough =
    let matched = sort_desc timestamp (select filter s.audit_logs) in
    let whole : audit_pages filter limit n s ≡ matched =
      audit_pages_lem filter limit n s ∙ take_all (n * limit) matched enough in
    rw whole (
      sort_desc-perm timestamp (select filter s.audit_logs),
      sort_desc-IsDescending timestamp (select filter s.audit_logs),
    )

length-rows {ℓ} : {V : Type ℓ} (m : List (String × V)) → length (rows m) ≡ length m
length-rows [] = refl
length-rows ((key, v) ∷ m) = ap suc (length-rows m)

list_lem :
    (limit offset : ℕ) (s : FakeStore)
    → 0 < limit
    → list_workflows limit offset s
      ≡ take limit (drop offset (sort_desc created_at (rows s.workflows)))
unfolding list_workflows
list_lem limit offset s positive =
    let all = sort_desc created_at (rows s.workflows) in
    let rest = drop offset all in
    elim (Bool-cases (leb (length all) offset)) [
      | inl past ↦ rw past (rw (drop_all offset all (ground arith)) (sym (take-nil limit)))
      | inr within ↦ elim (Bool-cases (ltb limit (length rest))) [
        | inl more ↦ let asked : ltb 0 limit ≡ true = ground arith in rw (within, more, asked)
        | inr last ↦
            let asked : ltb 0 limit ≡ true = ground arith in
            rw (within, last, asked) (sym (take_all limit rest (ground arith)))
      ]
    ]

abbrev pub workflow_pages : ℕ → ℕ → FakeStore → List Workflow
workflow_pages limit zero s = []
workflow_pages limit (suc n) s = workflow_pages limit n s ++ list_workflows limit (n * limit) s

workflow_pages_lem :
    (limit n : ℕ) (s : FakeStore)
    → 0 < limit
    → workflow_pages limit n s ≡ take (n * limit) (sort_desc created_at (rows s.workflows))
workflow_pages_lem limit zero s positive = rw zero-mul
workflow_pages_lem limit (suc n) s positive =
    rw (workflow_pages_lem limit n s positive, list_lem limit (n * limit) s positive, suc-mul)
      (take-append-drop (n * limit) limit (sort_desc created_at (rows s.workflows)))

-- Listing workflows page after page, with a positive limit, until the pages hold as many as the store
-- has rows gives every stored workflow once, the newest first.
pub workflow_pages_complete :
    (limit n : ℕ) (s : FakeStore)
    → 0 < limit
    → length s.workflows ≤ n * limit
    → Perm (workflow_pages limit n s) (rows s.workflows)
      × IsDescending created_at (workflow_pages limit n s)
workflow_pages_complete limit n s positive enough =
    let all = sort_desc created_at (rows s.workflows) in
    let fits : length all ≤ n * limit =
      omega (arith, length-sort_desc created_at (rows s.workflows), length-rows s.workflows) in
    let whole : workflow_pages limit n s ≡ all =
      workflow_pages_lem limit n s positive ∙ take_all (n * limit) all fits in
    rw whole (
      sort_desc-perm created_at (rows s.workflows),
      sort_desc-IsDescending created_at (rows s.workflows),
    )
