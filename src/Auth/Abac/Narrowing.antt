-- ===== src/Auth/Abac/Narrowing.antt =====
-- What the conditions of auth/abac.go let pass.
use iroum_ax.Prelude.{
  String, ℕ, pos, ◌≤◌, ◌<◌, Bool, true, none, some, List, [], ◌∷◌, ◌≡◌, refl, ap, ◌↔◌, ◌⊎◌, inl,
  inr, arith, Memᴰ, Bool-cases, Option-cases,
}
use mathlib.Core.List.Memᴰ
use iroum_ax.Prelude.Text.{has_prefix}
use iroum_ax.Auth.Rbac.{User, Role, admin, analyst, viewer, user_roles}
use iroum_ax.Auth.Rbac.Scopes.{HoldsRole, mem-user_roles}
use iroum_ax.Auth.Http.{Request, Handler}
use iroum_ax.Auth.Abac.{
  Condition, Policy, any_admin, has_admin_role, or_else, evaluate_conditions, evaluate_policies,
  evaluate, kst_hour, time_window_condition, abac_middleware, Verdict,
}

-- Every condition of every policy on the path allows the request.
abbrev pub AllAllow : List Policy → User → Request → Type 0
AllAllow policies user r =
    (p : Policy)
    → Memᴰ p policies
    → has_prefix r.path p.path_prefix ≡ true
    → (c : Condition) → Memᴰ c p.conditions
    → c user r ≡ none

any_admin-mem : (roles : List Role) → any_admin roles ≡ true → Memᴰ admin roles
unfolding any_admin
any_admin-mem [] h = absurd (cc h)
any_admin-mem (admin ∷ roles) h = Memᴰ.head refl
any_admin-mem (analyst ∷ roles) h = Memᴰ.tail (any_admin-mem roles h)
any_admin-mem (viewer ∷ roles) h = Memᴰ.tail (any_admin-mem roles h)

mem-any_admin : (roles : List Role) → Memᴰ admin roles → any_admin roles ≡ true
unfolding any_admin
mem-any_admin [] h = elim h [ ]
mem-any_admin (admin ∷ roles) h = refl
mem-any_admin (analyst ∷ roles) (Memᴰ.head e) = absurd (cc e)
mem-any_admin (analyst ∷ roles) (Memᴰ.tail h) = mem-any_admin roles h
mem-any_admin (viewer ∷ roles) (Memᴰ.head e) = absurd (cc e)
mem-any_admin (viewer ∷ roles) (Memᴰ.tail h) = mem-any_admin roles h

or_else-none : (v w : Verdict) → (or_else v w ≡ none) ↔ ((v ≡ none) × (w ≡ none))
or_else-none none w = ((λ h. (refl, h)), (λ h. h.1))
or_else-none (some reason) w = ((λ h. absurd (cc h)), (λ h. absurd (cc h.0)))

conditions_allow :
    (cs : List Condition) (user : User) (r : Request)
    → (evaluate_conditions cs user r ≡ none) ↔ ((c : Condition) → Memᴰ c cs → c user r ≡ none)
unfolding evaluate_conditions
conditions_allow [] user r = ((λ h c mem. elim mem [ ]), (λ h. refl))
conditions_allow (c ∷ cs) user r =
    let (apart, together) = or_else-none (c user r) (evaluate_conditions cs user r) in
    let (each, all) = conditions_allow cs user r in
    (
      λ h d mem. elim (Memᴰ.cases_cons mem) [
        | inl e ↦ rw e (apart h).0
        | inr later ↦ each (apart h).1 d later
      ],
      λ h. together (h c (Memᴰ.head refl), all (λ d mem. h d (Memᴰ.tail mem))),
    )

policies_allow :
    (ps : List Policy) (user : User) (r : Request)
    → (evaluate_policies ps user r ≡ none) ↔ AllAllow ps user r
unfolding evaluate_policies
policies_allow [] user r = ((λ h p mem. elim mem [ ]), (λ h. refl))
policies_allow (p ∷ ps) user r =
    let (each, all) = policies_allow ps user r in
    let (conditions, conditions_all) = conditions_allow p.conditions user r in
    let (apart, together) =
      or_else-none (evaluate_conditions p.conditions user r) (evaluate_policies ps user r) in
    elim (Bool-cases (has_prefix r.path p.path_prefix)) [
      | inl here ↦ rw here (
        λ h q mem on_path c in_q. elim (Memᴰ.cases_cons mem) [
          | inl e ↦ conditions (apart h).0 c (rw e at in_q)
          | inr later ↦ each (apart h).1 q later on_path c in_q
        ],
        λ h.
            together
              (conditions_all (h p (Memᴰ.head refl) here), all (λ q mem. h q (Memᴰ.tail mem))),
      )
      | inr elsewhere ↦ rw elsewhere (
        λ h q mem on_path c in_q. elim (Memᴰ.cases_cons mem) [
          | inl e ↦
              absurd
                (cc (ap (λ (x : Policy). has_prefix r.path x.path_prefix) e, on_path, elsewhere))
          | inr later ↦ each h q later on_path c in_q
        ],
        λ h. all (λ q mem. h q (Memᴰ.tail mem)),
      )
    ]

-- A user's request is allowed exactly if the user holds the role admin or every condition of every
-- policy whose prefix the path has allows it.
pub evaluate_iff :
    (policies : List Policy) (user : User) (r : Request)
    → (evaluate policies (some user) r ≡ none) ↔ (HoldsRole user admin ⊎ AllAllow policies user r)
unfolding evaluate has_admin_role
evaluate_iff policies user r =
    let (to_holds, of_holds) = mem-user_roles user admin in
    let (to_all, of_all) = policies_allow policies user r in
    elim (Bool-cases (any_admin (user_roles user))) [
      | inl yes_admin ↦
          rw yes_admin (λ h. inl (to_holds (any_admin-mem (user_roles user) yes_admin)), λ h. refl)
      | inr no_admin ↦ rw no_admin (
        λ h. inr (to_all h),
        λ h. elim h [
          | inl holds ↦ absurd (cc (mem-any_admin (user_roles user) (of_holds holds), no_admin))
          | inr all ↦ of_all all
        ],
      )
    ]

-- The middleware only narrows: with authorization on, the evaluation allows the request and the reply
-- is the handler's to the same request, or the evaluation denies it for a reason and the reply is 403
-- and the same for every handler.
pub abac_narrows :
    (policies : List Policy) (recorder : Bool) (next other : Handler) (r : Request)
    → ((evaluate policies r.user r ≡ none)
        × (abac_middleware policies recorder true next r ≡ next r))
      ⊎ ((reason : String) × (evaluate policies r.user r ≡ some reason)
          × (abac_middleware policies recorder true next r
              ≡ abac_middleware policies recorder true other r)
          × ((abac_middleware policies recorder true next r).response.status ≡ 403))
unfolding abac_middleware
abac_narrows policies recorder next other r = elim (Option-cases (evaluate policies r.user r)) [
  | inl allowed ↦ inl (allowed, rw allowed)
  | inr (reason, denied) ↦ inr (reason, denied, rw denied, rw denied)
]

-- The window is open exactly in the hours from the start, which it includes, to the end, which it
-- excludes, of the day in Korea.
pub time_window_iff :
    (now start end : ℕ) (user : User) (r : Request)
    → (time_window_condition now (pos start) (pos end) user r ≡ none)
      ↔ ((start ≤ kst_hour now) × (kst_hour now < end))
unfolding time_window_condition
time_window_iff now start end user r = ground arith
