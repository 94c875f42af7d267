-- ===== src/Store/Query/Filter.antt =====
-- The filter of `QueryAuditLogs` of store/fake_store.go as a condition on an event.
use iroum_ax.Prelude.{
  ℕ, String, ◌≤◌, ◌≡◌, ◌⊎◌, ◌↔◌, true, arith, Option, none, some, ◌==◌, not, ltb,
}
use text.Mathlib.TextEquality.{eq_iff}
use iroum_ax.Audit.{Event, action_name}
use iroum_ax.Store.Query.{AuditLogFilter, admits, nat_eq, matches}

-- The field is nil, or it is the value.
abbrev pub IsOrNil {ℓ} : {A : Type ℓ} → Option A → A → Type ℓ
IsOrNil wanted a = (wanted ≡ none) ⊎ (wanted ≡ some a)

abbrev pub NotBefore : Option ℕ → ℕ → Type 0
NotBefore none t = Unit
NotBefore (some since) t = since ≤ t

abbrev pub NotAfter : Option ℕ → ℕ → Type 0
NotAfter none t = Unit
NotAfter (some until) t = t ≤ until

pub record Satisfies (filter : AuditLogFilter) (e : Event) : Type 0 where
  pub action : IsOrNil filter.action (action_name e.action)
  pub resource_type : IsOrNil filter.resource_type e.resource_type
  pub resource_id : IsOrNil filter.resource_id e.resource_id
  pub user_id : IsOrNil filter.user_id e.user_id
  pub since : NotBefore filter.since e.timestamp
  pub until : NotAfter filter.until e.timestamp

text_admits :
    (wanted : Option String) (s : String) → (admits (λ a. s == a) wanted ≡ true) ↔ IsOrNil wanted s
text_admits none s = ground arith
text_admits (some a) s = ground (arith, eq_iff s a)

id_admits :
    (wanted : Option ℕ) (n : ℕ) → (admits (λ a. nat_eq n a) wanted ≡ true) ↔ IsOrNil wanted n
id_admits none s = ground arith
id_admits (some a) s = ground arith

since_admits :
    (since : Option ℕ) (n : ℕ) → (admits (λ t. not (ltb n t)) since ≡ true) ↔ NotBefore since n
since_admits none s = ground arith
since_admits (some a) s = ground arith

until_admits :
    (until : Option ℕ) (n : ℕ) → (admits (λ t. not (ltb t n)) until ≡ true) ↔ NotAfter until n
until_admits none s = ground arith
until_admits (some a) s = ground arith

-- An event is selected exactly if it satisfies each condition that the filter states; the bounds on
-- the time are inclusive at both ends.
pub matches_iff :
    (filter : AuditLogFilter) (e : Event) → (matches filter e ≡ true) ↔ Satisfies filter e
unfolding matches
matches_iff filter e = ground (
  arith,
  text_admits filter.action (action_name e.action),
  text_admits filter.resource_type e.resource_type,
  id_admits filter.resource_id e.resource_id,
  text_admits filter.user_id e.user_id,
  since_admits filter.since e.timestamp,
  until_admits filter.until e.timestamp,
)
