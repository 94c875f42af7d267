-- ===== src/Server.antt =====
-- What the handlers of cmd/server for reviews, scores and rubrics share: the reply, the roles that
-- they ask for, the pages of a list and the frame of a transaction.
pub mod Paging
pub mod Transactions
use iroum_ax.Prelude.{
  String, ℕ, Bool, true, false, ◌||◌, Option, none, some, List, [], ◌∷◌, if◌then◌else◌, ◌==◌,
}
use iroum_ax.Prelude.Text.{join_spaced}
use iroum_ax.Errors.{Error, Result, ok, err}
use iroum_ax.Auth.Rbac.{User, Role, admin, analyst, viewer, parse_roles_from_scope}
use iroum_ax.Postgres.{M}

-- A status with the value that is encoded, or with the code, message and field of an error body.
pub data Reply {ℓ} (B : Type ℓ) : Type ℓ where
  success : ℕ → B → Reply B
  refusal : ℕ → (code message field : String) → Reply B

-- The reply is an error body.
abbrev pub IsRefused {ℓ} : {B : Type ℓ} → Reply B → Type 0
IsRefused (success status body) = ⊥
IsRefused (refusal status code message field) = Unit

abbrev pub invalid_argument {ℓ} : {B : Type ℓ} → String → String → Reply B
invalid_argument message field = refusal 400 "INVALID_ARGUMENT" message field

abbrev pub internal {ℓ} : {B : Type ℓ} → String → Reply B
internal message = refusal 500 "INTERNAL" message ""

abbrev pub abac_denied_reply {ℓ} : {B : Type ℓ} → String → Reply B
abac_denied_reply message = refusal 403 "ABAC_CONDITION_DENIED" message ""

abbrev pub may_write : Role → Bool
may_write admin = true
may_write analyst = true
may_write viewer = false

abbrev pub may_administrate : Role → Bool
may_administrate admin = true
may_administrate analyst = false
may_administrate viewer = false

-- The loop over the roles.
unfoldable pub any_role : (Role → Bool) → List Role → Bool
any_role test [] = false
any_role test (r ∷ roles) = test r || any_role test roles

-- `requireReviewSubmitRole`, `requireScoreWriteRole` and `requireRubricWriteRole`.
unfoldable pub require_write_role : String → Bool
unfolding any_role parse_roles_from_scope
require_write_role scope = any_role may_write (parse_roles_from_scope scope)

-- `requireReviewAdminRole` and `requireRubricAdminRole`.
unfoldable pub require_admin_role : String → Bool
unfolding any_role parse_roles_from_scope
require_admin_role scope = any_role may_administrate (parse_roles_from_scope scope)

-- The guards: a request without a user passes, since authentication is off then.
unfoldable pub guard_write : Option User → Bool
unfolding require_write_role join_spaced
guard_write none = true
guard_write (some user) = require_write_role (join_spaced user.scopes)

unfoldable pub guard_admin : Option User → Bool
unfolding require_admin_role join_spaced
guard_admin none = true
guard_admin (some user) = require_admin_role (join_spaced user.scopes)

-- `resolveCreatedBy`.
unfoldable pub resolve_created_by : Option User → String
resolve_created_by none = "cli-anonymous"
resolve_created_by (some user) = if user.uid == "" then "cli-anonymous" else user.uid

-- A handler inside a transaction: the reply, and the tables if they were committed.
abbrev pub Body : Type 0 → Type 0 → Type 0
Body S B = S → Reply B × Option S

abbrev pub attempted :
    {S A B : Type 0} → (Error → Reply B) → (A → Body S B) → Result A × S → Reply B × Option S
attempted refuse next (ok a, s) = next a s
attempted refuse next (err e, s) = (refuse e, none)

-- `if err := step; err != nil { write the refusal; return }` and what follows.
abbrev pub attempt : {S A B : Type 0} → (Error → Reply B) → M S A → (A → Body S B) → Body S B
attempt refuse step next s = attempted refuse next (step s)

-- `tx.Commit`, and the replies to its failure and to its success.
abbrev pub commit_then : {S B : Type 0} → Option Error → Reply B → Reply B → Body S B
commit_then none refused done s = (done, some s)
commit_then (some e) refused done s = (refused, none)

-- The reply of a transaction that is only read and rolled back.
abbrev pub reply_with : {S B : Type 0} → Reply B → Body S B
reply_with reply s = (reply, none)

-- The deferred rollback: what is not committed is gone.
abbrev pub settled : {S B : Type 0} → S → Reply B × Option S → Reply B × S
settled s (reply, none) = (reply, s)
settled s (reply, some s') = (reply, s')

-- The begin of a transaction with the reply to its failure, and the deferred rollback round the rest.
abbrev pub in_transaction : {S B : Type 0} → Option Error → Reply B → Body S B → S → Reply B × S
in_transaction none refused body s = settled s (body s)
in_transaction (some e) refused body s = (refused, s)
