-- ===== src/Server/Transactions.antt =====
-- What the frame of a transaction in the handlers of cmd/server leaves behind.
use iroum_ax.Prelude.{ℕ, Option, none, some, ◌≡◌, refl, ap, ◌⊎◌, inl, inr}
use iroum_ax.Errors.{Error, Result, ok, err}
use iroum_ax.Postgres.{M}
use iroum_ax.Server.{
  Reply, success, IsRefused, attempted, attempt, commit_then, in_transaction, settled,
}

-- The step has succeeded; its value gives the reply, and its state is kept.
abbrev pub IsDone : {S A B : Type 0} → Result A × S → (A → ℕ × B) → Reply B × S → Type 0
IsDone {S} {A} result done outcome =
    (a : A) × (u : S) × (result ≡ (ok a, u)) × (outcome ≡ (success (done a).0 (done a).1, u))

-- The step has succeeded; its value gives the reply, and the state is as it was.
abbrev pub IsRead : {S A B : Type 0} → Result A × S → (A → ℕ × B) → S → Reply B × S → Type 0
IsRead {S} {A} result done s outcome =
    (a : A) × (u : S) × (result ≡ (ok a, u)) × (outcome ≡ (success (done a).0 (done a).1, s))

pub step-cases :
    {S A : Type 0} (r : Result A × S)
    → ((e : Error) × (u : S) × (r ≡ (err e, u))) ⊎ ((a : A) × (u : S) × (r ≡ (ok a, u)))
step-cases (err e, u) = inl (e, u, refl)
step-cases (ok a, u) = inr (a, u, refl)

-- Refused with the tables as they were, or the step made and committed.
abbrev pub IsCommitted : {S A B : Type 0} → Result A × S → (A → ℕ × B) → S → Reply B × S → Type 0
IsCommitted result done s outcome =
    (IsRefused outcome.0 × (outcome.1 ≡ s)) ⊎ IsDone result done outcome

module _ {S A B : Type 0} (refuse : Error → Reply B) (refused : (e : Error) → IsRefused (refuse e))
    (failed unsaved : Reply B) (is_failed : IsRefused failed) (is_unsaved : IsRefused unsaved)
    (done : A → ℕ × B) (s : S) where
  pub attempted-effect :
      (commit : Option Error) (r : Result A × S)
      → IsCommitted r done s (
          settled s
            (attempted refuse (λ a. commit_then commit unsaved (success (done a).0 (done a).1)) r))
  attempted-effect commit (err e, u) = inl (refused e, refl)
  attempted-effect none (ok a, u) = inr (a, u, refl, refl)
  attempted-effect (some e) (ok a, u) = inl (is_unsaved, refl)

  -- A handler of one step inside a transaction is refused and changes nothing, or its step succeeds,
  -- is committed and is answered with success.
  pub transaction-effect :
      (begin commit : Option Error) (step : M S A)
      → IsCommitted (step s) done s (
          in_transaction begin failed
            (attempt refuse step (λ a. commit_then commit unsaved (success (done a).0 (done a).1)))
            s)
  transaction-effect (some e) commit step = inl (is_failed, refl)
  transaction-effect none commit step = attempted-effect commit (step s)

-- A step that leaves the state.
pub read-cases :
    {S A : Type 0} (s : S) (r : Result A × S)
    → ((a : A) (u : S) → r ≡ (ok a, u) → u ≡ s)
    → ((e : Error) × (u : S) × (r ≡ (err e, u))) ⊎ ((a : A) × (r ≡ (ok a, s)))
read-cases s (err e, u) keeps = inl (e, u, refl)
read-cases s (ok a, u) keeps = inr (a, ap (λ v. (ok a, v)) (keeps a u refl))
