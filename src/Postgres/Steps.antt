-- ===== src/Postgres/Steps.antt =====
-- What the success of a step of a transaction tells.
use iroum_ax.Prelude.{Bool, true, false, Option, none, some, ◌≡◌, refl, ap}
use iroum_ax.Errors.{Error, Result, ok, err}
use iroum_ax.Postgres.{M, continue, refuse_if, statement, found_or, relabelled}

module _ {S : Type 0} where
  -- Both steps of a sequence have succeeded.
  pub continue-ok :
      {A B : Type 0} (r : Result A × S) (next : A → M S B) {b : B} {t : S}
      → continue r next ≡ (ok b, t)
      → (a : A) × (u : S) × (r ≡ (ok a, u)) × (next a u ≡ (ok b, t))
  continue-ok (ok a, u) next h = (a, u, refl, h)
  continue-ok (err e, u) next h = absurd (cc h)

  pub refuse_if-ok :
      (test : Bool) (e : Error) (s : S) {t : S}
      → refuse_if test e s ≡ (ok tt, t)
      → (test ≡ false) × (s ≡ t)
  refuse_if-ok true e s h = absurd (cc h)
  refuse_if-ok false e s h = (refl, cc h)

  pub relabelled-ok :
      {A : Type 0} (f : Error → Error) (r : Result A × S) {a : A} {t : S}
      → relabelled f r ≡ (ok a, t)
      → r ≡ (ok a, t)
  relabelled-ok f (ok a, s) h = h
  relabelled-ok f (err e, s) h = absurd (cc h)

  pub statement-ok :
      {A : Type 0} (fault : Option Error) (step : M S A) (s : S) {a : A} {t : S}
      → statement fault step s ≡ (ok a, t)
      → step s ≡ (ok a, t)
  statement-ok none step s h = h
  statement-ok (some e) step s h = absurd (cc h)

  pub found_or-ok :
      {A : Type 0} (e : Error) (row : Option A) (s : S) {a : A} {t : S}
      → found_or e row s ≡ (ok a, t)
      → (row ≡ some a) × (s ≡ t)
  found_or-ok e none s h = absurd (cc h)
  found_or-ok e (some a) s h = (cc h, cc h)

  -- A statement that succeeds has changed the tables as it does without a fault.
  pub written-ok :
      {A : Type 0} (fault : Option Error) (change : S → S) (a : A) (s : S) {b : A} {t : S}
      → statement fault (λ s. (ok a, change s)) s ≡ (ok b, t)
      → (a ≡ b) × (change s ≡ t)
  written-ok none change a s h = (cc h, ap (λ p. p.1) h)
  written-ok (some e) change a s h = absurd (cc h)
