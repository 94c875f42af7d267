-- ===== src/Postgres/Tables.antt =====
-- The statements of SQL that the stores send, over a table kept as the list of its rows.
use iroum_ax.Prelude.{
  ℕ, suc, Bool, true, false, Option, none, some, List, [], ◌∷◌, ◌≡◌, refl, inl, inr, if◌then◌else◌,
  Bool-cases, map_some, arith, All, ◌++◌,
}
use iroum_ax.Prelude.Text.{eqb}

module _ {ℓ} {A : Type ℓ} where
  -- `SELECT … WHERE test` read by `QueryRow`: the first row, or `pgx.ErrNoRows`.
  unfoldable pub select_row : (A → Bool) → List A → Option A
  select_row test [] = none
  select_row test (row ∷ rows) = if test row then some row else select_row test rows

  -- `SELECT … WHERE test`.
  unfoldable pub select_rows : (A → Bool) → List A → List A
  select_rows test [] = []
  select_rows test (row ∷ rows) =
      if test row then row ∷ select_rows test rows else select_rows test rows

  -- `UPDATE … SET … WHERE test`.
  unfoldable pub update_rows : (A → Bool) → (A → A) → List A → List A
  update_rows test change [] = []
  update_rows test change (row ∷ rows) =
      (if test row then change row else row) ∷ update_rows test change rows

  unfoldable pub place_row : (A → A → Bool) → A → List A → List A
  place_row less x [] = x ∷ []
  place_row less x (y ∷ rows) = if less x y then y ∷ place_row less x rows else x ∷ y ∷ rows

  -- `ORDER BY … DESC`, by the order of a column; rows that are equal in it keep their order.
  unfoldable pub order_desc : (A → A → Bool) → List A → List A
  unfolding place_row
  order_desc less [] = []
  order_desc less (x ∷ rows) = place_row less x (order_desc less rows)

  -- `RowsAffected`.
  unfoldable pub count_rows : (A → Bool) → List A → ℕ
  count_rows test [] = 0
  count_rows test (row ∷ rows) =
      if test row then suc (count_rows test rows) else count_rows test rows

  -- `EXISTS`.
  unfoldable pub any_row : (A → Bool) → List A → Bool
  any_row test [] = false
  any_row test (row ∷ rows) = if test row then true else any_row test rows

  pub select_row-test :
      (test : A → Bool) (rows : List A) {row : A}
      → select_row test rows ≡ some row
      → test row ≡ true
  unfolding select_row
  select_row-test test [] h = absurd (cc h)
  select_row-test test (r ∷ rows) h = elim (Bool-cases (test r)) [
    | inl here ↦ ground (arith, here)
    | inr there ↦ select_row-test test rows (rw there at h)
  ]

  -- An update that keeps the test changes the row that the test selects.
  pub select_row-update_rows :
      (test : A → Bool) (change : A → A) (rows : List A)
      → ((row : A) → test (change row) ≡ test row)
      → select_row test (update_rows test change rows) ≡ map_some change (select_row test rows)
  unfolding select_row update_rows
  select_row-update_rows test change [] keeps = refl
  select_row-update_rows test change (r ∷ rows) keeps = elim (Bool-cases (test r)) [
    | inl here ↦ rw (here, keeps r, here)
    | inr there ↦ rw (there, there) (select_row-update_rows test change rows keeps)
  ]

  -- A row that the test refuses adds nothing.
  pub select_rows-append_other :
      (test : A → Bool) (rows : List A) (row : A)
      → test row ≡ false
      → select_rows test (rows ++ row ∷ []) ≡ select_rows test rows
  unfolding select_rows
  select_rows-append_other test [] row h = rw h refl
  select_rows-append_other test (r ∷ rows) row h =
      let rest = select_rows-append_other test rows row h in
      elim (Bool-cases (test r)) [
        | inl here ↦ rw (here, rest) refl
        | inr there ↦ rw (there, rest) refl
      ]

  -- An update of other rows leaves the row that a test selects.
  pub select_row-update_rows_other :
      (test other : A → Bool) (change : A → A) (rows : List A)
      → ((row : A) → test (change row) ≡ test row)
      → ((row : A) → other row ≡ true → test row ≡ false)
      → select_row test (update_rows other change rows) ≡ select_row test rows
  unfolding select_row update_rows
  select_row-update_rows_other test other change [] keeps apart = refl
  select_row-update_rows_other test other change (r ∷ rows) keeps apart =
      let rest = select_row-update_rows_other test other change rows keeps apart in
      elim (Bool-cases (other r)) [
        | inl changed ↦ rw (changed, keeps r, apart r changed) rest
        | inr kept ↦ rw kept (ground (arith, rest))
      ]

  -- Rows that are inserted later are not selected before one that is there.
  pub select_row-append :
      (test : A → Bool) (rows more : List A) {row : A}
      → select_row test rows ≡ some row
      → select_row test (rows ++ more) ≡ some row
  unfolding select_row
  select_row-append test [] more h = absurd (cc h)
  select_row-append test (r ∷ rows) more h = elim (Bool-cases (test r)) [
    | inl here ↦ rw here (rw here at h)
    | inr there ↦ rw there (select_row-append test rows more (rw there at h))
  ]

  module _ {κ} (P : A → Type κ) where
    -- An update whose rows have a property keeps it for the whole table.
    pub All-update_rows :
        (test : A → Bool) (change : A → A) (rows : List A)
        → ((row : A) → P row → P (change row))
        → All P rows
        → All P (update_rows test change rows)
    unfolding update_rows
    All-update_rows test change [] keeps h = tt
    All-update_rows test change (r ∷ rows) keeps (p, h) = elim (Bool-cases (test r)) [
      | inl here ↦ rw here (keeps r p, All-update_rows test change rows keeps h)
      | inr there ↦ rw there (p, All-update_rows test change rows keeps h)
    ]

    -- A row that is selected has the property of every row.
    pub All-select_row :
        (test : A → Bool) (rows : List A) {row : A}
        → All P rows
        → select_row test rows ≡ some row
        → P row
    unfolding select_row
    All-select_row test [] h e = absurd (cc e)
    All-select_row test (r ∷ rows) {row} (p, h) e = elim (Bool-cases (test r)) [
      | inl here ↦
          let picked : some r ≡ some row = rw here at e in
          let same : r ≡ row = cc picked in rw (← same) p
      | inr there ↦ All-select_row test rows h (rw there at e)
    ]

  -- A row that is selected is counted.
  pub select_row-count_rows :
      (test : A → Bool) (rows : List A) {row : A}
      → select_row test rows ≡ some row
      → eqb (count_rows test rows) 0 ≡ false
  unfolding select_row count_rows
  select_row-count_rows test [] h = absurd (cc h)
  select_row-count_rows test (r ∷ rows) h = elim (Bool-cases (test r)) [
    | inl here ↦ rw here (ground arith)
    | inr there ↦ rw there (select_row-count_rows test rows (rw there at h))
  ]
