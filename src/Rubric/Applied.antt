-- ===== src/Rubric/Applied.antt =====
-- The band that ApplyRubric of internal/store/rubric.go finds for a value.
use iroum_ax.Prelude.{
  ℕ, Bool, true, false, ◌&&◌, List, [], ◌∷◌, ◌≡◌, refl, sym, ap, ◌∙◌, inl, inr, ◌⊎◌, Bool-cases,
  arith, Memᴰ,
}
use iroum_ax.Prelude.Text.{eqb}
use iroum_ax.Errors.{Result, ok}
use iroum_ax.Audit.Uuid.{UuidLib}
use iroum_ax.Postgres.{RubricBand, Database, Floats, Faults, select_bands}
use iroum_ax.Postgres.Tables.{any_row, select_rows, order_desc, place_row}
use iroum_ax.Postgres.Steps.{continue-ok, relabelled-ok, statement-ok}
use iroum_ax.Rubric.Rules.{is_band_of, contains}
use iroum_ax.Rubric.{get_rubric_by_id, get_bands_by_rubric, find_band, apply_rubric, above}
use iroum_ax.Rubric.Answers.{get_rubric-ok}
use iroum_ax.Rubric.Bands.{meets, IsDisjoint}

and-parts : (a b : Bool) → (a && b) ≡ true → (a ≡ true) × (b ≡ true)
and-parts true true h = (refl, refl)
and-parts true false h = absurd (cc h)
and-parts false b h = absurd (cc h)

module _ {A : Type 0} where
  place_row-Mem :
      (less : A → A → Bool) (x : A) (rows : List A) {y : A}
      → Memᴰ y (place_row less x rows)
      → (y ≡ x) ⊎ Memᴰ y rows
  unfolding place_row
  place_row-Mem less x [] (Memᴰ.head same) = inl same
  place_row-Mem less x [] (Memᴰ.tail later) = elim later [ ]
  place_row-Mem less x (r ∷ rows) m = elim (Bool-cases (less x r)) [
    | inl before ↦ elim (rw before at m) [
      | Memᴰ.head same ↦ inr (Memᴰ.head same)
      | Memᴰ.tail later ↦ elim (place_row-Mem less x rows later) [
        | inl same ↦ inl same
        | inr there ↦ inr (Memᴰ.tail there)
      ]
    ]
    | inr behind ↦ elim (rw behind at m) [ Memᴰ.head same ↦ inl same | Memᴰ.tail there ↦ inr there ]
  ]

  order_desc-Mem :
      (less : A → A → Bool) (rows : List A) {y : A} → Memᴰ y (order_desc less rows) → Memᴰ y rows
  unfolding order_desc
  order_desc-Mem less [] m = elim m [ ]
  order_desc-Mem less (r ∷ rows) m = elim (place_row-Mem less r (order_desc less rows) m) [
    | inl same ↦ Memᴰ.head same
    | inr there ↦ Memᴰ.tail (order_desc-Mem less rows there)
  ]

  select_rows-Mem :
      (test : A → Bool) (rows : List A) {y : A}
      → Memᴰ y (select_rows test rows)
      → Memᴰ y rows × (test y ≡ true)
  unfolding select_rows
  select_rows-Mem test [] m = elim m [ ]
  select_rows-Mem test (r ∷ rows) {y} m = elim (Bool-cases (test r)) [
    | inr out ↦
        let (there, passes) = select_rows-Mem test rows (rw out at m) in (Memᴰ.tail there, passes)
    | inl here ↦ elim (rw here at m) [
      | Memᴰ.head same ↦ (Memᴰ.head same, ap test same ∙ here)
      | Memᴰ.tail later ↦
          let (there, passes) = select_rows-Mem test rows later in (Memᴰ.tail there, passes)
    ]
  ]

  any_row-Mem :
      (test : A → Bool) (rows : List A) {y : A}
      → Memᴰ y rows
      → any_row test rows ≡ false
      → test y ≡ false
  unfolding any_row
  any_row-Mem test [] m h = elim m [ ]
  any_row-Mem test (r ∷ rows) m h = elim (Bool-cases (test r)) [
    | inl here ↦ absurd (cc (rw here at h))
    | inr there ↦ elim m [
      | Memᴰ.head same ↦ ap test same ∙ there
      | Memᴰ.tail later ↦ any_row-Mem test rows later (rw there at h)
    ]
  ]

module _ {F : Type 0} (fl : Floats F) (uuid : UuidLib) (fail : Faults) (now : ℕ) where
  find_band-ok :
      (value : F) (bands : List (RubricBand F)) {b : RubricBand F}
      → find_band fl uuid fail now value bands ≡ ok b
      → Memᴰ b bands × (contains fl value b ≡ true)
  unfolding find_band
  find_band-ok value [] h = absurd (cc h)
  find_band-ok value (c ∷ bands) {b} h = elim (Bool-cases (contains fl value c)) [
    | inr out ↦
        let (there, holds) = find_band-ok value bands (rw out at h) in (Memᴰ.tail there, holds)
    | inl here ↦
        let found : ok c ≡ ok b = rw here at h in
        let same : c ≡ b = cc found in
        (Memᴰ.head (sym same), ap (contains fl value) (sym same) ∙ here)
  ]

  -- Of two bands of a disjoint table that meet each other, one is the other.
  meets-same :
      (bands : List (RubricBand F)) {b c : RubricBand F}
      → IsDisjoint fl bands
      → Memᴰ b bands
      → Memᴰ c bands
      → meets fl b c ≡ true
      → meets fl c b ≡ true
      → b ≡ c
  meets-same [] h m n bc cb = elim m [ ]
  meets-same (x ∷ bands) h (Memᴰ.head bx) (Memᴰ.head cx) bc cb = bx ∙ sym cx
  meets-same (x ∷ bands) h (Memᴰ.tail m) (Memᴰ.tail n) bc cb = meets-same bands h.1 m n bc cb
  meets-same (x ∷ bands) {b} {c} h (Memᴰ.head bx) (Memᴰ.tail n) bc cb =
      let apart = any_row-Mem (meets fl x) bands n h.0 in
      absurd (cc (bc, ap (λ d. meets fl d c) bx ∙ apart))
  meets-same (x ∷ bands) {b} {c} h (Memᴰ.tail m) (Memᴰ.head cx) bc cb =
      let apart = any_row-Mem (meets fl x) bands m h.0 in
      absurd (cc (cb, ap (λ d. meets fl d b) cx ∙ apart))

  contains-parts :
      (value : F) (b : RubricBand F)
      → contains fl value b ≡ true
      → (fl.le b.min_score value ≡ true) × (fl.le value b.max_score ≡ true)
  contains-parts value b h = and-parts (fl.le b.min_score value) (fl.le value b.max_score) h

  -- Bands of one rubric that contain the same value meet.
  both-meet :
      ((x y z : F) → fl.le x y ≡ true → fl.le y z ≡ true → fl.le x z ≡ true)
      → (id : ℕ) (value : F) (b c : RubricBand F) → is_band_of id b ≡ true
      → is_band_of id c ≡ true
      → contains fl value b ≡ true
      → contains fl value c ≡ true
      → meets fl b c ≡ true
  both-meet trans id value b c of_b of_c in_b in_c =
      let (low_b, high_b) = contains-parts value b in_b in
      let (low_c, high_c) = contains-parts value c in_c in
      let one_rubric : eqb c.rubric_id b.rubric_id ≡ true = ground arith in
      rw
        (
          one_rubric,
          trans b.min_score value c.max_score low_b high_c,
          trans c.min_score value b.max_score low_c high_b,
        )
        refl

  listed-Mem :
      (id : ℕ) (db : Database F) {bands : List (RubricBand F)} {u : Database F} {b : RubricBand F}
      → get_bands_by_rubric fl uuid fail now id db ≡ (ok bands, u)
      → Memᴰ b bands
      → Memᴰ b db.bands × (is_band_of id b ≡ true)
  unfolding get_bands_by_rubric
  listed-Mem id db {bands} {u} {b} h m =
      let read : Path (Result (List (RubricBand F)) × Database F)
          (ok (order_desc (above fl uuid fail now) (select_rows (is_band_of id) db.bands)), db)
          (ok bands, u) =
        statement-ok (fail select_bands) _ db (relabelled-ok _ _ h) in
      let same : order_desc (above fl uuid fail now) (select_rows (is_band_of id) db.bands)
          ≡ bands =
        cc read in
      select_rows-Mem (is_band_of id) db.bands
        (order_desc-Mem (above fl uuid fail now) (select_rows (is_band_of id) db.bands) (rw same m))

  -- Where no two bands of a rubric meet and `<=` is transitive, the band that applying a rubric to a
  -- value finds is one of its bands and contains the value, and no other band of the rubric does.
  pub apply_rubric_unique :
      ((x y z : F) → fl.le x y ≡ true → fl.le y z ≡ true → fl.le x z ≡ true)
      → (id : ℕ) (value : F) (db : Database F) {b : RubricBand F} {u : Database F}
      → IsDisjoint fl db.bands
      → apply_rubric fl uuid fail now id value db ≡ (ok b, u)
      → Memᴰ b db.bands
        × (is_band_of id b ≡ true)
        × (contains fl value b ≡ true)
        × ((c : RubricBand F)
            → Memᴰ c db.bands
            → is_band_of id c ≡ true
            → contains fl value c ≡ true
            → c ≡ b)
  unfolding apply_rubric get_bands_by_rubric
  apply_rubric_unique trans id value db {b} {u} disjoint h =
      let (rubric, u1, there, h1) = continue-ok (get_rubric_by_id fl uuid fail now id db) _ h in
      let (bands, u2, listed, h2) = continue-ok (get_bands_by_rubric fl uuid fail now id u1) _ h1 in
      let (m, holds) = find_band-ok value bands (ap (λ p. p.0) h2) in
      let (there_b, of_b) = listed-Mem id u1 listed m in
      let same : u1 ≡ db = get_rubric-ok fl uuid fail now id db there in
      let in_table = ap (λ (d : Database F). d.bands) same in
      let member : Memᴰ b db.bands = rw (← in_table) there_b in
      (
        member,
        of_b,
        holds,
        λ c n of_c within.
            meets-same db.bands disjoint n member
              (both-meet trans id value c b of_c of_b within holds)
              (both-meet trans id value b c of_b of_c holds within),
      )
