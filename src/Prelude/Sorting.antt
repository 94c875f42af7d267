-- ===== src/Prelude/Sorting.antt =====
-- `sort.Slice` by a key, the greatest first. The source leaves the order of equal keys to the library;
-- here they keep the order that they had.
use Prim.Native.Nat.{ℕ, suc, ◌≤◌}
use mathlib.Core.Path.{◌≡◌, refl}
use mathlib.Core.Logic.{inl, inr}
use mathlib.Core.List.{List, [], ◌∷◌, Perm}
use mathlib.Core.List.Perm
use native.Mathlib.Omega.{arith}
use iroum_ax.Prelude.Tests.{if◌then◌else◌, ltb, ltb→lt, Bool-cases}
use iroum_ax.Prelude.Lists.{All, length}

module _ {ℓ} {A : Type ℓ} (key : A → ℕ) where
  place : A → List A → List A
  place x [] = x ∷ []
  place x (y ∷ ys) = if ltb (key x) (key y) then y ∷ place x ys else x ∷ y ∷ ys

  unfoldable pub sort_desc : List A → List A
  unfolding place
  sort_desc [] = []
  sort_desc (x ∷ xs) = place x (sort_desc xs)

  place-perm : (x : A) (ys : List A) → Perm (place x ys) (x ∷ ys)
  unfolding place
  place-perm x [] = Perm.refl (x ∷ [])
  place-perm x (y ∷ ys) = elim (Bool-cases (ltb (key x) (key y))) [
    | inl less ↦ rw less (Perm.trans (Perm.cons y (place-perm x ys)) (Perm.swap x y ys))
    | inr more ↦ rw more (Perm.refl (x ∷ y ∷ ys))
  ]

  pub sort_desc-perm : (xs : List A) → Perm (sort_desc xs) xs
  unfolding sort_desc
  sort_desc-perm [] = Perm.refl []
  sort_desc-perm (x ∷ xs) =
      Perm.trans (place-perm x (sort_desc xs)) (Perm.cons x (sort_desc-perm xs))

  -- No key is below a later one.
  abbrev pub IsDescending : List A → Type 0
  IsDescending [] = Unit
  IsDescending (x ∷ xs) = All (λ y. key y ≤ key x) xs × IsDescending xs

  module _ {κ} (P : A → Type κ) where
    All-place : (x : A) (ys : List A) → P x → All P ys → All P (place x ys)
    unfolding place
    All-place x [] p h = (p, tt)
    All-place x (y ∷ ys) p (q, h) = elim (Bool-cases (ltb (key x) (key y))) [
      | inl less ↦ rw less (q, All-place x ys p h)
      | inr more ↦ rw more (p, (q, h))
    ]

    All-mono : {Q : A → Type κ} → ((y : A) → P y → Q y) → (ys : List A) → All P ys → All Q ys
    All-mono imp [] h = tt
    All-mono imp (y ∷ ys) (p, h) = (imp y p, All-mono imp ys h)

  place-IsDescending : (x : A) (ys : List A) → IsDescending ys → IsDescending (place x ys)
  unfolding place
  place-IsDescending x [] h = (tt, tt)
  place-IsDescending x (y ∷ ys) (top, h) = elim (Bool-cases (ltb (key x) (key y))) [
    | inl less ↦ rw less (
      All-place (λ z. key z ≤ key y) x ys (omega (arith, ltb→lt (key x) (key y))) top,
      place-IsDescending x ys h,
    )
    | inr more ↦
        let least : key y ≤ key x = ground arith in
        rw more ((least, All-mono (λ z. key z ≤ key y) (λ z p. omega arith) ys top), (top, h))
  ]

  pub sort_desc-IsDescending : (xs : List A) → IsDescending (sort_desc xs)
  unfolding sort_desc
  sort_desc-IsDescending [] = tt
  sort_desc-IsDescending (x ∷ xs) = place-IsDescending x (sort_desc xs) (sort_desc-IsDescending xs)

  length-place : (x : A) (ys : List A) → length (place x ys) ≡ suc (length ys)
  unfolding place
  length-place x [] = refl
  length-place x (y ∷ ys) = ground (arith, length-place x ys)

  pub length-sort_desc : (xs : List A) → length (sort_desc xs) ≡ length xs
  unfolding sort_desc
  length-sort_desc [] = refl
  length-sort_desc (x ∷ xs) = omega (arith, length-place x (sort_desc xs), length-sort_desc xs)
