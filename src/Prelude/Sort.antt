-- ===== src/Prelude/Sort.antt =====
-- Python's stable `sorted`, by insertion, and what it keeps.
use Prim.Native.Nat.{suc}
use mathlib.Core.Path.{◌≡◌, refl}
use mathlib.Core.Logic.{inl, inr}
use mathlib.Core.Bool.{Bool, false, true}
use mathlib.Core.List.{List, [], ◌∷◌}
use native.Mathlib.Omega.{arith}
use lang_graph_uas.Prelude.Tests.{if◌then◌else◌, Bool-cases}
use lang_graph_uas.Prelude.Lists.{length}
use lang_graph_uas.Prelude.Rearranged.{Perm, skip, swap, trans, perm_refl}

module _ {ℓ} {A : Type ℓ} (before : A → A → Bool) where
  -- `x` goes in front of everything that does not come strictly before it.
  unfoldable pub sorted_in : A → List A → List A
  sorted_in x [] = x ∷ []
  sorted_in x (y ∷ ys) = if before y x then y ∷ sorted_in x ys else x ∷ y ∷ ys

  unfoldable pub sort : List A → List A
  sort [] = []
  sort (x ∷ xs) = sorted_in x (sort xs)

  -- Each item is not after the next one.
  abbrev pub IsSorted : List A → Type 0
  IsSorted [] = Unit
  IsSorted (x ∷ []) = Unit
  IsSorted (x ∷ y ∷ ys) = (before y x ≡ false) × IsSorted (y ∷ ys)

  pub length-sorted_in : (x : A) (xs : List A) → length (sorted_in x xs) ≡ suc (length xs)
  unfolding sorted_in
  length-sorted_in x [] = refl
  length-sorted_in x (y ∷ ys) = ground (arith, length-sorted_in x ys)

  pub length-sort : (xs : List A) → length (sort xs) ≡ length xs
  unfolding sort
  length-sort [] = refl
  length-sort (x ∷ xs) = ground (arith, length-sorted_in x (sort xs), length-sort xs)

  sorted_in-perm : (x : A) (xs : List A) → Perm (sorted_in x xs) (x ∷ xs)
  unfolding sorted_in
  sorted_in-perm x [] = perm_refl (x ∷ [])
  sorted_in-perm x (y ∷ ys) = elim (Bool-cases (before y x)) [
    | inl e ↦ rw e (trans (skip y (sorted_in-perm x ys)) (swap y x ys))
    | inr e ↦ rw e (perm_refl (x ∷ y ∷ ys))
  ]

  pub sort-perm : (xs : List A) → Perm (sort xs) xs
  unfolding sort
  sort-perm [] = perm_refl []
  sort-perm (x ∷ xs) = trans (sorted_in-perm x (sort xs)) (skip x (sort-perm xs))

  module _ (asymmetric : (a b : A) → before a b ≡ true → before b a ≡ false) where
    sorted_in-IsSorted : (x : A) (xs : List A) → IsSorted xs → IsSorted (sorted_in x xs)
    unfolding sorted_in
    sorted_in-IsSorted x [] h = tt
    sorted_in-IsSorted x (y ∷ []) h = elim (Bool-cases (before y x)) [
      | inl e ↦ rw e (asymmetric y x e, tt)
      | inr e ↦ rw e (e, tt)
    ]
    sorted_in-IsSorted x (y ∷ z ∷ zs) h =
        let rest = sorted_in-IsSorted x (z ∷ zs) h.1 in
        elim (Bool-cases (before y x)) [
          | inl e ↦ elim (Bool-cases (before z x)) [
            | inl e' ↦ rw (e, e') (h.0, rw e' at rest)
            | inr e' ↦ rw (e, e') (asymmetric y x e, rw e' at rest)
          ]
          | inr e ↦ rw e (e, h)
        ]

    pub sort-IsSorted : (xs : List A) → IsSorted (sort xs)
    unfolding sort
    sort-IsSorted [] = tt
    sort-IsSorted (x ∷ xs) = sorted_in-IsSorted x (sort xs) (sort-IsSorted xs)
