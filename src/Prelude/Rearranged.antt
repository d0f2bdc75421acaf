-- ===== src/Prelude/Rearranged.antt =====
-- Rearrangements of a list, and what they keep: tests over its items, its length, and that texts
-- differ.
use Prim.Native.Nat.{suc}
use Prim.Native.String.{String}
use text.Mathlib.Text.{◌==◌ as text_eq}
use text.Mathlib.TextEquality.{eq_iff}
use mathlib.Core.Path.{◌≡◌, refl, ap, ◌∙◌}
use mathlib.Core.Bool.{Bool, true, not, ◌&&◌, ◌||◌}
use mathlib.Core.List.{List, [], ◌∷◌}
use native.Mathlib.Omega.{arith}
use lang_graph_uas.Prelude.Lists.{length, any, all, All}

pub data Perm {ℓ} {A : Type ℓ} : List A → List A → Type ℓ where
  nil : Perm [] []
  skip : (x : A) {xs ys : List A} → Perm xs ys → Perm (x ∷ xs) (x ∷ ys)
  swap : (x y : A) (xs : List A) → Perm (x ∷ y ∷ xs) (y ∷ x ∷ xs)
  trans : {xs ys zs : List A} → Perm xs ys → Perm ys zs → Perm xs zs

pub perm_refl {ℓ} : {A : Type ℓ} (xs : List A) → Perm xs xs
perm_refl [] = nil
perm_refl (x ∷ xs) = skip x (perm_refl xs)

or_swap : (a b c : Bool) → (a || (b || c)) ≡ (b || (a || c))
or_swap a b c = ground arith

and_swap : (a b c : Bool) → (a && (b && c)) ≡ (b && (a && c))
and_swap a b c = ground arith

module _ {ℓ} {A : Type ℓ} where
  pub any-perm : (p : A → Bool) {xs ys : List A} → Perm xs ys → any p xs ≡ any p ys
  any-perm p nil = refl
  any-perm p (skip x d) = rw (any-perm p d) refl
  any-perm p (swap x y xs) = or_swap (p x) (p y) (any p xs)
  any-perm p (trans d e) = any-perm p d ∙ any-perm p e

  pub all-perm : (p : A → Bool) {xs ys : List A} → Perm xs ys → all p xs ≡ all p ys
  all-perm p nil = refl
  all-perm p (skip x d) = rw (all-perm p d) refl
  all-perm p (swap x y xs) = and_swap (p x) (p y) (all p xs)
  all-perm p (trans d e) = all-perm p d ∙ all-perm p e

  pub length-perm : {xs ys : List A} → Perm xs ys → length xs ≡ length ys
  length-perm nil = refl
  length-perm (skip x d) = ap suc (length-perm d)
  length-perm (swap x y xs) = refl
  length-perm (trans d e) = length-perm d ∙ length-perm e

  pub All-perm {κ} : (P : A → Type κ) {xs ys : List A} → Perm xs ys → All P ys → All P xs
  All-perm P nil h = h
  All-perm P (skip x d) h = (h.0, All-perm P d h.1)
  All-perm P (swap x y xs) h = (h.1.0, (h.0, h.1.1))
  All-perm P (trans d e) h = All-perm P d (All-perm P e h)

-- `item in items`.
abbrev pub holds : String → List String → Bool
holds item items = any (λ other. text_eq other item) items

-- No text stands twice.
abbrev pub distinct : List String → Bool
distinct [] = true
distinct (x ∷ xs) = not (holds x xs) && distinct xs

distinct_swap : (a b : String) (xs : List String) → distinct (a ∷ b ∷ xs) ≡ distinct (b ∷ a ∷ xs)
distinct_swap a b xs = ground (arith, eq_iff a b, eq_iff b a)

pub distinct-perm : {xs ys : List String} → Perm xs ys → distinct xs ≡ distinct ys
distinct-perm nil = refl
distinct-perm (skip x d) = rw (any-perm (λ (o : String). text_eq o x) d, distinct-perm d) refl
distinct-perm (swap x y xs) = distinct_swap x y xs
distinct-perm (trans d e) = distinct-perm d ∙ distinct-perm e
