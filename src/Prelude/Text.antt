-- ===== src/Prelude/Text.antt =====
-- Native texts: equality, formatted strings, and dictionaries keyed by text.
use Prim.Native.String.{String}
use Prim.Native.String
use text.Mathlib.Text.{◌==◌ as text_eq}
use text.Mathlib.TextEquality.{eq_iff}
use text.Mathlib.TextPositions.{eq_refl}
use Prim.Native.Nat.{ℕ, suc, ◌≤◌}
use native.Mathlib.Omega.{arith}
use mathlib.Core.Path.{◌≡◌, sym, subst}
use mathlib.Core.Logic.{inl, inr}
use mathlib.Core.Bool.{Bool, false, ◌||◌}
use mathlib.Core.Option.{Option, none, some}
use mathlib.Core.List.{List, [], ◌∷◌}
use lang_graph_uas.Prelude.Tests.{if◌then◌else◌, is_some, Bool-cases}
use lang_graph_uas.Prelude.Lists.{length}

abbrev pub str_eq : String → String → Bool
str_eq = text_eq

-- The parts of an f-string, in order.
pub concat : List String → String
concat [] = ""
concat (s ∷ ss) = String.◌++◌ s (concat ss)

abbrev pub is_blank : String → Bool
is_blank s = str_eq s ""

-- `text[:n]`, and `len(text)`.
unfoldable pub take_chars : ℕ → String → String
take_chars (suc n) (String.◌∷◌ c s) = String.◌∷◌ c (take_chars n s)
take_chars _ _ = String.[]

unfoldable pub count_chars : String → ℕ
count_chars String.[] = 0
count_chars (String.◌∷◌ c s) = suc (count_chars s)

module _ {ℓ} {V : Type ℓ} where
  -- A dictionary is the list of its entries, one for each key.
  abbrev pub lookup : String → List (String × V) → Option V
  lookup k [] = none
  lookup k ((j, v) ∷ m) = if str_eq j k then some v else lookup k m

  abbrev pub has_key : String → List (String × V) → Bool
  has_key k m = is_some (lookup k m)

  abbrev pub insert : String → V → List (String × V) → List (String × V)
  insert k v [] = (k, v) ∷ []
  insert k v ((j, w) ∷ m) = if str_eq j k then (k, v) ∷ m else (j, w) ∷ insert k v m

  pub lookup-insert :
      (k : String) (v : V) (m : List (String × V)) → lookup k (insert k v m) ≡ some v
  lookup-insert k v [] = rw (eq_refl k)
  lookup-insert k v ((j, w) ∷ m) = ground (arith, eq_refl k, lookup-insert k v m)

  pub lookup-insert_other :
      (j k : String) (v : V) (m : List (String × V))
      → str_eq j k ≡ false
      → lookup k (insert j v m) ≡ lookup k m
  lookup-insert_other j k v [] e = rw e
  lookup-insert_other j k v ((i, w) ∷ m) e = elim (Bool-cases (text_eq i j)) [
    | inl h ↦
        let at_i = subst (λ x. text_eq x k ≡ false) (sym ((eq_iff i j).0 h)) e in rw (h, e, at_i)
    | inr h ↦ rw (h, lookup-insert_other j k v m e)
  ]

  pub length-insert :
      (k : String) (v : V) (m : List (String × V)) → length (insert k v m) ≤ suc (length m)
  length-insert k v [] = omega arith
  length-insert k v ((j, w) ∷ m) = ground (arith, length-insert k v m)

  pub has_key-insert :
      (j k : String) (v : V) (m : List (String × V))
      → has_key k (insert j v m) ≡ (str_eq j k || has_key k m)
  has_key-insert j k v m =
      ground (arith, eq_iff j k, lookup-insert j v m, lookup-insert_other j k v m)
