-- ===== src/Eval/Stats.antt =====
-- backend/suas/eval/stats.py: intervals of rates, and the paired comparison.
use lang_graph_uas.Prelude.{
  ℕ, zero, suc, Bool, true, false, not, ◌&&◌, List, [], ◌∷◌, Option, none, some, length, leb, ◌==◌,
  if◌then◌else◌, Bool-cases, inl, inr, arith, ◌≡◌, refl, ◌≤◌, ◌≢◌, ◌⊎◌, subst,
}
use Prim.Native.Nat.{min}
use Prim.Native.Nat
use mathlib.Core.Option.{some-injective}
use lang_graph_uas.Float.{Float, zero_f}

-- Python's `int`: `negsuc n` is -(n + 1).
pub data ℤ : Type 0 where
  pos : ℕ → ℤ
  negsuc : ℕ → ℤ

pub record Interval (F : Type 0) : Type 0 where
  pub rate : F
  pub low : F
  pub high : F
  pub n : ℕ

pub record McNemarResult (F : Type 0) : Type 0 where
  pub only_a : ℕ
  pub only_b : ℕ
  pub p_value : F

unfoldable pub discordant : {F : Type 0} → McNemarResult F → ℕ
discordant r = Nat.◌+◌ r.only_a r.only_b

-- `math.comb`, by Pascal's rule.
unfoldable pub comb : ℕ → ℕ → ℕ
comb n zero = 1
comb zero (suc k) = 0
comb (suc n) (suc k) = Nat.◌+◌ (comb n k) (comb n (suc k))

-- `sum(comb(n, k) for k in range(m + 1))`.
unfoldable pub comb_sum : ℕ → ℕ → ℕ
unfolding comb
comb_sum n zero = comb n 0
comb_sum n (suc m) = Nat.◌+◌ (comb_sum n m) (comb n (suc m))

-- `sum(1 for a, b in pairs if a and not b)` of the zipped lists.
abbrev one_if : Bool → ℕ
one_if true = 1
one_if false = 0

unfoldable pub count_only : List Bool → List Bool → ℕ
count_only (a ∷ xs) (b ∷ ys) = Nat.◌+◌ (one_if (a && not b)) (count_only xs ys)
count_only _ _ = 0

-- In how many places the two lists differ.
unfoldable pub disagreements : List Bool → List Bool → ℕ
disagreements [] ys = 0
disagreements (x ∷ xs) [] = 0
disagreements (true ∷ xs) (false ∷ ys) = suc (disagreements xs ys)
disagreements (false ∷ xs) (true ∷ ys) = suc (disagreements xs ys)
disagreements (true ∷ xs) (true ∷ ys) = disagreements xs ys
disagreements (false ∷ xs) (false ∷ ys) = disagreements xs ys

module _ {F : Type 0} ⦃f : Float F⦄ where
  open f use {lit, ◌+◌, ◌-◌, ◌*◌, ◌/◌, sqrt, pow, lt, le}

  infixl 65 ◌+◌ ◌-◌
  infixl 70 ◌*◌ ◌/◌
  -- `max(0.0, x)` and `min(1.0, x)`, which give back the first unless the other is beyond it.
  abbrev pub at_least_zero : F → F
  at_least_zero x = if lt zero_f x then x else zero_f

  abbrev pub at_most_one : F → F
  at_most_one x = if lt x (lit 1 0) then x else lit 1 0

  abbrev z_95 : F
  z_95 = lit 1959963984540054 15

  abbrev pub wilson_of : ℕ → ℕ → Interval F
  wilson_of successes total =
      let n : F = lit total 0 in
      let p : F = lit successes 0 / n in
      let z : F = z_95 in
      let denominator : F = lit 1 0 + z * z / n in
      let centre : F = (p + z * z / (lit 2 0 * n)) / denominator in
      let spread : F =
        (z / denominator) * sqrt (p * (lit 1 0 - p) / n + z * z / (lit 4 0 * n * n)) in
      record {
        rate = p;
        low = at_least_zero (centre - spread);
        high = at_most_one (centre + spread);
        n = total;
      }

  -- `none` is a `ValueError`. `z` is its default.
  unfoldable pub wilson : ℤ → ℤ → Option (Interval F)
  wilson successes (negsuc n) = none
  wilson (negsuc m) (pos n) = none
  wilson (pos m) (pos n) =
      if leb m n
      then some (
          if n == 0
          then record { rate = zero_f; low = zero_f; high = zero_f; n = 0 }
          else wilson_of m n)
      else none

  abbrev p_value_of : ℕ → ℕ → F
  p_value_of a b =
      at_most_one
        (lit 2 0 * lit (comb_sum (Nat.◌+◌ a b) (min a b)) 0 / pow (lit 2 0) (lit (Nat.◌+◌ a b) 0))

  abbrev pub compared : ℕ → ℕ → McNemarResult F
  compared a b =
      if Nat.◌+◌ a b == 0
      then record { only_a = 0; only_b = 0; p_value = lit 1 0 }
      else record { only_a = a; only_b = b; p_value = p_value_of a b }

  -- `none` is a `ValueError`.
  unfoldable pub mcnemar : List Bool → List Bool → Option (McNemarResult F)
  mcnemar outcomes_a outcomes_b =
      if length outcomes_a == length outcomes_b
      then some (compared (count_only outcomes_a outcomes_b) (count_only outcomes_b outcomes_a))
      else none

count_only-disagreements :
    (xs ys : List Bool) → Nat.◌+◌ (count_only xs ys) (count_only ys xs) ≡ disagreements xs ys
unfolding count_only disagreements
count_only-disagreements [] [] = refl
count_only-disagreements [] (y ∷ ys) = refl
count_only-disagreements (x ∷ xs) [] = refl
count_only-disagreements (true ∷ xs) (true ∷ ys) = omega (arith, count_only-disagreements xs ys)
count_only-disagreements (true ∷ xs) (false ∷ ys) = omega (arith, count_only-disagreements xs ys)
count_only-disagreements (false ∷ xs) (true ∷ ys) = omega (arith, count_only-disagreements xs ys)
count_only-disagreements (false ∷ xs) (false ∷ ys) = omega (arith, count_only-disagreements xs ys)

disagreements-le : (xs ys : List Bool) → disagreements xs ys ≤ length xs
unfolding disagreements
disagreements-le [] ys = omega arith
disagreements-le (x ∷ xs) [] = omega arith
disagreements-le (true ∷ xs) (true ∷ ys) = omega (arith, disagreements-le xs ys)
disagreements-le (true ∷ xs) (false ∷ ys) = omega (arith, disagreements-le xs ys)
disagreements-le (false ∷ xs) (true ∷ ys) = omega (arith, disagreements-le xs ys)
disagreements-le (false ∷ xs) (false ∷ ys) = omega (arith, disagreements-le xs ys)

discordant-compared :
    (F : Type 0) ⦃f : Float F⦄ (a b : ℕ) → discordant (compared {F = F} a b) ≡ Nat.◌+◌ a b
unfolding discordant
discordant-compared F a b = elim (Bool-cases (Nat.◌+◌ a b == 0)) [
  | inl e ↦ rw e (ground arith)
  | inr e ↦ rw e refl
]

module _ {F : Type 0} ⦃f : Float F⦄ where
  -- The paired comparison is refused exactly when the lists differ in length; otherwise its discordant
  -- pairs are the places where the two lists differ, at most as many as there are pairs.
  mcnemar_lem :
      (xs ys : List Bool)
      → ((length xs ≢ length ys) × ◌≡◌ {A = Option (McNemarResult F)} (mcnemar xs ys) none)
        ⊎ ((length xs ≡ length ys)
            × ((r : McNemarResult F) × (mcnemar xs ys ≡ some r)
                × (discordant r ≡ disagreements xs ys)
                × (discordant r ≤ length xs)))
  unfolding mcnemar
  mcnemar_lem xs ys = elim (Bool-cases (length xs == length ys)) [
    | inl e ↦
        let r : McNemarResult F = compared (count_only xs ys) (count_only ys xs) in
        let counted = discordant-compared F (count_only xs ys) (count_only ys xs) in
        let total = count_only-disagreements xs ys in
        inr (
          ground arith,
          (
            r,
            rw e refl,
            omega (arith, counted, total),
            omega (arith, counted, total, disagreements-le xs ys),
          ),
        )
    | inr e ↦ inl (ground arith, rw e refl)
  ]

  abbrev swapped : McNemarResult F → McNemarResult F
  swapped r = record { only_a = r.only_b; only_b = r.only_a; p_value = r.p_value }

  abbrev swapped_if : Option (McNemarResult F) → Option (McNemarResult F)
  swapped_if none = none
  swapped_if (some r) = some (swapped r)

  compared_swap : (a b : ℕ) → compared {F = F} b a ≡ swapped (compared a b)
  compared_swap a b =
      let sums : Nat.◌+◌ b a ≡ Nat.◌+◌ a b = omega arith in
      let mins : min b a ≡ min a b = omega arith in
      elim (Bool-cases (Nat.◌+◌ a b == 0)) [
        | inl e ↦ rw (sums, e) refl
        | inr e ↦ rw (sums, mins, e) refl
      ]

  -- The comparison does not depend on which of the two comes first: exchanging them exchanges the two
  -- counts, and keeps the p-value and the refusal.
  pub mcnemar-swap : (xs ys : List Bool) → mcnemar {F = F} ys xs ≡ swapped_if (mcnemar xs ys)
  unfolding mcnemar
  mcnemar-swap xs ys = elim (Bool-cases (length xs == length ys)) [
    | inl e ↦
        let e' : (length ys == length xs) ≡ true = ground arith in
        rw (e, e', compared_swap (count_only xs ys) (count_only ys xs)) refl
    | inr e ↦ let e' : (length ys == length xs) ≡ false = ground arith in rw (e, e') refl
  ]

  abbrev IsBounded : Interval F → Type 0
  IsBounded i = (f.le zero_f i.low ≡ true) × (f.le i.high (f.lit 1 0) ≡ true)

  -- Where a smaller number is at most a larger one, and 0 is at most 0 and 1, and 1 at most 1, an interval
  -- lies between 0 and 1.
  pub wilson-IsBounded :
      ((a b : F) → f.lt a b ≡ true → f.le a b ≡ true)
      → f.le zero_f zero_f ≡ true
      → f.le zero_f (f.lit 1 0) ≡ true
      → f.le (f.lit 1 0) (f.lit 1 0) ≡ true
      → (successes total : ℤ) (i : Interval F) → wilson successes total ≡ some i
      → (f.le zero_f i.low ≡ true) × (f.le i.high (f.lit 1 0) ≡ true)
  unfolding wilson
  wilson-IsBounded below zz zo oo successes (negsuc n) i h = absurd (cc)
  wilson-IsBounded below zz zo oo (negsuc m) (pos n) i h = absurd (cc)
  wilson-IsBounded below zz zo oo (pos m) (pos n) i h = elim (Bool-cases (leb m n)) [
    | inl e ↦ subst IsBounded (some-injective _ _ (rw e at h)) (at_total (n == 0))
    | inr e ↦ let h' = rw e at h in absurd (cc)
  ]
    where
      from_zero : (x : F) → f.le zero_f (at_least_zero x) ≡ true
      from_zero x = elim (Bool-cases (f.lt zero_f x)) [
        | inl e ↦ rw e (below zero_f x e)
        | inr e ↦ rw e zz
      ]

      to_one : (x : F) → f.le (at_most_one x) (f.lit 1 0) ≡ true
      to_one x = elim (Bool-cases (f.lt x (f.lit 1 0))) [
        | inl e ↦ rw e (below x (f.lit 1 0) e)
        | inr e ↦ rw e oo
      ]

      at_total :
          (b : Bool)
          → IsBounded (
              if b
              then record { rate = zero_f; low = zero_f; high = zero_f; n = 0 }
              else wilson_of m n)
      at_total true = (zz, zo)
      at_total false = (from_zero _, to_one _)
