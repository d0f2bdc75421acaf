-- ===== src/FlightLogs/Estimate/Trust.antt =====
-- That an estimate is made, and how many samples its confidence takes.
use lang_graph_uas.Prelude.{
  ℕ, zero, suc, true, ◌&&◌, ◌||◌, List, [], ◌∷◌, Option, none, some, length, take, is_some, leb,
  ltb, ◌==◌, sort, length-sort, All, Bool-cases, and_lem, inl, inr, arith, leb→le, ◌≡◌, refl, ap,
  subst, ◌≤◌, ◌<◌,
}
use Prim.Native.Nat
use lang_graph_uas.Float.{Float}
use lang_graph_uas.Schemas.Provenance.{Confidence, low, medium, high}
use lang_graph_uas.FlightLogs.Samples.{
  FlightLogSample, has_power_figure, effective_power_w, power_or, product,
}
use lang_graph_uas.FlightLogs.Estimate.{
  PowerEstimate, Estimated, estimated, no_estimate, value_error, drop, nth, half, middle_of, median,
  spread_of, interquartile_range, confidence_for, more, powers, estimate_of, estimate_values,
  as_estimated, estimate_power,
}

-- The samples that a confidence takes.
abbrev pub IsEarned : Confidence → ℕ → Type 0
IsEarned high n = 30 ≤ n
IsEarned medium n = 15 ≤ n
IsEarned low n = Unit

nth-is_some : {F : Type 0} (i : ℕ) (xs : List F) → i < length xs → is_some (nth i xs) ≡ true
nth-is_some i [] h = absurd (omega arith)
nth-is_some zero (x ∷ xs) h = refl
nth-is_some (suc i) (x ∷ xs) h = nth-is_some i xs (omega arith)

length-drop : {F : Type 0} (n : ℕ) (xs : List F) → length (drop n xs) ≡ Nat.◌-◌ (length xs) n
length-drop zero xs = omega arith
length-drop (suc n) [] = omega arith
length-drop (suc n) (x ∷ xs) = omega (arith, length-drop n xs)

length-take_min : {F : Type 0} (n : ℕ) (xs : List F) → n ≤ length xs → length (take n xs) ≡ n
length-take_min zero xs h = refl
length-take_min (suc n) [] h = absurd (omega arith)
length-take_min (suc n) (x ∷ xs) h = omega (arith, length-take_min n xs)

module _ {F : Type 0} ⦃f : Float F⦄ where
  open f use {lt}

  middle_of-is_some :
      (a b : Option F) → is_some a ≡ true → is_some b ≡ true → is_some (middle_of a b) ≡ true
  middle_of-is_some none b h k = h
  middle_of-is_some (some a) none h k = k
  middle_of-is_some (some a) (some b) h k = refl

  spread_of-is_some :
      (a b : Option F) → is_some a ≡ true → is_some b ≡ true → is_some (spread_of a b) ≡ true
  spread_of-is_some none b h k = h
  spread_of-is_some (some a) none h k = k
  spread_of-is_some (some a) (some b) h k = refl

  median-is_some : (values : List F) → 0 < length values → is_some (median values) ≡ true
  unfolding median
  median-is_some values h =
      let ordered = sort lt values in
      let n = length values in
      let first = nth-is_some (Nat.◌-◌ (half n) 1) ordered (omega (arith, length-sort lt values)) in
      let second = nth-is_some (half n) ordered (omega (arith, length-sort lt values)) in
      elim (Bool-cases (Nat.◌%◌ n 2 == 1)) [
        | inl e ↦ rw e second
        | inr e ↦ rw e (middle_of-is_some _ _ first second)
      ]

  interquartile_range-is_some : (values : List F) → is_some (interquartile_range values) ≡ true
  unfolding interquartile_range
  interquartile_range-is_some values =
      let ordered = sort lt values in
      let mid = half (length ordered) in
      elim (Bool-cases (ltb (length values) 4)) [
        | inl e ↦ rw e refl
        | inr e ↦
            let enough : 4 ≤ length values = ground arith in
            rw e (
              spread_of-is_some _ _
                (median-is_some (drop (Nat.◌-◌ (length ordered) mid) ordered) (
                  omega (
                    arith,
                    length-drop (Nat.◌-◌ (length ordered) mid) ordered,
                    length-sort lt values,
                  )))
                (median-is_some (take mid ordered)
                  (omega (arith, length-take_min mid ordered, length-sort lt values))))
      ]

  confidence_for-IsEarned : (n : ℕ) (spread : F) → IsEarned (confidence_for n spread) n
  unfolding confidence_for
  confidence_for-IsEarned n spread = elim (Bool-cases (leb 30 n && f.le spread (f.lit 15 2))) [
    | inl e ↦ rw e (leb→le 30 n (and_lem _ _ e).0)
    | inr e ↦ elim (Bool-cases (leb 15 n && f.le spread (f.lit 30 2))) [
      | inl e' ↦ rw (e, e') (leb→le 15 n (and_lem _ _ e').0)
      | inr e' ↦ rw (e, e') tt
    ]
  ]

  product-is_some :
      (v c : Option F) → (is_some v && is_some c) ≡ true → is_some (product v c) ≡ true
  product-is_some none c h = absurd (cc)
  product-is_some (some v) none h = absurd (cc)
  product-is_some (some v) (some c) h = refl

  pub effective_power_w-is_some :
      (s : FlightLogSample F) → has_power_figure s ≡ true → is_some (effective_power_w s) ≡ true
  unfolding effective_power_w
  effective_power_w-is_some s h = at_power s.power_w h
    where
      at_power :
          (p : Option F)
          → (is_some p || (is_some s.voltage_v && is_some s.current_a)) ≡ true
          → is_some (power_or p (product s.voltage_v s.current_a)) ≡ true
      at_power none h = product-is_some s.voltage_v s.current_a h
      at_power (some p) h = refl

  -- A list of values, as many as there are samples.
  abbrev IsFull : ℕ → Option (List F) → Type 0
  IsFull n none = ⊥
  IsFull n (some values) = length values ≡ n

  powers-IsFull :
      (samples : List (FlightLogSample F))
      → All (λ s. has_power_figure s ≡ true) samples
      → IsFull (length samples) (powers samples)
  powers-IsFull [] h = refl
  powers-IsFull (s ∷ samples) h =
      at_power (effective_power_w s) (powers samples) (effective_power_w-is_some s h.0)
        (powers-IsFull samples h.1)
    where
      at_power :
          (p : Option F) (rest : Option (List F))
          → is_some p ≡ true
          → IsFull (length samples) rest
          → IsFull (suc (length samples)) (more p rest)
      at_power none rest h r = absurd (cc)
      at_power (some p) none h r = r
      at_power (some p) (some values) h r = ap suc r

  -- An estimate from `n` samples, as many as its confidence takes.
  abbrev IsTrusted : ℕ → Estimated F → Type 0
  IsTrusted n (estimated e) = (e.sample_count ≡ n) × IsEarned e.confidence n
  IsTrusted n no_estimate = ⊥
  IsTrusted n value_error = ⊥

  estimate_of-IsTrusted :
      (n : ℕ) (centre iqr : Option F)
      → is_some centre ≡ true
      → is_some iqr ≡ true
      → IsTrusted n (as_estimated (estimate_of n centre iqr))
  estimate_of-IsTrusted n none iqr h k = absurd (cc)
  estimate_of-IsTrusted n (some c) none h k = absurd (cc)
  estimate_of-IsTrusted n (some c) (some i) h k = (refl, confidence_for-IsEarned n _)

  estimate_values-IsTrusted :
      (n : ℕ) (values : Option (List F))
      → 0 < n
      → IsFull n values
      → IsTrusted n (as_estimated (estimate_values values))
  estimate_values-IsTrusted n none h full = absurd full
  estimate_values-IsTrusted n (some values) h full =
      subst (λ m. IsTrusted m (as_estimated (estimate_values (some values)))) full
        (estimate_of-IsTrusted (length values) (median values) (interquartile_range values)
          (median-is_some values (omega (arith, full))) (interquartile_range-is_some values))

  -- From at least one sample, each with a power figure, there is an estimate: it counts every sample, and a
  -- high confidence takes 30 of them, a medium one 15.
  pub estimate_power-IsTrusted :
      (s : FlightLogSample F) (samples : List (FlightLogSample F))
      → All (λ s. has_power_figure s ≡ true) (s ∷ samples)
      → (e : PowerEstimate F) × (estimate_power (s ∷ samples) ≡ estimated e)
        × (e.sample_count ≡ suc (length samples))
        × IsEarned e.confidence (suc (length samples))
  unfolding estimate_power
  estimate_power-IsTrusted s samples h =
      at_result (as_estimated (estimate_values (powers (s ∷ samples)))) (
        estimate_values-IsTrusted (suc (length samples)) (powers (s ∷ samples)) (omega arith)
          (powers-IsFull (s ∷ samples) h))
    where
      at_result :
          (r : Estimated F)
          → IsTrusted (suc (length samples)) r
          → (e : PowerEstimate F) × (r ≡ estimated e)
            × (e.sample_count ≡ suc (length samples))
            × IsEarned e.confidence (suc (length samples))
      at_result (estimated e) h = (e, refl, h.0, h.1)
      at_result no_estimate h = absurd h
      at_result value_error h = absurd h
