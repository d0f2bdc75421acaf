-- ===== src/FlightLogs/Estimate.antt =====
-- backend/suas/calculations/from_log.py: the power estimate of a set of samples.
pub mod Trust
use lang_graph_uas.Prelude.{
  ℕ, zero, suc, Bool, true, false, not, ◌&&◌, List, [], ◌∷◌, Option, none, some, length, take,
  is_empty, leb, ltb, ◌==◌, sort, if◌then◌else◌,
}
use Prim.Native.Nat
use lang_graph_uas.Float.{Float, zero_f}
use lang_graph_uas.Schemas.Provenance.{Confidence, low, medium, high}
use lang_graph_uas.FlightLogs.Samples.{
  FlightLogSample, effective_power_w, select_hover_samples, select_cruise_samples,
}

pub record PowerEstimate (F : Type 0) : Type 0 where
  pub median_w : F
  pub sample_count : ℕ
  pub iqr_w : F
  pub confidence : Confidence

-- An estimate, `no_estimate` for no samples, or a `ValueError`.
pub data Estimated (F : Type 0) : Type 0 where
  estimated : PowerEstimate F → Estimated F
  no_estimate : Estimated F
  value_error : Estimated F

abbrev pub drop : {F : Type 0} → ℕ → List F → List F
drop zero xs = xs
drop (suc n) [] = []
drop (suc n) (x ∷ xs) = drop n xs

abbrev pub nth : {F : Type 0} → ℕ → List F → Option F
nth n [] = none
nth zero (x ∷ xs) = some x
nth (suc n) (x ∷ xs) = nth n xs

abbrev pub half : ℕ → ℕ
half n = Nat.◌/◌ n 2

module _ {F : Type 0} ⦃f : Float F⦄ where
  open f use {lit, ◌+◌, ◌-◌, ◌/◌, le, lt, round}

  infixl 65 ◌+◌ ◌-◌
  infixl 70 ◌/◌
  unfoldable pub relative_spread : PowerEstimate F → F
  relative_spread e = if le e.median_w zero_f then lit 10 1 else e.iqr_w / e.median_w

  abbrev pub middle_of : Option F → Option F → Option F
  middle_of (some a) (some b) = some ((a + b) / lit 2 0)
  middle_of _ _ = none

  -- `statistics.median` of the sorted values; `none` is the error of no values.
  abbrev pub median_of : ℕ → List F → Option F
  median_of n ordered =
      if Nat.◌%◌ n 2 == 1
      then nth (half n) ordered
      else middle_of (nth (Nat.◌-◌ (half n) 1) ordered) (nth (half n) ordered)

  unfoldable pub median : List F → Option F
  median values = median_of (length values) (sort lt values)

  abbrev pub spread_of : Option F → Option F → Option F
  spread_of (some upper) (some lower) = some (upper - lower)
  spread_of _ _ = none

  unfoldable pub interquartile_range : List F → Option F
  unfolding median
  interquartile_range values =
      let ordered = sort lt values in
      let midpoint = half (length ordered) in
      if ltb (length values) 4
      then some zero_f
      else spread_of (median (drop (Nat.◌-◌ (length ordered) midpoint) ordered))
          (median (take midpoint ordered))

  unfoldable pub confidence_for : ℕ → F → Confidence
  confidence_for sample_count spread =
      if leb 30 sample_count && le spread (lit 15 2)
      then high
      else if leb 15 sample_count && le spread (lit 30 2)
      then medium
      else low

  abbrev more : Option F → Option (List F) → Option (List F)
  more none values = none
  more (some v) none = none
  more (some v) (some values) = some (v ∷ values)

  -- `[sample.effective_power_w for sample in samples]`.
  abbrev pub powers : List (FlightLogSample F) → Option (List F)
  powers [] = some []
  powers (s ∷ samples) = more (effective_power_w s) (powers samples)

  abbrev pub estimate_of : ℕ → Option F → Option F → Option (PowerEstimate F)
  estimate_of n none iqr = none
  estimate_of n (some centre) none = none
  estimate_of n (some centre) (some iqr) =
      let spread = if lt zero_f centre then iqr / centre else lit 10 1 in
      some (record {
        median_w = round centre 2;
        sample_count = n;
        iqr_w = round iqr 2;
        confidence = confidence_for n spread;
      })

  abbrev pub estimate_values : Option (List F) → Option (PowerEstimate F)
  estimate_values none = none
  estimate_values (some values) =
      estimate_of (length values) (median values) (interquartile_range values)

  abbrev pub as_estimated : Option (PowerEstimate F) → Estimated F
  as_estimated none = value_error
  as_estimated (some e) = estimated e

  unfoldable pub estimate_power : List (FlightLogSample F) → Estimated F
  estimate_power [] = no_estimate
  estimate_power (s ∷ samples) = as_estimated (estimate_values (powers (s ∷ samples)))

  unfoldable pub estimate_hover_power : List (FlightLogSample F) → Estimated F
  unfolding estimate_power
  estimate_hover_power samples = estimate_power (select_hover_samples samples)

  unfoldable pub estimate_cruise_power : List (FlightLogSample F) → Estimated F
  unfolding estimate_power
  estimate_cruise_power samples = estimate_power (select_cruise_samples samples)
