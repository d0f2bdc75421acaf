-- ===== src/Api/Provenance.antt =====
-- backend/suas/api/number_provenance.py: what each watt and watt-hour of a response rests on, with the
-- records of schemas/responses.py that say it.
pub mod Weakest
use Prim.Native.Char.{code}
use Prim.Native.String.{String}
use Prim.Native.String
use lang_graph_uas.Prelude.{
  ℕ, zero, suc, Bool, true, false, ◌&&◌, ◌||◌, List, [], ◌∷◌, ◌++◌, map, Option, none, some, ltb,
  ◌==◌, all, sort, holds, lookup, or_else, str_eq, if◌then◌else◌,
}
use lang_graph_uas.Float.{Float, zero_f}
use lang_graph_uas.Schemas.Provenance.{
  FieldSource, Confidence, FieldProvenance, is_operational_grade, datasheet, flight_log, secondary,
  derived, estimate, unknown, low, medium, high,
}
use lang_graph_uas.Schemas.Domain.{Aircraft, Payload}

pub record InputBasis (F : Type 0) : Type 0 where
  pub field : String
  pub value : Option F
  pub unit : Option String
  pub source : FieldSource
  pub confidence : Confidence
  pub source_url : Option String
  pub retrieved_at : Option String
  pub notes : String

pub record NumberProvenance (F : Type 0) : Type 0 where
  pub source : FieldSource
  pub confidence : Confidence
  pub operational_grade : Bool
  pub inputs : List String
  pub basis : List (InputBasis F)

-- The order of Python on texts, by code points.
unfoldable pub text_before : String → String → Bool
text_before String.[] String.[] = false
text_before String.[] (String.◌∷◌ d t) = true
text_before (String.◌∷◌ c s) String.[] = false
text_before (String.◌∷◌ c s) (String.◌∷◌ d t) =
    let rest = text_before s t in ltb (code c) (code d) || (code c == code d && rest)

-- `set(texts)`: each text once.
abbrev pub once : List String → List String
once [] = []
once (x ∷ xs) = if holds x xs then once xs else x ∷ once xs

unfoldable pub sorted_set : List String → List String
unfolding sort text_before
sorted_set texts = sort text_before (once texts)

abbrev pub hover_inputs : List String
hover_inputs = "aircraft.hover_power_w" ∷ "aircraft.weight_kg" ∷ "payload.weight_kg" ∷ []

abbrev pub phase_inputs : List String
phase_inputs = hover_inputs ++ ("payload.power_draw_w" ∷ [])

abbrev pub cruise_inputs : List String
cruise_inputs =
    "aircraft.cruise_power_w" ∷ "aircraft.cruise_speed_mps" ∷ "aircraft.weight_kg"
    ∷ "payload.power_draw_w" ∷ "payload.weight_kg" ∷ []

abbrev pub total_inputs : List String
total_inputs = sorted_set (phase_inputs ++ cruise_inputs)

abbrev pub watt_figure_inputs : List (String × List String)
watt_figure_inputs =
    ("effective_hover_power_w", hover_inputs)
    ∷ ("energy_required_wh", total_inputs)
    ∷ ("energy_breakdown.climb_wh", phase_inputs)
    ∷ ("energy_breakdown.cruise_wh", cruise_inputs)
    ∷ ("energy_breakdown.hover_wh", phase_inputs)
    ∷ ("energy_breakdown.descent_wh", phase_inputs)
    ∷ ("energy_breakdown.total_wh", total_inputs)
    ∷ ("battery_check.energy_required_wh", total_inputs)
    ∷ ("battery_check.usable_capacity_wh", "aircraft.battery_wh" ∷ [])
    ∷ ("battery_check.margin_wh", "aircraft.battery_wh" ∷ total_inputs)
    ∷ []

-- The index in `_SOURCE_RANK`, and in `_CONFIDENCE_RANK`.
abbrev pub source_rank : FieldSource → ℕ
source_rank unknown = 0
source_rank estimate = 1
source_rank derived = 2
source_rank secondary = 3
source_rank flight_log = 4
source_rank datasheet = 5

abbrev pub confidence_rank : Confidence → ℕ
confidence_rank low = 0
confidence_rank medium = 1
confidence_rank high = 2

-- `path.split(".", 1)`, where `owner` is what stands before the rest of the text.
unfoldable pub split_at_dot : String → String → String × String
split_at_dot owner String.[] = (owner, "")
split_at_dot owner (String.◌∷◌ c s) = elim (code c == 46) [
  | true ↦ (owner, s)
  | false ↦ split_at_dot (String.◌++◌ owner (String.◌∷◌ c String.[])) s
]

module _ {A : Type 0} where
  -- Python's `min(x, *xs, key=key)`: the first of the smallest.
  unfoldable pub min_by : (A → ℕ) → A → List A → A
  min_by key best [] = best
  min_by key best (x ∷ xs) = min_by key (if ltb (key x) (key best) then x else best) xs

module _ {F : Type 0} ⦃f : Float F⦄ where
  abbrev pub unrecorded : FieldProvenance F
  unrecorded = record {
    value = zero_f;
    unit = "-";
    source = unknown;
    source_url = none;
    retrieved_at = none;
    confidence = low;
    notes = "";
  }

  abbrev found : Aircraft F → Payload F → String × String → Option (FieldProvenance F)
  found aircraft payload (owner, field) =
      if str_eq owner "aircraft"
      then lookup field aircraft.provenance
      else lookup field payload.provenance

  unfoldable pub lookup_path : Aircraft F → Payload F → String → Option (FieldProvenance F)
  unfolding split_at_dot
  lookup_path aircraft payload path = found aircraft payload (split_at_dot "" path)

  abbrev pub basis_of : String → Option (FieldProvenance F) → InputBasis F
  basis_of path none = record {
    field = path;
    value = none;
    unit = none;
    source = unrecorded.source;
    confidence = unrecorded.confidence;
    source_url = none;
    retrieved_at = none;
    notes = "";
  }
  basis_of path (some r) = record {
    field = path;
    value = some r.value;
    unit = some r.unit;
    source = r.source;
    confidence = r.confidence;
    source_url = r.source_url;
    retrieved_at = r.retrieved_at;
    notes = r.notes;
  }

  module _ (aircraft : Aircraft F) (payload : Payload F) where
    abbrev pub record_of : String → FieldProvenance F
    record_of path = or_else (lookup_path aircraft payload path) unrecorded

    -- `none` is the `ValueError` of `min` on no inputs.
    unfoldable pub summarise : List String → Option (NumberProvenance F)
    summarise [] = none
    summarise (input ∷ inputs) =
        let paths = sorted_set (input ∷ inputs) in
        some (record {
          source =
              min_by source_rank (record_of input).source (map (λ p. (record_of p).source) inputs);
          confidence =
              min_by confidence_rank (record_of input).confidence
                (map (λ p. (record_of p).confidence) inputs);
          operational_grade = all (λ p. is_operational_grade (record_of p)) (input ∷ inputs);
          inputs = paths;
          basis = map (λ p. basis_of p (lookup_path aircraft payload p)) paths;
        })

    abbrev pub labelled :
        String
        → Option (NumberProvenance F)
        → Option (List (String × NumberProvenance F))
        → Option (List (String × NumberProvenance F))
    labelled figure none rest = none
    labelled figure (some p) none = none
    labelled figure (some p) (some rest) = some ((figure, p) ∷ rest)

    abbrev pub summaries : List (String × List String) → Option (List (String × NumberProvenance F))
    summaries [] = some []
    summaries ((figure, inputs) ∷ table) = labelled figure (summarise inputs) (summaries table)

    unfoldable pub number_provenance : Option (List (String × NumberProvenance F))
    number_provenance = summaries watt_figure_inputs
