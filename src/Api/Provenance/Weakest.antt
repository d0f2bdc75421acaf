-- ===== src/Api/Provenance/Weakest.antt =====
-- backend/suas/api/number_provenance.py: the weakest of the inputs of a figure.
use lang_graph_uas.Prelude.{
  ℕ, ◌≡◌, ◌≤◌, refl, sym, ap, ◌∙◌, lookup, or_else, holds, Bool, true, List, [], ◌∷◌, map, Option,
  none, some, String, all, All, Any, sort, sorted_in, and_lem,
}
use Prim.Native.String.{◌++◌}
use mathlib.Core.Option.{some-injective}
use lang_graph_uas.Float.{Float}
use lang_graph_uas.Calculations.Gate.{
  power_is_operational_grade, record_is_grade, power_fields_aircraft, power_fields_payload,
}
use lang_graph_uas.Schemas.Provenance.{
  FieldSource, Confidence, unknown, low, FieldProvenance, source_is_operational,
  is_operational_grade,
}
use lang_graph_uas.Schemas.Domain.{Aircraft, Payload}
use lang_graph_uas.Api.Provenance.{
  NumberProvenance, source_rank, confidence_rank, unrecorded, lookup_path, split_at_dot, sorted_set,
  text_before, summarise, number_provenance,
}

module _ {A : Type 0} (key : A → ℕ) where
  -- No item has a smaller key than the one taken, and that is one of them.
  abbrev pub IsLeast : A → List A → Type 0
  IsLeast m xs = All (λ x. key m ≤ key x) xs × Any (λ x. x ≡ m) xs

module _ {F : Type 0} ⦃f : Float F⦄ (aircraft : Aircraft F) (payload : Payload F) where
  -- What the record of a field says, and what the lack of one does.
  abbrev pub source_of : String → FieldSource
  source_of path = said (lookup_path aircraft payload path)
    where
      said : Option (FieldProvenance F) → FieldSource
      said none = unknown
      said (some r) = r.source

  abbrev pub confidence_of : String → Confidence
  confidence_of path = said (lookup_path aircraft payload path)
    where
      said : Option (FieldProvenance F) → Confidence
      said none = low
      said (some r) = r.confidence

  -- What a label promises of the inputs it is made from.
  abbrev pub IsSummary : List String → NumberProvenance F → Type 0
  IsSummary inputs p =
      IsLeast source_rank p.source (map source_of inputs)
      × IsLeast confidence_rank p.confidence (map confidence_of inputs)
      × (p.operational_grade ≡ all (λ i. source_is_operational (source_of i)) inputs)
      × (p.operational_grade ≡ source_is_operational p.source)

  -- A label for each figure of the table, in its order.
  abbrev pub AreSummaries :
      List (String × List String) → List (String × NumberProvenance F) → Type 0
  AreSummaries [] [] = Unit
  AreSummaries [] (p ∷ labels) = ⊥
  AreSummaries (row ∷ table) [] = ⊥
  AreSummaries ((figure, inputs) ∷ table) ((name, p) ∷ labels) =
      (name ≡ figure) × IsSummary inputs p × AreSummaries table labels

  -- The inputs that the table lists for the battery margin hold each field that the gate asks for.
  abbrev pub CoversGate : List String → Type 0
  CoversGate inputs =
      All (λ field. holds ("aircraft." ++ field) inputs ≡ true) power_fields_aircraft
      × All (λ field. holds ("payload." ++ field) inputs ≡ true) power_fields_payload

  abbrev is_good : Option (FieldProvenance F) → Bool
  is_good o = is_operational_grade (or_else o unrecorded)

  is_good-record_is_grade :
      (o : Option (FieldProvenance F)) → is_good o ≡ true → record_is_grade o ≡ true
  is_good-record_is_grade none h = h
  is_good-record_is_grade (some r) h = h

  -- The records of the margin's inputs, of which the gate asks for four.
  graded_inputs :
      (a c s h w d u : Option (FieldProvenance F))
      → all is_good (a ∷ c ∷ s ∷ h ∷ w ∷ d ∷ u ∷ []) ≡ true
      → all record_is_grade (a ∷ c ∷ h ∷ d ∷ []) ≡ true
  graded_inputs a c s h w d u e =
      let fa = is_good-record_is_grade a in
      let fc = is_good-record_is_grade c in
      let fh = is_good-record_is_grade h in
      let fd = is_good-record_is_grade d in
      let (ga, rest) = and_lem (is_good a) _ e in
      let (gc, rest₁) = and_lem (is_good c) _ rest in
      let (gs, rest₂) = and_lem (is_good s) _ rest₁ in
      let (gh, rest₃) = and_lem (is_good h) _ rest₂ in
      let (gw, rest₄) = and_lem (is_good w) _ rest₃ in
      let (gd, rest₅) = and_lem (is_good d) _ rest₄ in rw (fa ga, fc gc, fh gh, fd gd) refl

  -- Where the label of the battery margin is of operational grade, the gate's test of the power figures
  -- passes: no figure that the gate asks for is left out of what the margin rests on.
  number_provenance-gate :
      (labels : List (String × NumberProvenance F)) (p : NumberProvenance F)
      → number_provenance aircraft payload ≡ some labels
      → lookup "battery_check.margin_wh" labels ≡ some p
      → p.operational_grade ≡ true
      → power_is_operational_grade aircraft.provenance payload.provenance ≡ true
  unfolding number_provenance summarise sorted_set sort sorted_in text_before lookup_path
      split_at_dot power_is_operational_grade
  number_provenance-gate labels p e h good =
      let margin =
        some-injective _ _
          (sym h ∙ ap (λ o. lookup "battery_check.margin_wh" o) (sym (some-injective _ _ e))) in
      let grade = sym (ap (λ q. q.operational_grade) margin) ∙ good in
      graded_inputs (lookup "battery_wh" aircraft.provenance)
        (lookup "cruise_power_w" aircraft.provenance)
        (lookup "cruise_speed_mps" aircraft.provenance) (lookup "hover_power_w" aircraft.provenance)
        (lookup "weight_kg" aircraft.provenance) (lookup "power_draw_w" payload.provenance)
        (lookup "weight_kg" payload.provenance) grade
