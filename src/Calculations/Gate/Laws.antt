-- ===== src/Calculations/Gate/Laws.antt =====
-- What the operational gate promises.
use lang_graph_uas.Prelude.{
  ◌≡◌, refl, ◌↔◌, Bool, true, false, List, [], ◌∷◌, ◌++◌, map, arith, Any, All, all, and_lem,
  lookup, Option, none, some, String,
}
use lang_graph_uas.Schemas.Domain.{Provenance}
use lang_graph_uas.Schemas.Provenance.{FieldProvenance, is_operational_grade}
use lang_graph_uas.Schemas.Assessment.{AssessmentMode, advisory, operational, Blocker}
use lang_graph_uas.Calculations.Gate.{
  GateInputs, operational_blockers, resolve_mode, power_is_operational_grade, record_is_grade,
  power_fields_aircraft, power_fields_payload,
}

-- The condition that each blocker reports. The list of blockers holds it exactly then.
abbrev pub Blocks : GateInputs → Blocker → Type 0
Blocks i Blocker.weather_not_live = i.weather_is_live ≡ false
Blocks i Blocker.weather_degraded = i.weather_degraded ≡ true
Blocks i Blocker.assessment_incomplete = i.assessment_is_complete ≡ false
Blocks i Blocker.provenance_incomplete = i.provenance_is_complete ≡ false
Blocks i Blocker.power_not_operational_grade = i.power_is_operational_grade ≡ false
Blocks i Blocker.blue_list_snapshot_unavailable = Unit {0}
Blocks i Blocker.corpus_quarantined = i.corpus_quarantined ≡ true

abbrev pub Holds : Blocker → List Blocker → Type 0
Holds b = Any (λ c. b ≡ c)

-- The gate lists a blocker exactly when its condition holds.
pub operational_blockers_iff :
    (i : GateInputs) (b : Blocker) → Holds b (operational_blockers i) ↔ Blocks i b
unfolding operational_blockers
operational_blockers_iff i Blocker.weather_not_live = ground arith
operational_blockers_iff i _ = ground arith

-- One condition is a blocker of every plan.
snapshot_last :
    (bs : List Blocker)
    → resolve_mode operational (bs ++ (Blocker.blue_list_snapshot_unavailable ∷ [])) ≡ advisory
unfolding resolve_mode
snapshot_last [] = refl
snapshot_last (b ∷ bs) = refl

-- No request is granted the operational mode, whatever the gate is told.
pub resolve_mode-advisory :
    (requested : AssessmentMode) (i : GateInputs)
    → resolve_mode requested (operational_blockers i) ≡ advisory
unfolding operational_blockers
resolve_mode-advisory operational i = snapshot_last _
resolve_mode-advisory advisory i = unfold resolve_mode in refl

-- A field's record exists and is read from a datasheet or measured in a flight log.
abbrev pub IsMeasured : {F : Type 0} → Provenance F → String → Type 0
IsMeasured {F} records field =
    (r : FieldProvenance F) × (lookup field records ≡ some r) × (is_operational_grade r ≡ true)

all-append :
    {A : Type 0} (p : A → Bool) (xs ys : List A)
    → all p (xs ++ ys) ≡ true
    → (all p xs ≡ true) × (all p ys ≡ true)
all-append p [] ys h = (refl, h)
all-append p (x ∷ xs) ys h = ground (arith, all-append p xs ys)

module _ {F : Type 0} where
  record_is_grade_lem :
      (o : Option (FieldProvenance F))
      → record_is_grade o ≡ true
      → (r : FieldProvenance F) × (o ≡ some r) × (is_operational_grade r ≡ true)
  record_is_grade_lem none h = cc
  record_is_grade_lem (some r) h = (r, refl, h)

  all_grades :
      (records : Provenance F) (fields : List String)
      → all record_is_grade (map (λ field. lookup field records) fields) ≡ true
      → All (IsMeasured records) fields
  all_grades records [] h = tt
  all_grades records (field ∷ fields) h =
      let (this, rest) = and_lem _ _ h in
      (record_is_grade_lem (lookup field records) this, all_grades records fields rest)

  -- Where the power figures pass, every figure that the energy budget reads has a record from a
  -- datasheet or a flight log.
  pub power_is_operational_grade-IsMeasured :
      (aircraft payload : Provenance F)
      → power_is_operational_grade aircraft payload ≡ true
      → All (IsMeasured aircraft) power_fields_aircraft
        × All (IsMeasured payload) power_fields_payload
  unfolding power_is_operational_grade
  power_is_operational_grade-IsMeasured aircraft payload h =
      let (a, p) =
        all-append record_is_grade (map (λ field. lookup field aircraft) power_fields_aircraft)
          (map (λ field. lookup field payload) power_fields_payload) h in
      (all_grades aircraft power_fields_aircraft a, all_grades payload power_fields_payload p)
