-- ===== src/Api/ReportSource.antt =====
-- backend/suas/api/report_source.py: who wrote the report of a plan.
use lang_graph_uas.Prelude.{
  ◌≡◌, refl, sym, ap, ◌∙◌, subst, ◌⊎◌, inl, inr, Bool, true, false, not, ◌||◌, List, [], ◌∷◌,
  Option, none, some, String, is_blank, is_empty, arith, or_else,
}
use mathlib.Core.Option.{some-injective}
use lang_graph_uas.Float.{Float}
use lang_graph_uas.Schemas.Domain.{Aircraft}
use lang_graph_uas.Schemas.Responses.{WeatherReading, Calculations, SafetyFlags}
use lang_graph_uas.Schemas.Assessment.{DeterministicAssessment}
use lang_graph_uas.Graph.State.{MissionState, Dependencies}
use lang_graph_uas.Graph.Seal.{contains, render_template_brief}
use lang_graph_uas.Graph.Nodes.{
  aborted_report, invalid_aircraft_report, narrative_unavailable_report, validation_failed_report,
  generate_report, write_report, publish, vet_prose, vet_sealed, vet_contradiction, vet_numbers,
}
use lang_graph_uas.Services.Report.{fallback_report, generate}

pub data ReportSource : Type 0 where
  model deterministic : ReportSource

-- `_DETERMINISTIC`.
abbrev pub deterministic_reports : List String
deterministic_reports =
    aborted_report
    ∷ invalid_aircraft_report
    ∷ fallback_report true
    ∷ fallback_report false
    ∷ narrative_unavailable_report true
    ∷ narrative_unavailable_report false
    ∷ validation_failed_report true
    ∷ validation_failed_report false
    ∷ []

abbrev source_of : Bool → ReportSource
source_of true = deterministic
source_of false = model

unfoldable pub report_source : {F : Type 0} → MissionState F → ReportSource
report_source s = source_of (
    is_blank s.report
    || not (is_empty s.seal_violations)
    || contains s.report deterministic_reports)

or_fixed : (a b c : Bool) → c ≡ true → source_of (a || b || c) ≡ deterministic
or_fixed a b c h = ground arith

or_withheld : (a c : Bool) → source_of (a || true || c) ≡ deterministic
or_withheld a c = ground arith

module _ {F : Type 0} ⦃f : Float F⦄ (d : Dependencies F) where
  withheld :
      (s : MissionState F) (brief violation : String) (violations : List String)
      → report_source (publish d s (brief, violation ∷ violations)) ≡ deterministic
  unfolding report_source
  withheld s brief violation violations =
      or_withheld (is_blank brief) (contains brief deterministic_reports)

  fixed_source :
      (s : MissionState F) (text : String)
      → contains text deterministic_reports ≡ true
      → report_source (publish d s (text, [])) ≡ deterministic
  unfolding report_source
  fixed_source s text fixed =
      or_fixed (is_blank text) false (contains text deterministic_reports) fixed

  numbers_fixed :
      (s : MissionState F) (text : String) (a : DeterministicAssessment) (invented : List String)
      → contains text deterministic_reports ≡ true
      → report_source (publish d s (vet_numbers d text a invented)) ≡ deterministic
  numbers_fixed s text a [] fixed = fixed_source s text fixed
  numbers_fixed s text a (n ∷ ns) fixed = withheld s (render_template_brief a) _ _

  contradiction_fixed :
      (s : MissionState F) (text : String) (a : DeterministicAssessment) (found : Option String)
      → contains text deterministic_reports ≡ true
      → report_source (publish d s (vet_contradiction d text s a found)) ≡ deterministic
  contradiction_fixed s text a none fixed = numbers_fixed s text a _ fixed
  contradiction_fixed s text a (some x) fixed = withheld s (render_template_brief a) _ _

  -- A text that is one of the fixed ones is never attributed to the model, whatever the seal makes of it.
  sealed_fixed :
      (s : MissionState F) (text : String) (a : Option DeterministicAssessment)
      → contains text deterministic_reports ≡ true
      → report_source (publish d s (vet_sealed d text s a)) ≡ deterministic
  sealed_fixed s text none fixed = fixed_source s text fixed
  sealed_fixed s text (some a) fixed = contradiction_fixed s text a _ fixed

  -- What a report that counts as the model's has gone through.
  abbrev pub IsAttributed : MissionState F → MissionState F → Type 0
  IsAttributed s t =
      (c : Calculations F) × (a : Aircraft F) × (w : WeatherReading F) × (s.calculations ≡ some c)
      × (d.generate s.is_viable a.name w c s.citations ≡ some t.report)
      × (t.seal_violations ≡ [])

  unavailable_fixed :
      (b : Bool) → contains (narrative_unavailable_report b) deterministic_reports ≡ true
  unavailable_fixed true = refl
  unavailable_fixed false = refl

  failed_fixed : (b : Bool) → contains (validation_failed_report b) deterministic_reports ≡ true
  failed_fixed true = refl
  failed_fixed false = refl

  failed_source :
      (s : MissionState F) (b : Bool)
      → report_source (record s { report = validation_failed_report b }) ≡ deterministic
  unfolding report_source
  failed_source s b =
      or_fixed (is_blank (validation_failed_report b)) (not (is_empty s.seal_violations)) _
        (failed_fixed b)

  clash : {x : ReportSource} → x ≡ deterministic → x ≡ model → ⊥
  clash h q = cc

  -- The seal passes a text on unchanged, or what it publishes is not attributed to the model.
  abbrev Passed : MissionState F → String → String × List String → Type 0
  Passed s text vetted =
      (vetted ≡ (text, [])) ⊎ (report_source (publish d s vetted) ≡ deterministic)

  numbers-Passed :
      (s : MissionState F) (text : String) (a : DeterministicAssessment) (invented : List String)
      → Passed s text (vet_numbers d text a invented)
  numbers-Passed s text a [] = inl refl
  numbers-Passed s text a (n ∷ ns) = inr (withheld s (render_template_brief a) _ _)

  contradiction-Passed :
      (s : MissionState F) (text : String) (a : DeterministicAssessment) (found : Option String)
      → Passed s text (vet_contradiction d text s a found)
  contradiction-Passed s text a none = numbers-Passed s text a _
  contradiction-Passed s text a (some x) = inr (withheld s (render_template_brief a) _ _)

  sealed-Passed :
      (s : MissionState F) (text : String) (a : Option DeterministicAssessment)
      → Passed s text (vet_sealed d text s a)
  sealed-Passed s text none = inl refl
  sealed-Passed s text (some a) = contradiction-Passed s text a _

  prose-IsAttributed :
      (s t : MissionState F) (c : Calculations F) (a : Aircraft F) (w : WeatherReading F)
      (o : Option String)
      → s.calculations ≡ some c
      → d.generate s.is_viable a.name w c s.citations ≡ o
      → publish d s
          (vet_sealed d (or_else o (narrative_unavailable_report s.is_viable)) s s.assessment)
        ≡ t
      → report_source t ≡ model
      → IsAttributed s t
  prose-IsAttributed s t c a w none e g p h =
      let fixed =
        sealed_fixed s (narrative_unavailable_report s.is_viable) s.assessment
          (unavailable_fixed s.is_viable) in
      absurd (clash (subst (λ x. report_source x ≡ deterministic) p fixed) h)
  prose-IsAttributed s t c a w (some prose) e g p h = elim (sealed-Passed s prose s.assessment) [
    | inr fixed ↦ absurd (clash (subst (λ x. report_source x ≡ deterministic) p fixed) h)
    | inl is ↦
        let t_is = sym p in
        (
          c,
          a,
          w,
          e,
          g ∙ ap some (sym (ap (λ x. x.report) t_is ∙ ap (λ v. v.0) is)),
          ap (λ x. x.seal_violations) t_is ∙ ap (λ v. v.1) is,
        )
  ]

  write-IsAttributed :
      (s t : MissionState F) (c : Option (Calculations F)) (a : Option (Aircraft F))
      (w : Option (WeatherReading F))
      → s.calculations ≡ c
      → write_report d s c a w ≡ some t
      → report_source t ≡ model
      → IsAttributed s t
  unfolding vet_prose
  write-IsAttributed s t (some c) (some a) (some w) e p h =
      prose-IsAttributed s t c a w (d.generate s.is_viable a.name w c s.citations) e refl
        (some-injective _ _ p) h
  write-IsAttributed s t (some c) (some a) none e p h = absurd (cc)
  write-IsAttributed s t (some c) none w e p h = absurd (
      clash
        (subst (λ x. report_source x ≡ deterministic) (some-injective _ _ p)
          (failed_source s s.is_viable))
        h)
  write-IsAttributed s t none a w e p h = absurd (
      clash
        (subst (λ x. report_source x ≡ deterministic) (some-injective _ _ p)
          (failed_source s s.is_viable))
        h)

  -- A report that the report node writes counts as the model's only where calculations were there, it is
  -- word for word what the report service answered, and the seal found nothing in it.
  pub generate_report-IsAttributed :
      (s t : MissionState F)
      → is_blank s.report ≡ true
      → generate_report d s ≡ some t
      → report_source t ≡ model
      → IsAttributed s t
  unfolding generate_report
  generate_report-IsAttributed s t blank e h =
      write-IsAttributed s t s.calculations s.aircraft s.weather refl (rw blank at e) h

  fallback_fixed : (b : Bool) → contains (fallback_report b) deterministic_reports ≡ true
  fallback_fixed true = refl
  fallback_fixed false = refl

  -- Where no key of a language model is configured, no report that the report node writes counts as a
  -- model's.
  generate_report-no_key :
      (dump_flags : SafetyFlags → String) (nonce : String) (s t : MissionState F)
      → d.generate ≡ generate dump_flags none nonce
      → is_blank s.report ≡ true
      → generate_report d s ≡ some t
      → report_source t ≡ deterministic
  unfolding generate report_source
  generate_report-no_key dump_flags nonce s t keyless blank e = at_source (report_source t) refl
    where
      at_source : (source : ReportSource) → report_source t ≡ source → source ≡ deterministic
      at_source deterministic h = refl
      at_source model h =
          let (c, a, w, _, answered, clean) = generate_report-IsAttributed s t blank e h in
          let text : fallback_report s.is_viable ≡ t.report =
            some-injective _ _
              (ap (λ g. g s.is_viable a.name w c s.citations) (sym keyless) ∙ answered) in
          let fixed =
            subst (λ x. contains x deterministic_reports ≡ true) text
              (fallback_fixed s.is_viable) in
          absurd (clash (or_fixed (is_blank t.report) (not (is_empty t.seal_violations)) _ fixed) h)
