-- ===== src/Graph/Brief.antt =====
-- What the brief may say, and what the report node writes.
use lang_graph_uas.Prelude.{
  ℕ, All, Any, keep_if, map, not, ◌||◌, Bool-cases, arith, ◌≡◌, ◌≢◌, refl, sym, subst, ◌⊎◌, inl,
  inr, Bool, true, false, List, [], ◌∷◌, Option, none, some, String, is_blank, if◌then◌else◌,
}
use mathlib.Core.Option.{some-injective}
use lang_graph_uas.Float.{Float}
use lang_graph_uas.Schemas.Domain.{Aircraft}
use lang_graph_uas.Schemas.Responses.{Calculations, WeatherReading}
use lang_graph_uas.Graph.State.{MissionState, Dependencies}
use lang_graph_uas.Graph.Nodes.{
  generate_report, write_report, vet_prose, vet_sealed, vet_contradiction, vet_numbers,
  supporting_text,
}
use lang_graph_uas.Schemas.Assessment.{
  Decision, go, no_go, insufficient_data, is_go, DeterministicAssessment,
}
use lang_graph_uas.Graph.Seal.{
  find_contradiction, unsupported_numerics, is_supported, render_template_brief,
}

framed :
    {F : Type 0} (s t : MissionState F) {report : String} {violations : List String}
    → some (record s { report = report; seal_violations = violations }) ≡ some t
    → t ≡ record s { report = t.report; seal_violations = t.seal_violations }
framed s t e =
    subst (λ x. x ≡ record s { report = x.report; seal_violations = x.seal_violations })
      (some-injective _ _ e) refl

module _ {N : Type 0} (p : N → Bool) (P : N → Type 0) (named : N → String) where
  none_kept :
      ((n : N) → p n ≡ true → P n)
      → (ns : List N) → map named (keep_if (λ n. not (p n)) ns) ≡ []
      → All P ns
  none_kept good [] e = tt
  none_kept good (n ∷ ns) e = elim (Bool-cases (p n)) [
    | inl is ↦ (good n is, none_kept good ns (rw is at e))
    | inr is ↦ (let r = rw is at e in absurd (cc))
  ]

  one_kept :
      ((n : N) → p n ≡ false → ¬ P n)
      → (ns : List N) (m : String) (ms : List String)
      → map named (keep_if (λ n. not (p n)) ns) ≡ m ∷ ms
      → Any (λ n. ¬ P n) ns
  one_kept bad [] m ms e = absurd (cc)
  one_kept bad (n ∷ ns) m ms e = elim (Bool-cases (p n)) [
    | inl is ↦ inr (one_kept bad ns m ms (rw is at e))
    | inr is ↦ inl (bad n is)
  ]

module _ {F : Type 0} ⦃f : Float F⦄ (d : Dependencies F) where
  open f use {le, round}

  -- A number of the brief, with so many decimals, is what some number of the sources rounds to.
  abbrev pub Supports : ℕ → F → List F → Type 0
  Supports decimals figure sources =
      Any (λ v. (le (round v decimals) figure ≡ true) × (le figure (round v decimals) ≡ true))
        sources

  is_supported-Supports :
      (decimals : ℕ) (figure : F) (sources : List F)
      → is_supported d.patterns decimals figure sources ≡ true
      → Supports decimals figure sources
  is_supported-Supports decimals figure [] e = absurd (cc)
  is_supported-Supports decimals figure (v ∷ vs) e =
      elim (Bool-cases (le (round v decimals) figure)) [
        | inl a ↦ elim (Bool-cases (le figure (round v decimals))) [
          | inl b ↦ inl (a, b)
          | inr b ↦ inr (is_supported-Supports decimals figure vs (rw (a, b) at e))
        ]
        | inr a ↦ inr (is_supported-Supports decimals figure vs (rw a at e))
      ]

  unsupported-Supports :
      (decimals : ℕ) (figure : F) (sources : List F)
      → is_supported d.patterns decimals figure sources ≡ false
      → Supports decimals figure sources
      → ⊥
  unsupported-Supports decimals figure [] e h = h
  unsupported-Supports decimals figure (v ∷ vs) e (inl (a, b)) =
      (let r = rw (a, b) at e in absurd (cc))
  unsupported-Supports decimals figure (v ∷ vs) e (inr h) =
      unsupported-Supports decimals figure vs (or_right _ _ e) h
    where
      or_right : (x y : Bool) → (x || y) ≡ false → y ≡ false
      or_right x y q = ground arith

  -- What the brief is vetted by: the words for a launch that are left when the negated ones are out,
  -- and the numbers that stand before a unit, against all numbers of the sources.
  abbrev pub SaysGo : String → DeterministicAssessment → Type 0
  SaysGo report a = (a.decision ≢ go) × (d.patterns.go_language (d.patterns.scrub report) ≢ none)

  -- A brief that passed, and one that was withheld, with what was found in it.
  abbrev pub Vetted :
      String → MissionState F → DeterministicAssessment → String × List String → Type 0
  Vetted report s a (brief, violations) =
      let sources = d.patterns.any_numerics (supporting_text d s) in
      ((violations ≡ [])
        × (brief ≡ report)
        × ¬ SaysGo report a
        × All (λ n. Supports n.decimals n.value sources) (d.patterns.unit_numerics report))
      ⊎ ((violations ≢ [])
          × (brief ≡ render_template_brief a)
          × (SaysGo report a
              ⊎ Any (λ n. ¬ Supports n.decimals n.value sources) (d.patterns.unit_numerics report)))

  decided : (a : DeterministicAssessment) → (a.decision ≡ go) ⊎ (is_go a.decision ≡ false)
  decided a = at a.decision refl
    where
      at : (v : Decision) → a.decision ≡ v → (a.decision ≡ go) ⊎ (is_go a.decision ≡ false)
      at go e = inl e
      at no_go e = inr (rw e refl)
      at insufficient_data e = inr (rw e refl)

  silent :
      (report : String) (a : DeterministicAssessment)
      → find_contradiction d.patterns report a.decision ≡ none
      → ¬ SaysGo report a
  unfolding find_contradiction
  silent report a e (other, found) = elim (decided a) [
    | inl is ↦ other is
    | inr is ↦ found (rw is at e)
  ]

  outspoken :
      (report : String) (a : DeterministicAssessment) (x : String)
      → find_contradiction d.patterns report a.decision ≡ some x
      → SaysGo report a
  unfolding find_contradiction
  outspoken report a x e = elim (decided a) [
    | inl is ↦ (let r = rw is at e in absurd (cc))
    | inr is ↦
        ((λ q. let r = rw q at is in absurd (cc)), (λ q. let r = rw (is, q) at e in absurd (cc)))
  ]

  all_supported :
      (report : String) (sources : List F) (text : String)
      → d.patterns.any_numerics text ≡ sources
      → unsupported_numerics d.patterns report text ≡ []
      → All (λ n. Supports n.decimals n.value sources) (d.patterns.unit_numerics report)
  unfolding unsupported_numerics
  all_supported report sources text is e =
      none_kept _ _ _ (λ n h. is_supported-Supports n.decimals n.value sources h)
        (d.patterns.unit_numerics report) (rw is at e)

  some_unsupported :
      (report : String) (sources : List F) (text : String) (m : String) (ms : List String)
      → d.patterns.any_numerics text ≡ sources
      → unsupported_numerics d.patterns report text ≡ m ∷ ms
      → Any (λ n. ¬ Supports n.decimals n.value sources) (d.patterns.unit_numerics report)
  unfolding unsupported_numerics
  some_unsupported report sources text m ms is e =
      one_kept _ _ _ (λ n h. unsupported-Supports n.decimals n.value sources h)
        (d.patterns.unit_numerics report) m ms (rw is at e)

  vet_numbers-Vetted :
      (report : String) (s : MissionState F) (a : DeterministicAssessment) (invented : List String)
      → unsupported_numerics d.patterns report (supporting_text d s) ≡ invented
      → find_contradiction d.patterns report a.decision ≡ none
      → Vetted report s a (vet_numbers d report a invented)
  vet_numbers-Vetted report s a [] e h =
      inl (refl, refl, silent report a h, all_supported report _ _ refl e)
  vet_numbers-Vetted report s a (n ∷ ns) e h =
      inr ((λ q. cc), refl, inr (some_unsupported report _ _ n ns refl e))

  vet_contradiction-Vetted :
      (report : String) (s : MissionState F) (a : DeterministicAssessment) (found : Option String)
      → find_contradiction d.patterns report a.decision ≡ found
      → Vetted report s a (vet_contradiction d report s a found)
  vet_contradiction-Vetted report s a none e = vet_numbers-Vetted report s a _ refl e
  vet_contradiction-Vetted report s a (some x) e =
      inr ((λ q. cc), refl, inl (outspoken report a x e))

  -- Of a state with a sealed assessment, the prose is published unchanged, with no violation, only where
  -- the decision is go or the search for words of a launch, with the negated ones taken out, finds none,
  -- and each number that stands before a unit is what some number of the sources rounds to at as many
  -- decimals, whatever its unit there. It is replaced by the rendering of the assessment, with a violation
  -- recorded, only where the decision is another and such words are found, or one of those numbers is not
  -- so supported. Which one of the two it is follows, since the conditions exclude each other.
  pub vet_prose-Vetted :
      (report : String) (s : MissionState F) (a : DeterministicAssessment)
      → s.assessment ≡ some a
      → Vetted report s a (vet_prose d report s)
  unfolding vet_prose
  vet_prose-Vetted report s a e =
      subst (λ o. Vetted report s a (vet_sealed d report s o)) (sym e)
        (vet_contradiction-Vetted report s a _ refl)

  write_report_frame :
      (s t : MissionState F) (c : Option (Calculations F)) (a : Option (Aircraft F))
      (w : Option (WeatherReading F))
      → write_report d s c a w ≡ some t
      → t ≡ record s { report = t.report; seal_violations = t.seal_violations }
  write_report_frame s t (some c) (some a) (some w) e = framed s t e
  write_report_frame s t (some c) (some a) none e = absurd (cc)
  write_report_frame s t _ _ _ e = framed s t e

  -- The report node writes the report and the violations, and no other key of the state.
  generate_report_frame :
      (s t : MissionState F)
      → generate_report d s ≡ some t
      → t ≡ record s { report = t.report; seal_violations = t.seal_violations }
  unfolding generate_report
  generate_report_frame s t = at_blank (is_blank s.report)
    where
      at_blank :
          (b : Bool)
          → (if b then write_report d s s.calculations s.aircraft s.weather else some s) ≡ some t
          → t ≡ record s { report = t.report; seal_violations = t.seal_violations }
      at_blank true e = write_report_frame s t s.calculations s.aircraft s.weather e
      at_blank false e = framed s t e
