-- ===== src/Graph/Seal.antt =====
-- backend/suas/graph/seal.py: the barrier between model output and the sealed assessment.
use lang_graph_uas.Prelude.{
  ℕ, Bool, false, not, List, [], ◌∷◌, ◌++◌, map, Option, none, String, concat, any, keep_if,
  is_empty, str_eq, if◌then◌else◌,
}
use lang_graph_uas.Float.{Float}
use lang_graph_uas.Schemas.Assessment.{
  Decision, go, no_go, insufficient_data, is_go, DeterministicAssessment, mode_value, blocker_value,
}
use lang_graph_uas.Graph.State.{Patterns}

-- `item in items`.
abbrev pub contains : String → List String → Bool
contains item items = any (λ other. str_eq other item) items

unfoldable pub resolve_citations : List String → List String → List String × List String
resolve_citations cited retrieved = (
  keep_if (λ item. contains item retrieved) cited,
  keep_if (λ item. not (contains item retrieved)) cited,
)

module _ {F : Type 0} (patterns : Patterns F) where
  unfoldable pub find_contradiction : String → Decision → Option String
  find_contradiction prose decision =
      if is_go decision then none else patterns.go_language (patterns.scrub prose)

module _ {F : Type 0} ⦃f : Float F⦄ (patterns : Patterns F) where
  -- `round(value, decimals) == target`: equality of floats is `<=` both ways.
  abbrev pub is_supported : ℕ → F → List F → Bool
  is_supported decimals target supported =
      any (λ value. equal (f.round value decimals) target) supported
    where
      equal : F → F → Bool
      equal x y = if f.le x y then f.le y x else false

  unfoldable pub unsupported_numerics : String → String → List String
  unsupported_numerics prose supporting_text =
      let supported = patterns.any_numerics supporting_text in
      map (λ n. concat (n.literal ∷ " " ∷ n.unit ∷ []))
        (keep_if (λ n. not (is_supported n.decimals n.value supported))
          (patterns.unit_numerics prose))

-- `"\n".join(lines)`.
pub join_lines : List String → String
join_lines [] = ""
join_lines (line ∷ []) = line
join_lines (line ∷ more ∷ lines) = concat (line ∷ "\n" ∷ join_lines (more ∷ lines) ∷ [])

abbrev pub verdict : Decision → String
verdict go = "GO"
verdict no_go = "NO-GO"
verdict insufficient_data = "NOT ASSESSED"

-- A heading, its bulleted items and a blank line, or nothing where there are no items.
abbrev bulleted : String → List String → List String
bulleted heading items =
    if is_empty items
    then []
    else (heading ∷ map (λ item. concat ("- " ∷ item ∷ [])) items) ++ ("" ∷ [])

unfoldable pub render_template_brief : DeterministicAssessment → String
render_template_brief a =
    let status =
      concat ("Mission status: " ∷ verdict a.decision ∷ " (" ∷ mode_value a.mode ∷ ")." ∷ []) in
    let withheld = concat (
      "The generated brief was withheld because it disagreed with this "
      ∷ "assessment. What follows comes from the calculator alone." ∷ []) in
    let version =
      concat ("Calculator " ∷ a.calculator_version ∷ ", inputs " ∷ a.inputs_hash ∷ "." ∷ []) in
    join_lines (
      (status ∷ "" ∷ withheld ∷ "" ∷ [])
      ++ (bulleted "Limiting factors:" a.reasons
          ++ (bulleted "Blocking operational use:" (map blocker_value a.blockers)
              ++ (version ∷ []))))
