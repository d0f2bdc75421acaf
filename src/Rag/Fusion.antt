-- ===== src/Rag/Fusion.antt =====
-- backend/suas/rag/retrieve.py: reciprocal rank fusion of two lists of scores.
pub mod Order
pub mod Scores
use lang_graph_uas.Prelude.{
  ℕ, suc, Bool, List, [], ◌∷◌, Option, none, some, String, keep_if, lookup, insert, sort, holds,
  if◌then◌else◌,
}
use lang_graph_uas.Float.{Float, zero_f}

abbrev pub rrf_k : ℕ
rrf_k = 60

abbrev pub Scored : Type 0 → Type 0
Scored F = List (String × F)

abbrev pub ids : {A : Type 0} → List (String × A) → List String
ids [] = []
ids ((id, a) ∷ xs) = id ∷ ids xs

-- `{chunk_id: position for position, (chunk_id, _) in enumerate(ordered, start)}`.
abbrev pub numbered : {A : Type 0} → ℕ → List (String × A) → List (String × ℕ) → List (String × ℕ)
numbered position [] ranks = ranks
numbered position ((id, a) ∷ xs) ranks = numbered (suc position) xs (insert id position ranks)

-- `set(left) | set(right)`, each text once.
abbrev pub union : List String → List String → List String
union [] right = right
union (id ∷ left) right = if holds id right then union left right else id ∷ union left right

module _ {F : Type 0} ⦃f : Float F⦄ where
  open f use {lit, ◌+◌, ◌/◌, lt}

  infixl 65 ◌+◌
  infixl 70 ◌/◌
  -- `item[1] > 0.0`.
  abbrev pub is_scored : String × F → Bool
  is_scored item = lt zero_f item.1

  -- The key `-i[1]` of one is less than that of the other.
  abbrev pub is_better : String × F → String × F → Bool
  is_better i j = lt (f.neg i.1) (f.neg j.1)

  unfoldable pub rank_map : Scored F → List (String × ℕ)
  rank_map scored = numbered 1 (sort is_better (keep_if is_scored scored)) []

  -- What one leg adds to the score of a chunk.
  abbrev pub reciprocal : Option ℕ → F → F
  reciprocal none score = score
  reciprocal (some rank) score = score + lit 1 0 / (lit rrf_k 0 + lit rank 0)

  abbrev pub fused_score : List (String × ℕ) → List (String × ℕ) → String → F
  fused_score lexical vector id =
      reciprocal (lookup id vector) (reciprocal (lookup id lexical) zero_f)

  abbrev pub fused : List (String × ℕ) → List (String × ℕ) → List String → Scored F → Scored F
  fused lexical vector [] scores = scores
  fused lexical vector (id ∷ rest) scores =
      fused lexical vector rest (insert id (fused_score lexical vector id) scores)

  -- `arrange` is the order in which Python walks through a set of texts.
  unfoldable pub fuse : (List String → List String) → Scored F → Scored F → List String
  fuse arrange lexical vector =
      let lexical_ranks = rank_map lexical in
      let vector_ranks = rank_map vector in
      ids (
        sort is_better (
          fused lexical_ranks vector_ranks (arrange (union (ids lexical_ranks) (ids vector_ranks)))
            []))
