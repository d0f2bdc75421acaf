-- ===== src/Eval/Metrics.antt =====
-- backend/suas/eval/retrieval_metrics.py: retrieval quality over recorded outcomes.
use lang_graph_uas.Prelude.{
  ℕ, zero, suc, Bool, true, false, not, ◌&&◌, ◌||◌, List, [], ◌∷◌, Option, none, some, String,
  length, take, any, keep_if, is_empty, str_eq, holds, if◌then◌else◌, Bool-cases, inl, inr, arith,
  ◌≡◌, refl, ◌≤◌, ◌∙◌, ◌⊎◌,
}
use Prim.Native.Nat.{◌+◌, ◌<◌}
use lang_graph_uas.Float.{Float, zero_f}

abbrev pub default_k : ℕ
default_k = 4

-- The configuration of a chunk, as the table of the chunks has it, may be NULL.
pub record RetrievedChunk : Type 0 where
  pub chunk_id : String
  pub airframe_config_id : Option String
  pub field_path : Option String

pub record Fixture : Type 0 where
  pub qid : String
  pub question : String
  pub airframe_config_id : String
  pub relevant_chunk_ids : List String
  pub hard_negatives : List String
  pub field_path : Option String
  pub answerable : Bool
  pub class_name : String

abbrev pub is_relevant : Fixture → RetrievedChunk → Bool
is_relevant fixture chunk = holds chunk.chunk_id fixture.relevant_chunk_ids

abbrev has_chunk : List RetrievedChunk → String → Bool
has_chunk top item = any (λ chunk. str_eq item chunk.chunk_id) top

unfoldable pub recall_at_k : List RetrievedChunk → Fixture → ℕ → Bool
recall_at_k retrieved fixture k =
    if is_empty fixture.relevant_chunk_ids
    then false
    else any (has_chunk (take k retrieved)) fixture.relevant_chunk_ids

unfoldable pub hard_negative_above_positive : List RetrievedChunk → Fixture → Bool
hard_negative_above_positive retrieved fixture =
    if is_empty fixture.hard_negatives || is_empty fixture.relevant_chunk_ids
    then false
    else judged retrieved
  where
    judged : List RetrievedChunk → Bool
    judged [] = false
    judged (chunk ∷ chunks) =
        let rest = judged chunks in
        if holds chunk.chunk_id fixture.hard_negatives
        then true
        else if is_relevant fixture chunk
        then false
        else rest

-- `column != value`: NULL differs from every text.
abbrev pub is_other_config : Fixture → RetrievedChunk → Bool
is_other_config fixture chunk = differs chunk.airframe_config_id
  where
    differs : Option String → Bool
    differs none = true
    differs (some config) = not (str_eq config fixture.airframe_config_id)

unfoldable pub wrong_config_leak : List RetrievedChunk → Fixture → Bool
wrong_config_leak retrieved fixture = any (is_other_config fixture) retrieved

unfoldable pub false_confirm : List RetrievedChunk → Fixture → Bool
false_confirm retrieved fixture = not fixture.answerable && not (is_empty retrieved)

unfoldable pub abstained : List RetrievedChunk → Fixture → Bool
abstained retrieved fixture = fixture.answerable && is_empty retrieved

abbrev same_field : String → RetrievedChunk → Bool
same_field field chunk = matches chunk.field_path
  where
    matches : Option String → Bool
    matches none = false
    matches (some other) = str_eq other field

module _ {F : Type 0} ⦃f : Float F⦄ where
  open f use {lit, ◌/◌}

  infixl 70 ◌/◌
  -- The loop of `reciprocal_rank`, from the rank of the first chunk that is left.
  unfoldable pub rank_from : ℕ → List RetrievedChunk → Fixture → F
  rank_from index [] fixture = zero_f
  rank_from index (chunk ∷ chunks) fixture =
      let rest = rank_from (suc index) chunks fixture in
      if is_relevant fixture chunk then lit 1 0 / lit index 0 else rest

  unfoldable pub reciprocal_rank : List RetrievedChunk → Fixture → F
  unfolding rank_from
  reciprocal_rank retrieved fixture = rank_from 1 retrieved fixture

  unfoldable pub precision_at_k : List RetrievedChunk → Fixture → ℕ → F
  precision_at_k retrieved fixture k =
      let top = take k retrieved in
      if is_empty retrieved
      then zero_f
      else lit (length (keep_if (is_relevant fixture) top)) 0 / lit (length top) 0

  abbrev purity : List RetrievedChunk → Option String → Option F
  purity retrieved none = none
  purity retrieved (some field) =
      if is_empty retrieved
      then some zero_f
      else some (lit (length (keep_if (same_field field) retrieved)) 0 / lit (length retrieved) 0)

  unfoldable pub field_path_purity : List RetrievedChunk → Fixture → Option F
  field_path_purity retrieved fixture = purity retrieved fixture.field_path

any_none : (items : List String) → any (has_chunk []) items ≡ false
any_none [] = refl
any_none (item ∷ items) = any_none items

any_cons :
    (chunk : RetrievedChunk) (chunks : List RetrievedChunk) (items : List String)
    → any (has_chunk (chunk ∷ chunks)) items
      ≡ (holds chunk.chunk_id items || any (has_chunk chunks) items)
any_cons chunk chunks [] = refl
any_cons chunk chunks (item ∷ items) = ground (arith, any_cons chunk chunks items)

-- One relevant id is among the chunks exactly when one chunk is relevant.
any_swap :
    (fixture : Fixture) (chunks : List RetrievedChunk)
    → any (has_chunk chunks) fixture.relevant_chunk_ids ≡ any (is_relevant fixture) chunks
any_swap fixture [] = any_none fixture.relevant_chunk_ids
any_swap fixture (chunk ∷ chunks) =
    rw (any_cons chunk chunks fixture.relevant_chunk_ids, any_swap fixture chunks) refl

recall_at_k-any :
    (retrieved : List RetrievedChunk) (fixture : Fixture) (k : ℕ)
    → recall_at_k retrieved fixture k ≡ any (is_relevant fixture) (take k retrieved)
unfolding recall_at_k
recall_at_k-any retrieved fixture k =
    without_empty fixture.relevant_chunk_ids (has_chunk (take k retrieved))
    ∙ any_swap fixture (take k retrieved)
  where
    without_empty :
        (items : List String) (p : String → Bool)
        → (if is_empty items then false else any p items) ≡ any p items
    without_empty [] p = refl
    without_empty (item ∷ items) p = refl

module _ {F : Type 0} ⦃f : Float F⦄ where
  open f use {lit, ◌/◌}

  infixl 70 ◌/◌
  rank_from-found :
      (fixture : Fixture) (index k : ℕ) (chunks : List RetrievedChunk)
      → any (is_relevant fixture) (take k chunks) ≡ true
      → (r : ℕ) × (index ≤ r)
        × (r < index + k)
        × (rank_from index chunks fixture ≡ lit 1 0 / lit r 0)
  unfolding rank_from
  rank_from-found fixture index zero chunks h = absurd (cc)
  rank_from-found fixture index (suc k) [] h = absurd (cc)
  rank_from-found fixture index (suc k) (chunk ∷ chunks) h =
      elim (Bool-cases (is_relevant fixture chunk)) [
        | inl e ↦ (index, omega arith, omega arith, rw e refl)
        | inr e ↦
            let rest = rank_from-found fixture (suc index) k chunks (rw e at h) in
            (rest.0, omega (arith, rest.1), omega (arith, rest.2), rw e rest.3)
      ]

  rank_from-not_found :
      (fixture : Fixture) (index k : ℕ) (chunks : List RetrievedChunk)
      → any (is_relevant fixture) (take k chunks) ≡ false
      → ◌≡◌ {A = F} (rank_from index (take k chunks) fixture) zero_f
  unfolding rank_from
  rank_from-not_found fixture index zero chunks h = refl
  rank_from-not_found fixture index (suc k) [] h = refl
  rank_from-not_found fixture index (suc k) (chunk ∷ chunks) h =
      elim (Bool-cases (is_relevant fixture chunk)) [
        | inl e ↦ let h' = rw e at h in absurd (cc)
        | inr e ↦ rw e (rank_from-not_found fixture (suc index) k chunks (rw e at h))
      ]

  -- The two measures agree: either recall at `k` is true and the reciprocal rank is 1/r for a rank r from
  -- 1 to `k`, or recall is false and the reciprocal rank of the first `k` chunks is 0.
  pub recall_at_k-reciprocal_rank :
      (retrieved : List RetrievedChunk) (fixture : Fixture) (k : ℕ)
      → ((recall_at_k retrieved fixture k ≡ true)
          × ((r : ℕ) × (1 ≤ r) × (r ≤ k) × (reciprocal_rank retrieved fixture ≡ lit 1 0 / lit r 0)))
        ⊎ ((recall_at_k retrieved fixture k ≡ false)
            × ◌≡◌ {A = F} (reciprocal_rank (take k retrieved) fixture) zero_f)
  unfolding reciprocal_rank
  recall_at_k-reciprocal_rank retrieved fixture k =
      let as_any = recall_at_k-any retrieved fixture k in
      elim (Bool-cases (any (is_relevant fixture) (take k retrieved))) [
        | inl h ↦
            let found = rank_from-found fixture 1 k retrieved h in
            inl (as_any ∙ h, (found.0, found.1, omega (arith, found.2), found.3))
        | inr h ↦ inr (as_any ∙ h, rank_from-not_found fixture 1 k retrieved h)
      ]
