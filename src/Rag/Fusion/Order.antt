-- ===== src/Rag/Fusion/Order.antt =====
-- backend/suas/rag/retrieve.py: the ranks of the two legs, and the order of the fused list.
use lang_graph_uas.Prelude.{
  ℕ, suc, Bool, true, false, not, ◌||◌, List, [], ◌∷◌, Option, none, some, String, any, keep_if,
  str_eq, insert, lookup, lookup-insert, lookup-insert_other, sort, sort-perm, sort-IsSorted,
  IsSorted, holds, distinct, Perm, distinct-perm, All, All-perm, Bool-cases, and_lem, inl, inr,
  arith, ◌≡◌, refl, ◌∙◌,
}
use lang_graph_uas.Float.{Float, zero_f}
use lang_graph_uas.Rag.Fusion.{
  Scored, ids, numbered, is_scored, is_better, rank_map, reciprocal, fused_score, fuse,
}
use lang_graph_uas.Rag.Fusion.Scores.{
  is_scored_as, is_ahead, ids-perm, holds-ids-rank_map, holds-fuse, distinct-fuse, fuse-IsSorted,
}

module _ {A : Type 0} (before : A → A → Bool) where
  -- No item comes before any that stands ahead of it in the list.
  abbrev pub InOrder : List A → Type 0
  InOrder [] = Unit
  InOrder (x ∷ xs) = All (λ y. before y x ≡ false) xs × InOrder xs

  module _ (Real : A → Type 0)
      (through : (x y z : A)
        → Real y
        → before y x ≡ false
        → before z y ≡ false
        → before z x ≡ false) where
    past :
        (x y : A) (ys : List A)
        → Real y
        → before y x ≡ false
        → All (λ z. before z y ≡ false) ys
        → All (λ z. before z x ≡ false) ys
    past x y [] r e h = tt
    past x y (z ∷ ys) r e (h, hs) = (through x y z r e h, past x y ys r e hs)

    InOrder-IsSorted : (xs : List A) → All Real xs → IsSorted before xs → InOrder xs
    InOrder-IsSorted [] r s = tt
    InOrder-IsSorted (x ∷ []) r s = (tt, tt)
    InOrder-IsSorted (x ∷ y ∷ ys) r s =
        let rest = InOrder-IsSorted (y ∷ ys) r.1 s.1 in ((s.0, past x y ys r.1.0 s.0 rest.0), rest)

-- The ranks give each text of the list its place, counted from `n`.
abbrev pub Counted : {A : Type 0} → ℕ → List (String × A) → List (String × ℕ) → Type 0
Counted n [] ranks = Unit
Counted n ((id, a) ∷ xs) ranks = (lookup id ranks ≡ some n) × Counted (suc n) xs ranks

module _ {A : Type 0} where
  holds-ids-kept :
      (p : String × A → Bool) (id : String) (xs : List (String × A))
      → holds id (ids xs) ≡ false
      → holds id (ids (keep_if p xs)) ≡ false
  holds-ids-kept p id [] h = refl
  holds-ids-kept p id ((k, a) ∷ xs) h = ground (arith, holds-ids-kept p id xs)

  distinct-ids-kept :
      (p : String × A → Bool) (xs : List (String × A))
      → distinct (ids xs) ≡ true
      → distinct (ids (keep_if p xs)) ≡ true
  distinct-ids-kept p [] h = refl
  distinct-ids-kept p ((k, a) ∷ xs) h =
      ground (arith, holds-ids-kept p k xs, distinct-ids-kept p xs)

lookup-numbered :
    {A : Type 0} (id : String) (n : ℕ) (xs : List (String × A)) (ranks : List (String × ℕ))
    → holds id (ids xs) ≡ false
    → lookup id (numbered n xs ranks) ≡ lookup id ranks
lookup-numbered id n [] ranks h = refl
lookup-numbered id n ((k, a) ∷ xs) ranks h =
    let (other, rest) = or_lem (str_eq k id) (holds id (ids xs)) h in
    lookup-numbered id (suc n) xs (insert k n ranks) rest ∙ lookup-insert_other k id n ranks other
  where
    or_lem : (a b : Bool) → (a || b) ≡ false → (a ≡ false) × (b ≡ false)
    or_lem a b e = ground arith

Counted-numbered :
    {A : Type 0} (n : ℕ) (xs : List (String × A)) (ranks : List (String × ℕ))
    → distinct (ids xs) ≡ true
    → Counted n xs (numbered n xs ranks)
Counted-numbered n [] ranks h = tt
Counted-numbered n ((k, a) ∷ xs) ranks h =
    let (fresh, rest) = and_lem (not (holds k (ids xs))) (distinct (ids xs)) h in
    (
      lookup-numbered k (suc n) xs (insert k n ranks) (not_lem _ fresh) ∙ lookup-insert k n ranks,
      Counted-numbered (suc n) xs (insert k n ranks) rest,
    )
  where
    not_lem : (b : Bool) → not b ≡ true → b ≡ false
    not_lem b e = ground arith

module _ (F : Type 0) ⦃f : Float F⦄ where
  open f use {lt, le, neg}

  -- What holds of the comparisons of doubles, where a number is equal to itself and NaN is not: less than
  -- is false the other way, no less than goes through a number, and numbers stay numbers under the
  -- operations of the fusion.
  pub record Comparisons : Type 0 where
    pub asymmetric : (a b : F) → lt a b ≡ true → lt b a ≡ false
    pub through : (a b c : F) → le b b ≡ true → lt a b ≡ false → lt b c ≡ false → lt a c ≡ false
    pub compared : (a b : F) → lt a b ≡ true → le b b ≡ true
    pub negated : (a : F) → le a a ≡ true → le (neg a) (neg a) ≡ true
    pub zero_number : le zero_f zero_f ≡ true
    pub added :
        (a : F) (n : ℕ) → le a a ≡ true → le (reciprocal (some n) a) (reciprocal (some n) a) ≡ true

module _ {F : Type 0} ⦃f : Float F⦄ where
  open f use {le, neg}

  -- The ranks of a leg: the items above zero, none behind one with a lower score, counted from 1.
  abbrev pub IsRanking : Scored F → List (String × ℕ) → Type 0
  IsRanking scored ranks =
      (ordered : Scored F) × Perm ordered (keep_if is_scored scored)
      × InOrder is_better ordered
      × Counted 1 ordered ranks
      × ((id : String) → holds id (ids ranks) ≡ any (is_scored_as id) scored)

  -- What the fusion of two legs promises of its list of texts.
  pub record IsFusion (lexical vector : Scored F) (texts : List String) : Type 0 where
    pub members :
        (id : String)
        → holds id texts ≡ (any (is_scored_as id) lexical || any (is_scored_as id) vector)
    pub once : distinct texts ≡ true
    pub lexical_ranks : IsRanking lexical (rank_map lexical)
    pub vector_ranks : IsRanking vector (rank_map vector)
    pub ordered : InOrder (is_ahead lexical vector) texts

  module _ (laws : Comparisons F) where
    abbrev IsNumber : String × F → Type 0
    IsNumber item = le (neg item.1) (neg item.1) ≡ true

    scored-IsNumber : (xs : Scored F) → All IsNumber (keep_if is_scored xs)
    scored-IsNumber [] = tt
    scored-IsNumber ((id, a) ∷ xs) = elim (Bool-cases (is_scored (id, a))) [
      | inl e ↦ rw e (laws.negated a (laws.compared _ a e), scored-IsNumber xs)
      | inr e ↦ rw e (scored-IsNumber xs)
    ]

    rank_map-IsRanking : (xs : Scored F) → distinct (ids xs) ≡ true → IsRanking xs (rank_map xs)
    unfolding rank_map
    rank_map-IsRanking xs h =
        let kept = keep_if is_scored xs in
        let moved = sort-perm is_better kept in
        (
          sort is_better kept,
          moved,
          InOrder-IsSorted is_better IsNumber
              (λ x y z r e d. laws.through (neg z.1) (neg y.1) (neg x.1) r d e)
              (sort is_better kept) (All-perm IsNumber moved (scored-IsNumber xs))
              (sort-IsSorted is_better (λ a b q. laws.asymmetric _ _ q) kept),
          Counted-numbered 1 (sort is_better kept) []
              (distinct-perm (ids-perm moved) ∙ distinct-ids-kept is_scored xs h),
          λ id. holds-ids-rank_map id xs,
        )

    reciprocal_number :
        (o : Option ℕ) (a : F) → le a a ≡ true → le (reciprocal o a) (reciprocal o a) ≡ true
    reciprocal_number none a h = h
    reciprocal_number (some n) a h = laws.added a n h

    score-IsNumber : (l v : List (String × ℕ)) (id : String) → IsNumber (id, fused_score l v id)
    score-IsNumber l v id =
        laws.negated _
          (reciprocal_number (lookup id v) _ (reciprocal_number (lookup id l) _ laws.zero_number))

    module _ (arrange : List String → List String)
        (arranged : (xs : List String) → Perm (arrange xs) xs) (lexical vector : Scored F) where
      -- What a text of the fused list scores.
      abbrev total : String → String × F
      total id = (id, fused_score (rank_map lexical) (rank_map vector) id)

      totals-IsNumber : (texts : List String) → All (λ id. IsNumber (total id)) texts
      totals-IsNumber [] = tt
      totals-IsNumber (id ∷ texts) = (score-IsNumber _ _ id, totals-IsNumber texts)

      -- For comparisons as doubles have them, and two legs that list no text twice: whatever the order in
      -- which Python walks through a set, the fusion lists exactly the texts that one of the legs scores
      -- above zero, each once, and none anywhere behind one with a lower fused score. The ranks that the
      -- fused scores are computed from are, in each leg, the places from 1 on of the items above zero in an
      -- order in which none is anywhere behind one with a lower score, and no other text has a rank.
      pub fuse-IsFusion :
          distinct (ids lexical) ≡ true
          → distinct (ids vector) ≡ true
          → IsFusion lexical vector (fuse arrange lexical vector)
      fuse-IsFusion l v =
          let texts = fuse arrange lexical vector in
          record {
            members = holds-fuse arrange arranged lexical vector;
            once = distinct-fuse arrange arranged lexical vector;
            lexical_ranks = rank_map-IsRanking lexical l;
            vector_ranks = rank_map-IsRanking vector v;
            ordered =
                InOrder-IsSorted (is_ahead lexical vector) (λ id. IsNumber (total id))
                  (λ x y z r e d. laws.through _ _ _ r d e) texts (totals-IsNumber texts)
                  (fuse-IsSorted arrange arranged lexical vector laws.asymmetric);
          }
