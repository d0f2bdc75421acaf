-- ===== src/Rag/Fusion/Scores.antt =====
-- Which texts the fusion returns, and in which order.
use lang_graph_uas.Prelude.{
  ℕ, suc, Bool, true, false, ◌&&◌, ◌||◌, List, [], ◌∷◌, String, any, keep_if, str_eq, insert, sort,
  sort-perm, sort-IsSorted, IsSorted, holds, distinct, Perm, nil, skip, swap, trans, any-perm,
  distinct-perm, Bool-cases, All, All-perm, inl, inr, arith, ◌≡◌, refl, subst, ◌∙◌,
}
use text.Mathlib.TextEquality.{eq_iff}
use lang_graph_uas.Float.{Float}
use lang_graph_uas.Rag.Fusion.{
  Scored, ids, numbered, union, is_scored, is_better, rank_map, fused, fused_score, fuse,
}

module _ {A : Type 0} where
  holds-ids-insert :
      (id k : String) (v : A) (m : List (String × A))
      → holds id (ids (insert k v m)) ≡ (str_eq k id || holds id (ids m))
  holds-ids-insert id k v [] = refl
  holds-ids-insert id k v ((j, w) ∷ m) =
      ground (arith, eq_iff j k, eq_iff j id, eq_iff k id, holds-ids-insert id k v m)

  distinct-ids-insert :
      (k : String) (v : A) (m : List (String × A))
      → distinct (ids m) ≡ true
      → distinct (ids (insert k v m)) ≡ true
  distinct-ids-insert k v [] h = refl
  distinct-ids-insert k v ((j, w) ∷ m) h =
      ground (arith, eq_iff j k, eq_iff k j, holds-ids-insert j k v m, distinct-ids-insert k v m)

  pub ids-perm : {xs ys : List (String × A)} → Perm xs ys → Perm (ids xs) (ids ys)
  ids-perm nil = nil
  ids-perm (skip (k, a) d) = skip k (ids-perm d)
  ids-perm (swap (j, a) (k, b) xs) = swap j k (ids xs)
  ids-perm (trans d e) = trans (ids-perm d) (ids-perm e)

module _ {A : Type 0} where
  holds-ids-numbered :
      (id : String) (n : ℕ) (xs : List (String × A)) (ranks : List (String × ℕ))
      → holds id (ids (numbered n xs ranks)) ≡ (holds id (ids xs) || holds id (ids ranks))
  holds-ids-numbered id n [] ranks = refl
  holds-ids-numbered id n ((k, a) ∷ xs) ranks =
      ground
        (arith, holds-ids-numbered id (suc n) xs (insert k n ranks), holds-ids-insert id k n ranks)

holds-union :
    (id : String) (left right : List String)
    → holds id (union left right) ≡ (holds id left || holds id right)
holds-union id [] right = refl
holds-union id (k ∷ left) right = elim (Bool-cases (holds k right)) [
  | inl e ↦ elim (Bool-cases (str_eq k id)) [
    | inl same ↦
        let e' = subst (λ x. holds x right ≡ true) ((eq_iff k id).0 same) e in
        rw (e, same, holds-union id left right, e') (or_true (holds id left))
    | inr other ↦ rw (e, other, holds-union id left right) refl
  ]
  | inr e ↦ rw (e, holds-union id left right) (or_assoc (str_eq k id) (holds id left) _)
]
  where
    or_true : (a : Bool) → (a || true) ≡ true
    or_true a = ground arith

    or_assoc : (a b c : Bool) → (a || (b || c)) ≡ ((a || b) || c)
    or_assoc a b c = ground arith

or_false : (a : Bool) → (a || false) ≡ a
or_false a = ground arith

module _ {F : Type 0} ⦃f : Float F⦄ where
  open f use {lt, neg}

  -- The item is the text's, and it is scored.
  abbrev pub is_scored_as : String → String × F → Bool
  is_scored_as id item = str_eq item.0 id && is_scored item

  holds-ids-keep_if :
      (id : String) (xs : Scored F)
      → holds id (ids (keep_if is_scored xs)) ≡ any (is_scored_as id) xs
  holds-ids-keep_if id [] = refl
  holds-ids-keep_if id ((k, s) ∷ xs) = ground (arith, holds-ids-keep_if id xs)

  holds-ids-sort :
      (id : String) (xs : Scored F) → holds id (ids (sort is_better xs)) ≡ holds id (ids xs)
  holds-ids-sort id xs = any-perm _ (ids-perm (sort-perm is_better xs))

  pub holds-ids-rank_map :
      (id : String) (xs : Scored F) → holds id (ids (rank_map xs)) ≡ any (is_scored_as id) xs
  unfolding rank_map
  holds-ids-rank_map id xs =
      let ordered = sort is_better (keep_if is_scored xs) in
      ground (
        arith,
        holds-ids-numbered id 1 ordered [],
        holds-ids-sort id (keep_if is_scored xs),
        holds-ids-keep_if id xs,
      )

  holds-ids-fused :
      (id : String) (l v : List (String × ℕ)) (xs : List String) (scores : Scored F)
      → holds id (ids (fused l v xs scores)) ≡ (holds id xs || holds id (ids scores))
  holds-ids-fused id l v [] scores = refl
  holds-ids-fused id l v (k ∷ xs) scores =
      let s : F = fused_score l v k in
      ground (arith, holds-ids-fused id l v xs (insert k s scores), holds-ids-insert id k s scores)

  distinct-ids-fused :
      (l v : List (String × ℕ)) (xs : List String) (scores : Scored F)
      → distinct (ids scores) ≡ true
      → distinct (ids (fused l v xs scores)) ≡ true
  distinct-ids-fused l v [] scores h = h
  distinct-ids-fused l v (k ∷ xs) scores h =
      distinct-ids-fused l v xs (insert k (fused_score l v k) scores)
        (distinct-ids-insert k (fused_score l v k) scores h)

  -- Every entry of the table holds the score of its text.
  abbrev IsFused : List (String × ℕ) → List (String × ℕ) → String × F → Type 0
  IsFused l v item = item.1 ≡ fused_score l v item.0

  insert-IsFused :
      (l v : List (String × ℕ)) (k : String) (scores : Scored F)
      → All (IsFused l v) scores
      → All (IsFused l v) (insert k (fused_score l v k) scores)
  insert-IsFused l v k [] h = (refl, tt)
  insert-IsFused l v k ((j, s) ∷ scores) h = elim (Bool-cases (str_eq j k)) [
    | inl e ↦ rw e (refl, h.1)
    | inr e ↦ rw e (h.0, insert-IsFused l v k scores h.1)
  ]

  fused-IsFused :
      (l v : List (String × ℕ)) (xs : List String) (scores : Scored F)
      → All (IsFused l v) scores
      → All (IsFused l v) (fused l v xs scores)
  fused-IsFused l v [] scores h = h
  fused-IsFused l v (k ∷ xs) scores h =
      fused-IsFused l v xs (insert k (fused_score l v k) scores) (insert-IsFused l v k scores h)

  -- Text `a` comes strictly before text `b`: its fused score is higher.
  abbrev pub is_ahead : Scored F → Scored F → String → String → Bool
  is_ahead lexical vector a b =
      lt (neg (fused_score (rank_map lexical) (rank_map vector) a))
        (neg (fused_score (rank_map lexical) (rank_map vector) b))

  ids-IsSorted :
      (l v : Scored F) (xs : Scored F)
      → All (IsFused (rank_map l) (rank_map v)) xs
      → IsSorted is_better xs
      → IsSorted (is_ahead l v) (ids xs)
  ids-IsSorted l v [] h s = tt
  ids-IsSorted l v (x ∷ []) h s = tt
  ids-IsSorted l v ((j, a) ∷ (k, b) ∷ xs) h s =
      (rw (h.0, h.1.0) at s.0, ids-IsSorted l v ((k, b) ∷ xs) h.1 s.1)

  module _ (arrange : List String → List String)
      (arranged : (xs : List String) → Perm (arrange xs) xs) (lexical vector : Scored F) where
    -- The fusion returns a text exactly when one of the two legs scores it above zero.
    pub holds-fuse :
        (id : String)
        → holds id (fuse arrange lexical vector)
          ≡ (any (is_scored_as id) lexical || any (is_scored_as id) vector)
    unfolding fuse
    holds-fuse id =
        let l = rank_map lexical in
        let v = rank_map vector in
        let texts = union (ids l) (ids v) in
        rw
          (
            holds-ids-sort id (fused l v (arrange texts) []),
            holds-ids-fused id l v (arrange texts) [],
            any-perm (λ (o : String). str_eq o id) (arranged texts),
            holds-union id (ids l) (ids v),
            holds-ids-rank_map id lexical,
            holds-ids-rank_map id vector,
          )
          (or_false _)

    -- The fusion returns no text twice.
    pub distinct-fuse : distinct (fuse arrange lexical vector) ≡ true
    unfolding fuse
    distinct-fuse =
        let l = rank_map lexical in
        let v = rank_map vector in
        let scores = fused l v (arrange (union (ids l) (ids v))) [] in
        distinct-perm (ids-perm (sort-perm is_better scores))
        ∙ distinct-ids-fused l v (arrange (union (ids l) (ids v))) [] refl

    -- Where less than is asymmetric, no text stands behind one with a lower fused score.
    pub fuse-IsSorted :
        ((a b : F) → lt a b ≡ true → lt b a ≡ false)
        → IsSorted (is_ahead lexical vector) (fuse arrange lexical vector)
    unfolding fuse
    fuse-IsSorted asymmetric =
        let l = rank_map lexical in
        let v = rank_map vector in
        let texts = arrange (union (ids l) (ids v)) in
        let scores = fused l v texts [] in
        ids-IsSorted lexical vector (sort is_better scores)
          (All-perm (IsFused l v) (sort-perm is_better scores) (fused-IsFused l v texts [] tt))
          (sort-IsSorted is_better (λ a b h. asymmetric _ _ h) scores)
