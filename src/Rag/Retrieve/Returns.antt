-- ===== src/Rag/Retrieve/Returns.antt =====
-- That a search returns, and the shape of what it returns.
use lang_graph_uas.Prelude.{
  ℕ, suc, Bool, true, false, ◌&&◌, ◌||◌, List, [], ◌∷◌, Option, none, some, String, length, take,
  is_empty, is_some, lookup, has_key, str_eq, any, holds, any_weaken, map, distinct, Perm, All,
  length-take, Bool-cases, and_lem, inl, inr, arith, ◌≡◌, refl, sym, subst, ◌≤◌, ◌∙◌, ◌⊎◌,
}
use mathlib.Core.Option.{some-injective}
use lang_graph_uas.Float.{Float}
use lang_graph_uas.Rag.Rows.{Corpus}
use lang_graph_uas.Rag.Fusion.{Scored, fuse}
use lang_graph_uas.Rag.Fusion.Scores.{is_scored_as, holds-fuse, distinct-fuse}
use lang_graph_uas.Rag.Retrieve.{
  Row, Evidence, EmbeddingProvider, Search, is_comparable, matching_rows, keyed, listed,
  as_evidence, vector_scores, lexical_scores, ranked, retrieve,
}
use lang_graph_uas.Rag.Retrieve.Sources.{IsGrounded, keyed-All, lookup-All, retrieve-IsGrounded}
use lang_graph_uas.Rag.Retrieve.Known.{
  has_id, has_key-keyed, all_of_holds, all-take, distinct-take, as_evidence-is_some,
  lexical_scores-known, DoesLoad, vector_scores-IsComparable, vector_scores-is_some,
}

or_split : (a b : Bool) → (a || b) ≡ true → (a ≡ true) ⊎ (b ≡ true)
or_split true b h = inl refl
or_split false b h = inr h

or_false : (a : Bool) → (a || false) ≡ a
or_false a = ground arith

abbrev pub chunk_ids : {F : Type 0} → List (Evidence F) → List String
chunk_ids es = map (λ e. e.chunk_id) es

rows-keyed : (rows : List Row) → All (λ entry. entry.1.0.chunk_id ≡ entry.0) (keyed rows [])
rows-keyed rows = keyed-All (λ entry. entry.1.0.chunk_id ≡ entry.0) rows [] (own_keys rows) tt
  where
    own_keys : (rows : List Row) → All (λ row. row.0.chunk_id ≡ row.0.chunk_id) rows
    own_keys [] = tt
    own_keys (row ∷ rows) = (refl, own_keys rows)

abbrev IsShort : ℕ → List String → Type 0
IsShort k ids = (length ids ≤ k) × (distinct ids ≡ true)

module _ {F : Type 0} ⦃f : Float F⦄ where
  module _ (arrange : List String → List String)
      (arranged : (xs : List String) → Perm (arrange xs) xs) (loads : String → Option (List F))
      (embedder : EmbeddingProvider F) (s : Search) (corpus : Corpus) where
    -- Every text that the fusion ranks is the id of a row.
    fuse-known :
        (vector : Scored F)
        → vector_scores loads embedder s.query (matching_rows s corpus) ≡ some vector
        → (id : String)
        → holds id (fuse arrange (lexical_scores s.query (matching_rows s corpus)) vector) ≡ true
        → has_key id (keyed (matching_rows s corpus) []) ≡ true
    fuse-known vector e id h =
        let rows = matching_rows s corpus in
        let lexical = lexical_scores {F = F} s.query rows in
        let scored = sym (holds-fuse arrange arranged lexical vector id) ∙ h in
        has_key-keyed id rows []
        ∙ or_false (has_id id rows)
        ∙ elim (or_split (any (is_scored_as id) lexical) (any (is_scored_as id) vector) scored) [
          | inl l ↦ lexical_scores-known F s.query id rows l
          | inr v ↦
              any_weaken (λ row. str_eq row.0.chunk_id id && is_comparable embedder.model_id row)
                (λ row. str_eq row.0.chunk_id id) rows (λ row b. (and_lem _ _ b).0)
                (vector_scores-IsComparable loads embedder s.query id rows vector e (
                  any_weaken (is_scored_as id) (λ item. str_eq item.0 id) vector
                    (λ item b. (and_lem _ _ b).0) v))
        ]

    ranked-is_some :
        (vector : Option (Scored F))
        → vector_scores loads embedder s.query (matching_rows s corpus) ≡ vector
        → is_some vector ≡ true
        → is_some (ranked arrange s.query s.top_k (matching_rows s corpus) vector) ≡ true
    ranked-is_some none e h = absurd (cc)
    ranked-is_some (some vector) e h =
        let rows = matching_rows s corpus in
        let order = fuse arrange (lexical_scores s.query rows) vector in
        as_evidence-is_some F 1 (take s.top_k order) (keyed rows []) (
          all-take (λ id. has_key id (keyed rows [])) s.top_k order
            (all_of_holds (λ id. has_key id (keyed rows [])) order (fuse-known vector e)))

    -- Where the provider embeds the question and every stored vector loads, a search returns: no id that
    -- the fusion ranks is missing from the table of the rows.
    pub retrieve-is_some :
        {v : List F} {more : List (List F)}
        → All (DoesLoad loads) corpus.chunks
        → embedder.embed (s.query ∷ []) ≡ some (v ∷ more)
        → is_some (retrieve arrange loads embedder s corpus) ≡ true
    unfolding retrieve
    retrieve-is_some h e = elim (Bool-cases (is_empty (matching_rows s corpus))) [
      | inl empty ↦ rw empty refl
      | inr full ↦
          rw full (ranked-is_some _ refl (vector_scores-is_some loads embedder s corpus h e))
    ]

  -- The ids of the evidence are the keys that it was looked up by.
  as_evidence-ids :
      (n : ℕ) (ids : List String) (table : List (String × Row))
      → All (λ entry. entry.1.0.chunk_id ≡ entry.0) table
      → (es : List (Evidence F)) → as_evidence n ids table ≡ some es
      → chunk_ids es ≡ ids
  as_evidence-ids n [] table t es h = subst (λ xs. chunk_ids xs ≡ []) (some-injective _ _ h) refl
  as_evidence-ids n (id ∷ ids) table t es h =
      at_row (lookup id table) (as_evidence (suc n) ids table)
        (λ row e. lookup-All (λ entry. entry.1.0.chunk_id ≡ entry.0) id table t e)
        (as_evidence-ids (suc n) ids table t) h
    where
      at_row :
          (row : Option Row) (rest : Option (List (Evidence F)))
          → ((r : Row) → row ≡ some r → r.0.chunk_id ≡ id)
          → ((more : List (Evidence F)) → rest ≡ some more → chunk_ids more ≡ ids)
          → listed n row rest ≡ some es
          → chunk_ids es ≡ id ∷ ids
      at_row none rest p q h = absurd (cc)
      at_row (some row) none p q h = absurd (cc)
      at_row (some row) (some rest) p q h =
          subst (λ xs. chunk_ids xs ≡ id ∷ ids) (some-injective _ _ h)
            (rw (p row refl, q rest refl) refl)

  module _ (arrange : List String → List String)
      (arranged : (xs : List String) → Perm (arrange xs) xs)
      (loads : String → Option (List F)) where
    ranked-IsShort :
        (query : String) (k : ℕ) (rows : List Row) (vector : Option (Scored F))
        (es : List (Evidence F))
        → ranked arrange query k rows vector ≡ some es
        → IsShort k (chunk_ids es)
    ranked-IsShort query k rows none es h = absurd (cc)
    ranked-IsShort query k rows (some vector) es h =
        let order = fuse arrange (lexical_scores query rows) vector in
        subst (IsShort k)
          (sym (as_evidence-ids 1 (take k order) (keyed rows []) (rows-keyed rows) es h))
          (
            length-take k order,
            distinct-take k order
                (distinct-fuse arrange arranged (lexical_scores query rows) vector),
          )

    retrieve-IsShort :
        (embedder : EmbeddingProvider F) (s : Search) (corpus : Corpus) (es : List (Evidence F))
        → retrieve arrange loads embedder s corpus ≡ some es
        → (length (chunk_ids es) ≤ s.top_k) × (distinct (chunk_ids es) ≡ true)
    unfolding retrieve
    retrieve-IsShort embedder s corpus es h =
        elim (Bool-cases (is_empty (matching_rows s corpus))) [
          | inl empty ↦
              subst (λ xs. IsShort s.top_k (chunk_ids xs)) (some-injective _ _ (rw empty at h))
                (omega arith, refl)
          | inr full ↦ ranked-IsShort s.query s.top_k (matching_rows s corpus) _ es (rw full at h)
        ]

    -- A search returns at most `top_k` chunks, none of them twice; each quotes a chunk that the tables hold,
    -- of the configuration that was asked for, and of the field if one was, that shares a term with the
    -- question, and names the stored document of that chunk.
    pub retrieve_lem :
        (embedder : EmbeddingProvider F) (s : Search) (corpus : Corpus) (es : List (Evidence F))
        → retrieve arrange loads embedder s corpus ≡ some es
        → All (IsGrounded s corpus) es
          × (length (chunk_ids es) ≤ s.top_k)
          × (distinct (chunk_ids es) ≡ true)
    retrieve_lem embedder s corpus es h =
        let short = retrieve-IsShort embedder s corpus es h in
        (retrieve-IsGrounded arrange loads embedder s corpus es h, short.0, short.1)
