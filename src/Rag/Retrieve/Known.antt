-- ===== src/Rag/Retrieve/Known.antt =====
-- What the two legs of a search score: rows of the search, and of the provider's own model.
use lang_graph_uas.Prelude.{
  ℕ, zero, suc, Bool, true, ◌&&◌, ◌||◌, List, [], ◌∷◌, Option, none, some, String, take, keep_if,
  is_empty, is_some, lookup, has_key, insert, has_key-insert, str_eq, all, any, holds, distinct,
  All, Any, All-keep_if, Bool-cases, and_lem, inl, inr, arith, ◌≡◌, refl, sym, subst,
}
use text.Mathlib.TextPositions.{eq_refl}
use mathlib.Core.Option.{some-injective}
use lang_graph_uas.Float.{Float}
use lang_graph_uas.Rag.Rows.{ChunkRow, Corpus}
use lang_graph_uas.Rag.Fusion.{Scored}
use lang_graph_uas.Rag.Fusion.Scores.{is_scored_as}
use lang_graph_uas.Rag.Retrieve.{
  Row, Evidence, EmbeddingProvider, Search, is_comparable, matching_rows, keyed, listed,
  as_evidence, and_then, scored_chunk, loaded, scored_rows, against, vector_scores, lexical_scores,
  has_text,
}
use lang_graph_uas.Rag.Retrieve.Sources.{IsSource, matching_rows-IsSource}

-- One of the rows has the id.
abbrev pub has_id : String → List Row → Bool
has_id id rows = any (λ row. str_eq row.0.chunk_id id) rows

pub has_key-keyed :
    (id : String) (rows : List Row) (table : List (String × Row))
    → has_key id (keyed rows table) ≡ (has_id id rows || has_key id table)
has_key-keyed id [] table = refl
has_key-keyed id ((c, d) ∷ rows) table = ground (
  arith,
  has_key-keyed id rows (insert c.chunk_id (c, d) table),
  has_key-insert c.chunk_id id (c, d) table,
)

-- A test that holds of each text of a list holds of all.
pub all_of_holds :
    (p : String → Bool) (xs : List String)
    → ((x : String) → holds x xs ≡ true → p x ≡ true)
    → all p xs ≡ true
all_of_holds p [] h = refl
all_of_holds p (x ∷ xs) h =
    rw (h x (ground (arith, eq_refl x))) (all_of_holds p xs (λ y e. h y (ground (arith, e))))

pub all-take :
    (p : String → Bool) (n : ℕ) (xs : List String) → all p xs ≡ true → all p (take n xs) ≡ true
all-take p zero xs h = refl
all-take p (suc n) [] h = refl
all-take p (suc n) (x ∷ xs) h = ground (arith, all-take p n xs)

holds-take :
    (x : String) (n : ℕ) (xs : List String) → holds x (take n xs) ≡ true → holds x xs ≡ true
holds-take x zero xs h = absurd (cc)
holds-take x (suc n) [] h = absurd (cc)
holds-take x (suc n) (y ∷ ys) h = ground (arith, holds-take x n ys)

pub distinct-take : (n : ℕ) (xs : List String) → distinct xs ≡ true → distinct (take n xs) ≡ true
distinct-take zero xs h = refl
distinct-take (suc n) [] h = refl
distinct-take (suc n) (x ∷ xs) h = ground (arith, distinct-take n xs, holds-take x n xs)

module _ (F : Type 0) ⦃f : Float F⦄ where
  pub as_evidence-is_some :
      (n : ℕ) (ids : List String) (table : List (String × Row))
      → all (λ id. has_key id table) ids ≡ true
      → is_some (as_evidence {F = F} n ids table) ≡ true
  as_evidence-is_some n [] table h = refl
  as_evidence-is_some n (id ∷ ids) table h =
      let both = and_lem _ _ h in
      listed-is_some (lookup id table) _ both.0 (as_evidence-is_some (suc n) ids table both.1)
    where
      listed-is_some :
          (row : Option Row) (rest : Option (List (Evidence F)))
          → is_some row ≡ true
          → is_some rest ≡ true
          → is_some (listed n row rest) ≡ true
      listed-is_some none rest h k = h
      listed-is_some (some row) none h k = k
      listed-is_some (some row) (some rest) h k = refl

  pub lexical_scores-known :
      (query id : String) (rows : List Row)
      → any (is_scored_as {F = F} id) (lexical_scores query rows) ≡ true
      → has_id id rows ≡ true
  lexical_scores-known query id [] h = absurd (cc)
  lexical_scores-known query id ((c, d) ∷ rows) h =
      ground (arith, lexical_scores-known query id rows)

module _ {F : Type 0} ⦃f : Float F⦄ where
  module _ (loads : String → Option (List F)) where
    -- Whatever vector the row has loads.
    abbrev pub DoesLoad : ChunkRow → Type 0
    DoesLoad c = (text : String) → c.embedding_json ≡ some text → is_some (loads text) ≡ true

    -- The row has a vector that loads.
    abbrev Loadable : Row → Type 0
    Loadable row = is_some (loaded loads row.0.embedding_json) ≡ true

    and_then-is_some :
        (item : Option (String × F)) (items : Option (Scored F))
        → is_some item ≡ true
        → is_some items ≡ true
        → is_some (and_then item items) ≡ true
    and_then-is_some none items h k = h
    and_then-is_some (some item) none h k = k
    and_then-is_some (some item) (some items) h k = refl

    scored_chunk-is_some :
        (query : List F) (id : String) (v : Option (List F))
        → is_some v ≡ true
        → is_some (scored_chunk query id v) ≡ true
    scored_chunk-is_some query id none h = h
    scored_chunk-is_some query id (some v) h = refl

    scored_rows-is_some :
        (query : List F) (rows : List Row)
        → All Loadable rows
        → is_some (scored_rows loads query rows) ≡ true
    scored_rows-is_some query [] h = refl
    scored_rows-is_some query ((c, d) ∷ rows) h =
        and_then-is_some (scored_chunk query c.chunk_id (loaded loads c.embedding_json)) _
          (scored_chunk-is_some query c.chunk_id (loaded loads c.embedding_json) h.0)
          (scored_rows-is_some query rows h.1)

    -- One of the items is the text's.
    abbrev pub scores_id : String → Scored F → Bool
    scores_id id scores = any (λ item. str_eq item.0 id) scores

    scored_rows-known :
        (query : List F) (id : String) (rows : List Row) (scores : Scored F)
        → scored_rows loads query rows ≡ some scores
        → scores_id id scores ≡ true
        → has_id id rows ≡ true
    scored_rows-known query id [] scores e h =
        absurd (let h' = subst (λ xs. scores_id id xs ≡ true) (sym (some-injective _ _ e)) h in cc)
    scored_rows-known query id ((c, d) ∷ rows) scores e h =
        at_row (loaded loads c.embedding_json) (scored_rows loads query rows)
          (scored_rows-known query id rows) e
      where
        at_row :
            (v : Option (List F)) (rest : Option (Scored F))
            → ((more : Scored F)
                → rest ≡ some more
                → scores_id id more ≡ true
                → has_id id rows ≡ true)
            → and_then (scored_chunk query c.chunk_id v) rest ≡ some scores
            → (str_eq c.chunk_id id || has_id id rows) ≡ true
        at_row none rest ih e = absurd (cc)
        at_row (some v) none ih e = absurd (cc)
        at_row (some v) (some more) ih e =
            let h' = subst (λ xs. scores_id id xs ≡ true) (sym (some-injective _ _ e)) h in
            elim (Bool-cases (str_eq c.chunk_id id)) [
              | inl same ↦ rw same refl
              | inr other ↦ rw other (ih more refl (rw other at h'))
            ]

    against-known :
        (id : String) (rows : List Row) (vectors : Option (List (List F))) (scores : Scored F)
        → against loads rows vectors ≡ some scores
        → scores_id id scores ≡ true
        → has_id id rows ≡ true
    against-known id rows none scores e h = absurd (cc)
    against-known id rows (some []) scores e h = absurd (cc)
    against-known id rows (some (query ∷ more)) scores e h =
        scored_rows-known query id rows scores e h

    -- A chunk that gets a similarity stands among the rows with a vector of the provider's own model.
    pub vector_scores-IsComparable :
        (embedder : EmbeddingProvider F) (query id : String) (rows : List Row) (scores : Scored F)
        → vector_scores loads embedder query rows ≡ some scores
        → scores_id id scores ≡ true
        → any (λ row. str_eq row.0.chunk_id id && is_comparable embedder.model_id row) rows ≡ true
    unfolding vector_scores
    vector_scores-IsComparable embedder query id rows scores e h =
        let comparable = keep_if (is_comparable embedder.model_id) rows in
        elim (Bool-cases (is_empty comparable)) [
          | inl none_is ↦
              let e' = rw none_is at e in
              let h' = subst (λ xs. scores_id id xs ≡ true) (sym (some-injective _ _ e')) h in
              absurd (cc)
          | inr some_is ↦
              kept rows (
                against-known id comparable (embedder.embed (query ∷ [])) scores (rw some_is at e)
                  h)
        ]
      where
        kept :
            (rows : List Row)
            → has_id id (keep_if (is_comparable embedder.model_id) rows) ≡ true
            → any (λ row. str_eq row.0.chunk_id id && is_comparable embedder.model_id row) rows
              ≡ true
        kept [] h = absurd (cc)
        kept ((c, d) ∷ rows) h = ground (arith, kept rows)

    Loadable-of_source :
        (s : Search) (corpus : Corpus) (model : String) (row : Row)
        → All (DoesLoad) corpus.chunks
        → IsSource s corpus row
        → is_comparable model row ≡ true
        → Loadable row
    Loadable-of_source s corpus model (c, d) h source e =
        at_text c.embedding_json (stored_loads corpus.chunks h source.stored) (and_lem _ _ e).0
      where
        stored_loads : (cs : List ChunkRow) → All (DoesLoad) cs → Any (λ c'. c' ≡ c) cs → DoesLoad c
        stored_loads [] h a = absurd a
        stored_loads (x ∷ xs) h (inl same) = subst (DoesLoad) same h.0
        stored_loads (x ∷ xs) h (inr more) = stored_loads xs h.1 more

        at_text :
            (cell : Option String)
            → ((text : String) → cell ≡ some text → is_some (loads text) ≡ true)
            → has_text cell ≡ true
            → is_some (loaded loads cell) ≡ true
        at_text none h e = absurd (cc)
        at_text (some text) h e = h text refl

    pub vector_scores-is_some :
        (embedder : EmbeddingProvider F) (s : Search) (corpus : Corpus) {v : List F}
        {more : List (List F)}
        → All (DoesLoad) corpus.chunks
        → embedder.embed (s.query ∷ []) ≡ some (v ∷ more)
        → is_some (vector_scores loads embedder s.query (matching_rows s corpus)) ≡ true
    unfolding vector_scores
    vector_scores-is_some embedder s corpus {v} {more} h e =
        let rows = matching_rows s corpus in
        let comparable = keep_if (is_comparable embedder.model_id) rows in
        elim (Bool-cases (is_empty comparable)) [
          | inl none_is ↦ rw none_is refl
          | inr some_is ↦
              rw (some_is, e)
                (scored_rows-is_some v comparable (
                  All-keep_if (IsSource s corpus) Loadable (is_comparable embedder.model_id)
                    (λ row source c. Loadable-of_source s corpus embedder.model_id row h source c)
                    rows (matching_rows-IsSource s corpus)))
        ]
