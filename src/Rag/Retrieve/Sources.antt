-- ===== src/Rag/Retrieve/Sources.antt =====
-- Where the evidence comes from: the rows that a search may return.
use lang_graph_uas.Prelude.{
  ℕ, suc, true, false, List, [], ◌∷◌, Option, none, some, String, take, keep_if, is_empty,
  if◌then◌else◌, lookup, insert, str_eq, All, Any, All-map, All-keep_if, All-take, All-append,
  Bool-cases, and_lem, inl, inr, ◌≡◌, refl, sym, subst,
}
use Prim.Native.Nat.{◌*◌}
use text.Mathlib.TextEquality.{eq_iff}
use mathlib.Core.Option.{some-injective}
use lang_graph_uas.Float.{Float}
use lang_graph_uas.Rag.Rows.{ChunkRow, DocumentRow, Corpus}
use lang_graph_uas.Rag.Words.{shares_content}
use lang_graph_uas.Rag.Fusion.{Scored}
use lang_graph_uas.Rag.Retrieve.{
  Row, Evidence, EmbeddingProvider, Search, column_is, field_is, with_document, joined,
  is_candidate, candidate_rows, is_match, matching_rows, keyed, cited, listed, as_evidence, ranked,
  vector_scores, retrieve,
}

-- A chunk and its document that the tables hold, of the configuration and of the field that are asked
-- for, and that shares a term with the question.
pub record IsSource (s : Search) (corpus : Corpus) (row : Row) : Type 0 where
  pub stored : Any (λ c. c ≡ row.0) corpus.chunks
  pub vouched : Any (λ d. d ≡ row.1) corpus.documents
  pub owned : row.0.document_id ≡ row.1.document_id
  pub of_config : row.0.airframe_config_id ≡ some s.airframe_config_id
  pub of_field : field_is s.field_path row.0.field_path ≡ true
  pub on_subject : shares_content s.query row.0.text ≡ true

-- The evidence quotes the chunk and names its document.
pub record IsCited {F : Type 0} (e : Evidence F) (row : Row) : Type 0 where
  pub of_chunk : e.chunk_id ≡ row.0.chunk_id
  pub quotes : e.text ≡ row.0.text
  pub with_field : e.field_path ≡ row.0.field_path
  pub on_page : e.page ≡ row.0.page
  pub of_document : e.document_id ≡ row.1.document_id
  pub from_url : e.source_url ≡ row.1.source_url

abbrev pub IsGrounded : {F : Type 0} → Search → Corpus → Evidence F → Type 0
IsGrounded s corpus e = (row : Row) × IsSource s corpus row × IsCited e row

-- What the join alone gives.
record IsJoined (cs : List ChunkRow) (ds : List DocumentRow) (row : Row) : Type 0 where
  stored : Any (λ c. c ≡ row.0) cs
  vouched : Any (λ d. d ≡ row.1) ds
  owned : row.0.document_id ≡ row.1.document_id

abbrev IsWith : ChunkRow → List DocumentRow → Row → Type 0
IsWith c ds row = (row.0 ≡ c) × Any (λ d. d ≡ row.1) ds × (row.0.document_id ≡ row.1.document_id)

with_document-IsWith :
    (c : ChunkRow) (ds : List DocumentRow) → All (IsWith c ds) (with_document c ds)
with_document-IsWith c [] = tt
with_document-IsWith c (d ∷ ds) =
    let rest =
      All-map (IsWith c ds) (IsWith c (d ∷ ds)) (λ row h. (h.0, inr h.1, h.2)) (with_document c ds)
        (with_document-IsWith c ds) in
    elim (Bool-cases (str_eq c.document_id d.document_id)) [
      | inl e ↦ rw e ((refl, inl refl, (eq_iff _ _).0 e), rest)
      | inr e ↦ rw e rest
    ]

joined-IsJoined : (cs : List ChunkRow) (ds : List DocumentRow) → All (IsJoined cs ds) (joined cs ds)
joined-IsJoined [] ds = tt
joined-IsJoined (c ∷ cs) ds =
    All-append (IsJoined (c ∷ cs) ds) (with_document c ds) (joined cs ds)
      (All-map (IsWith c ds) (IsJoined (c ∷ cs) ds)
        (λ row h. record { stored = inl (sym h.0); vouched = h.1; owned = h.2 })
        (with_document c ds) (with_document-IsWith c ds))
      (All-map (IsJoined cs ds) (IsJoined (c ∷ cs) ds)
        (λ row h. record { stored = inr h.stored; vouched = h.vouched; owned = h.owned })
        (joined cs ds) (joined-IsJoined cs ds))

column_is_lem :
    (cell : Option String) (value : String) → column_is cell value ≡ true → cell ≡ some value
column_is_lem none value h = absurd (cc)
column_is_lem (some cell) value h = rw ((eq_iff cell value).0 h) refl

-- Every row that a search goes by is a source.
pub matching_rows-IsSource :
    (s : Search) (corpus : Corpus) → All (IsSource s corpus) (matching_rows s corpus)
unfolding candidate_rows
matching_rows-IsSource s corpus =
    let rows = joined corpus.chunks corpus.documents in
    let test = is_candidate s.airframe_config_id s.field_path in
    All-keep_if Candidate (IsSource s corpus) (is_match s.query)
      (λ row h e. record {
        stored = h.0.stored;
        vouched = h.0.vouched;
        owned = h.0.owned;
        of_config = column_is_lem _ _ (and_lem _ _ h.1).0;
        of_field = (and_lem _ _ h.1).1;
        on_subject = e;
      })
      (take (s.candidates * 5) (keep_if test rows))
      (All-take Candidate (s.candidates * 5) (keep_if test rows) (
        All-keep_if (IsJoined corpus.chunks corpus.documents) Candidate test (λ row h e. (h, e))
          rows (joined-IsJoined corpus.chunks corpus.documents)))
  where
    Candidate : Row → Type 0
    Candidate row =
        IsJoined corpus.chunks corpus.documents row
        × (is_candidate s.airframe_config_id s.field_path row ≡ true)

-- What holds of each row under its own key holds of each entry of the table.
pub keyed-All :
    (P : String × Row → Type 0) (rows : List Row) (table : List (String × Row))
    → All (λ row. P (row.0.chunk_id, row)) rows
    → All P table
    → All P (keyed rows table)
keyed-All P [] table h t = t
keyed-All P ((c, d) ∷ rows) table h t =
    keyed-All P rows (insert c.chunk_id (c, d) table) h.1 (insert-All c.chunk_id (c, d) table h.0 t)
  where
    insert-All :
        (k : String) (row : Row) (table : List (String × Row))
        → P (k, row)
        → All P table
        → All P (insert k row table)
    insert-All k row [] h t = (h, tt)
    insert-All k row ((j, old) ∷ table) h t = elim (Bool-cases (str_eq j k)) [
      | inl e ↦ rw e (h, t.1)
      | inr e ↦ rw e (t.0, insert-All k row table h t.1)
    ]

pub lookup-All :
    (P : String × Row → Type 0) (id : String) (table : List (String × Row)) {row : Row}
    → All P table
    → lookup id table ≡ some row
    → P (id, row)
lookup-All P id [] t e = absurd (cc)
lookup-All P id ((j, old) ∷ table) t e = elim (Bool-cases (str_eq j id)) [
  | inl h ↦
      subst (λ row. P (id, row)) (some-injective _ _ (rw h at e))
        (subst (λ k. P (k, old)) ((eq_iff j id).0 h) t.0)
  | inr h ↦ lookup-All P id table t.1 (rw h at e)
]

module _ {F : Type 0} ⦃f : Float F⦄ where
  abbrev Known : (Row → Type 0) → Evidence F → Type 0
  Known P e = (row : Row) × P row × IsCited e row

  listed-Known :
      (P : Row → Type 0) (n : ℕ) (row : Option Row) (rest : Option (List (Evidence F)))
      {es : List (Evidence F)}
      → ((r : Row) → row ≡ some r → P r)
      → ((more : List (Evidence F)) → rest ≡ some more → All (Known P) more)
      → listed n row rest ≡ some es
      → All (Known P) es
  listed-Known P n none rest p q h = absurd (cc)
  listed-Known P n (some row) none p q h = absurd (cc)
  listed-Known P n (some row) (some rest) p q h =
      let quoted : IsCited (cited n row) row = record {
        of_chunk = refl;
        quotes = refl;
        with_field = refl;
        on_page = refl;
        of_document = refl;
        from_url = refl;
      } in
      subst (All (Known P)) (some-injective _ _ h) ((row, p row refl, quoted), q rest refl)

  as_evidence-Known :
      (P : Row → Type 0) (n : ℕ) (ids : List String) (table : List (String × Row))
      → All (λ entry. P entry.1) table
      → (es : List (Evidence F)) → as_evidence n ids table ≡ some es
      → All (Known P) es
  as_evidence-Known P n [] table t es h = subst (All (Known P)) (some-injective _ _ h) tt
  as_evidence-Known P n (id ∷ ids) table t es h =
      listed-Known P n (lookup id table) (as_evidence (suc n) ids table)
        (λ r e. lookup-All (λ entry. P entry.1) id table t e)
        (as_evidence-Known P (suc n) ids table t) h

  module _ (arrange : List String → List String) (loads : String → Option (List F)) where
    ranked-Known :
        (P : Row → Type 0) (s : Search) (rows : List Row) (vector : Option (Scored F))
        → All P rows
        → (es : List (Evidence F)) → ranked arrange s.query s.top_k rows vector ≡ some es
        → All (Known P) es
    ranked-Known P s rows none h es e = absurd (cc)
    ranked-Known P s rows (some vector) h es e =
        as_evidence-Known P 1 _ (keyed rows []) (keyed-All (λ entry. P entry.1) rows [] h tt) es e

    pub retrieve-IsGrounded :
        (embedder : EmbeddingProvider F) (s : Search) (corpus : Corpus) (es : List (Evidence F))
        → retrieve arrange loads embedder s corpus ≡ some es
        → All (IsGrounded s corpus) es
    unfolding retrieve
    retrieve-IsGrounded embedder s corpus es h =
        elim (Bool-cases (is_empty (matching_rows s corpus))) [
          | inl e ↦ subst (All (IsGrounded s corpus)) (some-injective _ _ (rw e at h)) tt
          | inr e ↦
              ranked-Known (IsSource s corpus) s (matching_rows s corpus) _
                (matching_rows-IsSource s corpus) es (rw e at h)
        ]

    -- Where no stored chunk of the configuration shares a term with the question, a search returns no
    -- evidence, whatever the provider of vectors does.
    pub retrieve-none :
        (embedder : EmbeddingProvider F) (s : Search) (corpus : Corpus)
        → All
            (λ c.
              c.airframe_config_id ≡ some s.airframe_config_id
              → shares_content s.query c.text ≡ false)
            corpus.chunks
        → retrieve arrange loads embedder s corpus ≡ some []
    unfolding retrieve
    retrieve-none embedder s corpus h =
        at_rows (matching_rows s corpus) (matching_rows-IsSource s corpus)
      where
        refuted :
            (c : ChunkRow) (cs : List ChunkRow)
            → All
                (λ c.
                  c.airframe_config_id ≡ some s.airframe_config_id
                  → shares_content s.query c.text ≡ false)
                cs
            → Any (λ c'. c' ≡ c) cs
            → c.airframe_config_id ≡ some s.airframe_config_id
            → shares_content s.query c.text ≡ false
        refuted c [] h a = absurd a
        refuted c (x ∷ xs) h (inl same) =
            subst
              (λ y.
                y.airframe_config_id ≡ some s.airframe_config_id
                → shares_content s.query y.text ≡ false)
              same h.0
        refuted c (x ∷ xs) h (inr more) = refuted c xs h.1 more

        at_rows :
            (rows : List Row)
            → All (IsSource s corpus) rows
            → (if is_empty rows
                then some []
                else ranked arrange s.query s.top_k rows
                    (vector_scores loads embedder s.query rows))
              ≡ some []
        at_rows [] sources = refl
        at_rows (row ∷ rows) sources =
            let off = refuted row.0 corpus.chunks h sources.0.stored sources.0.of_config in
            let on = sources.0.on_subject in absurd (cc)
