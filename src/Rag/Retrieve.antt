-- ===== src/Rag/Retrieve.antt =====
-- backend/suas/rag/retrieve.py: the evidence for one field of one configuration.
pub mod Sources
pub mod Known
pub mod Returns
use lang_graph_uas.Prelude.{
  ℕ, zero, suc, Bool, true, false, not, ◌&&◌, List, [], ◌∷◌, ◌++◌, map, Option, none, some, String,
  length, take, keep_if, is_empty, is_blank, str_eq, lookup, insert, or_else, sort, holds,
  if◌then◌else◌, ◌||◌, ◌==◌,
}
use Prim.Native.Nat.{◌*◌}
use lang_graph_uas.Float.{Float, zero_f}
use lang_graph_uas.Rag.Rows.{ChunkRow, DocumentRow, Corpus}
use lang_graph_uas.Rag.Fusion.{Scored, fuse}
use lang_graph_uas.Rag.Words.{Word, find_words, set_of, intersection, shares_content}

pub record Evidence (F : Type 0) : Type 0 where
  pub chunk_id : String
  pub text : String
  pub field_path : Option String
  pub page : Option ℕ
  pub document_id : String
  pub source_url : String
  pub score : F

-- A provider of vectors. `embed` is `none` where it raises.
pub record EmbeddingProvider (F : Type 0) : Type 0 where
  pub model_id : String
  pub dimension : ℕ
  pub embed : List String → Option (List (List F))

abbrev pub Row : Type 0
Row = ChunkRow × DocumentRow

-- `column == value` of SQL: NULL is equal to nothing.
abbrev pub column_is : Option String → String → Bool
column_is none value = false
column_is (some cell) value = str_eq cell value

-- The test on the field, when one is given.
abbrev pub field_is : Option String → Option String → Bool
field_is none cell = true
field_is (some field) cell = column_is cell field

abbrev with_document : ChunkRow → List DocumentRow → List Row
with_document c [] = []
with_document c (d ∷ ds) =
    if str_eq c.document_id d.document_id then (c, d) ∷ with_document c ds else with_document c ds

abbrev joined : List ChunkRow → List DocumentRow → List Row
joined [] ds = []
joined (c ∷ cs) ds = with_document c ds ++ joined cs ds

abbrev pub is_candidate : String → Option String → Row → Bool
is_candidate config field (c, d) =
    column_is c.airframe_config_id config && field_is field c.field_path

unfoldable pub candidate_rows : String → Option String → ℕ → Corpus → List Row
candidate_rows config field candidates corpus =
    take (candidates * 5)
      (keep_if (is_candidate config field) (joined corpus.chunks corpus.documents))

-- `chunk.embedding_json and chunk.embedding_model == embedder.model_id`.
abbrev pub has_text : Option String → Bool
has_text none = false
has_text (some text) = not (is_blank text)

abbrev pub is_comparable : String → Row → Bool
is_comparable model (c, d) = has_text c.embedding_json && column_is c.embedding_model model

-- `{chunk.chunk_id: (chunk, document) for chunk, document in rows}`.
abbrev pub keyed : List Row → List (String × Row) → List (String × Row)
keyed [] table = table
keyed ((c, d) ∷ rows) table = keyed rows (insert c.chunk_id (c, d) table)

module _ {F : Type 0} ⦃f : Float F⦄ where
  open f use {lit, ◌/◌, sqrt, sum}

  infixl 70 ◌/◌
  unfoldable pub lexical_score : String → String → F
  lexical_score query text =
      let terms = set_of (find_words query) in
      let body = set_of (find_words text) in
      if is_empty terms
      then zero_f
      else lit (length (intersection terms body)) 0 / lit (length terms) 0

  abbrev pub products : List F → List F → List F
  products (a ∷ xs) (b ∷ ys) = f.◌*◌ a b ∷ products xs ys
  products _ _ = []

  -- `x == 0.0`.
  abbrev pub is_zero : F → Bool
  is_zero x = if f.le x zero_f then f.le zero_f x else false

  unfoldable pub cosine_similarity : List F → List F → F
  cosine_similarity left right =
      let dot = sum (products left right) in
      let left_norm = sqrt (sum (products left left)) in
      let right_norm = sqrt (sum (products right right)) in
      if length left == length right && not (is_zero left_norm || is_zero right_norm)
      then dot / f.◌*◌ left_norm right_norm
      else zero_f

  -- The vector of a chunk, by `json.loads`, which is `none` where it raises.
  abbrev pub loaded : (String → Option (List F)) → Option String → Option (List F)
  loaded loads none = none
  loaded loads (some text) = loads text

  abbrev pub scored_chunk : List F → String → Option (List F) → Option (String × F)
  scored_chunk query id none = none
  scored_chunk query id (some vector) = some (id, cosine_similarity query vector)

  abbrev pub and_then : Option (String × F) → Option (Scored F) → Option (Scored F)
  and_then none items = none
  and_then (some item) none = none
  and_then (some item) (some items) = some (item ∷ items)

  abbrev pub scored_rows : (String → Option (List F)) → List F → List Row → Option (Scored F)
  scored_rows loads query [] = some []
  scored_rows loads query ((c, d) ∷ rows) =
      and_then (scored_chunk query c.chunk_id (loaded loads c.embedding_json))
        (scored_rows loads query rows)

  -- `(await embedder.embed([query]))[0]`, and the scores against it.
  abbrev pub against :
      (String → Option (List F)) → List Row → Option (List (List F)) → Option (Scored F)
  against loads rows none = none
  against loads rows (some []) = none
  against loads rows (some (query ∷ more)) = scored_rows loads query rows

  unfoldable pub vector_scores :
      (String → Option (List F)) → EmbeddingProvider F → String → List Row → Option (Scored F)
  vector_scores loads embedder query rows =
      let comparable = keep_if (is_comparable embedder.model_id) rows in
      if is_empty comparable
      then some []
      else against loads comparable (embedder.embed (query ∷ []))

  abbrev pub cited : ℕ → Row → Evidence F
  cited position (c, d) = record {
    chunk_id = c.chunk_id;
    text = c.text;
    field_path = c.field_path;
    page = c.page;
    document_id = d.document_id;
    source_url = d.source_url;
    score = lit 1 0 / lit position 0;
  }

  abbrev pub listed : ℕ → Option Row → Option (List (Evidence F)) → Option (List (Evidence F))
  listed position none results = none
  listed position (some row) none = none
  listed position (some row) (some results) = some (cited position row ∷ results)

  -- `none` is a `KeyError`.
  abbrev pub as_evidence : ℕ → List String → List (String × Row) → Option (List (Evidence F))
  as_evidence position [] by_id = some []
  as_evidence position (id ∷ ordered) by_id =
      listed position (lookup id by_id) (as_evidence (suc position) ordered by_id)

  abbrev pub lexical_scores : String → List Row → Scored F
  lexical_scores query [] = []
  lexical_scores query ((c, d) ∷ rows) =
      (c.chunk_id, lexical_score query c.text) ∷ lexical_scores query rows

  abbrev pub ranked :
      (List String → List String)
      → String
      → ℕ
      → List Row
      → Option (Scored F)
      → Option (List (Evidence F))
  ranked arrange query top_k rows none = none
  ranked arrange query top_k rows (some vector) =
      as_evidence 1 (take top_k (fuse arrange (lexical_scores query rows) vector)) (keyed rows [])

-- The arguments of `retrieve`.
pub record Search : Type 0 where
  pub query : String
  pub airframe_config_id : String
  pub field_path : Option String
  pub candidates : ℕ
  pub top_k : ℕ

abbrev pub is_match : String → Row → Bool
is_match query (c, d) = shares_content query c.text

abbrev pub matching_rows : Search → Corpus → List Row
matching_rows s corpus =
    keep_if (is_match s.query)
      (candidate_rows s.airframe_config_id s.field_path s.candidates corpus)

module _ {F : Type 0} ⦃f : Float F⦄ (arrange : List String → List String)
    (loads : String → Option (List F)) where
  -- `none` is an exception: of the embedder, or of a vector that does not load.
  unfoldable pub retrieve : EmbeddingProvider F → Search → Corpus → Option (List (Evidence F))
  retrieve embedder s corpus =
      let rows = matching_rows s corpus in
      if is_empty rows
      then some []
      else ranked arrange s.query s.top_k rows (vector_scores loads embedder s.query rows)
