-- ===== src/Rag/Ingest.antt =====
-- backend/suas/db/corpus.py: the one write path into the corpus, and the quarantine.
pub mod Accounts
pub mod Quarantine
use Prim.Native.Char.{Char, code}
use Prim.Native.String.{String}
use Prim.Native.String
use lang_graph_uas.Prelude.{
  ℕ, zero, suc, Bool, true, false, not, ◌&&◌, ◌||◌, List, [], ◌∷◌, ◌++◌, map, Option, none, some,
  length, count_chars, any, keep_if, present, is_empty, is_blank, is_some, str_eq, holds, distinct,
  leb, ◌==◌, concat, if◌then◌else◌,
}
use Prim.Native.Nat.{◌+◌}
use lang_graph_uas.Rag.Rows.{DocumentRow, ChunkRow, QuarantineRow, Corpus}
use lang_graph_uas.Rag.Manifest.{ManifestEntry, Verdict, verified, eval_only, wrong_hash, verify}
use lang_graph_uas.Rag.Screening.{Screener, ScreenResult, screen_chunk, is_clean}
use lang_graph_uas.Rag.Retrieve.{EmbeddingProvider}

abbrev pub min_chunk_chars : ℕ
min_chunk_chars = 40

pub record IngestSummary : Type 0 where
  pub path : String
  pub document_id : String
  pub chunks : ℕ
  pub quarantined : ℕ
  pub patterns : List String

-- What the module takes from elsewhere: the screener, SHA-256 of the bytes, the decoding of them, the
-- `uuid4` of a document and of the nth quarantined chunk, the clock, the ids that a path and an ordinal
-- hash to, and `json.dumps`.
pub record Tools (F : Type 0) : Type 0 where
  pub screener : Screener
  pub digest : String → String
  pub decode : String → String
  pub document_id : String
  pub quarantine_id : ℕ → String
  pub now : ℕ
  pub chunk_identifier : String → ℕ → String
  pub dumps : List F → String

-- `text.split("\n\n")`, where `part` is what stands before the rest of the text.
unfoldable pub split_on_blank : String → String → List String
split_on_blank part String.[] = part ∷ []
split_on_blank part (String.◌∷◌ c String.[]) = String.◌++◌ part (String.◌∷◌ c String.[]) ∷ []
split_on_blank part (String.◌∷◌ c (String.◌∷◌ d s)) = elim (code c == 10 && code d == 10) [
  | true ↦ part ∷ split_on_blank String.[] s
  | false ↦ split_on_blank (String.◌++◌ part (String.◌∷◌ c String.[])) (String.◌∷◌ d s)
]

abbrev pub nth : {A : Type 0} → ℕ → List A → Option A
nth n [] = none
nth zero (x ∷ xs) = some x
nth (suc n) (x ∷ xs) = nth n xs

abbrev pub row_and : Option ChunkRow → Option (List ChunkRow) → Option (List ChunkRow)
row_and none rows = none
row_and (some row) none = none
row_and (some row) (some rows) = some (row ∷ rows)

module _ {F : Type 0} (tools : Tools F) where
  open tools use {screener, now}

  unfoldable pub split_paragraphs : String → List String
  unfolding split_on_blank count_chars
  split_paragraphs text =
      keep_if (λ part. leb min_chunk_chars (count_chars part))
        (map screener.strip (split_on_blank "" text))

  abbrev pub document_row : ManifestEntry → DocumentRow
  document_row entry = record {
    document_id = tools.document_id;
    path = entry.path;
    sha256 = entry.sha256;
    source_url = entry.source_url;
    retrieved_at = entry.retrieved_at;
    kind = entry.kind;
    airframe_config_id = entry.airframe_config_id;
    ingested_at = now;
  }

  abbrev pub quarantine_row : ManifestEntry → ℕ → String → String → QuarantineRow
  quarantine_row entry n text pattern = record {
    quarantine_id = tools.quarantine_id n;
    document_path = entry.path;
    airframe_config_id = entry.airframe_config_id;
    pattern = pattern;
    text = text;
    quarantined_at = now;
    cleared = none;
  }

  -- The clean texts, and the rows and patterns of the others, in order.
  pub record Screened : Type 0 where
    pub clean : List String
    pub held : List QuarantineRow
    pub caught : List String

  abbrev nothing_screened : Screened
  nothing_screened = record { clean = []; held = []; caught = [] }

  abbrev pub sorted_out : ManifestEntry → ℕ → String → Option String → (ℕ → Screened) → Screened
  sorted_out entry n text none rest = let r = rest n in record r { clean = text ∷ r.clean }
  sorted_out entry n text (some pattern) rest =
      let r = rest (suc n) in
      record r { held = quarantine_row entry n text pattern ∷ r.held; caught = pattern ∷ r.caught }

  -- `n` quarantine ids have been used.
  unfoldable pub screen_document : ManifestEntry → List String → ℕ → Screened
  screen_document entry [] n = nothing_screened
  screen_document entry (paragraph ∷ paragraphs) n =
      let result = screen_chunk screener paragraph in
      sorted_out entry n result.text result.caught (screen_document entry paragraphs)

  -- The vectors; `none` is an `EmbeddingError`.
  abbrev pub embed_clean : Option (EmbeddingProvider F) → List String → Option (List (List F))
  embed_clean none clean = some []
  embed_clean (some embedder) [] = some []
  embed_clean (some embedder) (text ∷ clean) = embedder.embed (text ∷ clean)

  abbrev pub chunk_row : ManifestEntry → ℕ → String → Option String → Option String → ChunkRow
  chunk_row entry index text json model = record {
    chunk_id = tools.chunk_identifier entry.path index;
    document_id = tools.document_id;
    airframe_config_id = entry.airframe_config_id;
    field_path = entry.field_path;
    page = none;
    text = text;
    embedding_json = json;
    embedding_model = model;
  }

  abbrev pub with_vector :
      ManifestEntry → ℕ → String → Option (EmbeddingProvider F) → Option (List F) → Option ChunkRow
  with_vector entry index text embedder none = none
  with_vector entry index text none (some v) =
      some (chunk_row entry index text (some (tools.dumps v)) none)
  with_vector entry index text (some e) (some v) =
      some (chunk_row entry index text (some (tools.dumps v)) (some e.model_id))

  -- `vectors[index] if vectors else None`; `none` is an `IndexError`.
  abbrev pub one_chunk :
      ManifestEntry → ℕ → String → Option (EmbeddingProvider F) → List (List F) → Option ChunkRow
  one_chunk entry index text embedder [] = some (chunk_row entry index text none none)
  one_chunk entry index text embedder (v ∷ vs) =
      with_vector entry index text embedder (nth index (v ∷ vs))

  unfoldable pub add_chunks :
      ManifestEntry
      → Option (EmbeddingProvider F)
      → List (List F)
      → ℕ
      → List String
      → Option (List ChunkRow)
  add_chunks entry embedder vectors index [] = some []
  add_chunks entry embedder vectors index (text ∷ clean) =
      row_and (one_chunk entry index text embedder vectors)
        (add_chunks entry embedder vectors (suc index) clean)

-- How an ingest ends: what the tables hold then, or the error, which leaves them as they were.
pub data Ingested : Type 0 where
  stored : IngestSummary → Corpus → Ingested
  manifest_error : Verdict → Ingested
  embedding_error : Ingested
  index_error : Ingested
  integrity_error : Ingested

-- The keys of the tables: `document_id`, `path` and `sha256` of a document, and `chunk_id` of a chunk.
abbrev document_clashes : DocumentRow → DocumentRow → Bool
document_clashes new old =
    str_eq new.document_id old.document_id
    || str_eq new.path old.path
    || str_eq new.sha256 old.sha256

abbrev pub chunk_keys : List ChunkRow → List String
chunk_keys chunks = map (λ c. c.chunk_id) chunks

abbrev quarantine_keys : List QuarantineRow → List String
quarantine_keys rows = map (λ q. q.quarantine_id) rows

abbrev pub commits : Corpus → DocumentRow → List ChunkRow → List QuarantineRow → Bool
commits corpus document chunks held =
    not (any (document_clashes document) corpus.documents)
    && distinct (chunk_keys (chunks ++ corpus.chunks))
    && distinct (quarantine_keys (held ++ corpus.quarantine))

module _ {F : Type 0} (tools : Tools F) (entry : ManifestEntry) where
  abbrev pub committed : Corpus → Screened tools → Option (List ChunkRow) → Ingested
  committed corpus screened none = index_error
  committed corpus screened (some chunks) =
      if commits corpus (document_row tools entry) chunks screened.held
      then stored
          (record {
            path = entry.path;
            document_id = tools.document_id;
            chunks = length chunks;
            quarantined = length screened.held;
            patterns = screened.caught;
          })
          (record {
            documents = document_row tools entry ∷ corpus.documents;
            chunks = chunks ++ corpus.chunks;
            quarantine = screened.held ++ corpus.quarantine;
          })
      else integrity_error

  abbrev pub embedded :
      Corpus → Option (EmbeddingProvider F) → Screened tools → Option (List (List F)) → Ingested
  embedded corpus embedder screened none = embedding_error
  embedded corpus embedder screened (some vectors) =
      committed corpus screened (add_chunks tools entry embedder vectors 0 screened.clean)

  abbrev pub after_verify : Corpus → String → Option (EmbeddingProvider F) → Verdict → Ingested
  after_verify corpus content embedder eval_only = manifest_error eval_only
  after_verify corpus content embedder wrong_hash = manifest_error wrong_hash
  after_verify corpus content embedder verified =
      let screened =
        screen_document tools entry (split_paragraphs tools (tools.decode content)) 0 in
      embedded corpus embedder screened (embed_clean tools embedder screened.clean)

  unfoldable pub ingest_document : String → Bool → Option (EmbeddingProvider F) → Corpus → Ingested
  ingest_document content production embedder corpus =
      after_verify corpus content embedder (verify entry (tools.digest content) production)

-- The configurations with an open entry; an empty text names none.
abbrev pub is_open : QuarantineRow → Bool
is_open q = not (is_some q.cleared)

unfoldable pub open_quarantine_configs : Corpus → List String
open_quarantine_configs corpus =
    keep_if (λ config. not (is_blank config))
      (present (map (λ q. q.airframe_config_id) (keep_if is_open corpus.quarantine)))

unfoldable pub has_open_quarantine : Corpus → Option String → Bool
has_open_quarantine corpus none = false
has_open_quarantine corpus (some config) = holds config (open_quarantine_configs corpus)
