-- ===== src/Rag/Rows.antt =====
-- backend/suas/db/models.py: the tables of the corpus.
use lang_graph_uas.Prelude.{ℕ, List, Option, String}

pub record DocumentRow : Type 0 where
  pub document_id : String
  pub path : String
  pub sha256 : String
  pub source_url : String
  pub retrieved_at : String
  pub kind : String
  pub airframe_config_id : Option String
  pub ingested_at : ℕ

pub record ChunkRow : Type 0 where
  pub chunk_id : String
  pub document_id : String
  pub airframe_config_id : Option String
  pub field_path : Option String
  pub page : Option ℕ
  pub text : String
  pub embedding_json : Option String
  pub embedding_model : Option String

-- `cleared_at` and `cleared_by` are written together.
pub record QuarantineRow : Type 0 where
  pub quarantine_id : String
  pub document_path : String
  pub airframe_config_id : Option String
  pub pattern : String
  pub text : String
  pub quarantined_at : ℕ
  pub cleared : Option (ℕ × String)

-- The tables, each in the order in which a query that states none returns its rows.
pub record Corpus : Type 0 where
  pub documents : List DocumentRow
  pub chunks : List ChunkRow
  pub quarantine : List QuarantineRow
