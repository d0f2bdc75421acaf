-- ===== src/Rag.antt =====
-- backend/suas/rag: the corpus and what is retrieved from it.
pub mod Rows
pub mod Fusion
pub mod Words
pub mod Retrieve
pub mod Embedding
pub mod Manifest
pub mod Screening
pub mod Ingest
