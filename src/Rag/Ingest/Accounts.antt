-- ===== src/Rag/Ingest/Accounts.antt =====
-- What an ingest accounts for: every paragraph, and every chunk that it stores.
use lang_graph_uas.Prelude.{
  ℕ, suc, Bool, true, List, [], ◌∷◌, ◌++◌, Option, none, some, String, length, length-append,
  distinct, All, Bool-cases, and_lem, inl, inr, arith, ◌≡◌, refl, sym, subst,
}
use Prim.Native.Nat.{◌+◌}
use mathlib.Core.Option.{some-injective}
use lang_graph_uas.Rag.Rows.{ChunkRow, QuarantineRow, Corpus}
use lang_graph_uas.Rag.Manifest.{ManifestEntry, Verdict, verified, eval_only, wrong_hash, verify}
use lang_graph_uas.Rag.Screening.{screen_chunk, screen_chunk_lem}
use lang_graph_uas.Rag.Retrieve.{EmbeddingProvider}
use lang_graph_uas.Rag.Ingest.{
  IngestSummary, Tools, split_paragraphs, Screened, sorted_out, screen_document, embed_clean, nth,
  with_vector, one_chunk, add_chunks, row_and, Ingested, stored, document_row, commits, committed,
  embedded, after_verify, ingest_document, chunk_keys,
}

module _ {F : Type 0} (tools : Tools F) (entry : ManifestEntry) where
  open tools use {screener}
  open screener use {imperative}

  -- A chunk that went to quarantine: open, for its own configuration, with the pattern that caught it.
  abbrev pub IsHeld : QuarantineRow → Type 0
  IsHeld q =
      (q.airframe_config_id ≡ entry.airframe_config_id)
      × (q.document_path ≡ entry.path)
      × (q.cleared ≡ none)
      × (imperative q.text ≡ some q.pattern)

  -- The screened paragraphs, in their three parts.
  record IsSortedOut (paragraphs : List String) (s : Screened tools) : Type 0 where
    counted : length s.clean + length s.held ≡ length paragraphs
    clean : All (λ text. imperative text ≡ none) s.clean
    held : All IsHeld s.held

  sorted_out-IsSortedOut :
      (paragraph : String) (paragraphs : List String) (n : ℕ) (text : String)
      (caught : Option String) (rest : ℕ → Screened tools)
      → imperative text ≡ caught
      → ((m : ℕ) → IsSortedOut paragraphs (rest m))
      → IsSortedOut (paragraph ∷ paragraphs) (sorted_out tools entry n text caught rest)
  sorted_out-IsSortedOut paragraph paragraphs n text none rest e h = record {
    counted = omega (arith, (h n).counted);
    clean = (e, (h n).clean);
    held = (h n).held;
  }
  sorted_out-IsSortedOut paragraph paragraphs n text (some pattern) rest e h = record {
    counted = omega (arith, (h (suc n)).counted);
    clean = (h (suc n)).clean;
    held = ((refl, refl, refl, e), (h (suc n)).held);
  }

  screen_document-IsSortedOut :
      (paragraphs : List String) (n : ℕ)
      → IsSortedOut paragraphs (screen_document tools entry paragraphs n)
  unfolding screen_document
  screen_document-IsSortedOut [] n = record { counted = refl; clean = tt; held = tt }
  screen_document-IsSortedOut (paragraph ∷ paragraphs) n =
      sorted_out-IsSortedOut paragraph paragraphs n (screen_chunk screener paragraph).text
        (screen_chunk screener paragraph).caught (screen_document tools entry paragraphs)
        (sym (screen_chunk_lem screener paragraph).1) (screen_document-IsSortedOut paragraphs)

  -- A chunk of the entry: of its configuration and field, under the new document, with a clean text.
  abbrev pub IsAdded : ChunkRow → Type 0
  IsAdded c =
      (c.airframe_config_id ≡ entry.airframe_config_id)
      × (c.field_path ≡ entry.field_path)
      × (c.document_id ≡ tools.document_id)
      × (imperative c.text ≡ none)

  with_vector-IsAdded :
      (index : ℕ) (text : String) (embedder : Option (EmbeddingProvider F)) (v : Option (List F))
      (c : ChunkRow)
      → imperative text ≡ none
      → with_vector tools entry index text embedder v ≡ some c
      → IsAdded c
  with_vector-IsAdded index text embedder none c h e = absurd (cc)
  with_vector-IsAdded index text none (some v) c h e =
      subst IsAdded (some-injective _ _ e) (refl, refl, refl, h)
  with_vector-IsAdded index text (some p) (some v) c h e =
      subst IsAdded (some-injective _ _ e) (refl, refl, refl, h)

  one_chunk-IsAdded :
      (index : ℕ) (text : String) (embedder : Option (EmbeddingProvider F))
      (vectors : List (List F)) (c : ChunkRow)
      → imperative text ≡ none
      → one_chunk tools entry index text embedder vectors ≡ some c
      → IsAdded c
  one_chunk-IsAdded index text embedder [] c h e =
      subst IsAdded (some-injective _ _ e) (refl, refl, refl, h)
  one_chunk-IsAdded index text embedder (v ∷ vs) c h e =
      with_vector-IsAdded index text embedder (nth index (v ∷ vs)) c h e

  AreAdded : List String → List ChunkRow → Type 0
  AreAdded clean chunks = (length chunks ≡ length clean) × All IsAdded chunks

  row_and-AreAdded :
      (text : String) (clean : List String) (row : Option ChunkRow) (rest : Option (List ChunkRow))
      (chunks : List ChunkRow)
      → ((c : ChunkRow) → row ≡ some c → IsAdded c)
      → ((cs : List ChunkRow) → rest ≡ some cs → AreAdded clean cs)
      → row_and row rest ≡ some chunks
      → AreAdded (text ∷ clean) chunks
  unfolding AreAdded
  row_and-AreAdded text clean none rest chunks p q e = absurd (cc)
  row_and-AreAdded text clean (some c) none chunks p q e = absurd (cc)
  row_and-AreAdded text clean (some c) (some cs) chunks p q e =
      subst (λ xs. (length xs ≡ suc (length clean)) × All IsAdded xs) (some-injective _ _ e)
        (omega (arith, (q cs refl).0), (p c refl, (q cs refl).1))

  add_chunks-AreAdded :
      (embedder : Option (EmbeddingProvider F)) (vectors : List (List F)) (index : ℕ)
      (clean : List String)
      → All (λ text. imperative text ≡ none) clean
      → (chunks : List ChunkRow) → add_chunks tools entry embedder vectors index clean ≡ some chunks
      → AreAdded clean chunks
  unfolding add_chunks AreAdded
  add_chunks-AreAdded embedder vectors index [] h chunks e =
      subst (λ xs. (length xs ≡ 0) × All IsAdded xs) (some-injective _ _ e) (refl, tt)
  add_chunks-AreAdded embedder vectors index (text ∷ clean) h chunks e =
      row_and-AreAdded text clean (one_chunk tools entry index text embedder vectors) _ chunks
        (λ c e. one_chunk-IsAdded index text embedder vectors c h.0 e)
        (add_chunks-AreAdded embedder vectors (suc index) clean h.1) e

  -- An ingest that stores something: what it checked, screened and added.
  pub record IsIngest (content : String) (production : Bool) (before after : Corpus)
      (summary : IngestSummary) : Type 0 where
    pub checked : verify entry (tools.digest content) production ≡ verified
    pub chunks : List ChunkRow
    pub held : List QuarantineRow
    pub all_added : All IsAdded chunks
    pub all_held : All IsHeld held
    pub counted :
        length chunks + length held ≡ length (split_paragraphs tools (tools.decode content))
    pub new_chunks : after.chunks ≡ chunks ++ before.chunks
    pub new_quarantine : after.quarantine ≡ held ++ before.quarantine
    pub chunk_count : summary.chunks ≡ length chunks
    pub held_count : summary.quarantined ≡ length held
    pub keys : distinct (chunk_keys after.chunks) ≡ true

  module _ (content : String) (production : Bool) (before : Corpus) where
    abbrev paragraphs : List String
    paragraphs = split_paragraphs tools (tools.decode content)

    -- What an ingest that stores something has done; an error has done nothing.
    abbrev WhenStored : Ingested → Type 0
    WhenStored (stored summary after) = IsIngest content production before after summary
    WhenStored _ = Unit

    committed-WhenStored :
        (s : Screened tools) (chunks : Option (List ChunkRow))
        → verify entry (tools.digest content) production ≡ verified
        → IsSortedOut paragraphs s
        → ((cs : List ChunkRow) → chunks ≡ some cs → AreAdded s.clean cs)
        → WhenStored (committed tools entry before s chunks)
    unfolding AreAdded
    committed-WhenStored s none v h p = tt
    committed-WhenStored s (some chunks) v h p =
        elim (Bool-cases (commits before (document_row tools entry) chunks s.held)) [
          | inl ok ↦ rw ok (record {
            checked = v;
            chunks = chunks;
            held = s.held;
            all_added = (p chunks refl).1;
            all_held = h.held;
            counted = omega (arith, (p chunks refl).0, h.counted);
            new_chunks = refl;
            new_quarantine = refl;
            chunk_count = refl;
            held_count = refl;
            keys = (and_lem _ _ (and_lem _ _ ok).0).1;
          })
          | inr clash ↦ rw clash tt
        ]

    embedded-WhenStored :
        (embedder : Option (EmbeddingProvider F)) (s : Screened tools)
        (vectors : Option (List (List F)))
        → verify entry (tools.digest content) production ≡ verified
        → IsSortedOut paragraphs s
        → WhenStored (embedded tools entry before embedder s vectors)
    embedded-WhenStored embedder s none v h = tt
    embedded-WhenStored embedder s (some vectors) v h =
        committed-WhenStored s (add_chunks tools entry embedder vectors 0 s.clean) v h
          (add_chunks-AreAdded embedder vectors 0 s.clean h.clean)

    after_verify-WhenStored :
        (embedder : Option (EmbeddingProvider F)) (verdict : Verdict)
        → verify entry (tools.digest content) production ≡ verdict
        → WhenStored (after_verify tools entry before content embedder verdict)
    after_verify-WhenStored embedder eval_only v = tt
    after_verify-WhenStored embedder wrong_hash v = tt
    after_verify-WhenStored embedder verified v =
        let s = screen_document tools entry paragraphs 0 in
        embedded-WhenStored embedder s (embed_clean tools embedder s.clean) v
          (screen_document-IsSortedOut paragraphs 0)

    pub ingest_document-IsIngest :
        (embedder : Option (EmbeddingProvider F)) (summary : IngestSummary) (after : Corpus)
        → ingest_document tools entry content production embedder before ≡ stored summary after
        → IsIngest content production before after summary
    unfolding ingest_document
    ingest_document-IsIngest embedder summary after e =
        subst WhenStored e (after_verify-WhenStored embedder _ refl)

    module _ (embedder : Option (EmbeddingProvider F)) {summary : IngestSummary} {after : Corpus}
        (ingested : ingest_document tools entry content production embedder before
          ≡ stored summary after) where
      -- An ingest drops no paragraph: each long enough paragraph of the document is counted, as a chunk
      -- or as quarantined, and the two tables grow by just these counts.
      ingest_document_lem :
          (summary.chunks + summary.quarantined
            ≡ length (split_paragraphs tools (tools.decode content)))
          × (length after.chunks ≡ summary.chunks + length before.chunks)
          × (length after.quarantine ≡ summary.quarantined + length before.quarantine)
      ingest_document_lem =
          let i = ingest_document-IsIngest embedder summary after ingested in
          (
            omega (arith, i.counted, i.chunk_count, i.held_count),
            rw i.new_chunks (omega (arith, length-append i.chunks before.chunks, i.chunk_count)),
            rw i.new_quarantine
                (omega (arith, length-append i.held before.quarantine, i.held_count)),
          )
