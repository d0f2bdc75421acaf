-- ===== src/Rag/Ingest/Quarantine.antt =====
-- What the screening keeps out of the corpus and of its searches, and what a quarantine blocks.
use lang_graph_uas.Prelude.{
  Bool, true, false, not, List, [], ◌∷◌, ◌++◌, map, Option, none, some, String, length, keep_if,
  present, is_blank, str_eq, holds, if◌then◌else◌, All, Any, All-map, All-append, inl, inr, arith,
  ◌≡◌, refl, sym, subst, ◌<◌,
}
use text.Mathlib.TextPositions.{eq_refl}
use lang_graph_uas.Float.{Float}
use lang_graph_uas.Rag.Rows.{QuarantineRow, Corpus}
use lang_graph_uas.Rag.Manifest.{
  ManifestEntry, verified, verify, production_forbidden_kinds, verify-verified,
}
use lang_graph_uas.Rag.Screening.{Screener}
use lang_graph_uas.Rag.Retrieve.{Evidence, EmbeddingProvider, Search, retrieve}
use lang_graph_uas.Rag.Retrieve.Sources.{IsGrounded, retrieve-IsGrounded}
use lang_graph_uas.Rag.Ingest.{
  IngestSummary, Tools, stored, ingest_document, is_open, open_quarantine_configs,
  has_open_quarantine,
}
use lang_graph_uas.Rag.Ingest.Accounts.{IsHeld, IsAdded, IsIngest, ingest_document-IsIngest}

-- The tripwire does not catch the text of any chunk.
abbrev pub IsScreened : Screener → Corpus → Type 0
IsScreened screener corpus = All (λ c. screener.imperative c.text ≡ none) corpus.chunks

-- A value that stands in a list has what all of it has.
All-at : {A : Type 0} (P : A → Type 0) (x : A) (xs : List A) → All P xs → Any (λ y. y ≡ x) xs → P x
All-at P x [] h a = absurd a
All-at P x (y ∷ ys) h (inl same) = subst P same h.0
All-at P x (y ∷ ys) h (inr more) = All-at P x ys h.1 more

-- The configuration of an open entry is among the open ones.
open_held :
    (config : String) (q : QuarantineRow) (held older : List QuarantineRow)
    → is_blank config ≡ false
    → is_open q ≡ true
    → q.airframe_config_id ≡ some config
    → holds config (
        keep_if
          (λ c. not (is_blank c))
          (present (map (λ q. q.airframe_config_id) (keep_if is_open (q ∷ held ++ older)))))
      ≡ true
open_held config q held older named o e = rw (o, e, named, eq_refl config) refl

module _ {F : Type 0} (tools : Tools F) (entry : ManifestEntry) where
  module _ (content : String) (production : Bool) (before : Corpus)
      (embedder : Option (EmbeddingProvider F)) {summary : IngestSummary} {after : Corpus}
      (ingested : ingest_document tools entry content production embedder before
        ≡ stored summary after) where
    ingest : IsIngest tools entry content production before after summary
    ingest =
        ingest_document-IsIngest tools entry content production before embedder summary after
          ingested

    -- An ingest into a screened corpus leaves it screened: no text that the tripwire catches becomes a
    -- chunk.
    pub ingest_document-IsScreened :
        IsScreened tools.screener before → IsScreened tools.screener after
    ingest_document-IsScreened h = rw ingest.new_chunks (
        All-append (λ c. tools.screener.imperative c.text ≡ none) ingest.chunks before.chunks
          (All-map (IsAdded tools entry) (λ c. tools.screener.imperative c.text ≡ none) (λ c a. a.3)
            ingest.chunks ingest.all_added)
          h)

    blocks_now :
        {config : String}
        → entry.airframe_config_id ≡ some config
        → is_blank config ≡ false
        → 0 < summary.quarantined
        → has_open_quarantine after (some config) ≡ true
    unfolding has_open_quarantine open_quarantine_configs
    blocks_now {config} of_config named some_held =
        rw ingest.new_quarantine
          (at_held ingest.held ingest.all_held (omega (arith, ingest.held_count)))
      where
        at_held :
            (held : List QuarantineRow)
            → All (IsHeld tools entry) held
            → 0 < length held
            → holds config (
                keep_if
                  (λ c. not (is_blank c))
                  (present (
                    map (λ q. q.airframe_config_id) (keep_if is_open (held ++ before.quarantine)))))
              ≡ true
        at_held [] h p = absurd (omega arith)
        at_held (q ∷ held) h p =
            open_held config q held before.quarantine named (rw h.0.2 refl)
              (rw (h.0.0, of_config) refl)

    -- What production ingests is of a kind that is not for evaluation only, and its bytes hash to what the
    -- manifest records.
    pub ingest_document-IsVerified :
        production ≡ true
        → (holds entry.kind production_forbidden_kinds ≡ false)
          × (str_eq (tools.digest content) entry.sha256 ≡ true)
    ingest_document-IsVerified e =
        verify-verified entry (tools.digest content)
          (subst (λ p. verify entry (tools.digest content) p ≡ verified) e ingest.checked)

-- The corpora that further ingests make of one, whatever they ingest and how. Only the clearing of an
-- entry, which no code of the repository does, is left out.
pub data IsLater (F : Type 0) (start : Corpus) : Corpus → Type 0 where
  here : IsLater F start start
  then_ingested :
      (tools : Tools F) (entry : ManifestEntry) (content : String) (production : Bool)
      (embedder : Option (EmbeddingProvider F)) {before after : Corpus} {summary : IngestSummary}
      → ingest_document tools entry content production embedder before ≡ stored summary after
      → IsLater F start before
      → IsLater F start after

-- More entries block whatever fewer blocked.
open_more :
    (config : String) (held older : List QuarantineRow)
    → holds config (
        keep_if
          (λ c. not (is_blank c))
          (present (map (λ q. q.airframe_config_id) (keep_if is_open older))))
      ≡ true
    → holds config (
        keep_if
          (λ c. not (is_blank c))
          (present (map (λ q. q.airframe_config_id) (keep_if is_open (held ++ older)))))
      ≡ true
open_more config [] older h = h
open_more config (q ∷ held) older h =
    at_entry (is_open q) q.airframe_config_id (open_more config held older h)
  where
    open_rest : List (Option String)
    open_rest = map (λ q. q.airframe_config_id) (keep_if is_open (held ++ older))

    at_entry :
        (b : Bool) (cell : Option String)
        → holds config (keep_if (λ c. not (is_blank c)) (present open_rest)) ≡ true
        → holds config (
            keep_if
              (λ c. not (is_blank c))
              (present (
                map
                  (λ q. q.airframe_config_id)
                  (if b
                    then q ∷ keep_if is_open (held ++ older)
                    else keep_if is_open (held ++ older)))))
          ≡ true
    at_entry false cell h = h
    at_entry true cell h = at_cell q.airframe_config_id h
      where
        at_cell :
            (cell : Option String)
            → holds config (keep_if (λ c. not (is_blank c)) (present open_rest)) ≡ true
            → holds config (keep_if (λ c. not (is_blank c)) (present (cell ∷ open_rest))) ≡ true
        at_cell none h = h
        at_cell (some other) h = ground (arith, h)

later-blocks :
    (F : Type 0) (config : String) {start later : Corpus}
    → IsLater F start later
    → has_open_quarantine start (some config) ≡ true
    → has_open_quarantine later (some config) ≡ true
unfolding has_open_quarantine open_quarantine_configs
later-blocks F config here h = h
later-blocks F config
      (then_ingested tools entry content production embedder {before} {after} {summary} done l) h =
    let i =
      ingest_document-IsIngest tools entry content production before embedder summary after done in
    rw i.new_quarantine (open_more config i.held before.quarantine (later-blocks F config l h))

-- A document whose ingest quarantined something, for a configuration that it names by a text that is not
-- empty, blocks that configuration, and goes on to whatever documents are ingested after it: an entry
-- that is not cleared is never dropped.
pub ingest_document-blocks :
    {F : Type 0} (tools : Tools F) (entry : ManifestEntry) (content : String) (production : Bool)
    (before : Corpus) (embedder : Option (EmbeddingProvider F)) {summary : IngestSummary}
    {after later : Corpus} {config : String}
    → ingest_document tools entry content production embedder before ≡ stored summary after
    → entry.airframe_config_id ≡ some config
    → is_blank config ≡ false
    → 0 < summary.quarantined
    → IsLater F after later
    → has_open_quarantine later (some config) ≡ true
ingest_document-blocks {F} tools entry content production before embedder {config = config} done
      named blank held l =
    later-blocks F config l
      (blocks_now tools entry content production before embedder done named blank held)

-- No search over a screened corpus returns a text that the tripwire catches.
pub retrieve-IsScreened :
    {F : Type 0} ⦃f : Float F⦄ (arrange : List String → List String)
    (loads : String → Option (List F)) (screener : Screener) (embedder : EmbeddingProvider F)
    (s : Search) (corpus : Corpus) (es : List (Evidence F))
    → IsScreened screener corpus
    → retrieve arrange loads embedder s corpus ≡ some es
    → All (λ e. screener.imperative e.text ≡ none) es
retrieve-IsScreened arrange loads screener embedder s corpus es h e =
    All-map (IsGrounded s corpus) (λ e. screener.imperative e.text ≡ none)
      (λ e g.
        rw g.2.quotes
          (All-at (λ c. screener.imperative c.text ≡ none) g.0.0 corpus.chunks h g.1.stored))
      es (retrieve-IsGrounded arrange loads embedder s corpus es e)

-- The corpora that ingests build: from the empty tables, by any documents, tools of one screener, modes
-- and providers.
pub data IsBuilt (F : Type 0) (screener : Screener) : Corpus → Type 0 where
  nothing : IsBuilt F screener (record { documents = []; chunks = []; quarantine = [] })
  ingested :
      (tools : Tools F) (entry : ManifestEntry) (content : String) (production : Bool)
      (embedder : Option (EmbeddingProvider F)) {before after : Corpus} {summary : IngestSummary}
      → tools.screener ≡ screener
      → ingest_document tools entry content production embedder before ≡ stored summary after
      → IsBuilt F screener before
      → IsBuilt F screener after

built-IsScreened :
    (F : Type 0) (screener : Screener) {corpus : Corpus}
    → IsBuilt F screener corpus
    → IsScreened screener corpus
built-IsScreened F screener nothing = tt
built-IsScreened F screener
      (ingested tools entry content production embedder {before} {after} same done built) =
    subst (λ s. IsScreened s after) same
      (ingest_document-IsScreened tools entry content production before embedder done
        (subst (λ s. IsScreened s before) (sym same) (built-IsScreened F screener built)))

-- No search over a corpus that ingests have built returns a text that the tripwire catches.
pub retrieve-built :
    {F : Type 0} ⦃f : Float F⦄ (arrange : List String → List String)
    (loads : String → Option (List F)) (screener : Screener) (embedder : EmbeddingProvider F)
    (s : Search) (corpus : Corpus) (es : List (Evidence F))
    → IsBuilt F screener corpus
    → retrieve arrange loads embedder s corpus ≡ some es
    → All (λ e. screener.imperative e.text ≡ none) es
retrieve-built {F} arrange loads screener embedder s corpus es built e =
    retrieve-IsScreened arrange loads screener embedder s corpus es
      (built-IsScreened F screener built) e
