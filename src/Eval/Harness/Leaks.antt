-- ===== src/Eval/Harness/Leaks.antt =====
-- That the evaluation finds no chunk of another configuration.
use lang_graph_uas.Prelude.{
  Bool, true, false, List, [], ◌∷◌, map, Option, none, some, String, any, str_eq, holds, distinct,
  lookup, insert, lookup-insert, lookup-insert_other, All, Any, All-map, and_lem, inl, inr, arith,
  ◌≡◌, refl, sym, ap, subst, ◌∙◌,
}
use text.Mathlib.TextPositions.{eq_refl}
use mathlib.Core.Option.{some-injective}
use lang_graph_uas.Float.{Float}
use lang_graph_uas.Rag.Rows.{ChunkRow, Corpus}
use lang_graph_uas.Rag.Retrieve.{Evidence, EmbeddingProvider, Search}
use lang_graph_uas.Rag.Retrieve.Sources.{IsGrounded, retrieve-IsGrounded}
use lang_graph_uas.Rag.Ingest.{chunk_keys}
use lang_graph_uas.Eval.Metrics.{Fixture, wrong_config_leak}
use lang_graph_uas.Eval.Harness.{
  Owners, next_owner, owners_of, retrieved_chunk, belongs_elsewhere, search_for, leak_or,
  leaks_among,
}

owners_of-other :
    (id : String) (cs : List ChunkRow) (before owners : Owners)
    → holds id (chunk_keys cs) ≡ false
    → owners_of cs before ≡ some owners
    → lookup id owners ≡ lookup id before
unfolding owners_of
owners_of-other id [] before owners h e = ap (lookup id) (sym (some-injective _ _ e))
owners_of-other id (c ∷ cs) before owners h e =
    at_config c.airframe_config_id (owners_of-other id cs) e
  where
    at_config :
        (config : Option String)
        → ((b o : Owners)
            → holds id (chunk_keys cs) ≡ false
            → owners_of cs b ≡ some o
            → lookup id o ≡ lookup id b)
        → next_owner config c.chunk_id before (owners_of cs) ≡ some owners
        → lookup id owners ≡ lookup id before
    at_config none ih e = absurd (cc)
    at_config (some config) ih e =
        let apart : str_eq c.chunk_id id ≡ false = ground arith in
        ih (insert c.chunk_id config before) owners (ground arith) e
        ∙ lookup-insert_other c.chunk_id id config before apart

-- The table of the owners has every chunk's own configuration, where no two chunks share an id.
owners_of-owns :
    (x : ChunkRow) (cs : List ChunkRow) (before owners : Owners)
    → distinct (chunk_keys cs) ≡ true
    → owners_of cs before ≡ some owners
    → Any (λ c. c ≡ x) cs
    → lookup x.chunk_id owners ≡ x.airframe_config_id
unfolding owners_of
owners_of-owns x [] before owners d e a = absurd a
owners_of-owns x (c ∷ cs) before owners d e (inl same) =
    subst (λ y. lookup y.chunk_id owners ≡ y.airframe_config_id) same
      (at_config c.airframe_config_id (owners_of-other c.chunk_id cs) e)
  where
    at_config :
        (config : Option String)
        → ((b o : Owners)
            → holds c.chunk_id (chunk_keys cs) ≡ false
            → owners_of cs b ≡ some o
            → lookup c.chunk_id o ≡ lookup c.chunk_id b)
        → next_owner config c.chunk_id before (owners_of cs) ≡ some owners
        → lookup c.chunk_id owners ≡ config
    at_config none other e = absurd (cc)
    at_config (some config) other e =
        other (insert c.chunk_id config before) owners (ground arith) e
        ∙ lookup-insert c.chunk_id config before
owners_of-owns x (c ∷ cs) before owners d e (inr more) =
    at_config c.airframe_config_id (λ b e. owners_of-owns x cs b owners (and_lem _ _ d).1 e more) e
  where
    at_config :
        (config : Option String)
        → ((b : Owners)
            → owners_of cs b ≡ some owners
            → lookup x.chunk_id owners ≡ x.airframe_config_id)
        → next_owner config c.chunk_id before (owners_of cs) ≡ some owners
        → lookup x.chunk_id owners ≡ x.airframe_config_id
    at_config none ih e = absurd (cc)
    at_config (some config) ih e = ih (insert c.chunk_id config before) e

any-false : {A : Type 0} (p : A → Bool) (xs : List A) → All (λ x. p x ≡ false) xs → any p xs ≡ false
any-false p [] h = refl
any-false p (x ∷ xs) h = rw h.0 (any-false p xs h.1)

module _ {F : Type 0} ⦃f : Float F⦄ (arrange : List String → List String)
    (loads : String → Option (List F)) (embedder : EmbeddingProvider F) (corpus : Corpus)
    (keys : distinct (chunk_keys corpus.chunks) ≡ true) (owners : Owners)
    (owned : owners_of corpus.chunks [] ≡ some owners) where
  -- The owner of each item of a search is the configuration that the search was for.
  owner_of_evidence :
      (s : Search) (e : Evidence F)
      → IsGrounded s corpus e
      → lookup e.chunk_id owners ≡ some s.airframe_config_id
  owner_of_evidence s e (row, source, quote) =
      ap (λ (id : String). lookup id owners) quote.of_chunk
      ∙ owners_of-owns row.0 corpus.chunks [] owners keys owned source.stored
      ∙ source.of_config

  pub no_leak_found :
      (fixture : Fixture) (config : String) (field : Option String) (es : List (Evidence F))
      → search_for arrange loads embedder corpus owners fixture config field ≡ some es
      → All (λ e. lookup e.chunk_id owners ≡ some config) es
  no_leak_found fixture config field es e =
      let s : Search = record {
        query = fixture.question;
        airframe_config_id = config;
        field_path = field;
        candidates = 20;
        top_k = 4;
      } in
      All-map (IsGrounded s corpus) (λ e. lookup e.chunk_id owners ≡ some config)
        (λ e g. owner_of_evidence s e g) es
        (retrieve-IsGrounded arrange loads embedder s corpus es e)

  pub leaks_among-false :
      (fixture : Fixture) (configs : List String) (b : Bool)
      → leaks_among arrange loads embedder corpus owners fixture configs ≡ some b
      → b ≡ false
  unfolding leaks_among
  leaks_among-false fixture [] b e = sym (some-injective _ _ e)
  leaks_among-false fixture (config ∷ configs) b e =
      at_hits (search_for arrange loads embedder corpus owners fixture config none)
        (no_leak_found fixture config none)
        (leaks_among arrange loads embedder corpus owners fixture configs)
        (leaks_among-false fixture configs b) e
    where
      at_hits :
          (hits : Option (List (Evidence F)))
          → ((es : List (Evidence F))
              → hits ≡ some es
              → All (λ e. lookup e.chunk_id owners ≡ some config) es)
          → (rest : Option Bool) → (rest ≡ some b → b ≡ false)
          → leak_or arrange loads embedder corpus owners config hits rest ≡ some b
          → b ≡ false
      at_hits none h rest ih e = absurd (cc)
      at_hits (some es) h rest ih e =
          let none_else = any-false (belongs_elsewhere owners config) es (
            All-map (λ e. lookup e.chunk_id owners ≡ some config)
              (λ e. belongs_elsewhere owners config e ≡ false) (λ e g. rw (g, eq_refl config) refl)
              es (h es refl)) in
          ih (rw none_else at e)

  pub wrong_config_leak-false :
      (fixture : Fixture) (es : List (Evidence F))
      → All (λ e. lookup e.chunk_id owners ≡ some fixture.airframe_config_id) es
      → wrong_config_leak (map (retrieved_chunk owners) es) fixture ≡ false
  unfolding wrong_config_leak
  wrong_config_leak-false fixture [] h = refl
  wrong_config_leak-false fixture (e ∷ es) h =
      rw (h.0, eq_refl fixture.airframe_config_id) (wrong_config_leak-false fixture es h.1)
