-- ===== src/Eval/Harness/Gate.antt =====
-- The counts of an evaluation, and its gate on leaks.
use lang_graph_uas.Prelude.{
  ℕ, suc, Bool, true, false, ◌||◌, List, [], ◌∷◌, map, Option, none, some, String, length,
  length-append, distinct, lookup, All, arith, ◌≡◌, refl, subst, ◌≤◌, if◌then◌else◌,
}
use Prim.Native.Nat
use mathlib.Core.Option.{some-injective}
use lang_graph_uas.Float.{Float}
use lang_graph_uas.Rag.Rows.{Corpus}
use lang_graph_uas.Rag.Manifest.{ManifestEntry}
use lang_graph_uas.Rag.Retrieve.{Evidence, EmbeddingProvider}
use lang_graph_uas.Rag.Ingest.{
  Tools, IngestSummary, chunk_keys, Ingested, stored, manifest_error, embedding_error, index_error,
  integrity_error, ingest_document,
}
use lang_graph_uas.Rag.Ingest.Accounts.{ingest_document-IsIngest}
use lang_graph_uas.Eval.Metrics.{Fixture, RetrievedChunk, wrong_config_leak}
use lang_graph_uas.Eval.Scoring.{int_of}
use lang_graph_uas.Eval.Harness.{
  Owners, owners_of, retrieved_chunk, PerClass, Totals, no_totals, cross_config_leak, other_configs,
  counted, count_answerable, count_unanswerable, measured, measure_one, and_then, measure_all,
  ingest_next, ingest_all, measured_by, measured_over, measure,
}
use lang_graph_uas.Eval.Harness.Leaks.{no_leak_found, leaks_among-false, wrong_config_leak-false}

-- The counts of `n` fixtures, none of which leaked: each is answerable or not, and no rate is above 1.
pub record IsTally {F : Type 0} (n : ℕ) (t : Totals F) : Type 0 where
  pub all_counted : Nat.◌+◌ t.answerable t.unanswerable ≡ n
  pub no_leaks : t.leaks ≡ 0
  pub hits : t.recall_hits ≤ t.answerable
  pub wins : t.hard_negative_wins ≤ t.answerable
  pub silent : t.abstentions ≤ t.answerable
  pub confirms : t.false_confirms ≤ t.unanswerable
  pub ranks : length t.reciprocal_ranks ≡ t.answerable
  pub shares : length t.precisions ≡ t.answerable

int_of-le : (b : Bool) → int_of b ≤ 1
int_of-le true = omega arith
int_of-le false = omega arith

module _ {F : Type 0} ⦃f : Float F⦄ where
  count_answerable-IsTally :
      (n : ℕ) (fixture : Fixture) (retrieved : List RetrievedChunk) (t : Totals F)
      → IsTally n t
      → IsTally (suc n) (count_answerable fixture retrieved false t)
  count_answerable-IsTally n fixture retrieved t h = record {
    all_counted = omega (arith, h.all_counted);
    no_leaks = omega (arith, h.no_leaks);
    hits = omega (arith, h.hits, int_of-le _);
    wins = omega (arith, h.wins, int_of-le _);
    silent = omega (arith, h.silent, int_of-le _);
    confirms = h.confirms;
    ranks = omega (arith, h.ranks, length-append t.reciprocal_ranks _);
    shares = omega (arith, h.shares, length-append t.precisions _);
  }

  count_unanswerable-IsTally :
      (n : ℕ) (fixture : Fixture) (retrieved : List RetrievedChunk) (t : Totals F)
      → IsTally n t
      → IsTally (suc n) (count_unanswerable fixture retrieved false t)
  count_unanswerable-IsTally n fixture retrieved t h = record {
    all_counted = omega (arith, h.all_counted);
    no_leaks = omega (arith, h.no_leaks);
    hits = h.hits;
    wins = h.wins;
    silent = h.silent;
    confirms = omega (arith, h.confirms, int_of-le _);
    ranks = h.ranks;
    shares = h.shares;
  }

  counted-IsTally :
      (n : ℕ) (fixture : Fixture) (retrieved : List RetrievedChunk) (leaked : Bool) (t : Totals F)
      → (leaked || wrong_config_leak retrieved fixture) ≡ false
      → IsTally n t
      → IsTally (suc n) (counted fixture retrieved leaked t)
  counted-IsTally n fixture retrieved leaked t clean h = rw clean (at_answerable fixture.answerable)
    where
      at_answerable :
          (b : Bool)
          → IsTally (suc n) (
              if b
              then count_answerable fixture retrieved false t
              else count_unanswerable fixture retrieved false t)
      at_answerable true = count_answerable-IsTally n fixture retrieved t h
      at_answerable false = count_unanswerable-IsTally n fixture retrieved t h

module _ {F : Type 0} ⦃f : Float F⦄ (arrange : List String → List String)
    (loads : String → Option (List F)) (embedder : EmbeddingProvider F) where
  module _ (corpus : Corpus) (keys : distinct (chunk_keys corpus.chunks) ≡ true) (owners : Owners)
      (owned : owners_of corpus.chunks [] ≡ some owners) where
    measured-IsTally :
        (n : ℕ) (fixture : Fixture) (evidence : Option (List (Evidence F))) (leaked : Option Bool)
        (t r : Totals F × PerClass)
        → ((es : List (Evidence F))
            → evidence ≡ some es
            → All (λ e. lookup e.chunk_id owners ≡ some fixture.airframe_config_id) es)
        → ((b : Bool) → leaked ≡ some b → b ≡ false)
        → IsTally n t.0
        → measured arrange loads embedder corpus owners fixture evidence leaked t ≡ some r
        → IsTally (suc n) r.0
    measured-IsTally n fixture none leaked t r p q h e = absurd (cc)
    measured-IsTally n fixture (some es) none t r p q h e = absurd (cc)
    measured-IsTally n fixture (some es) (some b) (t, pc) r p q h e =
        let retrieved = map (retrieved_chunk owners) es in
        let right =
          wrong_config_leak-false arrange loads embedder corpus keys owners owned fixture es
            (p es refl) in
        subst (λ x. IsTally (suc n) x.0) (some-injective _ _ e)
          (counted-IsTally n fixture retrieved b t (rw (q b refl, right) refl) h)

    measure_all-IsTally :
        (fixtures : List Fixture) (n : ℕ) (t r : Totals F × PerClass)
        → IsTally n t.0
        → measure_all arrange loads embedder corpus owners fixtures t ≡ some r
        → IsTally (Nat.◌+◌ n (length fixtures)) r.0
    unfolding measure_all cross_config_leak
    measure_all-IsTally [] n t r h e =
        let same : n ≡ Nat.◌+◌ n 0 = omega arith in
        subst (λ x. IsTally (Nat.◌+◌ n 0) x.0) (some-injective _ _ e)
          (subst (λ m. IsTally m t.0) same h)
    measure_all-IsTally (fixture ∷ fixtures) n t r h e =
        at_next (measure_one arrange loads embedder corpus owners fixture t)
          (λ next e'.
            measured-IsTally n fixture _ _ t next
              (no_leak_found arrange loads embedder corpus keys owners owned fixture
                fixture.airframe_config_id fixture.field_path)
              (leaks_among-false arrange loads embedder corpus keys owners owned fixture
                (other_configs owners fixture))
              h e')
          (measure_all-IsTally fixtures (suc n)) e
      where
        at_next :
            (next : Option (Totals F × PerClass))
            → ((x : Totals F × PerClass) → next ≡ some x → IsTally (suc n) x.0)
            → ((x r : Totals F × PerClass)
                → IsTally (suc n) x.0
                → measure_all arrange loads embedder corpus owners fixtures x ≡ some r
                → IsTally (Nat.◌+◌ (suc n) (length fixtures)) r.0)
            → and_then arrange loads embedder corpus owners
                (measure_all arrange loads embedder corpus owners fixtures)
                next
              ≡ some r
            → IsTally (Nat.◌+◌ n (suc (length fixtures))) r.0
        at_next none p ih e = absurd (cc)
        at_next (some x) p ih e =
            let same : Nat.◌+◌ (suc n) (length fixtures) ≡ Nat.◌+◌ n (suc (length fixtures)) =
              omega arith in
            subst (λ m. IsTally m r.0) same (ih x r (p x refl) e)

  module _ (tools : ManifestEntry → Tools F) (read : String → String) where
    ingest_all-distinct :
        (entries : List ManifestEntry) (before after : Corpus)
        → distinct (chunk_keys before.chunks) ≡ true
        → ingest_all tools read embedder entries before ≡ some after
        → distinct (chunk_keys after.chunks) ≡ true
    unfolding ingest_all
    ingest_all-distinct [] before after h e =
        subst (λ c. distinct (chunk_keys c.chunks) ≡ true) (some-injective _ _ e) h
    ingest_all-distinct (entry ∷ entries) before after h e =
        at_ingested
          (ingest_document (tools entry) entry (read entry.path) false (some embedder) before)
          (λ summary c e'.
            (ingest_document-IsIngest (tools entry) entry (read entry.path) false before
              (some embedder) summary c e').keys)
          (ingest_all-distinct entries) e
      where
        at_ingested :
            (i : Ingested)
            → ((summary : IngestSummary) (c : Corpus)
                → i ≡ stored summary c
                → distinct (chunk_keys c.chunks) ≡ true)
            → ((b a : Corpus)
                → distinct (chunk_keys b.chunks) ≡ true
                → ingest_all tools read embedder entries b ≡ some a
                → distinct (chunk_keys a.chunks) ≡ true)
            → ingest_next tools read i (ingest_all tools read embedder entries) ≡ some after
            → distinct (chunk_keys after.chunks) ≡ true
        at_ingested (stored summary c) p ih e = ih c after (p summary c refl) e
        at_ingested (manifest_error v) p ih e = absurd (cc)
        at_ingested embedding_error p ih e = absurd (cc)
        at_ingested index_error p ih e = absurd (cc)
        at_ingested integrity_error p ih e = absurd (cc)

    -- On a database whose chunks have distinct ids, an evaluation that returns has counted every fixture
    -- once, has found no leak at all, and counts no more hits, wins and abstentions than answerable
    -- fixtures and no more false confirmations than unanswerable ones.
    pub measure-IsTally :
        (entries : List ManifestEntry) (fixtures : List Fixture) (database : Corpus)
        (r : Totals F × PerClass)
        → distinct (chunk_keys database.chunks) ≡ true
        → measure arrange loads embedder tools read entries fixtures database ≡ some r
        → IsTally (length fixtures) r.0
    unfolding measure
    measure-IsTally entries fixtures database r h e =
        at_corpus (ingest_all tools read embedder entries database)
          (λ c. ingest_all-distinct entries database c h) e
      where
        no_tally : IsTally {F = F} 0 no_totals
        no_tally = record {
          all_counted = refl;
          no_leaks = refl;
          hits = omega arith;
          wins = omega arith;
          silent = omega arith;
          confirms = omega arith;
          ranks = refl;
          shares = refl;
        }

        at_owners :
            (c : Corpus) (owners : Option Owners)
            → distinct (chunk_keys c.chunks) ≡ true
            → owners_of c.chunks [] ≡ owners
            → measured_by arrange loads embedder tools read fixtures c owners ≡ some r
            → IsTally (length fixtures) r.0
        at_owners c none keys o e = absurd (cc)
        at_owners c (some owners) keys o e =
            let same : Nat.◌+◌ 0 (length fixtures) ≡ length fixtures = omega arith in
            subst (λ m. IsTally m r.0) same
              (measure_all-IsTally c keys owners o fixtures 0 (no_totals, []) r no_tally e)

        at_corpus :
            (c : Option Corpus)
            → ((x : Corpus) → c ≡ some x → distinct (chunk_keys x.chunks) ≡ true)
            → measured_over arrange loads embedder tools read fixtures c ≡ some r
            → IsTally (length fixtures) r.0
        at_corpus none p e = absurd (cc)
        at_corpus (some c) p e = at_owners c (owners_of c.chunks []) (p c refl) refl e
