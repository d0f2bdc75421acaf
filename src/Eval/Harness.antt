-- ===== src/Eval/Harness.antt =====
-- backend/suas/eval/harness.py: the retrieval evaluation over an ingested corpus.
pub mod Leaks
pub mod Gate
pub mod Report
use Prim.Native.String
use Prim.Native.Nat.{Ordering}
use Prim.Native.Nat
use lang_graph_uas.Prelude.{
  ℕ, zero, suc, Bool, true, false, not, ◌&&◌, ◌||◌, List, [], ◌∷◌, ◌++◌, map, Option, none, some,
  String, length, any, keep_if, is_empty, str_eq, holds, lookup, insert, or_else, sort,
  if◌then◌else◌,
}
use lang_graph_uas.Float.{Float, zero_f}
use lang_graph_uas.Rag.Rows.{ChunkRow, Corpus}
use lang_graph_uas.Rag.Manifest.{ManifestEntry}
use lang_graph_uas.Rag.Retrieve.{Evidence, EmbeddingProvider, Search, retrieve}
use lang_graph_uas.Rag.Ingest.{Tools, Ingested, stored, ingest_document}
use lang_graph_uas.Eval.Metrics.{
  RetrievedChunk, Fixture, default_k, recall_at_k, reciprocal_rank, precision_at_k,
  hard_negative_above_positive, wrong_config_leak, false_confirm, abstained,
}
use lang_graph_uas.Eval.Stats.{Interval, wilson, pos}
use lang_graph_uas.Eval.Scoring.{int_of}

pub record Totals (F : Type 0) : Type 0 where
  pub answerable : ℕ
  pub unanswerable : ℕ
  pub recall_hits : ℕ
  pub leaks : ℕ
  pub hard_negative_wins : ℕ
  pub false_confirms : ℕ
  pub abstentions : ℕ
  pub reciprocal_ranks : List F
  pub precisions : List F

abbrev pub no_totals : {F : Type 0} → Totals F
no_totals = record {
  answerable = 0;
  unanswerable = 0;
  recall_hits = 0;
  leaks = 0;
  hard_negative_wins = 0;
  false_confirms = 0;
  abstentions = 0;
  reciprocal_ranks = [];
  precisions = [];
}

-- The owner of each chunk, by its id, as the tables have it.
abbrev pub Owners : Type 0
Owners = List (String × String)

abbrev pub next_owner : Option String → String → Owners → (Owners → Option Owners) → Option Owners
next_owner none id owners next = none
next_owner (some config) id owners next = next (insert id config owners)

-- `dict(rows.all())`, which is declared to hold texts only; `none` is a NULL among them.
unfoldable pub owners_of : List ChunkRow → Owners → Option Owners
owners_of [] owners = some owners
owners_of (c ∷ cs) owners = next_owner c.airframe_config_id c.chunk_id owners (owners_of cs)

abbrev pub retrieved_chunk : {F : Type 0} → Owners → Evidence F → RetrievedChunk
retrieved_chunk owners item = record {
  chunk_id = item.chunk_id;
  airframe_config_id = some (or_else (lookup item.chunk_id owners) "UNKNOWN");
  field_path = item.field_path;
}

-- `config_by_chunk.get(item.chunk_id) != config`.
abbrev pub belongs_elsewhere : {F : Type 0} → Owners → String → Evidence F → Bool
belongs_elsewhere owners config item = differs (lookup item.chunk_id owners)
  where
    differs : Option String → Bool
    differs none = true
    differs (some owner) = not (str_eq owner config)

abbrev pub comes_before : String → String → Bool
comes_before a b = elim (String.compare a b) [ Ordering.lt ↦ true | _ ↦ false ]

abbrev text_set : List String → List String
text_set [] = []
text_set (x ∷ xs) = let rest = text_set xs in if holds x rest then rest else x ∷ rest

abbrev values : Owners → List String
values [] = []
values ((id, config) ∷ owners) = config ∷ values owners

-- `sorted(set(config_by_chunk.values()) - {fixture.airframe_config_id})`.
abbrev pub other_configs : Owners → Fixture → List String
other_configs owners fixture =
    sort comes_before (
      keep_if (λ config. not (str_eq config fixture.airframe_config_id)) (text_set (values owners)))

abbrev pub PerClass : Type 0
PerClass = List (String × (ℕ × ℕ))

-- What an answerable fixture adds, and what another one adds, given whether it leaked.
module _ {F : Type 0} ⦃f : Float F⦄ where
  abbrev pub count_answerable : Fixture → List RetrievedChunk → Bool → Totals F → Totals F
  count_answerable fixture retrieved leaked t = record t {
    answerable = suc t.answerable;
    recall_hits = Nat.◌+◌ t.recall_hits (int_of (recall_at_k retrieved fixture default_k));
    reciprocal_ranks = t.reciprocal_ranks ++ (reciprocal_rank retrieved fixture ∷ []);
    precisions = t.precisions ++ (precision_at_k retrieved fixture default_k ∷ []);
    abstentions = Nat.◌+◌ t.abstentions (int_of (abstained retrieved fixture));
    hard_negative_wins =
        Nat.◌+◌ t.hard_negative_wins (int_of (hard_negative_above_positive retrieved fixture));
    leaks = Nat.◌+◌ t.leaks (int_of leaked);
  }

  abbrev pub count_unanswerable : Fixture → List RetrievedChunk → Bool → Totals F → Totals F
  count_unanswerable fixture retrieved leaked t = record t {
    unanswerable = suc t.unanswerable;
    false_confirms = Nat.◌+◌ t.false_confirms (int_of (false_confirm retrieved fixture));
    leaks = Nat.◌+◌ t.leaks (int_of leaked);
  }

  abbrev pub counted : Fixture → List RetrievedChunk → Bool → Totals F → Totals F
  counted fixture retrieved leaked t =
      let any_leak = leaked || wrong_config_leak retrieved fixture in
      if fixture.answerable
      then count_answerable fixture retrieved any_leak t
      else count_unanswerable fixture retrieved any_leak t

-- The class's count goes up by one, and its recall by a hit of an answerable fixture.
abbrev pub classed : Fixture → List RetrievedChunk → PerClass → PerClass
classed fixture retrieved per_class =
    let bucket = or_else (lookup fixture.class_name per_class) (0, 0) in
    let hit = int_of (fixture.answerable && recall_at_k retrieved fixture default_k) in
    insert fixture.class_name (suc bucket.0, Nat.◌+◌ bucket.1 hit) per_class

module _ {F : Type 0} ⦃f : Float F⦄ (arrange : List String → List String)
    (loads : String → Option (List F)) (embedder : EmbeddingProvider F) (corpus : Corpus)
    (owners : Owners) where
  abbrev pub search_for : Fixture → String → Option String → Option (List (Evidence F))
  search_for fixture config field =
      retrieve arrange loads embedder
        (record {
          query = fixture.question;
          airframe_config_id = config;
          field_path = field;
          candidates = 20;
          top_k = 4;
        })
        corpus

  abbrev pub leak_or : String → Option (List (Evidence F)) → Option Bool → Option Bool
  leak_or config none rest = none
  leak_or config (some hits) rest =
      if any (belongs_elsewhere owners config) hits then some true else rest

  unfoldable pub leaks_among : Fixture → List String → Option Bool
  leaks_among fixture [] = some false
  leaks_among fixture (config ∷ configs) =
      leak_or config (search_for fixture config none) (leaks_among fixture configs)

  unfoldable pub cross_config_leak : Fixture → Option Bool
  unfolding leaks_among
  cross_config_leak fixture = leaks_among fixture (other_configs owners fixture)

  abbrev pub measured :
      Fixture
      → Option (List (Evidence F))
      → Option Bool
      → Totals F × PerClass
      → Option (Totals F × PerClass)
  measured fixture none leaked t = none
  measured fixture (some evidence) none t = none
  measured fixture (some evidence) (some leaked) (totals, per_class) =
      let retrieved = map (retrieved_chunk owners) evidence in
      some (counted fixture retrieved leaked totals, classed fixture retrieved per_class)

  abbrev pub measure_one : Fixture → Totals F × PerClass → Option (Totals F × PerClass)
  measure_one fixture t =
      measured fixture (search_for fixture fixture.airframe_config_id fixture.field_path)
        (cross_config_leak fixture) t

  abbrev pub and_then :
      (Totals F × PerClass → Option (Totals F × PerClass))
      → Option (Totals F × PerClass)
      → Option (Totals F × PerClass)
  and_then next none = none
  and_then next (some t) = next t

  -- The loop over the fixtures; `none` is an exception.
  unfoldable pub measure_all : List Fixture → Totals F × PerClass → Option (Totals F × PerClass)
  measure_all [] t = some t
  measure_all (fixture ∷ fixtures) t = and_then (measure_all fixtures) (measure_one fixture t)

-- The ingest of every entry, with the bytes of its file, in evaluation mode.
module _ {F : Type 0} (tools : ManifestEntry → Tools F) (read : String → String) where
  abbrev pub ingest_next : Ingested → (Corpus → Option Corpus) → Option Corpus
  ingest_next (stored summary corpus) next = next corpus
  ingest_next _ next = none

  unfoldable pub ingest_all : EmbeddingProvider F → List ManifestEntry → Corpus → Option Corpus
  ingest_all embedder [] corpus = some corpus
  ingest_all embedder (entry ∷ entries) corpus =
      ingest_next
        (ingest_document (tools entry) entry (read entry.path) false (some embedder) corpus)
        (ingest_all embedder entries)

-- The part of `measure` before its report, on the database that it is given.
module _ {F : Type 0} ⦃f : Float F⦄ (arrange : List String → List String)
    (loads : String → Option (List F)) (embedder : EmbeddingProvider F)
    (tools : ManifestEntry → Tools F) (read : String → String) where
  abbrev pub measured_by : List Fixture → Corpus → Option Owners → Option (Totals F × PerClass)
  measured_by fixtures corpus none = none
  measured_by fixtures corpus (some owners) =
      measure_all arrange loads embedder corpus owners fixtures (no_totals, [])

  abbrev pub measured_over : List Fixture → Option Corpus → Option (Totals F × PerClass)
  measured_over fixtures none = none
  measured_over fixtures (some corpus) = measured_by fixtures corpus (owners_of corpus.chunks [])

  unfoldable pub measure : List ManifestEntry → List Fixture → Corpus → Option (Totals F × PerClass)
  measure entries fixtures database =
      measured_over fixtures (ingest_all tools read embedder entries database)
