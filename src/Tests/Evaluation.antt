-- ===== src/Tests/Evaluation.antt =====
-- The evaluation on a small corpus and on small runs.
use lang_graph_uas.Prelude.{true, [], ◌∷◌, none, some, sort, sorted_in, ◌≡◌, refl}
use lang_graph_uas.Rag.Manifest.{verify}
use lang_graph_uas.Rag.Screening.{screen_chunk}
use lang_graph_uas.Rag.Words.{shares_content}
use lang_graph_uas.Rag.Fusion.{fuse, rank_map}
use lang_graph_uas.Rag.Retrieve.{
  retrieve, candidate_rows, vector_scores, lexical_score, cosine_similarity,
}
use lang_graph_uas.Rag.Ingest.{ingest_document, add_chunks, screen_document, split_paragraphs}
use lang_graph_uas.Eval.Metrics.{
  Fixture, recall_at_k, reciprocal_rank, precision_at_k, hard_negative_above_positive,
  wrong_config_leak, abstained,
}
use lang_graph_uas.Eval.Harness.{
  Totals, PerClass, owners_of, ingest_all, measure_all, measure, cross_config_leak, leaks_among,
}
use lang_graph_uas.Eval.Harness.Gate.{IsTally, measure-IsTally}
use lang_graph_uas.Tests.Values.{Decimal, whole, decimal}
use lang_graph_uas.Tests.Evidence.{tools, entry, content, empty_corpus, embedder, loads, in_order}

abbrev fixture : Fixture
fixture = record {
  qid = "q1";
  question = "What is the wind limit?";
  airframe_config_id = "astro";
  relevant_chunk_ids = "c-0" ∷ [];
  hard_negatives = [];
  field_path = none;
  answerable = true;
  class_name = "max_wind";
}

abbrev outcome : Totals Decimal × PerClass
outcome = (
  record {
    answerable = 1;
    unanswerable = 0;
    recall_hits = 1;
    leaks = 0;
    hard_negative_wins = 0;
    false_confirms = 0;
    abstentions = 0;
    reciprocal_ranks = whole 1 ∷ [];
    precisions = whole 1 ∷ [];
  },
  ("max_wind", (1, 1)) ∷ [],
)

measure_run :
    measure in_order loads embedder
      (λ e. tools)
      (λ path. content)
      (entry ∷ [])
      (fixture ∷ [])
      empty_corpus
    ≡ some outcome
unfolding measure ingest_all ingest_document verify screen_document split_paragraphs screen_chunk
    add_chunks owners_of measure_all retrieve candidate_rows shares_content vector_scores fuse sort
    rank_map lexical_score sorted_in cosine_similarity cross_config_leak leaks_among abstained
    hard_negative_above_positive precision_at_k recall_at_k reciprocal_rank wrong_config_leak
measure_run = refl

measure-IsTally_example : IsTally 1 outcome.0
measure-IsTally_example =
    measure-IsTally in_order loads embedder (λ e. tools) (λ path. content) (entry ∷ [])
      (fixture ∷ []) empty_corpus outcome refl measure_run
