-- ===== src/Eval/Harness/Report.antt =====
-- backend/suas/eval/harness.py: the report of an evaluation, with an interval on every rate.
use lang_graph_uas.Prelude.{
  ℕ, Bool, true, List, [], ◌∷◌, Option, none, some, String, length, is_empty, is_some, le→leb, sort,
  concat, if◌then◌else◌, ◌≡◌, ◌≤◌, refl, arith,
}
use lang_graph_uas.Float.{Float, zero_f}
use lang_graph_uas.Eval.Metrics.{Fixture}
use lang_graph_uas.Eval.Stats.{Interval, wilson, pos}
use lang_graph_uas.Eval.Harness.{PerClass, Totals, comes_before}
use lang_graph_uas.Eval.Harness.Gate.{IsTally}

pub record Rate (F : Type 0) : Type 0 where
  pub rate : F
  pub ci95 : F × F
  pub n : ℕ

-- The figures of the report; its fixed notes and its null `field_path_purity` are left out.
pub record Report (F : Type 0) : Type 0 where
  pub retriever_version : String
  pub embedder : String
  pub fixtures : ℕ
  pub answerable : ℕ
  pub unanswerable : ℕ
  pub wrong_config_leak : Rate F
  pub hard_negative_above_positive : Rate F
  pub false_confirm_rate : Rate F
  pub recall_at_4 : Rate F
  pub mrr : F
  pub precision_at_4 : F
  pub abstain_rate : Rate F
  pub per_class_recall : PerClass

-- `digest` is the first 16 digits of SHA-256.
unfoldable pub retriever_version : (String → String) → String → String
retriever_version digest embedder_id =
    digest (concat ("embedder=" ∷ embedder_id ∷ ";rrf_k=60;chunker=split_paragraphs;k=4" ∷ []))

abbrev by_class : (String × (ℕ × ℕ)) → (String × (ℕ × ℕ)) → Bool
by_class a b = comes_before a.0 b.0

wilson-is_some :
    (F : Type 0) ⦃f : Float F⦄ (m n : ℕ) → m ≤ n → is_some (wilson {F = F} (pos m) (pos n)) ≡ true
unfolding wilson
wilson-is_some F m n h = rw (le→leb m n h) refl

module _ {F : Type 0} ⦃f : Float F⦄ where
  open f use {round, sum, ◌/◌, lit}

  infixl 70 ◌/◌
  abbrev rate_of : Interval F → Rate F
  rate_of i = record { rate = round i.rate 4; ci95 = (round i.low 4, round i.high 4); n = i.n }

  abbrev mean : List F → F
  mean xs = if is_empty xs then zero_f else sum xs / lit (length xs) 0

  abbrev assembled :
      (String → String)
      → Totals F
      → ℕ
      → PerClass
      → String
      → Option (Interval F)
      → Option (Interval F)
      → Option (Interval F)
      → Option (Interval F)
      → Option (Interval F)
      → Option (Report F)
  assembled digest t n per_class id none leak hard confirm abstain = none
  assembled digest t n per_class id (some recall) none hard confirm abstain = none
  assembled digest t n per_class id (some recall) (some leak) none confirm abstain = none
  assembled digest t n per_class id (some recall) (some leak) (some hard) none abstain = none
  assembled digest t n per_class id (some recall) (some leak) (some hard) (some confirm) none = none
  assembled digest t n per_class id (some recall) (some leak) (some hard) (some confirm)
        (some abstain) =
      some (record {
        retriever_version = retriever_version digest id;
        embedder = id;
        fixtures = n;
        answerable = t.answerable;
        unanswerable = t.unanswerable;
        wrong_config_leak = rate_of leak;
        hard_negative_above_positive = rate_of hard;
        false_confirm_rate = rate_of confirm;
        recall_at_4 = rate_of recall;
        mrr = round (mean t.reciprocal_ranks) 4;
        precision_at_4 = round (mean t.precisions) 4;
        abstain_rate = rate_of abstain;
        per_class_recall = sort by_class per_class;
      })

  -- `none` is a `ValueError` of one of the intervals.
  unfoldable pub report :
      (String → String) → Totals F → List Fixture → PerClass → String → Option (Report F)
  report digest t fixtures per_class embedder_id =
      assembled digest t (length fixtures) per_class embedder_id
        (wilson (pos t.recall_hits) (pos t.answerable))
        (wilson (pos t.leaks) (pos (length fixtures)))
        (wilson (pos t.hard_negative_wins) (pos t.answerable))
        (wilson (pos t.false_confirms) (pos t.unanswerable))
        (wilson (pos t.abstentions) (pos t.answerable))

  assembled-is_some :
      (digest : String → String) (t : Totals F) (n : ℕ) (pc : PerClass) (id : String)
      (a b c d e : Option (Interval F))
      → is_some a ≡ true
      → is_some b ≡ true
      → is_some c ≡ true
      → is_some d ≡ true
      → is_some e ≡ true
      → is_some (assembled digest t n pc id a b c d e) ≡ true
  assembled-is_some digest t n pc id none b c d e ha hb hc hd he = ha
  assembled-is_some digest t n pc id (some a) none c d e ha hb hc hd he = hb
  assembled-is_some digest t n pc id (some a) (some b) none d e ha hb hc hd he = hc
  assembled-is_some digest t n pc id (some a) (some b) (some c) none e ha hb hc hd he = hd
  assembled-is_some digest t n pc id (some a) (some b) (some c) (some d) none ha hb hc hd he = he
  assembled-is_some digest t n pc id (some a) (some b) (some c) (some d) (some e) ha hb hc hd he =
      refl

  -- The counts of an evaluation are within the bounds of every interval, so its report is made.
  pub report-is_some :
      (digest : String → String) (t : Totals F) (fixtures : List Fixture) (per_class : PerClass)
      (embedder_id : String)
      → IsTally (length fixtures) t
      → is_some (report digest t fixtures per_class embedder_id) ≡ true
  unfolding report
  report-is_some digest t fixtures per_class embedder_id h =
      assembled-is_some digest t (length fixtures) per_class embedder_id _ _ _ _ _
        (wilson-is_some F t.recall_hits t.answerable h.hits)
        (wilson-is_some F t.leaks (length fixtures) (omega (arith, h.no_leaks)))
        (wilson-is_some F t.hard_negative_wins t.answerable h.wins)
        (wilson-is_some F t.false_confirms t.unanswerable h.confirms)
        (wilson-is_some F t.abstentions t.answerable h.silent)
