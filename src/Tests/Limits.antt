-- ===== src/Tests/Limits.antt =====
-- The limiters on concrete requests.
use Prim.Native.Nat
use lang_graph_uas.Prelude.{
  ℕ, ◌≡◌, ◌≤◌, refl, Bool, true, false, List, [], ◌∷◌, some, String, arith, lookup, or_else, length,
  ltb, sort, sorted_in, count_chars,
}
use lang_graph_uas.Api.RateLimit.{Limit, Hits, admit, admit_row, seconds_left}
use lang_graph_uas.Api.RateLimit.Window.{Agree, admit-admit_row, admit_row-after_wait}
use lang_graph_uas.Api.RateLimit.Ceiling.{count, in_window, serve, ceiling}
use lang_graph_uas.Api.RateLimit.Pruning.{prune_pages, same_hits, prune_idle_buckets, answers}
use lang_graph_uas.Api.RateLimit.Pruning.Pass.{prune_idle_buckets_lem}

-- Two requests in ten seconds.
abbrev pair : Limit
pair = record { max_requests = 2; window = 10000000 }

abbrev hits : Hits
hits = ("10.0.0.1", 1000000 ∷ 4000000 ∷ []) ∷ []

admit-admit_row_example :
    Agree pair 5000000 "10.0.0.1"
      (admit pair 5000000 5000000 "10.0.0.1" hits)
      (admit_row pair 5000000 (or_else (lookup "10.0.0.1" hits) []))
admit-admit_row_example =
    admit-admit_row pair 5000000 "10.0.0.1" hits (omega arith) (omega arith)
      ((omega arith, tt), (tt, tt))

refused_at_five : admit_row pair 5000000 (1000000 ∷ 4000000 ∷ []) ≡ some (7, 1000000 ∷ 4000000 ∷ [])
unfolding admit_row seconds_left
refused_at_five = refl

admit_row-after_wait_example :
    (later : List ℕ) × (admit_row pair 12000000 (1000000 ∷ 4000000 ∷ []) ≡ some (0, later))
admit_row-after_wait_example =
    admit_row-after_wait pair 5000000 12000000 7 (1000000 ∷ 4000000 ∷ []) (1000000 ∷ 4000000 ∷ [])
      (omega arith) (omega arith) refused_at_five (omega arith)

ceiling_example :
    count (in_window pair 9000000) (serve pair (1000000 ∷ 4000000 ∷ 5000000 ∷ []) ([], [])).0 ≤ 2
ceiling_example =
    ceiling pair (1000000 ∷ 4000000 ∷ 5000000 ∷ []) (omega arith, (omega arith, (omega arith, tt)))
      9000000

-- Keys in the order of their lengths.
longer : String → String → Bool
unfolding count_chars
longer b a = ltb (count_chars a) (count_chars b)

longer_irreflexive : (a : String) → longer a a ≡ false
unfolding longer
longer_irreflexive a = ground arith

longer_transitive : (a b c : String) → longer a b ≡ true → longer b c ≡ true → longer a c ≡ true
unfolding longer
longer_transitive a b c h k = ground arith

abbrev shared : Hits
shared = ("a", 1000000 ∷ []) ∷ ("bb", 19000000 ∷ []) ∷ []

prune_idle_buckets_lem_example :
    (deleted : ℕ) × (left : Hits) × (prune_idle_buckets pair longer
        (λ bucket. false)
        (λ i. 20000000)
        shared
      ≡ some (deleted, left))
    × (Nat.◌+◌ (length left) deleted ≡ 2)
    × (answers pair (λ client. client) ((20000000, "a") ∷ (21000000, "bb") ∷ []) left
        ≡ answers pair (λ client. client) ((20000000, "a") ∷ (21000000, "bb") ∷ []) shared)
prune_idle_buckets_lem_example =
    prune_idle_buckets_lem pair longer (λ bucket. false) (λ i. 20000000) longer_irreflexive
      longer_transitive shared 20000000 (λ client. client) ((20000000, "a") ∷ (21000000, "bb") ∷ [])
      (refl, (refl, tt)) (λ i. omega arith) (omega arith, (omega arith, tt))

pruned_one :
    prune_idle_buckets pair longer (λ bucket. false) (λ i. 20000000) shared
    ≡ some (1, ("bb", 19000000 ∷ []) ∷ [])
unfolding prune_idle_buckets prune_pages sort sorted_in longer same_hits
pruned_one = refl
