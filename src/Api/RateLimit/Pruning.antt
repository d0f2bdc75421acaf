-- ===== src/Api/RateLimit/Pruning.antt =====
-- backend/suas/api/ratelimit.py: the pass that deletes the shared buckets with no hit in the window.
pub mod Same
pub mod Pass
use lang_graph_uas.Prelude.{
  ℕ, zero, suc, Bool, true, false, not, ◌&&◌, List, [], ◌∷◌, Option, none, some, String, length,
  take, any, all, keep_if, sort, str_eq, ◌==◌, if◌then◌else◌,
}
use Prim.Native.Nat.{◌+◌}
use lang_graph_uas.Api.RateLimit.{Limit, Hits, has_left, admit_shared}

abbrev pub max_buckets_per_prune : ℕ
max_buckets_per_prune = 1000

abbrev pub Bucket : Type 0
Bucket = String × List ℕ

abbrev pub is_idle : Limit → ℕ → Bucket → Bool
is_idle l now (bucket, hits) = all (has_left l now) hits

abbrev pub idle_buckets : Limit → ℕ → List Bucket → List Bucket
idle_buckets l now rows = keep_if (is_idle l now) rows

-- Two rows hold the same hits: their stored texts are equal.
unfoldable pub same_hits : List ℕ → List ℕ → Bool
same_hits [] [] = true
same_hits (hit ∷ hits) (other ∷ others) = hit == other && same_hits hits others
same_hits _ _ = false

-- `(bucket, hits) IN idle`.
abbrev pub is_among : List Bucket → Bucket → Bool
is_among idle (bucket, hits) = any (λ row. str_eq row.0 bucket && same_hits row.1 hits) idle

abbrev pub last_bucket : Bucket → List Bucket → String
last_bucket row [] = row.0
last_bucket row (next ∷ rows) = last_bucket next rows

-- `past b a` is `b > a` in the order of the database, `busy` tells the buckets that another transaction
-- has locked, and `clock n` is the time that the nth page reads.
module _ (l : Limit) (past : String → String → Bool) (busy : String → Bool) (clock : ℕ → ℕ) where
  abbrev pub page : String → Hits → List Bucket
  page after rows =
      take max_buckets_per_prune
        (sort (λ i j. past j.0 i.0) (keep_if (λ row. past row.0 after && not (busy row.0)) rows))

  -- One transaction on a page that is not empty, and the pass from its last bucket.
  abbrev pub after_page :
      ℕ → ℕ → Hits → List Bucket → (ℕ → String → Hits → Option (ℕ × Hits)) → Option (ℕ × Hits)
  after_page n pruned rows [] next = some (pruned, rows)
  after_page n pruned rows (row ∷ more) next =
      let idle = idle_buckets l (clock n) (row ∷ more) in
      next (pruned + length (keep_if (is_among idle) rows)) (last_bucket row more)
        (keep_if (λ r. not (is_among idle r)) rows)

  -- The loop, on fuel, at the nth page.
  unfoldable pub prune_pages : ℕ → ℕ → ℕ → String → Hits → Option (ℕ × Hits)
  unfolding same_hits
  prune_pages zero n pruned after rows = none
  prune_pages (suc fuel) n pruned after rows =
      after_page n pruned rows (page after rows) (prune_pages fuel (suc n))

  -- How many buckets were deleted, and what is left.
  unfoldable pub prune_idle_buckets : Hits → Option (ℕ × Hits)
  unfolding prune_pages
  prune_idle_buckets rows = prune_pages (suc (length rows)) 0 0 "" rows

-- The answers of the shared limiter to requests at times, one after another. An exception rolls its
-- transaction back.
module _ (l : Limit) (digest : String → String) where
  abbrev pub answered : Hits → Option (ℕ × Hits) → (Hits → List (Option ℕ)) → List (Option ℕ)
  answered rows none next = none ∷ next rows
  answered rows (some (wait, left)) next = some wait ∷ next left

  unfoldable pub answers : List (ℕ × String) → Hits → List (Option ℕ)
  answers [] rows = []
  answers ((now, client) ∷ requests) rows =
      answered rows (admit_shared l digest now client rows) (answers requests)
