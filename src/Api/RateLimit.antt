-- ===== src/Api/RateLimit.antt =====
-- backend/suas/api/ratelimit.py: a sliding window of admissions for each client.
pub mod Window
pub mod Ceiling
pub mod Pruning
use lang_graph_uas.Prelude.{
  ℕ, Bool, true, false, List, [], ◌∷◌, ◌++◌, Option, none, some, String, length, ltb, leb, keep_if,
  lookup, insert, or_else, if◌then◌else◌,
}
use Prim.Native.Nat.{◌+◌, ◌-◌, ◌/◌, max}

abbrev pub max_tracked_clients : ℕ
max_tracked_clients = 10000

abbrev pub second : ℕ
second = 1000000

-- What both limiters are configured with. Times, and the window, are in microseconds.
pub record Limit : Type 0 where
  pub max_requests : ℕ
  pub window : ℕ

-- `_retry_after_s`. A negative difference, which `int` takes towards 0, gives 1 as 0 does.
unfoldable pub seconds_left : ℕ → ℕ → ℕ → ℕ
seconds_left oldest now window = max 1 ((window + oldest - now) / second + 1)

-- `hit <= now - window`.
abbrev pub has_left : Limit → ℕ → ℕ → Bool
has_left l now hit = leb (hit + l.window) now

-- `hit > now - window`.
abbrev pub is_inside : Limit → ℕ → ℕ → Bool
is_inside l now hit = ltb now (hit + l.window)

-- The hits of each client of a `SlidingWindowLimiter`.
abbrev pub Hits : Type 0
Hits = List (String × List ℕ)

module _ (l : Limit) where
  unfoldable pub prune : ℕ → List ℕ → List ℕ
  prune now [] = []
  prune now (hit ∷ hits) = if has_left l now hit then prune now hits else hit ∷ hits

  unfoldable pub evict_if_needed : Hits → Hits
  evict_if_needed hits = if ltb max_tracked_clients (length hits) then [] else hits

  abbrev pub record_hit : ℕ → String → Hits → List ℕ → Bool × Hits
  record_hit now client hits timestamps =
      if leb l.max_requests (length timestamps)
      then (false, insert client timestamps hits)
      else (true, evict_if_needed (insert client (timestamps ++ (now ∷ [])) hits))

  unfoldable pub check : ℕ → String → Hits → Bool × Hits
  check now client hits = record_hit now client hits (prune now (or_else (lookup client hits) []))

  abbrev pub wait_for : ℕ → List ℕ → ℕ
  wait_for now [] = 0
  wait_for now (oldest ∷ hits) = seconds_left oldest now l.window

  unfoldable pub retry_after_s : ℕ → String → Hits → ℕ
  retry_after_s now client hits = wait_for now (or_else (lookup client hits) [])

  abbrev pub concluded : ℕ → String → Bool × Hits → ℕ × Hits
  concluded later client (true, hits) = (0, hits)
  concluded later client (false, hits) = (retry_after_s later client hits, hits)

  -- `admit` reads the clock again, at `later`, where it refuses.
  unfoldable pub admit : ℕ → ℕ → String → Hits → ℕ × Hits
  admit now later client hits = concluded later client (check now client hits)

  -- The decision of a `DatabaseLimiter` on the hits of one locked row; `none` is the `IndexError` of a
  -- limit of no requests.
  abbrev pub refused : ℕ → List ℕ → Option (ℕ × List ℕ)
  refused now [] = none
  refused now (oldest ∷ hits) = some (seconds_left oldest now l.window, oldest ∷ hits)

  abbrev pub decided : ℕ → List ℕ → Option (ℕ × List ℕ)
  decided now hits =
      if leb l.max_requests (length hits) then refused now hits else some (0, hits ++ (now ∷ []))

  unfoldable pub admit_row : ℕ → List ℕ → Option (ℕ × List ℕ)
  admit_row now row = decided now (keep_if (is_inside l now) row)

  abbrev pub stored : String → Hits → Option (ℕ × List ℕ) → Option (ℕ × Hits)
  stored bucket rows none = none
  stored bucket rows (some (wait, hits)) = some (wait, insert bucket hits rows)

  -- One transaction of the shared limiter. `digest` is SHA-256 of the client's key.
  unfoldable pub admit_shared : (String → String) → ℕ → String → Hits → Option (ℕ × Hits)
  admit_shared digest now client rows =
      let bucket = digest client in
      stored bucket rows (admit_row now (or_else (lookup bucket rows) []))
