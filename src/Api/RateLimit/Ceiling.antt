-- ===== src/Api/RateLimit/Ceiling.antt =====
-- The ceiling of the shared limiter: how many requests of one client any window lets through.
use lang_graph_uas.Prelude.{
  ℕ, zero, suc, ◌≤◌, ◌<◌, ◌≡◌, refl, inl, inr, Bool, true, false, ◌&&◌, List, [], ◌∷◌, ◌++◌, Option,
  none, some, length, leb, keep_if, if◌then◌else◌, arith, All, Bool-cases, leb→le, length-keep_if,
}
use Prim.Native.Nat.{◌+◌}
use lang_graph_uas.Api.RateLimit.{Limit, is_inside, seconds_left, decided, refused, admit_row}

-- How many hits of a list fall in the window that ends at a time.
abbrev pub in_window : Limit → ℕ → ℕ → Bool
in_window l t hit = leb hit t && is_inside l t hit

abbrev pub count : (ℕ → Bool) → List ℕ → ℕ
count p hits = length (keep_if p hits)

abbrev pub IsFrom : ℕ → List ℕ → Type 0
IsFrom last [] = Unit {0}
IsFrom last (now ∷ times) = (last ≤ now) × IsFrom now times

module _ (l : Limit) where
  -- The times of the requests admitted by a run of requests, appended to a log, with the row that is
  -- left. A request that raises leaves both as they were.
  abbrev pub step : ℕ → List ℕ × List ℕ → Option (ℕ × List ℕ) → List ℕ × List ℕ
  step now (log, row) none = (log, row)
  step now (log, row) (some (zero, kept)) = (log ++ (now ∷ []), kept)
  step now (log, row) (some (suc wait, kept)) = (log, kept)

  unfoldable pub serve : List ℕ → List ℕ × List ℕ → List ℕ × List ℕ
  serve [] (log, row) = (log, row)
  serve (now ∷ times) (log, row) = serve times (step now (log, row) (admit_row l now row))

  -- Every window holds at most the allowance, and the row still holds whatever a window from `last` on
  -- could see.
  abbrev pub IsBounded : ℕ → List ℕ × List ℕ → Type 0
  IsBounded last (log, row) =
      All (λ hit. hit ≤ last) log
      × ((t : ℕ) → count (in_window l t) log ≤ l.max_requests)
      × ((t : ℕ) → last ≤ t → count (is_inside l t) log ≤ count (is_inside l t) row)

  count-append :
      (p : ℕ → Bool) (hits : List ℕ) (now : ℕ)
      → count p (hits ++ (now ∷ [])) ≡ count p hits + (if p now then 1 else 0)
  count-append p [] now = ground arith
  count-append p (hit ∷ hits) now = ground (arith, count-append p hits now)

  count_mono :
      (p q : ℕ → Bool) (hits : List ℕ)
      → ((hit : ℕ) → p hit ≡ true → q hit ≡ true)
      → count p hits ≤ count q hits
  count_mono p q [] h = omega arith
  count_mono p q (hit ∷ hits) h = ground (arith, h hit, count_mono p q hits h)

  -- Pruning for an earlier time loses nothing that a later window sees.
  count-keep_if :
      (now t : ℕ) (row : List ℕ)
      → now ≤ t
      → count (is_inside l t) (keep_if (is_inside l now) row) ≡ count (is_inside l t) row
  count-keep_if now t [] h = refl
  count-keep_if now t (hit ∷ row) h = ground (arith, count-keep_if now t row h)

  All-mono :
      (last now : ℕ) (log : List ℕ)
      → last ≤ now
      → All (λ hit. hit ≤ last) log
      → All (λ hit. hit ≤ now) log
  All-mono last now [] h a = tt
  All-mono last now (hit ∷ log) h (le, a) = (omega arith, All-mono last now log h a)

  All-append :
      (now : ℕ) (log : List ℕ)
      → All (λ hit. hit ≤ now) log
      → All (λ hit. hit ≤ now) (log ++ (now ∷ []))
  All-append now [] a = (omega arith, tt)
  All-append now (hit ∷ log) (le, a) = (le, All-append now log a)

  later :
      (last now : ℕ) (log row : List ℕ)
      → last ≤ now
      → IsBounded last (log, row)
      → IsBounded now (log, keep_if (is_inside l now) row)
  later last now log row h (old, few, seen) = (
    All-mono last now log h old,
    few,
    λ t le. omega (arith, seen t (omega arith), count-keep_if now t row le),
  )

  moved :
      (last now : ℕ) (log row : List ℕ)
      → last ≤ now
      → IsBounded last (log, row)
      → IsBounded now (log, row)
  moved last now log row h (old, few, seen) =
      (All-mono last now log h old, few, λ t le. seen t (omega arith))

  -- A request that is admitted keeps the bound.
  admitted :
      (now : ℕ) (log kept : List ℕ)
      → IsBounded now (log, kept)
      → count (is_inside l now) kept < l.max_requests
      → IsBounded now (log ++ (now ∷ []), kept ++ (now ∷ []))
  admitted now log kept (old, few, seen) room = (
    All-append now log old,
    λ t. elim (Bool-cases (leb now t)) [
      | inl le ↦ omega (
        arith,
        count-append (in_window l t) log now,
        at_most_one (in_window l t now),
        count_mono (in_window l t) (is_inside l t) log (λ hit h. ground arith),
        seen t (leb→le now t le),
        count_mono (is_inside l t) (is_inside l now) kept (narrower t (leb→le now t le)),
      )
      | inr gt ↦ rw (count-append (in_window l t) log now, gt) (omega (arith, few t))
    ],
    λ t le. omega (
      arith,
      seen t le,
      count-append (is_inside l t) log now,
      count-append (is_inside l t) kept now,
    ),
  )
    where
      at_most_one : (b : Bool) → (if b then 1 else 0) ≤ 1
      at_most_one b = ground arith

      narrower :
          (t : ℕ) → now ≤ t → (hit : ℕ) → is_inside l t hit ≡ true → is_inside l now hit ≡ true
      narrower t le hit h = ground arith

  step-IsBounded :
      (now : ℕ) (log inside : List ℕ)
      → IsBounded now (log, inside)
      → (row : List ℕ) → IsBounded now (log, row)
      → IsBounded now (step now (log, row) (decided l now inside))
  step-IsBounded now log inside b row b' = elim (Bool-cases (leb l.max_requests (length inside))) [
    | inl full ↦ rw full (at_full inside b)
    | inr free ↦ rw free (
        admitted now log inside b
          (omega (arith, length-keep_if (is_inside l now) inside, not_full free)))
  ]
    where
      not_full : leb l.max_requests (length inside) ≡ false → length inside < l.max_requests
      not_full h = ground arith

      at_full :
          (hits : List ℕ)
          → IsBounded now (log, hits)
          → IsBounded now (step now (log, row) (refused l now hits))
      at_full [] c = b'
      at_full (oldest ∷ hits) c =
          waits (oldest ∷ hits) c (seconds_left oldest now l.window)
            (unfold seconds_left in omega arith)
        where
          waits :
              (kept : List ℕ)
              → IsBounded now (log, kept)
              → (wait : ℕ) → 0 < wait
              → IsBounded now (step now (log, row) (some (wait, kept)))
          waits kept d zero h = absurd (omega arith)
          waits kept d (suc wait) h = d

  serve-IsBounded :
      (last : ℕ) (times log row : List ℕ)
      → IsFrom last times
      → IsBounded last (log, row)
      → (t : ℕ) → count (in_window l t) (serve times (log, row)).0 ≤ l.max_requests
  unfolding serve admit_row
  serve-IsBounded last [] log row from (old, few, seen) t = few t
  serve-IsBounded last (now ∷ times) log row (le, from) b t =
      let inside = later last now log row le b in
      let whole = moved last now log row le b in
      let state = step now (log, row) (decided l now (keep_if (is_inside l now) row)) in
      serve-IsBounded now times state.0 state.1 from
        (step-IsBounded now log (keep_if (is_inside l now) row) inside row whole) t

  -- Whatever requests one client makes of the shared limiter, in the order of their times, no window of
  -- the configured length, wherever it ends, holds more admitted requests than are allowed.
  pub ceiling :
      (times : List ℕ)
      → IsFrom 0 times
      → (t : ℕ) → count (in_window l t) (serve times ([], [])).0 ≤ l.max_requests
  ceiling times from t =
      serve-IsBounded 0 times [] [] from (tt, (λ u. omega arith), λ u h. omega arith) t
