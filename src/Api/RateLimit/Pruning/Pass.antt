-- ===== src/Api/RateLimit/Pruning/Pass.antt =====
-- backend/suas/api/ratelimit.py: the pass over all pages of buckets.
use lang_graph_uas.Prelude.{
  ℕ, zero, suc, ◌≡◌, ◌≤◌, ◌<◌, refl, sym, ◌∙◌, subst, inl, inr, Bool, true, false, not, ◌&&◌, List,
  [], ◌∷◌, Option, some, String, length, any, keep_if, take, sort, arith, All, All-keep_if,
  All-take, All-perm, any-perm, sort-perm, Bool-cases, and_lem, ◌||◌, length-keep_if,
}
use Prim.Native.Nat.{◌+◌}
use lang_graph_uas.Api.RateLimit.{Limit, Hits}
use lang_graph_uas.Api.RateLimit.Pruning.{
  Bucket, is_idle, idle_buckets, same_hits, is_among, last_bucket, page, after_page, prune_pages,
  prune_idle_buckets, max_buckets_per_prune, answers,
}
use lang_graph_uas.Api.RateLimit.Pruning.Same.{
  IsKeyed, IsSameFrom, keep_if-IsKeyed, keep_if-IsSameFrom, answers-same,
}

same_hits_lem : (xs ys : List ℕ) → same_hits xs ys ≡ true → xs ≡ ys
unfolding same_hits
same_hits_lem [] [] h = refl
same_hits_lem [] (y ∷ ys) h = absurd (cc)
same_hits_lem (x ∷ xs) [] h = absurd (cc)
same_hits_lem (x ∷ xs) (y ∷ ys) h = ground (arith, same_hits_lem xs ys)

module _ (l : Limit) where
  -- What is among idle rows is idle.
  is_among-idle :
      (clock : ℕ) (idle : List Bucket)
      → All (λ row. is_idle l clock row ≡ true) idle
      → (row : Bucket) → is_among idle row ≡ true
      → is_idle l clock row ≡ true
  is_among-idle clock [] h row e = absurd (cc)
  is_among-idle clock ((bucket, hits) ∷ idle) (h, hs) (b, other) e =
      elim (Bool-cases (same_hits hits other)) [
        | inl q ↦ subst (λ x. is_idle l clock (b, x) ≡ true) (same_hits_lem hits other q) h
        | inr q ↦ is_among-idle clock idle hs (b, other) (ground (arith))
      ]

module _ {A : Type 0} where
  always : (P : A → Type 0) → ((x : A) → P x) → (xs : List A) → All P xs
  always P f [] = tt
  always P f (x ∷ xs) = (f x, always P f xs)

  -- A list falls into what passes a test and what does not.
  length-split :
      (p : A → Bool) (xs : List A)
      → length (keep_if p xs) + length (keep_if (λ x. not (p x)) xs) ≡ length xs
  length-split p [] = omega arith
  length-split p (x ∷ xs) = ground (arith, length-split p xs)

  any-take : (p : A → Bool) (n : ℕ) (xs : List A) → any p (take n xs) ≡ true → any p xs ≡ true
  any-take p zero xs h = absurd (cc)
  any-take p (suc n) [] h = absurd (cc)
  any-take p (suc n) (x ∷ xs) h = ground (arith, any-take p n xs)

  any-keep_if : (p q : A → Bool) (xs : List A) → any p (keep_if q xs) ≡ true → any p xs ≡ true
  any-keep_if p q [] h = h
  any-keep_if p q (x ∷ xs) h = ground (arith, any-keep_if p q xs)

  length-at_most :
      (p q : A → Bool) (xs : List A)
      → ((x : A) → q x ≡ true → p x ≡ true)
      → length (keep_if q xs) ≤ length (keep_if p xs)
  length-at_most p q [] h = omega arith
  length-at_most p q (x ∷ xs) h = ground (arith, h x, length-at_most p q xs h)

  -- A test that is stronger, and fails at one item that passes the other, passes less often.
  length-less :
      (p q : A → Bool) (xs : List A)
      → ((x : A) → q x ≡ true → p x ≡ true)
      → any (λ x. p x && not (q x)) xs ≡ true
      → length (keep_if q xs) < length (keep_if p xs)
  length-less p q [] h e = absurd (cc)
  length-less p q (x ∷ xs) h e = ground (arith, h x, length-less p q xs h, length-at_most p q xs h)

  length-keep_if_twice :
      (p q : A → Bool) (xs : List A) → length (keep_if p (keep_if q xs)) ≤ length (keep_if p xs)
  length-keep_if_twice p q [] = omega arith
  length-keep_if_twice p q (x ∷ xs) = ground (arith, length-keep_if_twice p q xs)

-- `past` is the strict order of the keys.
module _ (l : Limit) (past : String → String → Bool) (busy : String → Bool) (clock : ℕ → ℕ)
    (irreflexive : (a : String) → past a a ≡ false)
    (transitive : (a b c : String) → past a b ≡ true → past b c ≡ true → past a c ≡ true) where
  -- The rows that the pass has yet to read.
  abbrev beyond : String → Hits → Hits
  beyond after rows = keep_if (λ row. past row.0 after) rows

  last_bucket-past :
      (after : String) (row : Bucket) (more : List Bucket)
      → All (λ r. past r.0 after ≡ true) (row ∷ more)
      → (past (last_bucket row more) after ≡ true)
        × (any (λ r. past r.0 after && not (past r.0 (last_bucket row more))) (row ∷ more) ≡ true)
  last_bucket-past after row [] (h, hs) = (h, rw (h, irreflexive row.0) refl)
  last_bucket-past after row (next ∷ more) (h, hs) =
      let (one, some_past) = last_bucket-past after next more hs in
      (one, or_lem (past row.0 after && not (past row.0 (last_bucket next more))) _ some_past)
    where
      or_lem : (a b : Bool) → b ≡ true → (a || b) ≡ true
      or_lem a b h = ground arith

  page-past :
      (after : String) (rows : Hits)
      → All (λ r. past r.0 after ≡ true) (page l past busy clock after rows)
  page-past after rows =
      let wanted = λ (row : Bucket). past row.0 after && not (busy row.0) in
      All-take (λ r. past r.0 after ≡ true) max_buckets_per_prune _
        (All-perm (λ r. past r.0 after ≡ true)
          (sort-perm (λ i j. past j.0 i.0) (keep_if wanted rows))
          (All-keep_if (λ r. Unit {0}) (λ r. past r.0 after ≡ true) wanted
            (λ r u e. (and_lem (past r.0 after) (not (busy r.0)) e).0) rows
            (always (λ r. Unit) (λ r. tt) rows)))

  -- From the last bucket of a page there are fewer rows to read.
  fewer_beyond :
      (after : String) (rows : Hits) (row : Bucket) (more : List Bucket) (p : Bucket → Bool)
      → page l past busy clock after rows ≡ (row ∷ more)
      → length (beyond (last_bucket row more) (keep_if p rows)) < length (beyond after rows)
  fewer_beyond after rows row more p e =
      let wanted = λ (r : Bucket). past r.0 after && not (busy r.0) in
      let next = last_bucket row more in
      let test = λ (r : Bucket). past r.0 after && not (past r.0 next) in
      let (up, found) =
        last_bucket-past after row more
          (subst (λ x. All (λ r. past r.0 after ≡ true) x) e (page-past after rows)) in
      let in_sorted =
        any-take test max_buckets_per_prune (sort (λ i j. past j.0 i.0) (keep_if wanted rows))
          (subst (λ x. any test x ≡ true) (sym e) found) in
      let in_rows =
        any-keep_if test wanted rows (
          sym (any-perm test (sort-perm (λ i j. past j.0 i.0) (keep_if wanted rows)))
          ∙ in_sorted) in
      let less =
        length-less (λ r. past r.0 after) (λ r. past r.0 next) rows
          (λ r h. transitive r.0 next after h up) in_rows in
      let fewer = length-keep_if_twice (λ r. past r.0 next) p rows in omega (arith, less, fewer)

  dropped_idle :
      (n : ℕ) (read rows : List Bucket)
      → All
          (λ row.
            not (is_among (idle_buckets l (clock n) read) row) ≡ false
            → is_idle l (clock n) row ≡ true)
          rows
  dropped_idle n read rows =
      let idle = idle_buckets l (clock n) read in
      let all_idle =
        All-keep_if (λ r. Unit {0}) (λ r. is_idle l (clock n) r ≡ true) (is_idle l (clock n))
          (λ r u e. e) read (always (λ r. Unit) (λ r. tt) read) in
      always _
        (λ row h. is_among-idle l (clock n) idle all_idle row (not_false (is_among idle row) h))
        rows
    where
      not_false : (b : Bool) → not b ≡ false → b ≡ true
      not_false b h = ground arith

  -- How the pass ends from a page on.
  abbrev pub IsPassed : ℕ → ℕ → Hits → Option (ℕ × Hits) → Type 0
  IsPassed since pruned rows o =
      (m : ℕ) × (left : Hits) × (o ≡ some (m, left))
      × (length left + m ≡ length rows + pruned)
      × IsSameFrom l since rows left

  prune_pages-IsPassed :
      (since fuel n pruned : ℕ) (after : String) (rows : Hits)
      → ((i : ℕ) → clock i ≤ since)
      → length (beyond after rows) < fuel
      → IsKeyed rows
      → IsPassed since pruned rows (prune_pages l past busy clock fuel n pruned after rows)
  unfolding prune_pages
  prune_pages-IsPassed since zero n pruned after rows le lt keyed = absurd (omega arith)
  prune_pages-IsPassed since (suc fuel) n pruned after rows le lt keyed =
      at_page (page l past busy clock after rows) refl (λ pruned' after' rows' less keyed'.
        prune_pages-IsPassed since fuel (suc n) pruned' after' rows' le less keyed')
    where
      at_page :
          (read : List Bucket)
          → page l past busy clock after rows ≡ read
          → ((pruned' : ℕ) (after' : String) (rows' : Hits)
              → length (beyond after' rows') < fuel
              → IsKeyed rows'
              → IsPassed since pruned' rows'
                  (prune_pages l past busy clock fuel (suc n) pruned' after' rows'))
          → IsPassed since pruned rows (
              after_page l past busy clock n pruned rows read
                (prune_pages l past busy clock fuel (suc n)))
      at_page [] e next = (pruned, rows, refl, refl, λ k now later. refl)
      at_page (row ∷ more) e next =
          let idle = idle_buckets l (clock n) (row ∷ more) in
          let kept = λ (r : Bucket). not (is_among idle r) in
          let fewer = fewer_beyond after rows row more kept e in
          let (m, left, is, sum, same) =
            next (pruned + length (keep_if (is_among idle) rows)) (last_bucket row more)
              (keep_if kept rows) (omega arith) (keep_if-IsKeyed kept rows keyed) in
          let dropped =
            keep_if-IsSameFrom l kept (clock n) since rows (le n) keyed
              (dropped_idle n (row ∷ more) rows) in
          let split = length-split (is_among idle) rows in
          (
            m,
            left,
            is,
            omega (arith, sum, split),
            λ k now later. same k now later ∙ dropped k now later,
          )

  -- The pass over the shared buckets comes to an end. Each row is deleted and counted, or left, and
  -- whatever requests follow, at times that are not before any time that the pass has read, the shared
  -- limiter gives them the same answers, waits included, as if nothing had been deleted. One row stands
  -- for a bucket, and the order of the keys is strict.
  pub prune_idle_buckets_lem :
      (rows : Hits) (since : ℕ) (digest : String → String) (requests : List (ℕ × String))
      → IsKeyed rows
      → ((i : ℕ) → clock i ≤ since)
      → All (λ r. since ≤ r.0) requests
      → (deleted : ℕ) × (left : Hits) × (prune_idle_buckets l past busy clock rows
          ≡ some (deleted, left))
        × (length left + deleted ≡ length rows)
        × (answers l digest requests left ≡ answers l digest requests rows)
  unfolding prune_idle_buckets
  prune_idle_buckets_lem rows since digest requests keyed le later =
      let fuel = length-keep_if (λ row. past row.0 "") rows in
      let (deleted, left, is, sum, same) =
        prune_pages-IsPassed since (suc (length rows)) 0 0 "" rows le (omega (arith, fuel)) keyed in
      (
        deleted,
        left,
        is,
        omega (arith, sum),
        answers-same l digest since requests rows left same later,
      )
