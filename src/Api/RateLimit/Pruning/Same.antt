-- ===== src/Api/RateLimit/Pruning/Same.antt =====
-- backend/suas/api/ratelimit.py: requests to the shared limiter after idle buckets were deleted.
use text.Mathlib.TextEquality.{eq_iff}
use lang_graph_uas.Prelude.{
  ℕ, ◌≡◌, ◌≤◌, refl, subst, inl, inr, Bool, true, false, List, [], ◌∷◌, Option, none, some, String,
  all, is_some, keep_if, lookup, has_key, insert, or_else, str_eq, arith, All, Bool-cases,
  lookup-insert, lookup-insert_other,
}
use lang_graph_uas.Api.RateLimit.{
  Limit, Hits, has_left, is_inside, decided, admit_row, stored, admit_shared,
}
use lang_graph_uas.Api.RateLimit.Pruning.{Bucket, is_idle, answered, answers}

-- A table has one row for a bucket.
abbrev pub IsKeyed : Hits → Type 0
IsKeyed [] = Unit {0}
IsKeyed ((bucket, hits) ∷ rows) = (has_key bucket rows ≡ false) × IsKeyed rows

has_key-keep_if :
    (p : Bucket → Bool) (k : String) (rows : Hits)
    → has_key k rows ≡ false
    → has_key k (keep_if p rows) ≡ false
has_key-keep_if p k [] h = refl
has_key-keep_if p k ((bucket, hits) ∷ rows) h = ground (arith, has_key-keep_if p k rows)

pub keep_if-IsKeyed : (p : Bucket → Bool) (rows : Hits) → IsKeyed rows → IsKeyed (keep_if p rows)
keep_if-IsKeyed p [] h = tt
keep_if-IsKeyed p ((bucket, hits) ∷ rows) (h, hs) = elim (Bool-cases (p (bucket, hits))) [
  | inl e ↦ rw e (has_key-keep_if p bucket rows h, keep_if-IsKeyed p rows hs)
  | inr e ↦ rw e (keep_if-IsKeyed p rows hs)
]

module _ (l : Limit) where
  -- The hits of a bucket that are in the window at a time.
  abbrev pub fresh : ℕ → String → Hits → List ℕ
  fresh now k rows = keep_if (is_inside l now) (or_else (lookup k rows) [])

  -- From a time on, two tables have the same hits in the window.
  abbrev pub IsSameFrom : ℕ → Hits → Hits → Type 0
  IsSameFrom since rows left =
      (k : String) (now : ℕ) → since ≤ now → fresh now k left ≡ fresh now k rows

  idle_later :
      (clock since now : ℕ) (hits : List ℕ)
      → clock ≤ now
      → all (has_left l clock) hits ≡ true
      → keep_if (is_inside l now) hits ≡ []
  idle_later clock since now [] le h = refl
  idle_later clock since now (hit ∷ hits) le h = ground (arith, idle_later clock since now hits le)

  -- Where each row that is dropped was idle at some time before, nothing in the window is lost.
  pub keep_if-IsSameFrom :
      (p : Bucket → Bool) (clock since : ℕ) (rows : Hits)
      → clock ≤ since
      → IsKeyed rows
      → All (λ row. p row ≡ false → is_idle l clock row ≡ true) rows
      → IsSameFrom since rows (keep_if p rows)
  keep_if-IsSameFrom p clock since [] le keyed h k now later = refl
  keep_if-IsSameFrom p clock since ((bucket, hits) ∷ rows) le (one, keyed) (h, hs) k now later =
      let rest = keep_if-IsSameFrom p clock since rows le keyed hs k now later in
      elim (Bool-cases (p (bucket, hits))) [
        | inl e ↦ elim (Bool-cases (str_eq bucket k)) [
          | inl q ↦ rw (e, q) refl
          | inr q ↦ rw (e, q) rest
        ]
        | inr e ↦ elim (Bool-cases (str_eq bucket k)) [
          | inl q ↦
              let gone =
                has_key-keep_if p k rows
                  (subst (λ b. has_key b rows ≡ false) ((eq_iff bucket k).0 q) one) in
              rw (e, q, idle_later clock since now hits (omega arith) (h e))
                (no_row now k (keep_if p rows) gone)
          | inr q ↦ rw (e, q) rest
        ]
      ]
    where
      no_row :
          (now : ℕ) (k : String) (left : Hits)
          → has_key k left ≡ false
          → keep_if (is_inside l now) (or_else (lookup k left) []) ≡ []
      no_row now k left g = none_of (lookup k left) g
        where
          none_of :
              (o : Option (List ℕ))
              → is_some o ≡ false
              → keep_if (is_inside l now) (or_else o []) ≡ []
          none_of none g = refl
          none_of (some x) g = absurd (cc)

  insert-IsSameFrom :
      (since : ℕ) (rows left : Hits) (bucket : String) (hits : List ℕ)
      → IsSameFrom since rows left
      → IsSameFrom since (insert bucket hits rows) (insert bucket hits left)
  insert-IsSameFrom since rows left bucket hits same k now later =
      elim (Bool-cases (str_eq bucket k)) [
        | inl q ↦
            subst
              (λ b. fresh now b (insert bucket hits left) ≡ fresh now b (insert bucket hits rows))
              ((eq_iff bucket k).0 q)
              (rw (lookup-insert bucket hits left, lookup-insert bucket hits rows) refl)
        | inr q ↦
            rw (lookup-insert_other bucket k hits left q, lookup-insert_other bucket k hits rows q)
              (same k now later)
      ]

  answered-same :
      (digest : String → String) (since : ℕ) (requests : List (ℕ × String)) (rows left : Hits)
      (client : String) (d : Option (ℕ × List ℕ))
      → IsSameFrom since rows left
      → ((rows' left' : Hits)
          → IsSameFrom since rows' left'
          → answers l digest requests left' ≡ answers l digest requests rows')
      → answered l digest left (stored l (digest client) left d) (answers l digest requests)
        ≡ answered l digest rows (stored l (digest client) rows d) (answers l digest requests)
  answered-same digest since requests rows left client none same next =
      rw (next rows left same) refl
  answered-same digest since requests rows left client (some (wait, hits)) same next =
      let bucket = digest client in
      rw
        (next (insert bucket hits rows) (insert bucket hits left)
          (insert-IsSameFrom since rows left bucket hits same))
        refl

  -- Tables with the same hits in the window answer alike, and go on to.
  pub answers-same :
      (digest : String → String) (since : ℕ) (requests : List (ℕ × String)) (rows left : Hits)
      → IsSameFrom since rows left
      → All (λ r. since ≤ r.0) requests
      → answers l digest requests left ≡ answers l digest requests rows
  unfolding answers admit_shared admit_row
  answers-same digest since [] rows left same h = refl
  answers-same digest since ((now, client) ∷ requests) rows left same (h, hs) =
      rw (same (digest client) now h) (
        answered-same digest since requests rows left client
          (decided l now (fresh now (digest client) rows)) same
          (λ rows' left' same'. answers-same digest since requests rows' left' same' hs))
