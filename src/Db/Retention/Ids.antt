-- ===== src/Db/Retention/Ids.antt =====
-- Thread ids: their equality, and the ids that replans are given.
use lang_graph_uas.Prelude.{
  ℕ, zero, suc, ◌≤◌, ◌<◌, ◌≡◌, ◌≢◌, refl, sym, ap, ◌∙◌, subst, inl, inr, true, false, not, List, [],
  ◌∷◌, Option, none, some, String, length, arith, keep_if, is_some, str_eq, Bool-cases, and_lem,
  length-keep_if, Option-cases,
}
use Prim.Native.Nat.{◌+◌}
use mathlib.Core.Option.{some-injective}
use text.Mathlib.TextEquality.{eq_iff}
use text.Mathlib.TextPositions.{eq_refl}
use lang_graph_uas.Db.Retention.{
  ThreadId, top, sub, same_id, ThreadRow, Rows, get, put, has_own_row, child, skip_taken,
  next_replan_thread_id,
}

pub same_id_refl : (id : ThreadId) → same_id id id ≡ true
unfolding same_id
same_id_refl (top a) = eq_refl a
same_id_refl (sub p a) = rw (same_id_refl p, eq_refl a)

pub same_id→eq : (x y : ThreadId) → same_id x y ≡ true → x ≡ y
unfolding same_id
same_id→eq (top a) (top b) h = ap top ((eq_iff a b).0 h)
same_id→eq (sub p a) (sub q b) h =
    let (i, j) = and_lem (same_id p q) (str_eq a b) h in rw (same_id→eq p q i, (eq_iff a b).0 j)
same_id→eq (top a) (sub q b) h = absurd (cc)
same_id→eq (sub p a) (top b) h = absurd (cc)

pub get-put {ℓ} :
    {V : Type ℓ} (id : ThreadId) (row : V) (rows : List (ThreadId × V))
    → get id (put id row rows) ≡ some row
unfolding get put
get-put id row [] = rw (same_id_refl id)
get-put id row ((key, old) ∷ rows) = ground (arith, get-put id row rows)

pub get-put_other {ℓ} :
    {V : Type ℓ} (id other : ThreadId) (row : V) (rows : List (ThreadId × V))
    → same_id id other ≡ false
    → get other (put id row rows) ≡ get other rows
unfolding get put
get-put_other id other row [] e = rw e
get-put_other id other row ((key, old) ∷ rows) e = elim (Bool-cases (same_id key id)) [
  | inl h ↦
      let at_key = subst (λ x. same_id x other ≡ false) (sym (same_id→eq key id h)) e in
      rw (h, at_key)
  | inr h ↦ rw (h, get-put_other id other row rows e)
]

-- Rows without those of one id.
pub get-without :
    (id other : ThreadId) (rows : Rows)
    → same_id id other ≡ false
    → get other (keep_if (λ entry. not (same_id entry.0 id)) rows) ≡ get other rows
unfolding get
get-without id other [] e = refl
get-without id other ((key, old) ∷ rows) e = elim (Bool-cases (same_id key id)) [
  | inl h ↦
      let at_key = subst (λ x. same_id x other ≡ false) (sym (same_id→eq key id h)) e in
      rw (h, at_key, get-without id other rows e)
  | inr h ↦ rw (h, get-without id other rows e)
]

fewer :
    (id : ThreadId) (rows : Rows)
    → is_some (get id rows) ≡ true
    → length (keep_if (λ entry. not (same_id entry.0 id)) rows) < length rows
unfolding get
fewer id [] h = absurd (cc)
fewer id ((key, old) ∷ rows) h =
    ground (arith, fewer id rows, length-keep_if (λ entry. not (same_id entry.0 id)) rows)

module _ (numeral : ℕ → String) (injective : (m n : ℕ) → numeral m ≡ numeral n → m ≡ n) where
  child_other :
      (parent : ThreadId) (m n : ℕ)
      → m ≢ n
      → same_id (child numeral parent m) (child numeral parent n) ≡ false
  unfolding same_id
  child_other parent m n d = elim (Bool-cases (str_eq (numeral m) (numeral n))) [
    | inl h ↦ absurd (d (injective m n ((eq_iff (numeral m) (numeral n)).0 h)))
    | inr h ↦ rw (h, same_id_refl parent)
  ]

  -- The loop depends on the rows of the ids that it may still reach.
  skip_taken_cong :
      (fuel : ℕ) (parent : ThreadId) (rows rows' : Rows) (n : ℕ)
      → ((m : ℕ) → n ≤ m → get (child numeral parent m) rows ≡ get (child numeral parent m) rows')
      → skip_taken numeral fuel parent rows n ≡ skip_taken numeral fuel parent rows' n
  unfolding skip_taken has_own_row
  skip_taken_cong zero parent rows rows' n h = refl
  skip_taken_cong (suc fuel) parent rows rows' n h =
      rw
        (
          h n (omega arith),
          skip_taken_cong fuel parent rows rows' (suc n) (λ m le. h m (omega arith)),
        )
        refl

  -- More fuel than there are rows is enough, since each id that is taken has a row of its own.
  skip_taken_lem :
      (fuel : ℕ) (parent : ThreadId) (rows : Rows) (n : ℕ)
      → length rows < fuel
      → (m : ℕ) × (skip_taken numeral fuel parent rows n ≡ some m)
        × (n ≤ m)
        × (has_own_row (child numeral parent m) rows ≡ false)
  unfolding skip_taken has_own_row
  skip_taken_lem zero parent rows n lt = absurd (omega arith)
  skip_taken_lem (suc fuel) parent rows n lt =
      elim (Bool-cases (is_some (get (child numeral parent n) rows))) [
        | inr free ↦ (n, rw free, omega arith, free)
        | inl taken ↦
            let id = child numeral parent n in
            let left = keep_if (λ entry. not (same_id entry.0 id)) rows in
            let (m, stops, le, free) =
              skip_taken_lem fuel parent left (suc n) (omega (arith, fewer id rows taken)) in
            let same = λ (k : ℕ) (h : suc n ≤ k).
              get-without id (child numeral parent k) rows (child_other parent n k (omega arith)) in
            (
              m,
              rw (taken, sym (skip_taken_cong fuel parent left rows (suc n) same), stops),
              omega arith,
              subst (λ (o : Option ThreadRow). is_some o ≡ false) (same m le) free,
            )
      ]

  -- A replan of a known thread always gets an id. It is a child of the thread that no thread was planned
  -- under, its number is above the count on the row, and the count becomes that number.
  pub next_replan_thread_id_lem :
      (parent : ThreadId) (rows : Rows) (row : ThreadRow)
      → get parent rows ≡ some row
      → (n : ℕ) × (left : Rows) × (next_replan_thread_id numeral parent rows
          ≡ some (child numeral parent n, left))
        × (row.replan_count < n)
        × (has_own_row (child numeral parent n) rows ≡ false)
        × (get parent left ≡ some (record row { replan_count = n }))
  unfolding next_replan_thread_id
  next_replan_thread_id_lem parent rows row known =
      let (m, stops, le, free) =
        skip_taken_lem (suc (length rows)) parent rows (row.replan_count + 1) (omega arith) in
      let updated = record row { replan_count = m } in
      (
        m,
        put parent updated rows,
        rw (known, stops),
        omega arith,
        free,
        get-put parent updated rows,
      )

  -- Two replans of a thread, one after the other, get different ids.
  next_replan_thread_id-twice :
      (parent first second : ThreadId) (rows left last : Rows)
      → next_replan_thread_id numeral parent rows ≡ some (first, left)
      → next_replan_thread_id numeral parent left ≡ some (second, last)
      → first ≢ second
  next_replan_thread_id-twice parent first second rows left last e e' =
      elim (Option-cases (get parent rows)) [
        | inl unknown ↦ absurd (raises unknown)
        | inr (row, known) ↦
            let (n, left₁, is, lt, free, counted) =
              next_replan_thread_id_lem parent rows row known in
            let (one, rest) = same_pair (sym is ∙ e) in
            let (m, left₂, is₂, lt₂, free₂, counted₂) =
              next_replan_thread_id_lem parent left (record row { replan_count = n })
                (subst (λ r. get parent r ≡ some (record row { replan_count = n })) rest counted) in
            let (two, rest₂) = same_pair (sym is₂ ∙ e') in
            λ same. apart n m (omega arith) (one ∙ same ∙ sym two)
      ]
    where
      raises : get parent rows ≡ none → ⊥
      raises unknown = unfold next_replan_thread_id in ground arith

      same_pair :
          {x y : ThreadId} {r r' : Rows}
          → ◌≡◌ {A = Option (ThreadId × Rows)} (some (x, r)) (some (y, r'))
          → (x ≡ y) × (r ≡ r')
      same_pair h = let p = some-injective _ _ h in (ap (λ q. q.0) p, ap (λ q. q.1) p)

      apart : (n m : ℕ) → n < m → child numeral parent n ≡ child numeral parent m → ⊥
      apart n m lt h =
          let no = child_other parent n m (omega arith) in
          let yes =
            subst (λ x. same_id (child numeral parent n) x ≡ true) h
              (same_id_refl (child numeral parent n)) in
          cc
