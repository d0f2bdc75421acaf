-- ===== src/Db/Retention/Purge.antt =====
-- What a purge of a thread deletes.
use lang_graph_uas.Prelude.{
  ℕ, zero, suc, ◌≤◌, ◌<◌, ◌≡◌, refl, sym, ◌∙◌, subst, inl, inr, ◌⊎◌, ◌↔◌, Bool, true, false, not,
  ◌&&◌, ◌||◌, List, [], ◌∷◌, ◌++◌, none, some, String, arith, any, Bool-cases, and_lem,
}
use lang_graph_uas.Db.Retention.{
  ThreadId, top, sub, same_id, ThreadRow, Rows, get, has_own_row, child, children, thread_family,
  delete_thread, delete_family, without_row, purge_thread,
}
use lang_graph_uas.Db.Retention.Ids.{same_id_refl, same_id→eq, get-without}

-- A thread has a checkpoint.
abbrev pub holds : ThreadId → List ThreadId → Bool
holds id checkpoints = any (λ other. same_id other id) checkpoints

module _ (numeral : ℕ → String) where
  -- The thread itself, and the replans that it handed out and that no one planned as threads.
  abbrev pub IsPurged : ThreadId → ℕ → Rows → ThreadId → Type 0
  IsPurged id count left x =
      (x ≡ id)
      ⊎ ((n : ℕ) × (0 < n) × (n ≤ count) × (x ≡ child numeral id n) × (has_own_row x left ≡ false))

  pub holds-delete_thread :
      (x id : ThreadId) (checkpoints : List ThreadId)
      → holds x (delete_thread id checkpoints) ≡ (holds x checkpoints && not (same_id id x))
  holds-delete_thread x id [] = refl
  holds-delete_thread x id (other ∷ checkpoints) = elim (Bool-cases (same_id other id)) [
    | inl h ↦
        rw (h, holds-delete_thread x id checkpoints, same_id→eq other id h)
          (absorbed (same_id id x))
    | inr h ↦ rw (h, holds-delete_thread x id checkpoints) (kept h (Bool-cases (same_id other x)))
  ]
    where
      absorbed : (b : Bool) → (holds x checkpoints && not b) ≡ ((b || holds x checkpoints) && not b)
      absorbed b = ground arith

      apart : same_id other id ≡ false → other ≡ x → same_id id x ≡ true → ⊥
      apart h e q =
          let yes =
            subst (λ y. same_id other y ≡ true) (e ∙ sym (same_id→eq id x q))
              (same_id_refl other) in
          cc

      kept :
          same_id other id ≡ false
          → (same_id other x ≡ true) ⊎ (same_id other x ≡ false)
          → (same_id other x || (holds x checkpoints && not (same_id id x)))
            ≡ ((same_id other x || holds x checkpoints) && not (same_id id x))
      kept h (inr e) = rw e refl
      kept h (inl e) = elim (Bool-cases (same_id id x)) [
        | inl q ↦ absurd (apart h (same_id→eq other x e) q)
        | inr q ↦ rw (e, q) refl
      ]

  -- The members whose checkpoint the loop deletes.
  abbrev hits : ThreadId → Rows → ThreadId → ThreadId → Bool
  hits id left x member = same_id member x && (same_id member id || not (has_own_row member left))

  holds-delete_family :
      (x id : ThreadId) (left : Rows) (members checkpoints : List ThreadId)
      → holds x (delete_family numeral id left members checkpoints)
        ≡ (holds x checkpoints && not (any (hits id left x) members))
  unfolding delete_family
  holds-delete_family x id left [] checkpoints = ground arith
  holds-delete_family x id left (member ∷ members) checkpoints =
      elim (Bool-cases (same_id member id || not (has_own_row member left))) [
        | inl h ↦
            rw
              (
                h,
                holds-delete_family x id left members (delete_thread member checkpoints),
                holds-delete_thread x member checkpoints,
              )
              (ground arith)
        | inr h ↦ rw (h, holds-delete_family x id left members checkpoints) (ground arith)
      ]

  any-snoc :
      (p : ThreadId → Bool) (xs : List ThreadId) (y : ThreadId)
      → any p (xs ++ (y ∷ [])) ≡ (any p xs || p y)
  any-snoc p [] y = ground arith
  any-snoc p (x ∷ xs) y = ground (arith, any-snoc p xs y)

  child-hits :
      (id x : ThreadId) (left : Rows) (count : ℕ)
      → (any (hits id left x) (children numeral id count) ≡ true)
        ↔ ((n : ℕ) × (0 < n) × (n ≤ count) × (hits id left x (child numeral id n) ≡ true))
  unfolding children
  child-hits id x left zero = (λ h. absurd (cc), λ (n, pos, le, h). absurd (omega arith))
  child-hits id x left (suc count) =
      let (to, from) = child-hits id x left count in
      let last = hits id left x (child numeral id (suc count)) in
      let is =
        any-snoc (hits id left x) (children numeral id count) (child numeral id (suc count)) in
      (
        λ h. elim (or_lem (any (hits id left x) (children numeral id count)) last (sym is ∙ h)) [
          | inl q ↦ let (n, pos, le, at) = to q in (n, pos, omega arith, at)
          | inr q ↦ (suc count, omega arith, omega arith, q)
        ],
        λ (n, pos, le, h). is ∙ elim (Nat_cases n count le) [
          | inl less ↦ rw (from (n, pos, less, h)) refl
          | inr q ↦
              or_right (any (hits id left x) (children numeral id count)) last
                (subst (λ k. hits id left x (child numeral id k) ≡ true) q h)
        ],
      )
    where
      or_lem : (a b : Bool) → (a || b) ≡ true → (a ≡ true) ⊎ (b ≡ true)
      or_lem true b h = inl refl
      or_lem false b h = inr h

      or_right : (a b : Bool) → b ≡ true → (a || b) ≡ true
      or_right a b h = ground arith

      Nat_cases : (n count : ℕ) → n ≤ suc count → (n ≤ count) ⊎ (n ≡ suc count)
      Nat_cases n count le = omega arith

  -- A child is never its parent.
  child_not_parent : (id : ThreadId) (last : String) → same_id (sub id last) id ≡ false
  unfolding same_id
  child_not_parent (top a) last = refl
  child_not_parent (sub p a) last = rw (child_not_parent p a) refl

  family-IsPurged :
      (id x : ThreadId) (left : Rows) (count : ℕ)
      → (any (hits id left x) (thread_family numeral id count) ≡ true) ↔ IsPurged id count left x
  unfolding thread_family
  family-IsPurged id x left count =
      let (to, from) = child-hits id x left count in
      (
        λ h. elim (Bool-cases (hits id left x id)) [
          | inl q ↦ inl (sym (same_id→eq id x (and_lem _ _ q).0))
          | inr q ↦
              let (n, pos, le, at) = to (rw q at h) in
              let (is, own) = one n at in inr (n, pos, le, is, own)
        ],
        elim [
          | inl e ↦ rw (e, same_id_refl id) refl
          | inr (n, pos, le, e, own) ↦
              or_right (hits id left x id) (any (hits id left x) (children numeral id count)) (
                from (
                  n,
                  pos,
                  le,
                  rw
                      (
                        e,
                        same_id_refl (child numeral id n),
                        subst (λ y. has_own_row y left ≡ false) e own,
                        child_not_parent id (numeral n),
                      )
                      refl,
                ))
        ],
      )
    where
      or_right : (a b : Bool) → b ≡ true → (a || b) ≡ true
      or_right a b h = ground arith

      one :
          (n : ℕ)
          → hits id left x (child numeral id n) ≡ true
          → (x ≡ child numeral id n) × (has_own_row x left ≡ false)
      one n h =
          let (is, own) = and_lem (same_id (child numeral id n) x) _ h in
          let same = same_id→eq (child numeral id n) x is in
          let free : has_own_row (child numeral id n) left ≡ false =
            ground (arith, child_not_parent id (numeral n)) in
          (sym same, subst (λ y. has_own_row y left ≡ false) same free)

  get-without_row : (id : ThreadId) (rows : Rows) → get id (without_row id rows) ≡ none
  unfolding get
  get-without_row id [] = refl
  get-without_row id ((key, old) ∷ rows) = ground (arith, get-without_row id rows)

  -- A purge of a planned thread deletes its row, and leaves the row of every other thread as it was. It
  -- deletes the checkpoints of the thread and of the replans that it handed out, those excepted that
  -- were planned as threads of their own, and no other checkpoint.
  pub purge_thread_lem :
      (id : ThreadId) (rows : Rows) (checkpoints : List ThreadId) (row : ThreadRow)
      → get id rows ≡ some row
      → let (purged, left, kept) = purge_thread numeral id rows checkpoints in
        (purged ≡ true)
        × (get id left ≡ none)
        × ((x : ThreadId) → (x ≡ id) ⊎ (get x left ≡ get x rows))
        × ((x : ThreadId)
            → (holds x kept ≡ true)
              ↔ ((holds x checkpoints ≡ true) × ¬ (IsPurged id row.replan_count left x)))
  unfolding purge_thread
  purge_thread_lem id rows checkpoints row known = rw known (
    refl,
    get-without_row id rows,
    λ x. elim (Bool-cases (same_id id x)) [
      | inl h ↦ inl (sym (same_id→eq id x h))
      | inr h ↦ inr (get-without id x rows h)
    ],
    λ x.
        let left = without_row id rows in
        let (to, from) = family-IsPurged id x left row.replan_count in
        let is =
          holds-delete_family x id left (thread_family numeral id row.replan_count) checkpoints in
        (
          λ h.
              let (had, safe) = and_lem _ _ (sym is ∙ h) in
              (had, λ doomed. clash (from doomed) safe),
          λ (had, safe).
              is
              ∙ spared (any (hits id left x) (thread_family numeral id row.replan_count)) had
                  (λ h. safe (to h)),
        ),
  )
    where
      clash : {b : Bool} → b ≡ true → not b ≡ true → ⊥
      clash {b} h q = ground arith

      spared : {c : Bool} (b : Bool) → c ≡ true → ¬ (b ≡ true) → (c && not b) ≡ true
      spared true h q = absurd (q refl)
      spared false h q = rw h refl
