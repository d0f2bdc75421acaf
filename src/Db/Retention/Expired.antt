-- ===== src/Db/Retention/Expired.antt =====
-- backend/suas/db/retention.py: the pass over the threads that are past the retention window.
use lang_graph_uas.Prelude.{
  ℕ, zero, suc, ◌≡◌, refl, sym, ◌∙◌, subst, ◌⊎◌, inl, inr, Bool, true, false, not, ◌||◌, List, [],
  ◌∷◌, map, Option, none, some, String, take, keep_if, ltb, arith, Bool-cases, if◌then◌else◌,
}
use Prim.Native.Nat.{◌-◌}
use Prim.Native.Nat
use lang_graph_uas.Db.Retention.{
  ThreadId, same_id, ThreadRow, Rows, get, has_own_row, thread_family, delete_thread, without_row,
}
use lang_graph_uas.Db.Retention.Ids.{same_id_refl, same_id→eq, get-without}
use lang_graph_uas.Db.Retention.Purge.{holds, holds-delete_thread}

abbrev pub max_threads_per_purge : ℕ
max_threads_per_purge = 1000

-- `created_at < now - retention`.
abbrev pub is_expired : ℕ → ℕ → ThreadRow → Bool
is_expired retention now row = ltb (Nat.◌+◌ row.created_at retention) now

-- The ids of the rows that are past the window, and those of them that one pass takes up.
abbrev pub past_window : ℕ → ℕ → Rows → List ThreadId
past_window retention now rows =
    map (λ entry. entry.0) (keep_if (λ entry. is_expired retention now entry.1) rows)

unfoldable pub expired_thread_ids : ℕ → ℕ → Rows → List ThreadId
expired_thread_ids retention now rows = take max_threads_per_purge (past_window retention now rows)

-- Times, and the window, are in microseconds; `raises` tells the threads whose checkpoint the saver fails
-- to delete.
module _ (numeral : ℕ → String) (raises : ThreadId → Bool) where
  -- The deletes of a family until one raises: whether none did, and the checkpoints that are left.
  unfoldable pub delete_until :
      ThreadId → Rows → List ThreadId → List ThreadId → Bool × List ThreadId
  delete_until id left [] checkpoints = (true, checkpoints)
  delete_until id left (member ∷ members) checkpoints =
      let skipped = delete_until id left members checkpoints in
      let deleted = delete_until id left members (delete_thread member checkpoints) in
      if same_id member id || not (has_own_row member left)
      then if raises member then (false, checkpoints) else deleted
      else skipped

  -- A transaction in which a delete raised leaves the row. Checkpoints are not part of it.
  abbrev pub closed : ℕ → Rows → Rows → Bool × List ThreadId → ℕ × Rows × List ThreadId
  closed count rows left (true, checkpoints) = (suc count, left, checkpoints)
  closed count rows left (false, checkpoints) = (count, rows, checkpoints)

  abbrev pub claimed :
      ThreadId → ℕ → Rows → List ThreadId → Option ThreadRow → ℕ × Rows × List ThreadId
  claimed id count rows checkpoints none = (count, rows, checkpoints)
  claimed id count rows checkpoints (some row) =
      let left = without_row id rows in
      closed count rows left
        (delete_until id left (thread_family numeral id row.replan_count) checkpoints)

  -- The loop over the ids, with the threads that it has purged.
  unfoldable pub purge_each : List ThreadId → ℕ → Rows → List ThreadId → ℕ × Rows × List ThreadId
  purge_each [] count rows checkpoints = (count, rows, checkpoints)
  purge_each (id ∷ ids) count rows checkpoints =
      let (n, left, kept) = claimed id count rows checkpoints (get id rows) in
      purge_each ids n left kept

  unfoldable pub purge_expired_threads : ℕ → ℕ → Rows → List ThreadId → ℕ × Rows × List ThreadId
  unfolding expired_thread_ids
  purge_expired_threads zero now rows checkpoints = (0, rows, checkpoints)
  purge_expired_threads (suc r) now rows checkpoints =
      purge_each (expired_thread_ids (suc r) now rows) 0 rows checkpoints

module _ (numeral : ℕ → String) (raises : ThreadId → Bool) (x : ThreadId) where
  -- The row of the thread is as it was, and its checkpoint is there if it was.
  abbrev pub IsSpared : Rows → List ThreadId → ℕ × Rows × List ThreadId → Type 0
  IsSpared rows checkpoints result =
      (get x result.1 ≡ get x rows) × (holds x checkpoints ≡ true → holds x result.2 ≡ true)

  -- A member whose checkpoint is deleted is not a thread with a row of its own, but for the one purged.
  other_member :
      (id member : ThreadId) (left : Rows)
      → same_id id x ≡ false
      → has_own_row x left ≡ true
      → (same_id member id || not (has_own_row member left)) ≡ true
      → same_id member x ≡ false
  other_member id member left apart own h = elim (Bool-cases (same_id member x)) [
    | inr e ↦ e
    | inl e ↦
        let is = sym (same_id→eq member x e) in
        let h' = subst (λ m. (same_id m id || not (has_own_row m left)) ≡ true) (sym is) h in
        elim (Bool-cases (same_id x id)) [
          | inl q ↦
              let back = subst (λ y. same_id y x ≡ true) (same_id→eq x id q) (same_id_refl x) in
              absurd (cc)
          | inr q ↦ absurd (cc)
        ]
  ]

  delete_until-holds :
      (id : ThreadId) (left : Rows) (members checkpoints : List ThreadId)
      → same_id id x ≡ false
      → has_own_row x left ≡ true
      → holds x checkpoints ≡ true
      → holds x (delete_until numeral raises id left members checkpoints).1 ≡ true
  unfolding delete_until
  delete_until-holds id left [] checkpoints apart own h = h
  delete_until-holds id left (member ∷ members) checkpoints apart own h =
      elim (Bool-cases (same_id member id || not (has_own_row member left))) [
        | inr e ↦ rw e (delete_until-holds id left members checkpoints apart own h)
        | inl e ↦ elim (Bool-cases (raises member)) [
          | inl r ↦ rw (e, r) h
          | inr r ↦
              let other = other_member id member left apart own e in
              rw (e, r)
                (delete_until-holds id left members (delete_thread member checkpoints) apart own
                  (holds-delete_thread numeral x member checkpoints ∙ rw (other, h) refl))
        ]
      ]

  closed-IsSpared :
      (count : ℕ) (rows left : Rows) (checkpoints : List ThreadId) (o : Bool × List ThreadId)
      → get x left ≡ get x rows
      → (holds x checkpoints ≡ true → holds x o.1 ≡ true)
      → IsSpared rows checkpoints (closed numeral raises count rows left o)
  closed-IsSpared count rows left checkpoints (true, kept) same h = (same, h)
  closed-IsSpared count rows left checkpoints (false, kept) same h = (refl, h)

  claimed-IsSpared :
      (id : ThreadId) (count : ℕ) (rows : Rows) (checkpoints : List ThreadId)
      (row : Option ThreadRow)
      → same_id id x ≡ false
      → has_own_row x rows ≡ true
      → IsSpared rows checkpoints (claimed numeral raises id count rows checkpoints row)
  unfolding has_own_row
  claimed-IsSpared id count rows checkpoints none apart own = (refl, λ h. h)
  claimed-IsSpared id count rows checkpoints (some row) apart own =
      let left = without_row id rows in
      let same = get-without id x rows apart in
      closed-IsSpared count rows left checkpoints _ same (
        delete_until-holds id left (thread_family numeral id row.replan_count) checkpoints apart
          (rw same own))

  purge_each-IsSpared :
      (ids : List ThreadId) (count : ℕ) (rows : Rows) (checkpoints : List ThreadId)
      → holds x ids ≡ false
      → has_own_row x rows ≡ true
      → IsSpared rows checkpoints (purge_each numeral raises ids count rows checkpoints)
  unfolding purge_each has_own_row
  purge_each-IsSpared [] count rows checkpoints h own = (refl, λ k. k)
  purge_each-IsSpared (id ∷ ids) count rows checkpoints h own =
      let (one, others) = or_false (same_id id x) (holds x ids) h in
      let after = claimed numeral raises id count rows checkpoints (get id rows) in
      let (same, kept) = claimed-IsSpared id count rows checkpoints (get id rows) one own in
      let (same', kept') = purge_each-IsSpared ids after.0 after.1 after.2 others (rw same own) in
      (same' ∙ same, λ k. kept' (kept k))
    where
      or_false : (a b : Bool) → (a || b) ≡ false → (a ≡ false) × (b ≡ false)
      or_false a b h = ground arith

  holds-take : (n : ℕ) (ids : List ThreadId) → holds x ids ≡ false → holds x (take n ids) ≡ false
  holds-take zero ids h = refl
  holds-take (suc n) [] h = refl
  holds-take (suc n) (id ∷ ids) h = ground (arith, holds-take n ids)

  -- The pass over the expired threads spares every planned thread that is not past the window, or all of
  -- them where the window is 0: its row is left as it was, and its checkpoint too, whatever ids the
  -- purged threads handed out and whichever checkpoints the saver fails to delete.
  pub purge_expired_threads-IsSpared :
      (retention now : ℕ) (rows : Rows) (checkpoints : List ThreadId)
      → has_own_row x rows ≡ true
      → (retention ≡ 0) ⊎ (holds x (past_window retention now rows) ≡ false)
      → IsSpared rows checkpoints
          (purge_expired_threads numeral raises retention now rows checkpoints)
  unfolding purge_expired_threads expired_thread_ids
  purge_expired_threads-IsSpared zero now rows checkpoints own h = (refl, λ k. k)
  purge_expired_threads-IsSpared (suc r) now rows checkpoints own (inl h) = absurd (omega arith)
  purge_expired_threads-IsSpared (suc r) now rows checkpoints own (inr h) =
      purge_each-IsSpared (expired_thread_ids (suc r) now rows) 0 rows checkpoints
        (holds-take max_threads_per_purge (past_window (suc r) now rows) h) own
