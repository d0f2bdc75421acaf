-- ===== src/Api/ThreadLocks/Overlap.antt =====
-- What happens past the bound: a lock is dropped while a coroutine still waits for it.
use lang_graph_uas.Prelude.{
  ℕ, ◌<◌, ◌≡◌, ◌≢◌, refl, inl, inr, true, false, List, [], ◌∷◌, none, some, String, length, leb,
  ◌==◌, arith, lookup, insert, Bool-cases,
}
use Prim.Native.Nat.{◌+◌}
use text.Mathlib.TextPositions.{eq_refl}
use lang_graph_uas.Api.ThreadLocks.{
  Session, Locks, set, hold, acquire, enter, pop, release_table, extract, leave, wake, Event,
  entering, leaving, waking, run, max_tracked,
}
use lang_graph_uas.Api.ThreadLocks.Sound.{tally, of_thread}

lookup-pop : (thread : String) (table : List (String × ℕ)) → lookup thread (pop thread table) ≡ none
lookup-pop thread [] = refl
lookup-pop thread ((key, lock) ∷ table) = ground (arith, lookup-pop thread table)

-- One coroutine holds the lock of a thread, and another waits for it.
abbrev pub contested : String → ℕ → List (String × ℕ) → ℕ → Locks
contested thread lock table next =
    let s : Session = record { thread = thread; lock = lock } in
    record {
      table = table;
      next = next;
      locked = λ k. lock == k;
      inside = s ∷ [];
      waiting = s ∷ [];
      contended = 1;
    }

-- The holder leaves, a third coroutine comes, and the waiter goes on.
abbrev pub handover : String → List Event
handover thread = leaving 0 ∷ entering thread ∷ waking 0 ∷ []

module _ (thread : String) (lock next : ℕ) (table : List (String × ℕ))
    (listed : lookup thread table ≡ some lock) (other : lock ≢ next)
    (big : max_tracked < length table) where
  -- The locks once the holder has left, once the third coroutine is in, and once the waiter is.
  abbrev released : Locks
  released = record (contested thread lock table next) {
    table = pop thread table;
    locked = set lock false (λ k. lock == k);
    inside = [];
  }

  abbrev newcomer : Session
  newcomer = record { thread = thread; lock = next }

  abbrev waiter : Session
  waiter = record { thread = thread; lock = lock }

  abbrev taken : Locks
  taken =
      hold newcomer
        (record released { table = insert thread next (pop thread table); next = next + 1 })

  abbrev shared : Locks
  shared = hold waiter (record taken { waiting = [] })

  same : (lock == lock) ≡ true
  same = ground arith

  differ : (lock == next) ≡ false
  differ = elim (Bool-cases (lock == next)) [ inr h ↦ h | inl h ↦ absurd (other (ground arith)) ]

  differ_back : (next == lock) ≡ false
  differ_back = elim (Bool-cases (next == lock)) [
    | inr h ↦ h
    | inl h ↦ absurd (other (ground arith))
  ]

  over : leb (length table) max_tracked ≡ false
  over = ground arith

  leave_lem : leave 0 (contested thread lock table next) ≡ some released
  unfolding leave release_table extract
  leave_lem = rw (over, listed, same) refl

  enter_lem : enter thread released ≡ taken
  unfolding enter acquire
  enter_lem = rw (lookup-pop thread table, differ) refl

  wake_lem : wake 0 taken ≡ some shared
  unfolding wake extract
  wake_lem = rw (differ_back, same) refl

  -- Past its bound the table gives up the lock of a thread that a coroutine waits for, since it is not
  -- locked at that moment: the holder leaves, the next to come gets a new lock and goes in, the waiter
  -- goes in with the old one, and two coroutines are inside for one thread.
  pub handover-overlaps :
      (w : Locks) × (run (handover thread) (contested thread lock table next) ≡ some w)
      × (tally (of_thread thread) w.inside ≡ 2)
  unfolding run
  handover-overlaps = (shared, rw (leave_lem, enter_lem, wake_lem) refl, rw (eq_refl thread) refl)
