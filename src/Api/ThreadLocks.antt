-- ===== src/Api/ThreadLocks.antt =====
-- backend/suas/api/thread_locks.py: one lock for each thread of this process, as a state machine over
-- the events of its coroutines.
pub mod Sound
pub mod Exclusion
pub mod Overlap
use lang_graph_uas.Prelude.{
  ℕ, zero, suc, Bool, true, false, not, ◌||◌, List, [], ◌∷◌, ◌++◌, Option, none, some, String,
  length, leb, ◌==◌, any, take, keep_if, lookup, insert, str_eq, if◌then◌else◌,
}
use Prim.Native.Nat.{◌+◌}

abbrev pub max_tracked : ℕ
max_tracked = 4096

-- A coroutine in `async with thread_lock(thread)`, with the lock object that it was given.
pub record Session : Type 0 where
  pub thread : String
  pub lock : ℕ

-- The table of locks, the number of the next lock object, which objects are locked, who holds and
-- who awaits them, in the order of their arrival, and how many acquisitions found theirs locked.
pub record Locks : Type 0 where
  pub table : List (String × ℕ)
  pub next : ℕ
  pub locked : ℕ → Bool
  pub inside : List Session
  pub waiting : List Session
  pub contended : ℕ

abbrev pub no_locks : Locks
no_locks = record {
  table = [];
  next = 0;
  locked = λ lock. false;
  inside = [];
  waiting = [];
  contended = 0;
}

abbrev pub set : ℕ → Bool → (ℕ → Bool) → ℕ → Bool
set lock value locked k = if lock == k then value else locked k

abbrev pub awaits : ℕ → List Session → Bool
awaits lock waiting = any (λ s. s.lock == lock) waiting

-- `acquire` of an `asyncio.Lock`: it takes a lock that is free and that no one awaits, and waits for
-- any other.
abbrev pub hold : Session → Locks → Locks
hold s w = record w { locked = set s.lock true w.locked; inside = w.inside ++ (s ∷ []) }

abbrev pub queue : Session → Locks → Locks
queue s w = record w {
  waiting = w.waiting ++ (s ∷ []);
  contended = if w.locked s.lock then w.contended + 1 else w.contended;
}

-- `__aenter__`, up to the point where it holds the lock or waits.
unfoldable pub acquire : Session → Locks → Locks
acquire s w = if w.locked s.lock || awaits s.lock w.waiting then queue s w else hold s w

abbrev pub entered : String → Locks → Option ℕ → Locks
entered thread w (some lock) = acquire (record { thread = thread; lock = lock }) w
entered thread w none =
    acquire (record { thread = thread; lock = w.next })
      (record w { table = insert thread w.next w.table; next = w.next + 1 })

-- `_lock_for`, and then `__aenter__`: nothing is awaited between them.
unfoldable pub enter : String → Locks → Locks
enter thread w = entered thread w (lookup thread w.table)

abbrev pub pop : String → List (String × ℕ) → List (String × ℕ)
pop thread table = keep_if (λ entry. not (str_eq entry.0 thread)) table

abbrev pub dropped : String → Locks → Option ℕ → Locks
dropped thread w none = w
dropped thread w (some lock) = if w.locked lock then w else record w { table = pop thread w.table }

-- `_release`.
unfoldable pub release_table : String → Locks → Locks
release_table thread w =
    if leb (length w.table) max_tracked then w else dropped thread w (lookup thread w.table)

abbrev pub later : Session → Option (Session × List Session) → Option (Session × List Session)
later s none = none
later s (some (t, rest)) = some (t, s ∷ rest)

-- An element by its position, and the others.
unfoldable pub extract : ℕ → List Session → Option (Session × List Session)
extract k [] = none
extract zero (s ∷ ss) = some (s, ss)
extract (suc k) (s ∷ ss) = later s (extract k ss)

abbrev pub left : Locks → Option (Session × List Session) → Option Locks
left w none = none
left w (some (s, rest)) =
    some (release_table s.thread (record w { inside = rest; locked = set s.lock false w.locked }))

-- `__aexit__` of the k-th holder.
unfoldable pub leave : ℕ → Locks → Option Locks
leave k w = left w (extract k w.inside)

abbrev pub woken : ℕ → Locks → Option (Session × List Session) → Option Locks
woken k w none = none
woken k w (some (s, rest)) =
    if w.locked s.lock || awaits s.lock (take k w.waiting)
    then none
    else some (hold s (record w { waiting = rest }))

-- The k-th waiter goes on: it is the first of its lock, and the lock has been released.
unfoldable pub wake : ℕ → Locks → Option Locks
wake k w = woken k w (extract k w.waiting)

pub data Event : Type 0 where
  entering : String → Event
  leaving : ℕ → Event
  waking : ℕ → Event

abbrev pub step : Event → Locks → Option Locks
step (entering thread) w = some (enter thread w)
step (leaving k) w = leave k w
step (waking k) w = wake k w

-- A sequence of events; `none` where one of them is not possible.
abbrev pub then_run : (Locks → Option Locks) → Option Locks → Option Locks
then_run rest none = none
then_run rest (some w) = rest w

unfoldable pub run : List Event → Locks → Option Locks
run [] w = some w
run (e ∷ es) w = then_run (run es) (step e w)
