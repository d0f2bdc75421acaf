-- ===== src/Api/ThreadLocks/Exclusion.antt =====
-- Mutual exclusion, for as long as the table of locks keeps within its bound.
use lang_graph_uas.Prelude.{
  ℕ, suc, ◌≤◌, ◌≡◌, refl, sym, ap, ◌∙◌, subst, inl, inr, Bool, List, [], ◌∷◌, Option, none, some,
  String, length, All, arith, lookup, insert, str_eq, if◌then◌else◌, Bool-cases, Option-cases,
  length-insert,
}
use mathlib.Core.Option.{some-injective}
use Prim.Native.Nat.{◌+◌}
use text.Mathlib.TextEquality.{eq_iff}
use lang_graph_uas.Api.ThreadLocks.{
  Session, Locks, no_locks, acquire, entered, enter, leave, wake, Event, entering, leaving, waking,
  then_run, run, max_tracked,
}
use lang_graph_uas.Api.ThreadLocks.Sound.{
  tally, of_lock, of_thread, IsListed, IsSound, enter-IsSound, leave-IsSound, wake-IsSound,
}

-- How many coroutines come to the locks in a sequence of events.
abbrev pub entries : List Event → ℕ
entries [] = 0
entries (entering thread ∷ es) = suc (entries es)
entries (leaving k ∷ es) = entries es
entries (waking k ∷ es) = entries es

table-acquire : (s : Session) (w : Locks) → (acquire s w).table ≡ w.table
unfolding acquire
table-acquire s w = ground arith

table-enter : (thread : String) (w : Locks) → length (enter thread w).table ≤ suc (length w.table)
unfolding enter
table-enter thread w = at_entry (lookup thread w.table)
  where
    at_entry : (o : Option ℕ) → length (entered thread w o).table ≤ suc (length w.table)
    at_entry (some lock) =
        rw (table-acquire (record { thread = thread; lock = lock }) w) (omega arith)
    at_entry none =
        rw
          (table-acquire (record { thread = thread; lock = w.next })
            (record w { table = insert thread w.next w.table; next = w.next + 1 }))
          (length-insert thread w.next w.table)

continued :
    (es : List Event) (w v : Locks) (o : Option Locks)
    → ((u : Locks) → o ≡ some u → IsSound u × (u.table ≡ w.table))
    → length w.table + entries es ≤ max_tracked
    → ((u : Locks)
        → IsSound u
        → length u.table + entries es ≤ max_tracked
        → run es u ≡ some v
        → IsSound v)
    → then_run (run es) o ≡ some v
    → IsSound v
continued es w v none kept small rest e = absurd (cc)
continued es w v (some u) kept small rest e =
    let (sound, same) = kept u refl in rest u sound (omega (arith, ap (λ t. length t) same)) e

run-IsSound :
    (es : List Event) (w v : Locks)
    → IsSound w
    → length w.table + entries es ≤ max_tracked
    → run es w ≡ some v
    → IsSound v
unfolding run
run-IsSound [] w v sound small e = subst IsSound (some-injective _ _ e) sound
run-IsSound (entering thread ∷ es) w v sound small e =
    run-IsSound es (enter thread w) v (enter-IsSound thread w sound)
      (omega (arith, table-enter thread w)) e
run-IsSound (leaving k ∷ es) w v sound small e =
    continued es w v (leave k w) (λ u h. leave-IsSound k w u sound (omega arith) h) small
      (λ u kept fits q. run-IsSound es u v kept fits q) e
run-IsSound (waking k ∷ es) w v sound small e =
    continued es w v (wake k w) (λ u h. wake-IsSound k w u sound h) small
      (λ u kept fits q. run-IsSound es u v kept fits q) e

tally-listed :
    (thread : String) (lock : ℕ) (table : List (String × ℕ)) (ss : List Session)
    → lookup thread table ≡ some lock
    → All (IsListed table) ss
    → tally (of_thread thread) ss ≤ tally (of_lock lock) ss
tally-listed thread lock table [] e a = omega arith
tally-listed thread lock table (s ∷ ss) e (h, a) =
    let rest = tally-listed thread lock table ss e a in
    elim (Bool-cases (str_eq s.thread thread)) [
      | inr q ↦ rw q (ground (arith, rest))
      | inl q ↦
          let its : s.lock ≡ lock =
            some-injective _ _
              (sym h ∙ ap (λ t. lookup t table) ((eq_iff s.thread thread).0 q) ∙ e) in
          rw (q, its) (ground (arith, rest))
    ]

tally-unlisted :
    (thread : String) (table : List (String × ℕ)) (ss : List Session)
    → lookup thread table ≡ none
    → All (IsListed table) ss
    → tally (of_thread thread) ss ≡ 0
tally-unlisted thread table [] e a = refl
tally-unlisted thread table (s ∷ ss) e (h, a) = elim (Bool-cases (str_eq s.thread thread)) [
  | inr q ↦ rw (q, tally-unlisted thread table ss e a) refl
  | inl q ↦
      let its : some s.lock ≡ none =
        sym h ∙ ap (λ t. lookup t table) ((eq_iff s.thread thread).0 q) ∙ e in
      absurd (cc)
]

-- While no more than 4096 coroutines have come to the locks, whatever they do and in whatever order they
-- go on, no two of them hold the lock of one thread at a time.
pub exclusion :
    (es : List Event) (w : Locks) (thread : String)
    → entries es ≤ max_tracked
    → run es no_locks ≡ some w
    → tally (of_thread thread) w.inside ≤ 1
exclusion es w thread few e =
    let sound =
      run-IsSound es no_locks w (record { held = λ lock. refl; inside = tt; waiting = tt })
        (omega arith) e in
    elim (Option-cases (lookup thread w.table)) [
      | inl new ↦ omega (arith, tally-unlisted thread w.table w.inside new sound.inside)
      | inr (lock, listed) ↦
          let held = at_most_one (w.locked lock) (sound.held lock) in
          omega (arith, tally-listed thread lock w.table w.inside listed sound.inside, held)
    ]
  where
    at_most_one : {n : ℕ} (b : Bool) → n ≡ (if b then 1 else 0) → n ≤ 1
    at_most_one b h = ground arith
