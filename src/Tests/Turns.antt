-- ===== src/Tests/Turns.antt =====
-- Coroutines at the lock of a thread, within the bound of the table and past it.
use lang_graph_uas.Prelude.{
  ℕ, zero, suc, ◌≡◌, ◌≤◌, refl, List, [], ◌∷◌, some, String, length, arith,
}
use lang_graph_uas.Api.ThreadLocks.{
  Locks, Event, no_locks, entering, leaving, waking, run, enter, acquire, leave, wake, extract,
  release_table,
}
use lang_graph_uas.Api.ThreadLocks.Sound.{tally, of_thread}
use lang_graph_uas.Api.ThreadLocks.Exclusion.{exclusion}
use lang_graph_uas.Api.ThreadLocks.Overlap.{contested, handover, handover-overlaps}

-- Two coroutines come for one thread; the first leaves, and the second goes on.
abbrev two_in_turn : List Event
two_in_turn = entering "m" ∷ entering "m" ∷ leaving 0 ∷ waking 0 ∷ []

second_in : (w : Locks) × (run two_in_turn no_locks ≡ some w)
unfolding run enter acquire leave wake extract release_table
second_in = (_, refl)

exclusion_example : tally (of_thread "m") second_in.0.inside ≤ 1
exclusion_example = exclusion two_in_turn second_in.0 "m" (omega arith) second_in.1

-- The locks of so many other threads.
others : ℕ → List (String × ℕ)
others zero = []
others (suc n) = ("other", suc n) ∷ others n

length-others : (n : ℕ) → length (others n) ≡ n
unfolding others
length-others zero = refl
length-others (suc n) = omega (arith, length-others n)

abbrev full_table : List (String × ℕ)
full_table = ("m", 0) ∷ others 4096

handover-overlaps_example :
    (w : Locks) × (run (handover "m") (contested "m" 0 full_table 5000) ≡ some w)
    × (tally (of_thread "m") w.inside ≡ 2)
handover-overlaps_example =
    handover-overlaps "m" 0 5000 full_table refl (omega arith) (omega (arith, length-others 4096))
