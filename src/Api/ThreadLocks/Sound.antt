-- ===== src/Api/ThreadLocks/Sound.antt =====
-- The invariant of the locks of threads, and that every event keeps it while the table is within its
-- bound.
use lang_graph_uas.Prelude.{
  ℕ, zero, suc, ◌≤◌, ◌≡◌, refl, sym, ap, ◌∙◌, subst, inl, inr, Bool, true, false, ◌||◌, List, [],
  ◌∷◌, ◌++◌, Option, none, some, String, length, leb, ◌==◌, All, keep_if, take, arith, lookup,
  insert, str_eq, if◌then◌else◌, Bool-cases, lookup-insert, lookup-insert_other, le→leb,
}
use mathlib.Core.Option.{some-injective}
use Prim.Native.Nat.{◌+◌}
use text.Mathlib.TextEquality.{eq_iff}
use lang_graph_uas.Api.ThreadLocks.{
  Session, Locks, set, awaits, hold, queue, acquire, entered, enter, release_table, dropped, later,
  extract, left, leave, woken, wake, max_tracked,
}

abbrev pub tally : (Session → Bool) → List Session → ℕ
tally p ss = length (keep_if p ss)

abbrev pub of_lock : ℕ → Session → Bool
of_lock lock s = s.lock == lock

abbrev pub of_thread : String → Session → Bool
of_thread thread s = str_eq s.thread thread

abbrev pub IsListed : List (String × ℕ) → Session → Type 0
IsListed table s = lookup s.thread table ≡ some s.lock

-- A lock is locked exactly while one session holds it, and every session has the lock that the table
-- gives for its thread.
pub record IsSound (w : Locks) : Type 0 where
  pub held : (lock : ℕ) → tally (of_lock lock) w.inside ≡ (if w.locked lock then 1 else 0)
  pub inside : All (IsListed w.table) w.inside
  pub waiting : All (IsListed w.table) w.waiting

tally-snoc :
    (p : Session → Bool) (ss : List Session) (s : Session)
    → tally p (ss ++ (s ∷ [])) ≡ tally p ss + (if p s then 1 else 0)
tally-snoc p [] s = ground arith
tally-snoc p (t ∷ ss) s = ground (arith, tally-snoc p ss s)

All-snoc :
    (P : Session → Type 0) (ss : List Session) (s : Session)
    → All P ss
    → P s
    → All P (ss ++ (s ∷ []))
All-snoc P [] s a h = (h, tt)
All-snoc P (t ∷ ss) s (b, a) h = (b, All-snoc P ss s a h)

All-map :
    (P Q : Session → Type 0) (ss : List Session) → ((s : Session) → P s → Q s) → All P ss → All Q ss
All-map P Q [] f a = tt
All-map P Q (s ∷ ss) f (b, a) = (f s b, All-map P Q ss f a)

abbrev Extracted : List Session → Option (Session × List Session) → Type 1
Extracted ss none = Unit
Extracted ss (some (s, rest)) =
    ((p : Session → Bool) → tally p ss ≡ tally p rest + (if p s then 1 else 0))
    × ((P : Session → Type 0) → All P ss → P s × All P rest)

later-Extracted :
    (t : Session) (ss : List Session) (o : Option (Session × List Session))
    → Extracted ss o
    → Extracted (t ∷ ss) (later t o)
later-Extracted t ss none x = tt
later-Extracted t ss (some (s, rest)) (counts, alls) =
    (λ p. ground (arith, counts p), λ P (b, a). let (h, r) = alls P a in (h, (b, r)))

extract-Extracted : (k : ℕ) (ss : List Session) → Extracted ss (extract k ss)
unfolding extract
extract-Extracted k [] = tt
extract-Extracted zero (s ∷ ss) = (λ p. ground arith, λ P (b, a). (b, a))
extract-Extracted (suc k) (s ∷ ss) = later-Extracted s ss (extract k ss) (extract-Extracted k ss)

pub hold-IsSound :
    (s : Session) (w : Locks)
    → IsSound w
    → w.locked s.lock ≡ false
    → IsListed w.table s
    → IsSound (hold s w)
hold-IsSound s w sound free listed = record {
  held = λ lock.
      tally-snoc (of_lock lock) w.inside s
      ∙ one_more lock (tally (of_lock lock) w.inside) (sound.held lock);
  inside = All-snoc (IsListed w.table) w.inside s sound.inside listed;
  waiting = sound.waiting;
}
  where
    eq_of : (a b : ℕ) → (a == b) ≡ true → a ≡ b
    eq_of a b h = ground arith

    one_more :
        (lock n : ℕ)
        → n ≡ (if w.locked lock then 1 else 0)
        → n + (if s.lock == lock then 1 else 0) ≡ (if set s.lock true w.locked lock then 1 else 0)
    one_more lock n e = elim (Bool-cases (s.lock == lock)) [
      | inr h ↦ rw (h, e) (omega arith)
      | inl h ↦
          let none_yet : n ≡ 0 =
            rw (e, subst (λ k. w.locked k ≡ false) (eq_of s.lock lock h) free) refl in
          rw h (omega arith)
    ]

pub queue-IsSound : (s : Session) (w : Locks) → IsSound w → IsListed w.table s → IsSound (queue s w)
queue-IsSound s w sound listed = record {
  held = sound.held;
  inside = sound.inside;
  waiting = All-snoc (IsListed w.table) w.waiting s sound.waiting listed;
}

pub acquire-IsSound :
    (s : Session) (w : Locks) → IsSound w → IsListed w.table s → IsSound (acquire s w)
unfolding acquire
acquire-IsSound s w sound listed = at_taken (w.locked s.lock) (awaits s.lock w.waiting) refl
  where
    at_taken : (a b : Bool) → w.locked s.lock ≡ a → IsSound (if a || b then queue s w else hold s w)
    at_taken true b e = queue-IsSound s w sound listed
    at_taken false true e = queue-IsSound s w sound listed
    at_taken false false e = hold-IsSound s w sound e listed

-- A new entry leaves the locks of the threads that have one.
IsListed-still :
    (thread : String) (lock : ℕ) (table : List (String × ℕ)) (s : Session)
    → lookup thread table ≡ none
    → IsListed table s
    → IsListed (insert thread lock table) s
IsListed-still thread lock table s new h = elim (Bool-cases (str_eq thread s.thread)) [
  | inr q ↦ lookup-insert_other thread s.thread lock table q ∙ h
  | inl q ↦ absurd (clash (sym new ∙ ap (λ t. lookup t table) ((eq_iff thread s.thread).0 q) ∙ h))
]
  where
    clash : none ≡ some s.lock → ⊥
    clash e = cc

pub enter-IsSound : (thread : String) (w : Locks) → IsSound w → IsSound (enter thread w)
unfolding enter
enter-IsSound thread w sound = at_entry (lookup thread w.table) refl
  where
    at_entry : (o : Option ℕ) → lookup thread w.table ≡ o → IsSound (entered thread w o)
    at_entry (some lock) e = acquire-IsSound (record { thread = thread; lock = lock }) w sound e
    at_entry none e =
        let table = insert thread w.next w.table in
        let still = λ (s : Session). IsListed-still thread w.next w.table s e in
        acquire-IsSound (record { thread = thread; lock = w.next })
          (record w { table = table; next = w.next + 1 })
          (record {
            held = sound.held;
            inside = All-map (IsListed w.table) (IsListed table) w.inside still sound.inside;
            waiting = All-map (IsListed w.table) (IsListed table) w.waiting still sound.waiting;
          })
          (lookup-insert thread w.next w.table)

-- A release within the bound.
pub leave-IsSound :
    (k : ℕ) (w v : Locks)
    → IsSound w
    → length w.table ≤ max_tracked
    → leave k w ≡ some v
    → IsSound v × (v.table ≡ w.table)
unfolding leave release_table
leave-IsSound k w v sound small e =
    at_extracted (extract k w.inside) (extract-Extracted k w.inside) e
  where
    freed : Session → List Session → Locks
    freed s rest = record w { inside = rest; locked = set s.lock false w.locked }

    fewer :
        (s : Session) (lock n m : ℕ)
        → m ≡ (if w.locked lock then 1 else 0)
        → m ≡ n + (if s.lock == lock then 1 else 0)
        → n ≡ (if set s.lock false w.locked lock then 1 else 0)
    fewer s lock n m h q = elim (Bool-cases (s.lock == lock)) [
      | inr r ↦ rw r (ground arith)
      | inl r ↦ rw r (ground arith)
    ]

    at_extracted :
        (o : Option (Session × List Session))
        → Extracted w.inside o
        → left w o ≡ some v
        → IsSound v × (v.table ≡ w.table)
    at_extracted none x q = absurd (cc)
    at_extracted (some (s, rest)) (counts, alls) q =
        let sound_freed : IsSound (freed s rest) = record {
          held = λ lock.
              fewer s lock (tally (of_lock lock) rest) (tally (of_lock lock) w.inside)
                (sound.held lock) (counts (of_lock lock));
          inside = (alls (IsListed w.table) sound.inside).1;
          waiting = sound.waiting;
        } in
        let is : freed s rest ≡ v = some-injective _ _ (ap some (within (le→leb _ _ small)) ∙ q) in
        subst (λ u. IsSound u × (u.table ≡ w.table)) is (sound_freed, refl)
      where
        within :
            leb (length w.table) max_tracked ≡ true
            → freed s rest ≡ (
                if leb (length w.table) max_tracked
                then freed s rest
                else dropped s.thread (freed s rest) (lookup s.thread w.table))
        within h = rw h refl

pub wake-IsSound :
    (k : ℕ) (w v : Locks) → IsSound w → wake k w ≡ some v → IsSound v × (v.table ≡ w.table)
unfolding wake
wake-IsSound k w v sound e = at_extracted (extract k w.waiting) (extract-Extracted k w.waiting) e
  where
    at_extracted :
        (o : Option (Session × List Session))
        → Extracted w.waiting o
        → woken k w o ≡ some v
        → IsSound v × (v.table ≡ w.table)
    at_extracted none x q = absurd (cc)
    at_extracted (some (s, rest)) (counts, alls) q =
        at_taken (w.locked s.lock) (awaits s.lock (take k w.waiting)) refl q
      where
        ahead : Locks
        ahead = record w { waiting = rest }

        sound_ahead : IsSound ahead
        sound_ahead = record {
          held = sound.held;
          inside = sound.inside;
          waiting = (alls (IsListed w.table) sound.waiting).1;
        }

        at_taken :
            (a b : Bool)
            → w.locked s.lock ≡ a
            → (if a || b then none else some (hold s ahead)) ≡ some v
            → IsSound v × (v.table ≡ w.table)
        at_taken true b h r = absurd (cc)
        at_taken false true h r = absurd (cc)
        at_taken false false h r =
            subst (λ u. IsSound u × (u.table ≡ w.table)) (some-injective _ _ r)
              (hold-IsSound s ahead sound_ahead h (alls (IsListed w.table) sound.waiting).0, refl)
