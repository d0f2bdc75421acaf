-- ===== src/Api/RateLimit/Window.antt =====
-- The two limiters against each other, and the promise of a refusal.
use lang_graph_uas.Prelude.{
  ℕ, suc, ◌≤◌, ◌<◌, ◌≡◌, refl, inl, inr, true, false, List, [], ◌∷◌, ◌++◌, Option, none, some,
  String, length, ltb, leb, keep_if, lookup, insert, or_else, arith, All, Bool-cases, lt→ltb,
  ltb→lt, subst, lookup-insert, length-insert, length-keep_if,
}
use Prim.Native.Nat.{◌+◌, ◌*◌}
use lang_graph_uas.Api.RateLimit.{
  Limit, Hits, second, seconds_left, has_left, is_inside, prune, evict_if_needed, record_hit, check,
  retry_after_s, concluded, admit, decided, admit_row, max_tracked_clients,
}

-- Hits in the order of their times.
abbrev pub IsOrdered : List ℕ → Type 0
IsOrdered [] = Unit {0}
IsOrdered (hit ∷ hits) = All (λ later. hit ≤ later) hits × IsOrdered hits

module _ (l : Limit) where
  keep_if-inside :
      (now : ℕ) (hits : List ℕ)
      → All (λ hit. now < hit + l.window) hits
      → keep_if (is_inside l now) hits ≡ hits
  keep_if-inside now [] h = refl
  keep_if-inside now (hit ∷ hits) (h, hs) =
      rw (lt→ltb now (hit + l.window) h, keep_if-inside now hits hs)

  All-later :
      (now hit : ℕ) (hits : List ℕ)
      → now < hit + l.window
      → All (λ later. hit ≤ later) hits
      → All (λ later. now < later + l.window) hits
  All-later now hit [] h a = tt
  All-later now hit (later ∷ hits) h (le, a) = (omega arith, All-later now hit hits h a)

  -- Popping from the left of ordered hits drops exactly those that have left the window.
  prune-keep_if :
      (now : ℕ) (hits : List ℕ) → IsOrdered hits → prune l now hits ≡ keep_if (is_inside l now) hits
  unfolding prune
  prune-keep_if now [] o = refl
  prune-keep_if now (hit ∷ hits) (a, o) = elim (Bool-cases (has_left l now hit)) [
    | inl h ↦ rw (h, ltb_false hit h, prune-keep_if now hits o)
    | inr h ↦
        let inside = not_left hit h in
        rw (
          h,
          lt→ltb now (hit + l.window) inside,
          keep_if-inside now hits (All-later now hit hits inside a),
        )
  ]
    where
      ltb_false : (x : ℕ) → has_left l now x ≡ true → is_inside l now x ≡ false
      ltb_false x h = ground arith

      not_left : (x : ℕ) → has_left l now x ≡ false → now < x + l.window
      not_left x h = ground arith

  -- What one admission by each limiter comes to, on the same hits of the client.
  abbrev pub Agree : ℕ → String → ℕ × Hits → Option (ℕ × List ℕ) → Type 0
  Agree now client (wait, hits) none = ⊥
  Agree now client (wait, hits) (some (w, kept)) = (wait ≡ w) × (lookup client hits ≡ some kept)

  kept-evict :
      (client : String) (kept : List ℕ) (hits : Hits)
      → length hits < max_tracked_clients
      → lookup client (evict_if_needed l (insert client kept hits)) ≡ some kept
  unfolding evict_if_needed
  kept-evict client kept hits h =
      elim (Bool-cases (ltb max_tracked_clients (length (insert client kept hits)))) [
        | inl over ↦ absurd (omega (arith, ltb→lt _ _ over, length-insert client kept hits))
        | inr fits ↦ rw fits (lookup-insert client kept hits)
      ]

  admit_kept :
      (now : ℕ) (client : String) (hits : Hits) (kept : List ℕ)
      → 0 < l.max_requests
      → length hits < max_tracked_clients
      → Agree now client
          (concluded l now client (record_hit l now client hits kept))
          (decided l now kept)
  unfolding retry_after_s
  admit_kept now client hits [] pos h = elim (Bool-cases (leb l.max_requests 0)) [
    | inl full ↦ absurd (ground arith)
    | inr free ↦ rw free (refl, kept-evict client (now ∷ []) hits h)
  ]
  admit_kept now client hits (oldest ∷ rest) pos h =
      elim (Bool-cases (leb l.max_requests (length (oldest ∷ rest)))) [
        | inl full ↦ rw (full, lookup-insert client (oldest ∷ rest) hits) (refl, refl)
        | inr free ↦ rw free (refl, kept-evict client ((oldest ∷ rest) ++ (now ∷ [])) hits h)
      ]

  -- The limiter of one process and the shared one decide alike. On the same ordered hits of a client, at
  -- one time, with a limit of at least one request and fewer clients than are tracked, both give the same
  -- wait and keep the same hits.
  pub admit-admit_row :
      (now : ℕ) (client : String) (hits : Hits)
      → 0 < l.max_requests
      → length hits < max_tracked_clients
      → IsOrdered (or_else (lookup client hits) [])
      → Agree now client
          (admit l now now client hits)
          (admit_row l now (or_else (lookup client hits) []))
  unfolding admit check admit_row
  admit-admit_row now client hits pos h o =
      rw (prune-keep_if now (or_else (lookup client hits) []) o)
        (admit_kept now client hits _ pos h)

  wait_lem :
      (oldest now later : ℕ)
      → now + seconds_left oldest now l.window * second ≤ later
      → oldest + l.window ≤ later
  unfolding seconds_left
  wait_lem oldest now later h = omega arith

  -- What a refusal has seen.
  refused_row :
      (now wait : ℕ) (inside kept : List ℕ)
      → 0 < wait
      → decided l now inside ≡ some (wait, kept)
      → (oldest : ℕ) × (rest : List ℕ) × (inside ≡ oldest ∷ rest)
        × (kept ≡ oldest ∷ rest)
        × (wait ≡ seconds_left oldest now l.window)
  refused_row now wait [] kept pos e = absurd (ground arith)
  refused_row now wait (oldest ∷ rest) kept pos e =
      elim (Bool-cases (leb l.max_requests (length (oldest ∷ rest)))) [
        | inl full ↦ (oldest, rest, refl, ground arith, ground arith)
        | inr free ↦ absurd (ground arith)
      ]

  admits :
      (now : ℕ) (inside : List ℕ)
      → length inside < l.max_requests
      → decided l now inside ≡ some (0, inside ++ (now ∷ []))
  admits now inside few = ground arith

  expired :
      (later oldest : ℕ) (rest : List ℕ)
      → oldest + l.window ≤ later
      → length (keep_if (is_inside l later) (oldest ∷ rest)) ≤ length rest
  expired later oldest rest o = ground (arith, length-keep_if (is_inside l later) rest)

  -- A refusal names a wait that is long enough: whoever has been refused is admitted at any time from
  -- then on, where the row held no more hits than are allowed and no other request came between.
  pub admit_row-after_wait :
      (now later wait : ℕ) (row kept : List ℕ)
      → length row ≤ l.max_requests
      → 0 < wait
      → admit_row l now row ≡ some (wait, kept)
      → now + wait * second ≤ later
      → (hits : List ℕ) × (admit_row l later kept ≡ some (0, hits))
  unfolding admit_row
  admit_row-after_wait now later wait row kept few pos e h =
      let (oldest, rest, inside, is, waits) = refused_row now wait _ kept pos e in
      let gone =
        expired later oldest rest
          (wait_lem oldest now later (subst (λ w. now + w * second ≤ later) waits h)) in
      let held = length-keep_if (is_inside l now) row in
      let some_held : suc (length rest) ≤ length row =
        subst (λ x. length x ≤ length row) inside held in
      let left = keep_if (is_inside l later) (oldest ∷ rest) in
      (left ++ (later ∷ []), rw is (admits later left (omega arith)))
