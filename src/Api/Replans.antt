-- ===== src/Api/Replans.antt =====
-- backend/suas/api/routes.py: comparing a briefed plan with what the aircraft reports.
use lang_graph_uas.Prelude.{
  ℕ, ◌≡◌, ◌<◌, refl, arith, ◌⊎◌, inl, inr, true, false, [], Option, none, some, String, Bool-cases,
  Option-cases, if◌then◌else◌,
}
use lang_graph_uas.Float.{Float, zero_f}
use lang_graph_uas.Schemas.Telemetry.{TelemetrySnapshot, age_s}
use lang_graph_uas.Schemas.Responses.{Calculations}
use lang_graph_uas.Schemas.Assessment.{DeterministicAssessment}
use lang_graph_uas.Schemas.Alerts.{info, continue}
use lang_graph_uas.Graph.State.{MissionState}
use lang_graph_uas.Graph.Replan.{ReplanState, replan}
use lang_graph_uas.Db.Retention.{ThreadId, Rows, get, has_own_row, child, next_replan_thread_id}
use lang_graph_uas.Db.Retention.Ids.{next_replan_thread_id_lem}
use lang_graph_uas.Api.Plans.{Saved, Store, visible_to}

-- The answer to a replan: an HTTP error, the exception of a node, or the child thread that the replan ran
-- on, the state it ended in, and the rows. Its checkpoint is written to the child thread.
pub data ReplanReply (F : Type 0) : Type 0 where
  refused : ℕ → ReplanReply F
  failed : ReplanReply F
  replanned : ThreadId → ReplanState F → Rows → ReplanReply F

module _ {F : Type 0} ⦃f : Float F⦄ (numeral : ℕ → String) (reserve_percent : F) where
  abbrev briefed_margin : Option (Calculations F) → F
  briefed_margin none = zero_f
  briefed_margin (some c) = c.battery_check.margin_wh

  abbrev pub seeded :
      TelemetrySnapshot F → ℕ → MissionState F → DeterministicAssessment → ReplanState F
  seeded snapshot now s a = record {
    snapshot = snapshot;
    aircraft = s.aircraft;
    payload = s.payload;
    briefed_assessment = some a;
    briefed_margin_wh = briefed_margin s.calculations;
    snapshot_age_s = age_s snapshot now;
    live_energy = none;
    alerts = [];
    severity = info;
    recommended_action = continue;
    operational_ok = false;
  }

  -- A thread with checkpoints and no row of its own has its first child as every child.
  abbrev pub child_of : ThreadId → Rows → Option (ThreadId × Rows) → ThreadId × Rows
  child_of id rows none = (child numeral id 1, rows)
  child_of id rows (some reserved) = reserved

  abbrev ended : ThreadId × Rows → Option (ReplanState F) → ReplanReply F
  ended (id, rows) none = failed
  ended (id, rows) (some t) = replanned id t rows

  abbrev of_plan :
      ℕ
      → ThreadId
      → TelemetrySnapshot F
      → Rows
      → MissionState F
      → Option DeterministicAssessment
      → ReplanReply F
  of_plan now id snapshot rows s none = refused 409
  of_plan now id snapshot rows s (some a) =
      ended (child_of id rows (next_replan_thread_id numeral id rows))
        (replan reserve_percent (seeded snapshot now s a))

  abbrev of_thread : ℕ → ThreadId → TelemetrySnapshot F → Rows → Option (Saved F) → ReplanReply F
  of_thread now id snapshot rows none = refused 404
  of_thread now id snapshot rows (some old) =
      of_plan now id snapshot rows old.state old.state.assessment

  -- `id` is the thread that the snapshot names.
  unfoldable pub replan_mission :
      ℕ → ThreadId → TelemetrySnapshot F → Option String → Store F → ReplanReply F
  replan_mission now id snapshot operator store =
      if visible_to id operator store.rows
      then of_thread now id snapshot store.rows (get id store.threads)
      else refused 404

  -- What a reply to a replan has gone through.
  abbrev pub Replanned :
      ℕ → ThreadId → TelemetrySnapshot F → Option String → Store F → ReplanReply F → Type 0
  Replanned now id snapshot operator store (refused status) = (status ≡ 404) ⊎ (status ≡ 409)
  Replanned now id snapshot operator store failed = visible_to id operator store.rows ≡ true
  Replanned now id snapshot operator store (replanned to t left) =
      (visible_to id operator store.rows ≡ true)
      × (old : Saved F) × (a : DeterministicAssessment) × (get id store.threads ≡ some old)
      × (old.state.assessment ≡ some a)
      × (replan reserve_percent (seeded snapshot now old.state a) ≡ some t)
      × ((n : ℕ) × (0 < n) × (to ≡ child numeral id n))
      × ((get id store.rows ≡ none) ⊎ (has_own_row to store.rows ≡ false))

module _ {F : Type 0} ⦃f : Float F⦄ (numeral : ℕ → String)
    (injective : (m n : ℕ) → numeral m ≡ numeral n → m ≡ n) (reserve_percent : F) where
  ended-Replanned :
      (now : ℕ) (id : ThreadId) (snapshot : TelemetrySnapshot F) (operator : Option String)
      (store : Store F) (old : Saved F) (a : DeterministicAssessment) (to : ThreadId) (left : Rows)
      (o : Option (ReplanState F))
      → visible_to id operator store.rows ≡ true
      → get id store.threads ≡ some old
      → old.state.assessment ≡ some a
      → replan reserve_percent (seeded numeral reserve_percent snapshot now old.state a) ≡ o
      → ((n : ℕ) × (0 < n) × (to ≡ child numeral id n))
        × ((get id store.rows ≡ none) ⊎ (has_own_row to store.rows ≡ false))
      → Replanned numeral reserve_percent now id snapshot operator store
          (ended numeral reserve_percent (to, left) o)
  ended-Replanned now id snapshot operator store old a to left none v g e r h = v
  ended-Replanned now id snapshot operator store old a to left (some t) v g e r h =
      (v, old, a, g, e, r, h.0, h.1)

  child-fresh :
      (id : ThreadId) (rows : Rows)
      → let to =
          (child_of numeral reserve_percent id rows (next_replan_thread_id numeral id rows)).0 in
        ((n : ℕ) × (0 < n) × (to ≡ child numeral id n))
        × ((get id rows ≡ none) ⊎ (has_own_row to rows ≡ false))
  child-fresh id rows = elim (Option-cases (get id rows)) [
    | inl unknown ↦ rw (no_id unknown) ((1, omega arith, refl), inl unknown)
    | inr (row, known) ↦
        let (n, left, is, more, free, counted) =
          next_replan_thread_id_lem numeral injective id rows row known in
        rw is ((n, omega (arith, more), refl), inr free)
  ]
    where
      no_id : get id rows ≡ none → next_replan_thread_id numeral id rows ≡ none
      no_id unknown = unfold next_replan_thread_id in rw unknown refl

  plan-Replanned :
      (now : ℕ) (id : ThreadId) (snapshot : TelemetrySnapshot F) (operator : Option String)
      (store : Store F) (old : Saved F) (assessment : Option DeterministicAssessment)
      → visible_to id operator store.rows ≡ true
      → get id store.threads ≡ some old
      → old.state.assessment ≡ assessment
      → Replanned numeral reserve_percent now id snapshot operator store
          (of_plan numeral reserve_percent now id snapshot store.rows old.state assessment)
  plan-Replanned now id snapshot operator store old none v g e = inr refl
  plan-Replanned now id snapshot operator store old (some a) v g e =
      let to =
        child_of numeral reserve_percent id store.rows
          (next_replan_thread_id numeral id store.rows) in
      ended-Replanned now id snapshot operator store old a to.0 to.1
        (replan reserve_percent (seeded numeral reserve_percent snapshot now old.state a)) v g e
        refl (child-fresh id store.rows)

  thread-Replanned :
      (now : ℕ) (id : ThreadId) (snapshot : TelemetrySnapshot F) (operator : Option String)
      (store : Store F) (o : Option (Saved F))
      → visible_to id operator store.rows ≡ true
      → get id store.threads ≡ o
      → Replanned numeral reserve_percent now id snapshot operator store
          (of_thread numeral reserve_percent now id snapshot store.rows o)
  thread-Replanned now id snapshot operator store none v g = inl refl
  thread-Replanned now id snapshot operator store (some old) v g =
      plan-Replanned now id snapshot operator store old old.state.assessment v g refl

  -- A replan is refused, as an unknown thread or for want of an assessment, or it runs the replan graph on
  -- the briefed plan of a thread that its operator may see. It runs on a child of that thread, and where
  -- the thread has a row of its own, on one under whose id no thread was planned.
  pub replan_mission-Replanned :
      (now : ℕ) (id : ThreadId) (snapshot : TelemetrySnapshot F) (operator : Option String)
      (store : Store F)
      → Replanned numeral reserve_percent now id snapshot operator store
          (replan_mission numeral reserve_percent now id snapshot operator store)
  unfolding replan_mission
  replan_mission-Replanned now id snapshot operator store =
      elim (Bool-cases (visible_to id operator store.rows)) [
        | inl v ↦
            rw v (thread-Replanned now id snapshot operator store (get id store.threads) v refl)
        | inr v ↦ rw v (inl refl)
      ]
