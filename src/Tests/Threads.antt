-- ===== src/Tests/Threads.antt =====
-- Threads, their purge, and the acknowledgement of a plan, on concrete rows.
use lang_graph_uas.Prelude.{
  ℕ, zero, suc, ◌≡◌, refl, ap, inr, ◌⊎◌, ◌↔◌, ◌<◌, true, false, List, [], ◌∷◌, none, some, String,
  arith,
}
use Prim.Native.String
use Prim.Native.String.{count}
use text.Mathlib.TextLemmas.{length-append}
use lang_graph_uas.Schemas.Requests.{AckRequest, abort}
use lang_graph_uas.Graph.State.{MissionState}
use lang_graph_uas.Graph.Nodes.{respond, human_ack}
use lang_graph_uas.Graph.Workflow.{
  finished, drive, resume_with, successor, route_after_ack, begin_anew,
}
use lang_graph_uas.Db.Retention.{
  ThreadId, top, sub, ThreadRow, Rows, get, put, same_id, has_own_row, child, next_replan_thread_id,
  purge_thread, thread_owner,
}
use lang_graph_uas.Db.Retention.Ids.{next_replan_thread_id_lem}
use lang_graph_uas.Db.Retention.Purge.{IsPurged, holds, purge_thread_lem}
use lang_graph_uas.Db.Retention.Expired.{
  IsSpared, purge_expired_threads, purge_expired_threads-IsSpared,
}
use lang_graph_uas.Api.Plans.{
  Saved, Store, refused, replied, plan_mission, acknowledge_plan, visible_to, record_signature,
  resume_payload,
}
use lang_graph_uas.Api.Plans.Laws.{
  Acknowledged, acknowledge_plan-Acknowledged, acknowledge_plan-once,
}
use lang_graph_uas.Api.Plans.Planning.{PlannedBy, plan_mission-PlannedBy}
use lang_graph_uas.Tests.Values.{
  Decimal, decimal, dependencies, request, response, shown, quad, camera, snapshot, whole,
}
use lang_graph_uas.Schemas.Alerts.{info, continue, land_now}
use lang_graph_uas.Calculations.Replan.{LiveEnergy}
use lang_graph_uas.Calculations.Replan.Laws.{IsQuiet, IsUrgent}
use lang_graph_uas.Graph.Replan.{ReplanState, replan, replan_lem}
use lang_graph_uas.Api.Replans.{Replanned, replan_mission, replan_mission-Replanned}

-- A text for each number that tells it apart: as many strokes.
tally : ℕ → String
tally zero = ""
tally (suc n) = String.◌++◌ "|" (tally n)

count-tally : (n : ℕ) → count (tally n) ≡ n
unfolding tally
count-tally zero = refl
count-tally (suc n) = omega (arith, length-append "|" (tally n), count-tally n)

tally_injective : (m n : ℕ) → tally m ≡ tally n → m ≡ n
tally_injective m n e = omega (arith, count-tally m, count-tally n, ap count e)

abbrev row : ThreadRow
row = record { created_at = 0; operator_key_id = some "alice"; replan_count = 1; ack = none }

-- One thread that has been replanned once, and whose second child someone planned.
abbrev rows : Rows
rows = (top "m", row) ∷ (sub (top "m") (tally 2), row) ∷ []

next_replan_thread_id_lem_example :
    (n : ℕ) × (left : Rows) × (next_replan_thread_id tally (top "m") rows
      ≡ some (child tally (top "m") n, left))
    × (1 < n)
    × (has_own_row (child tally (top "m") n) rows ≡ false)
    × (get (top "m") left ≡ some (record row { replan_count = n }))
next_replan_thread_id_lem_example =
    next_replan_thread_id_lem tally tally_injective (top "m") rows row (unfold get same_id in refl)

abbrev checkpoints : List ThreadId
checkpoints = top "m" ∷ child tally (top "m") 1 ∷ top "n" ∷ []

purge_thread_lem_example :
    let (purged, left, kept) = purge_thread tally (top "m") rows checkpoints in
    (purged ≡ true)
    × (get (top "m") left ≡ none)
    × ((x : ThreadId) → (x ≡ top "m") ⊎ (get x left ≡ get x rows))
    × ((x : ThreadId)
        → (holds x kept ≡ true)
          ↔ ((holds x checkpoints ≡ true) × ¬ (IsPurged tally (top "m") 1 left x)))
purge_thread_lem_example =
    purge_thread_lem tally (top "m") rows checkpoints row (unfold get same_id in refl)

-- The thread, and its second child, are past a window of 5 at 10; another is not.
abbrev later_rows : Rows
later_rows = (top "n", record row { created_at = 8 }) ∷ rows

purge_expired_threads-IsSpared_example :
    IsSpared tally
      (λ id. false)
      (top "n")
      later_rows
      checkpoints
      (purge_expired_threads tally (λ id. false) 5 10 later_rows checkpoints)
purge_expired_threads-IsSpared_example =
    purge_expired_threads-IsSpared tally (λ id. false) (top "n") 5 10 later_rows checkpoints
      (unfold has_own_row get same_id in refl) (inr (unfold same_id in refl))

abbrev paused : Saved Decimal
paused = record { state = shown; is_paused = true }

abbrev store : Store Decimal
store = record { rows = rows; threads = (top "m", paused) ∷ [] }

abbrev abortion : AckRequest Decimal
abortion = record { action = abort; actor = "alice"; inputs_hash = none; edits = none }

acknowledge_plan-Acknowledged_example :
    Acknowledged dependencies
      (top "m")
      abortion
      (some "alice")
      store
      (acknowledge_plan dependencies 5 (top "m") abortion (some "alice") store)
acknowledge_plan-Acknowledged_example =
    acknowledge_plan-Acknowledged dependencies 5 (top "m") abortion (some "alice") store

abbrev over : MissionState Decimal
over = respond abort shown (record (response abort) { actor = "alice" })

abbrev left : Store Decimal
left = record store { threads = (top "m", record { state = over; is_paused = false }) ∷ [] }

acknowledge_plan-once_example :
    acknowledge_plan dependencies 6 (top "m") abortion (some "alice") left ≡ refused 409
acknowledge_plan-once_example =
    acknowledge_plan-once dependencies 5 6 (top "m") abortion abortion (some "alice") store left
      over done
  where
    done :
        acknowledge_plan dependencies 5 (top "m") abortion (some "alice") store
        ≡ replied (finished over) left
    done =
        unfold acknowledge_plan visible_to thread_owner get put same_id resume_payload resume_with
          drive human_ack successor route_after_ack record_signature begin_anew in
        refl

plan_mission-PlannedBy_example :
    PlannedBy dependencies
      (top "new")
      "bob"
      store
      (plan_mission dependencies 5 (top "new") request (some "bob") store)
plan_mission-PlannedBy_example =
    plan_mission-PlannedBy dependencies 5 (top "new") request "bob" store

replan_mission-Replanned_example :
    Replanned tally
      (whole 20)
      5
      (top "m")
      snapshot
      (some "alice")
      store
      (replan_mission tally (whole 20) 5 (top "m") snapshot (some "alice") store)
replan_mission-Replanned_example =
    replan_mission-Replanned tally tally_injective (whole 20) 5 (top "m") snapshot (some "alice")
      store

abbrev replanning : ReplanState Decimal
replanning = record {
  snapshot = snapshot;
  aircraft = some quad;
  payload = some camera;
  briefed_assessment = none;
  briefed_margin_wh = whole 100;
  snapshot_age_s = whole 5;
  live_energy = none;
  alerts = [];
  severity = info;
  recommended_action = continue;
  operational_ok = false;
}

replan_lem_example :
    (t : ReplanState Decimal) × (live : LiveEnergy Decimal) × (replan (whole 20) replanning
      ≡ some t)
    × (t.live_energy ≡ some live)
    × (t.briefed_assessment ≡ none)
    × ((t.operational_ok ≡ true) ↔ IsQuiet quad camera snapshot (whole 5) live)
    × ((t.recommended_action ≡ land_now) ↔ IsUrgent quad snapshot live)
replan_lem_example = replan_lem (whole 20) replanning quad camera refl refl
