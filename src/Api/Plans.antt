-- ===== src/Api/Plans.antt =====
-- backend/suas/api/routes.py: planning a mission, and acknowledging a plan.
pub mod Laws
pub mod Planning
use lang_graph_uas.Prelude.{
  ℕ, Bool, true, false, not, ◌&&◌, ◌||◌, List, Option, none, some, String, is_some, is_blank,
  str_eq, or_else, if◌then◌else◌,
}
use lang_graph_uas.Float.{Float}
use lang_graph_uas.Schemas.Requests.{
  MissionRequest, MissionEdits, AckRequest, AckAction, confirm, edit, abort,
}
use lang_graph_uas.Schemas.Assessment.{DeterministicAssessment}
use lang_graph_uas.Graph.State.{MissionState, Response, Dependencies}
use lang_graph_uas.Graph.Workflow.{
  Node, Stop, awaiting, finished, raised, invoke, resume_with, begin_anew, begin_again,
}
use lang_graph_uas.Db.Retention.{
  ThreadId, Rows, get, put, record_thread, thread_owner, record_acknowledgement,
}

-- What a checkpoint holds of a thread: its state, and whether a node is still to run.
pub record Saved (F : Type 0) : Type 0 where
  pub state : MissionState F
  pub is_paused : Bool

pub record Store (F : Type 0) : Type 0 where
  pub rows : Rows
  pub threads : List (ThreadId × Saved F)

-- The answer to a request: an HTTP error, an exception of a node, or a run with the store it leaves.
pub data Reply (F : Type 0) : Type 0 where
  refused : ℕ → Reply F
  failed : Node → Reply F
  replied : Stop F → Store F → Reply F

-- `owner == operator`, of an operator.
abbrev pub is_owner : Option String → String → Bool
is_owner none operator = false
is_owner (some owner) operator = str_eq owner operator

abbrev seen_by : Bool × Option String → String → Bool
seen_by (known, owner) operator = known && is_owner owner operator

-- `operator` is `none` where authentication is off.
unfoldable pub visible_to : ThreadId → Option String → Rows → Bool
visible_to id none rows = true
visible_to id (some operator) rows = seen_by (thread_owner id rows) operator

abbrev pub free_for : Bool × Option String → String → Bool
free_for (known, owner) operator = not known || is_owner owner operator

-- `_require_claimable`: false where it refuses.
unfoldable pub is_claimable : ThreadId → Option String → Rows → Bool
is_claimable id none rows = true
is_claimable id (some operator) rows = free_for (thread_owner id rows) operator

abbrev hash_of : Option DeterministicAssessment → String
hash_of none = ""
hash_of (some a) = a.inputs_hash

abbrev version_of : Option DeterministicAssessment → String
version_of none = ""
version_of (some a) = a.calculator_version

-- Does `_require_current_hash` accept the hash of a request? None, and the empty text, it does.
abbrev accepts_hash : Option String → String → Bool
accepts_hash none current = true
accepts_hash (some shown) current = is_blank shown || str_eq shown current

module _ {F : Type 0} where
  abbrev pub no_edits : MissionEdits F
  no_edits = record { target_altitude_m = none; hover_time_s = none; payload_id = none }

  unfoldable pub resume_payload : AckRequest F → Response F
  resume_payload r = record { action = r.action; actor = r.actor; edits = or_else r.edits no_edits }

  -- `has_retention_row` is that the row is there, so that the `KeyError` of an unknown thread, which
  -- the last argument of `or_else` stands for, does not arise.
  abbrev signed : ℕ → ThreadId → AckRequest F → Option DeterministicAssessment → Rows → Rows
  signed now id r assessment rows =
      if not (is_some (get id rows)) || is_blank (hash_of assessment)
      then rows
      else or_else
          (record_acknowledgement id
            (record {
              at = now;
              actor = r.actor;
              action = "confirm";
              inputs_hash = hash_of assessment;
              calculator_version = version_of assessment;
            })
            rows)
          rows

  abbrev sign :
      AckAction → ℕ → ThreadId → AckRequest F → Option DeterministicAssessment → Rows → Rows
  sign confirm now id r assessment rows = signed now id r assessment rows
  sign edit now id r assessment rows = rows
  sign abort now id r assessment rows = rows

  unfoldable pub record_signature :
      ℕ → ThreadId → AckRequest F → Option DeterministicAssessment → Rows → Rows
  record_signature now id r assessment rows = sign r.action now id r assessment rows

  -- The checkpoint that a run leaves.
  abbrev save : ThreadId → MissionState F → Bool → Store F → Store F
  save id s paused store = record store {
    threads = put id (record { state = s; is_paused = paused }) store.threads;
  }

  abbrev pub saved : ThreadId → Store F → Option (Stop F) → Reply F
  saved id store none = refused 500
  saved id store (some (raised node)) = failed node
  saved id store (some (awaiting s)) = replied (awaiting s) (save id s true store)
  saved id store (some (finished s)) = replied (finished s) (save id s false store)

  abbrev pub start : MissionRequest F → Option (Saved F) → MissionState F
  start r none = begin_anew r
  start r (some old) = begin_again old.state r

module _ {F : Type 0} ⦃f : Float F⦄ (d : Dependencies F) where
  -- The id is that of the request, or a new one where it has none.
  unfoldable pub plan_mission : ℕ → ThreadId → MissionRequest F → Option String → Store F → Reply F
  plan_mission now id r operator store =
      if is_claimable id operator store.rows
      then saved id (record store { rows = record_thread now id operator store.rows })
          (invoke d (start r (get id store.threads)))
      else refused 404

  abbrev resumed : ℕ → ThreadId → AckRequest F → Store F → MissionState F → Reply F
  resumed now id r store s =
      if accepts_hash r.inputs_hash (hash_of s.assessment)
      then saved id (record store { rows = record_signature now id r s.assessment store.rows })
          (resume_with d (resume_payload r) s)
      else refused 409

  abbrev acknowledged : ℕ → ThreadId → AckRequest F → Store F → Option (Saved F) → Reply F
  acknowledged now id r store none = refused 404
  acknowledged now id r store (some old) =
      if old.is_paused then resumed now id r store old.state else refused 409

  unfoldable pub acknowledge_plan : ℕ → ThreadId → AckRequest F → Option String → Store F → Reply F
  acknowledge_plan now id r operator store =
      if visible_to id operator store.rows
      then acknowledged now id r store (get id store.threads)
      else refused 404
