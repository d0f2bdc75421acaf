-- ===== src/Api/Plans/Laws.antt =====
-- Who may acknowledge a plan, how often, and what a signature names.
use lang_graph_uas.Prelude.{
  ℕ, ◌≡◌, refl, subst, inl, inr, ◌⊎◌, true, false, Option, none, some, String, arith, is_blank,
  Bool-cases,
}
use lang_graph_uas.Float.{Float}
use lang_graph_uas.Schemas.Requests.{AckRequest, AckAction, confirm, edit, abort}
use lang_graph_uas.Schemas.Assessment.{DeterministicAssessment}
use lang_graph_uas.Graph.State.{MissionState, Dependencies}
use lang_graph_uas.Graph.Workflow.{Stop, awaiting, finished, raised, resume_with}
use lang_graph_uas.Graph.Runs.{resume_with_lem}
use lang_graph_uas.Db.Retention.{
  ThreadId, ThreadRow, Rows, Acknowledgement, get, put, thread_owner, record_acknowledgement,
}
use lang_graph_uas.Db.Retention.Ids.{get-put}
use lang_graph_uas.Api.Plans.{
  Saved, Store, Reply, refused, failed, replied, visible_to, hash_of, accepts_hash, resume_payload,
  signed, sign, record_signature, saved, acknowledged, acknowledge_plan,
}

-- The row of a thread with its signature.
abbrev pub with_ack : ThreadRow → Acknowledgement → ThreadRow
with_ack row ack = record row { ack = some ack }

-- The two ways that an acknowledgement leaves the rows: as they were, or with a signature of the
-- assessment that was shown.
abbrev pub Signed : {F : Type 0} → ThreadId → AckRequest F → MissionState F → Rows → Rows → Type 0
Signed id r shown rows left =
    (left ≡ rows)
    ⊎ ((r.action ≡ confirm)
        × (row : ThreadRow) × (a : DeterministicAssessment) × (ack : Acknowledgement) × (get id rows
            ≡ some row)
        × (left ≡ put id (with_ack row ack) rows)
        × (shown.assessment ≡ some a)
        × (ack.actor ≡ r.actor)
        × (ack.inputs_hash ≡ a.inputs_hash)
        × (ack.calculator_version ≡ a.calculator_version))

module _ {F : Type 0} where
  signed-Signed :
      (now : ℕ) (id : ThreadId) (r : AckRequest F) (s : MissionState F)
      (assessment : Option DeterministicAssessment) (rows : Rows) (row : Option ThreadRow)
      → s.assessment ≡ assessment
      → get id rows ≡ row
      → r.action ≡ confirm
      → Signed id r s rows (signed now id r assessment rows)
  unfolding record_acknowledgement
  signed-Signed now id r s none rows row e g c = inl (ground arith)
  signed-Signed now id r s (some a) rows none e g c = inl (ground arith)
  signed-Signed now id r s (some a) rows (some row) e g c =
      elim (Bool-cases (is_blank a.inputs_hash)) [
        | inl blank ↦ inl (ground arith)
        | inr h ↦ inr (
          c,
          row,
          a,
          record {
            at = now;
            actor = r.actor;
            action = "confirm";
            inputs_hash = a.inputs_hash;
            calculator_version = a.calculator_version;
          },
          g,
          rw (g, h) refl,
          e,
          refl,
          refl,
          refl,
        )
      ]

  record_signature-Signed :
      (now : ℕ) (id : ThreadId) (r : AckRequest F) (s : MissionState F) (rows : Rows)
      → Signed id r s rows (record_signature now id r s.assessment rows)
  unfolding record_signature
  record_signature-Signed now id r s rows = at_action r.action refl
    where
      at_action :
          (a : AckAction) → r.action ≡ a → Signed id r s rows (sign a now id r s.assessment rows)
      at_action confirm e = signed-Signed now id r s s.assessment rows (get id rows) refl refl e
      at_action edit e = inl refl
      at_action abort e = inl refl

-- The checkpoint that a run is to leave.
abbrev pub checkpoint : {F : Type 0} → Stop F → Option (Saved F)
checkpoint (awaiting t) = some (record { state = t; is_paused = true })
checkpoint (finished t) = some (record { state = t; is_paused = false })
checkpoint (raised node) = none

module _ {F : Type 0} ⦃f : Float F⦄ (d : Dependencies F) where
  -- What a reply to an acknowledgement has gone through.
  abbrev pub Acknowledged : ThreadId → AckRequest F → Option String → Store F → Reply F → Type 0
  Acknowledged id r operator store (refused status) = (status ≡ 404) ⊎ (status ≡ 409)
  Acknowledged id r operator store (failed node) = visible_to id operator store.rows ≡ true
  Acknowledged id r operator store (replied stop left) =
      (visible_to id operator store.rows ≡ true)
      × (old : Saved F) × (get id store.threads ≡ some old)
      × (old.is_paused ≡ true)
      × (accepts_hash r.inputs_hash (hash_of old.state.assessment) ≡ true)
      × (resume_with d (resume_payload r) old.state ≡ some stop)
      × (get id left.threads ≡ checkpoint stop)
      × Signed id r old.state store.rows left.rows

  resumed-Acknowledged :
      (now : ℕ) (id : ThreadId) (r : AckRequest F) (operator : Option String) (store : Store F)
      (old : Saved F) (stop : Stop F)
      → visible_to id operator store.rows ≡ true
      → get id store.threads ≡ some old
      → old.is_paused ≡ true
      → accepts_hash r.inputs_hash (hash_of old.state.assessment) ≡ true
      → resume_with d (resume_payload r) old.state ≡ some stop
      → Acknowledged id r operator store (
          saved id
            (record store { rows = record_signature now id r old.state.assessment store.rows })
            (some stop))
  resumed-Acknowledged now id r operator store old (awaiting t) v g p h e = (
    v,
    old,
    g,
    p,
    h,
    e,
    get-put id _ store.threads,
    record_signature-Signed now id r old.state store.rows,
  )
  resumed-Acknowledged now id r operator store old (finished t) v g p h e = (
    v,
    old,
    g,
    p,
    h,
    e,
    get-put id _ store.threads,
    record_signature-Signed now id r old.state store.rows,
  )
  resumed-Acknowledged now id r operator store old (raised node) v g p h e = v

  at_saved :
      (now : ℕ) (id : ThreadId) (r : AckRequest F) (operator : Option String) (store : Store F)
      (o : Option (Saved F))
      → visible_to id operator store.rows ≡ true
      → get id store.threads ≡ o
      → Acknowledged id r operator store (acknowledged d now id r store o)
  at_saved now id r operator store none v g = inl refl
  at_saved now id r operator store (some old) v g = elim (Bool-cases old.is_paused) [
    | inr p ↦ rw p (inr refl)
    | inl p ↦ elim (Bool-cases (accepts_hash r.inputs_hash (hash_of old.state.assessment))) [
      | inr h ↦ rw (p, h) (inr refl)
      | inl h ↦
          let stops = resume_with_lem d (resume_payload r) old.state in
          rw (p, h, stops) (resumed-Acknowledged now id r operator store old _ v g p h stops)
    ]
  ]

  -- An acknowledgement is refused, as an unknown thread or as a conflict, or it resumes the run of a
  -- thread that its operator may see, that is paused, and whose assessment has the hash that the request
  -- gives, if it gives one. The state of that run is saved. The rows are then as they were, or the request confirmed and the row of the
  -- thread is signed by its actor for the hash and the version of the assessment that was shown.
  pub acknowledge_plan-Acknowledged :
      (now : ℕ) (id : ThreadId) (r : AckRequest F) (operator : Option String) (store : Store F)
      → Acknowledged id r operator store (acknowledge_plan d now id r operator store)
  unfolding acknowledge_plan
  acknowledge_plan-Acknowledged now id r operator store =
      elim (Bool-cases (visible_to id operator store.rows)) [
        | inl v ↦ rw v (at_saved now id r operator store (get id store.threads) v refl)
        | inr v ↦ rw v (inl refl)
      ]

  owner_kept :
      (id : ThreadId) (r : AckRequest F) (s : MissionState F) (rows left : Rows)
      → Signed id r s rows left
      → thread_owner id left ≡ thread_owner id rows
  unfolding thread_owner
  owner_kept id r s rows left (inl e) = rw e refl
  owner_kept id r s rows left (inr (c, row, a, ack, g, e, _, _, _, _)) =
      rw (e, get-put id (with_ack row ack) rows, g) refl

  visible_kept :
      (id : ThreadId) (operator : Option String) (rows left : Rows)
      → thread_owner id left ≡ thread_owner id rows
      → visible_to id operator rows ≡ true
      → visible_to id operator left ≡ true
  unfolding visible_to
  visible_kept id none rows left e v = refl
  visible_kept id (some k) rows left e v = rw e v

  settled_refuses :
      (later : ℕ) (id : ThreadId) (again : AckRequest F) (operator : Option String)
      (t : MissionState F) (left : Store F)
      → visible_to id operator left.rows ≡ true
      → get id left.threads ≡ some (record { state = t; is_paused = false })
      → acknowledge_plan d later id again operator left ≡ refused 409
  unfolding acknowledge_plan
  settled_refuses later id again operator t left v g = rw (v, g) refl

  -- A plan is resumed once: after an acknowledgement that finished its run, any other of the same
  -- operator, whatever it asks for, is refused as a conflict.
  pub acknowledge_plan-once :
      (now later : ℕ) (id : ThreadId) (r again : AckRequest F) (operator : Option String)
      (store left : Store F) (t : MissionState F)
      → acknowledge_plan d now id r operator store ≡ replied (finished t) left
      → acknowledge_plan d later id again operator left ≡ refused 409
  acknowledge_plan-once now later id r again operator store left t e =
      let (v, old, _, _, _, _, saved, signature) =
        subst (λ reply. Acknowledged id r operator store reply) e
          (acknowledge_plan-Acknowledged now id r operator store) in
      let kept = owner_kept id r old.state store.rows left.rows signature in
      settled_refuses later id again operator t left
        (visible_kept id operator store.rows left.rows kept v) saved
