-- ===== src/Api/Plans/Planning.antt =====
-- Who may plan a mission on a thread.
use lang_graph_uas.Prelude.{
  ℕ, ◌≡◌, ◌≢◌, refl, ap, inl, inr, Bool, true, false, Option, none, some, str_eq, if◌then◌else◌,
  String, Bool-cases, Option-cases,
}
use text.Mathlib.TextPositions.{eq_refl}
use text.Mathlib.TextEquality.{eq_iff}
use mathlib.Core.Option.{some-injective}
use lang_graph_uas.Float.{Float}
use lang_graph_uas.Schemas.Requests.{MissionRequest}
use lang_graph_uas.Graph.State.{Dependencies}
use lang_graph_uas.Graph.Workflow.{Stop, awaiting, finished, raised}
use lang_graph_uas.Graph.Runs.{invoke_lem}
use lang_graph_uas.Db.Retention.{
  ThreadId, ThreadRow, Rows, get, record_thread, thread_owner, row_or_parent, owner_of, fresh_row,
}
use lang_graph_uas.Db.Retention.Ids.{get-put}
use lang_graph_uas.Api.Plans.{
  Store, Reply, refused, failed, replied, visible_to, is_claimable, is_owner, free_for, saved,
  start, plan_mission,
}
use lang_graph_uas.Api.Plans.Laws.{checkpoint}

module _ {F : Type 0} ⦃f : Float F⦄ (d : Dependencies F) where
  recorded_visible :
      (now : ℕ) (id : ThreadId) (k : String) (rows : Rows)
      → is_claimable id (some k) rows ≡ true
      → visible_to id (some k) (record_thread now id (some k) rows) ≡ true
  unfolding is_claimable visible_to record_thread thread_owner
  recorded_visible now id k rows c = elim (Option-cases (get id rows)) [
    | inl e ↦ rw (e, get-put id (fresh_row now (some k)) rows, eq_refl k) refl
    | inr (row, e) ↦ rw (e, e) (rw e at c)
  ]

  -- No row stands for the id, its own or that of the thread that it is a child of, or the one that does
  -- names the operator.
  abbrev pub IsFree : Option ThreadRow → String → Type 0
  IsFree none k = Unit {0}
  IsFree (some row) k = row.operator_key_id ≡ some k

  -- A row stands for the id that names another operator, or, planned without authentication, none.
  abbrev pub IsTaken : Option ThreadRow → String → Type 0
  IsTaken none k = ⊥
  IsTaken (some row) k = row.operator_key_id ≢ some k

  abbrev pub row_for : ThreadId → Rows → Option ThreadRow
  row_for id rows = row_or_parent id rows (get id rows)

  owner_cases :
      (o : Option ThreadRow) (k : String) (b : Bool)
      → free_for (owner_of o) k ≡ b
      → if b then IsFree o k else IsTaken o k
  owner_cases none k true h = tt
  owner_cases none k false h = absurd (cc)
  owner_cases (some row) k b h = at_owner row.operator_key_id b h
    where
      at_owner :
          (owner : Option String) (b : Bool)
          → is_owner owner k ≡ b
          → if b then owner ≡ some k else owner ≢ some k
      at_owner none true h = absurd (cc)
      at_owner none false h = λ e. cc
      at_owner (some other) true h = ap some ((eq_iff other k).0 h)
      at_owner (some other) false h = λ e. apart ((eq_iff other k).1 (some-injective _ _ e))
        where
          apart : str_eq other k ≡ true → ⊥
          apart q = cc

  -- What a reply to a plan request has gone through.
  abbrev pub PlannedBy : ThreadId → String → Store F → Reply F → Type 0
  PlannedBy id k store (refused status) = (status ≡ 404) × IsTaken (row_for id store.rows) k
  PlannedBy id k store (failed node) = IsFree (row_for id store.rows) k
  PlannedBy id k store (replied stop left) =
      IsFree (row_for id store.rows) k
      × (visible_to id (some k) left.rows ≡ true)
      × (get id left.threads ≡ checkpoint stop)

  saved-PlannedBy :
      (now : ℕ) (id : ThreadId) (k : String) (store : Store F) (stop : Stop F)
      → is_claimable id (some k) store.rows ≡ true
      → IsFree (row_for id store.rows) k
      → PlannedBy id k store
          (saved id (record store { rows = record_thread now id (some k) store.rows }) (some stop))
  saved-PlannedBy now id k store (awaiting t) c free =
      (free, recorded_visible now id k store.rows c, get-put id _ store.threads)
  saved-PlannedBy now id k store (finished t) c free =
      (free, recorded_visible now id k store.rows c, get-put id _ store.threads)
  saved-PlannedBy now id k store (raised node) c free = free

  -- An operator plans on a thread exactly where no row stands for its id, its own or that of the thread
  -- that it is a child of, or the row names that operator. The operator may see the thread afterwards, and
  -- its run is saved. Where the row names another operator, or none since it was planned without
  -- authentication, the request is refused as on an unknown thread.
  pub plan_mission-PlannedBy :
      (now : ℕ) (id : ThreadId) (r : MissionRequest F) (k : String) (store : Store F)
      → PlannedBy id k store (plan_mission d now id r (some k) store)
  unfolding plan_mission
  plan_mission-PlannedBy now id r k store =
      elim (Bool-cases (is_claimable id (some k) store.rows)) [
        | inr c ↦ rw c (refl, owner_cases (row_for id store.rows) k false (claim_lem c))
        | inl c ↦
            rw (c, invoke_lem d (start r (get id store.threads)))
              (saved-PlannedBy now id k store _ c
                (owner_cases (row_for id store.rows) k true (claim_lem c)))
      ]
    where
      claim_lem :
          {b : Bool}
          → is_claimable id (some k) store.rows ≡ b
          → free_for (owner_of (row_for id store.rows)) k ≡ b
      claim_lem h = unfold is_claimable thread_owner in h
