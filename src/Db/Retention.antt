-- ===== src/Db/Retention.antt =====
-- backend/suas/db/retention.py: the rows of planned threads, the ids of replans, and the purge.
pub mod Ids
pub mod Purge
pub mod Expired
use lang_graph_uas.Prelude.{
  ℕ, zero, suc, Bool, true, false, not, ◌&&◌, ◌||◌, List, [], ◌∷◌, ◌++◌, Option, none, some, String,
  length, keep_if, is_some, str_eq, if◌then◌else◌,
}
use Prim.Native.Nat.{◌+◌}

-- The text of a thread id, by its colons: `top` has none, and `sub parent last` is the text
-- `parent:last`, where `last` has none.
pub data ThreadId : Type 0 where
  top : String → ThreadId
  sub : ThreadId → String → ThreadId

unfoldable pub same_id : ThreadId → ThreadId → Bool
same_id (top a) (top b) = str_eq a b
same_id (sub p a) (sub q b) = same_id p q && str_eq a b
same_id _ _ = false

pub record Acknowledgement : Type 0 where
  pub at : ℕ
  pub actor : String
  pub action : String
  pub inputs_hash : String
  pub calculator_version : String

-- A `MissionThreadRow`, less its key. The five columns of an acknowledgement are written together.
pub record ThreadRow : Type 0 where
  pub created_at : ℕ
  pub operator_key_id : Option String
  pub replan_count : ℕ
  pub ack : Option Acknowledgement

abbrev pub Rows : Type 0
Rows = List (ThreadId × ThreadRow)

-- `session.get`, and the write of a row that is changed or added.
module _ {ℓ} {V : Type ℓ} where
  unfoldable pub get : ThreadId → List (ThreadId × V) → Option V
  get id [] = none
  get id ((key, row) ∷ rows) = if same_id key id then some row else get id rows

  unfoldable pub put : ThreadId → V → List (ThreadId × V) → List (ThreadId × V)
  put id row [] = (id, row) ∷ []
  put id row ((key, old) ∷ rows) =
      if same_id key id then (key, row) ∷ rows else (key, old) ∷ put id row rows

abbrev pub fresh_row : ℕ → Option String → ThreadRow
fresh_row now operator = record {
  created_at = now;
  operator_key_id = operator;
  replan_count = 0;
  ack = none;
}

abbrev recorded : ℕ → ThreadId → Option String → Rows → Option ThreadRow → Rows
recorded now id operator rows none = put id (fresh_row now operator) rows
recorded now id operator rows (some row) = rows

unfoldable pub record_thread : ℕ → ThreadId → Option String → Rows → Rows
record_thread now id operator rows = recorded now id operator rows (get id rows)

-- The row of a thread, or else of the thread that its id is a child of.
abbrev pub row_or_parent : ThreadId → Rows → Option ThreadRow → Option ThreadRow
row_or_parent id rows (some row) = some row
row_or_parent (top name) rows none = none
row_or_parent (sub parent last) rows none = get parent rows

abbrev pub owner_of : Option ThreadRow → Bool × Option String
owner_of none = (false, none)
owner_of (some row) = (true, row.operator_key_id)

unfoldable pub thread_owner : ThreadId → Rows → Bool × Option String
thread_owner id rows = owner_of (row_or_parent id rows (get id rows))

abbrev pub acknowledged : ThreadId → Acknowledgement → Rows → Option ThreadRow → Option Rows
acknowledged id ack rows none = none
acknowledged id ack rows (some row) = some (put id (record row { ack = some ack }) rows)

-- `none` is the `KeyError` of an unknown thread.
unfoldable pub record_acknowledgement : ThreadId → Acknowledgement → Rows → Option Rows
record_acknowledgement id ack rows = acknowledged id ack rows (get id rows)

unfoldable pub has_own_row : ThreadId → Rows → Bool
has_own_row id rows = is_some (get id rows)

-- The threads that have a checkpoint; `delete_thread` is the saver's `adelete_thread`.
abbrev pub delete_thread : ThreadId → List ThreadId → List ThreadId
delete_thread id checkpoints = keep_if (λ other. not (same_id other id)) checkpoints

abbrev pub without_row : ThreadId → Rows → Rows
without_row id rows = keep_if (λ entry. not (same_id entry.0 id)) rows

-- `numeral` is Python's text of an `int`.
module _ (numeral : ℕ → String) where
  abbrev pub child : ThreadId → ℕ → ThreadId
  child parent n = sub parent (numeral n)

  -- The loop that skips the ids with a row of their own, on fuel.
  unfoldable pub skip_taken : ℕ → ThreadId → Rows → ℕ → Option ℕ
  skip_taken zero parent rows n = none
  skip_taken (suc fuel) parent rows n =
      let rest = skip_taken fuel parent rows (suc n) in
      if has_own_row (child parent n) rows then rest else some n

  abbrev pub reserved : ThreadId → Rows → ThreadRow → Option ℕ → Option (ThreadId × Rows)
  reserved parent rows row none = none
  reserved parent rows row (some n) =
      some (child parent n, put parent (record row { replan_count = n }) rows)

  abbrev pub reserve : ThreadId → Rows → Option ThreadRow → Option (ThreadId × Rows)
  reserve parent rows none = none
  reserve parent rows (some row) =
      reserved parent rows row (skip_taken (suc (length rows)) parent rows (row.replan_count + 1))

  -- `none` is the `KeyError` of an unknown parent. One more step than there are rows is enough for the
  -- loop.
  unfoldable pub next_replan_thread_id : ThreadId → Rows → Option (ThreadId × Rows)
  next_replan_thread_id parent rows = reserve parent rows (get parent rows)

  -- The ids `id:1` to `id:count`, least first.
  unfoldable pub children : ThreadId → ℕ → List ThreadId
  children id zero = []
  children id (suc n) = children id n ++ (child id (suc n) ∷ [])

  unfoldable pub thread_family : ThreadId → ℕ → List ThreadId
  thread_family id replan_count = id ∷ children id replan_count

  -- `left` holds the rows that are left once the thread's row is deleted.
  unfoldable pub delete_family : ThreadId → Rows → List ThreadId → List ThreadId → List ThreadId
  delete_family id left [] checkpoints = checkpoints
  delete_family id left (member ∷ members) checkpoints = delete_family id left members (
      if same_id member id || not (has_own_row member left)
      then delete_thread member checkpoints
      else checkpoints)

  abbrev pub purged :
      ThreadId → Rows → List ThreadId → Option ThreadRow → Bool × Rows × List ThreadId
  purged id rows checkpoints none = (false, rows, checkpoints)
  purged id rows checkpoints (some row) =
      let left = without_row id rows in
      (true, left, delete_family id left (thread_family id row.replan_count) checkpoints)

  -- A purge whose checkpoint deletes succeed; where one raises, the transaction leaves the rows.
  unfoldable pub purge_thread : ThreadId → Rows → List ThreadId → Bool × Rows × List ThreadId
  purge_thread id rows checkpoints = purged id rows checkpoints (get id rows)
