-- ===== src/Db.antt =====
-- include/pedrodb/db_impl.h and src/db_impl.cc: the database over its file manager. The methods are
-- in the children; the mutex is held, or nothing else runs, during each of them.
pub mod View
pub mod Kept
pub mod Put
pub mod Get
pub mod Recovery
pub mod History
pub mod Compact
pub mod Schedule
pub mod Open
pub mod Scan
pub mod Restart
use pedrodb.Base.{ℕ, ◌+◌, List, [], ◌∷◌, ◌++◌, Bool, leb, ◌==◌, if◌then◌else◌}
use pedrodb.Format.Record.Location.{Location, Dir}
use pedrodb.FileManager.{FileManager}
use pedrodb.ReadCache.{ReadCache}
use pedrodb.Index.{IndexMap}

pub data CompactState : Type 0 where
  nop queued scheduling compacting : CompactState

pub record FileState : Type 0 where
  pub free_bytes : ℕ
  pub compact_state : CompactState

-- What `file_states_[id]` creates for an id that has no state.
abbrev pub new_state : FileState
new_state = record { free_bytes = 0; compact_state = nop }

-- The options that `DBImpl` reads. Durations and the executor only say when things run.
pub record Options : Type 0 where
  pub threshold_bytes : ℕ
  pub compress_value : Bool
  -- `read_cache.enable`
  pub read_cache : Bool

module _ ⦃t : IndexMap⦄ where
  pub record Db : Type 0 where
    pub options : Options
    pub max_file : ℕ
    pub indices : t.Map
    pub files : FileManager
    pub readonly : Bool
    pub read_cache : ReadCache
    pub compact_tasks : List ℕ
    -- `file_states_`, where an absent id reads as a new state
    pub file_states : ℕ → FileState

  abbrev pub set_state : (ℕ → FileState) → ℕ → FileState → ℕ → FileState
  set_state states id s j = if j == id then s else states j

  queue : ℕ → FileState → CompactState → Db → Db
  queue id s nop db = record db {
    file_states = set_state db.file_states id (record s { compact_state = queued });
    compact_tasks = db.compact_tasks ++ (id ∷ []);
  }
  queue id s other db = record db { file_states = set_state db.file_states id s }

  -- `UpdateUnused`
  unfoldable pub update_unused : Location → ℕ → Db → Db
  unfolding queue
  update_unused loc unused db =
      let old = db.file_states loc.id in
      let s : FileState = record old { free_bytes = old.free_bytes + unused } in
      if leb db.options.threshold_bytes s.free_bytes
      then queue loc.id s s.compact_state db
      else record db { file_states = set_state db.file_states loc.id s }

  pub schedule : List ℕ → (ℕ → FileState) → ℕ → FileState
  schedule [] states = states
  schedule (id ∷ ids) states =
      schedule ids (set_state states id (record (states id) { compact_state = scheduling }))

  -- `PollCompactTask`: the tasks, and the state in which they are scheduled.
  unfoldable pub poll_compact_task : Db → List ℕ × Db
  unfolding schedule
  poll_compact_task db = (
    db.compact_tasks,
    record db { compact_tasks = []; file_states = schedule db.compact_tasks db.file_states },
  )
