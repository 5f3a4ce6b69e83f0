-- ===== src/Db/Schedule/Handover.antt =====
-- A file that reaches the threshold is handed over to the executor.
use pedrodb.Base.{ℕ, ◌+◌, ◌≤◌, ◌≡◌, refl, ◌∙◌, List, [], count, ==_refl, le-leb}
use mathlib.Core.Path.{subst}
use pedrodb.Format.Record.Location.{Location}
use pedrodb.Index.{IndexMap}
use pedrodb.Db.{
  CompactState, nop, queued, scheduling, compacting, FileState, Db, queue, update_unused,
  poll_compact_task,
}
use pedrodb.Db.Schedule.{IsPhase, Scheduler, IsExclusive}
use pedrodb.Db.Schedule.Exclusive.{schedule_state, unused-IsExclusive}

module _ ⦃t : IndexMap⦄ where
  -- `UpdateUnused` of a file that reaches the threshold, and the next poll.
  pub record IsHandedOver (id : ℕ) (tasks : List ℕ) (db : Db) : Type 0 where
    pub once : count id tasks ≡ 1
    pub state : (db.file_states id).compact_state ≡ scheduling
    pub emptied : db.compact_tasks ≡ []

  queue-queued :
      (id : ℕ) (st : FileState) (c : CompactState) (db : Db)
      → c ≡ nop
      → (db.file_states id).compact_state ≡ nop
      → ((queue id st c db).file_states id).compact_state ≡ queued
  unfolding queue
  queue-queued id st nop db e f = rw (==_refl id) refl
  queue-queued id st queued db e f = cc
  queue-queued id st scheduling db e f = cc
  queue-queued id st compacting db e f = cc

  unused-queued :
      (loc : Location) (n : ℕ) (db : Db)
      → (db.file_states loc.id).compact_state ≡ nop
      → db.options.threshold_bytes ≤ (db.file_states loc.id).free_bytes + n
      → ((update_unused loc n db).file_states loc.id).compact_state ≡ queued
  unfolding update_unused
  unused-queued loc n db idle over =
      rw (le-leb _ _ over)
        (queue-queued loc.id _ (db.file_states loc.id).compact_state db idle idle)

  poll-queued :
      (s : Scheduler)
      → IsExclusive s
      → (id : ℕ) → (s.db.file_states id).compact_state ≡ queued
      → IsHandedOver id (poll_compact_task s.db).0 (poll_compact_task s.db).1
  unfolding poll_compact_task
  poll-queued s h id at =
      let x =
        subst (λ c. IsPhase c (count id s.db.compact_tasks) (s.waiting id) (s.running id)) at
          (h id) in
      record {
        once = x.0;
        state = schedule_state s.db.compact_tasks s.db.file_states id ∙ rw x.0 refl;
        emptied = refl;
      }

  -- Where each file is in one phase, and there at most once: a file that is in no phase, and whose
  -- unused bytes reach the threshold by a call of `UpdateUnused`, is handed over by the next poll,
  -- exactly once; it is scheduling then, and the queue is empty.
  pub update_unused-poll_compact_task :
      (s : Scheduler) (loc : Location) (n : ℕ)
      → IsExclusive s
      → (s.db.file_states loc.id).compact_state ≡ nop
      → s.db.options.threshold_bytes ≤ (s.db.file_states loc.id).free_bytes + n
      → IsHandedOver loc.id
          (poll_compact_task (update_unused loc n s.db)).0
          (poll_compact_task (update_unused loc n s.db)).1
  update_unused-poll_compact_task s loc n h idle over =
      poll-queued (record s { db = update_unused loc n s.db }) (unused-IsExclusive s loc n h) loc.id
        (unused-queued loc n s.db idle over)
