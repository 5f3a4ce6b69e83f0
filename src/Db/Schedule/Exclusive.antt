-- ===== src/Db/Schedule/Exclusive.antt =====
-- No file is compacted twice at the same time.
use pedrodb.Base.{
  ℕ, ◌+◌, ◌<◌, ◌≤◌, ◌≡◌, ◌≢◌, refl, ap, sym, ◌∙◌, arith, List, [], ◌∷◌, ◌++◌, count, count-append,
  ◌==◌, ==_iff, leb, Bool-cases, inl, inr, if◌then◌else◌,
}
use mathlib.Core.Bool.{false≢true}
use mathlib.Core.Path.{subst}
use pedrodb.Platform.{Platform}
use pedrodb.Format.Record.Location.{Location}
use pedrodb.Index.{IndexMap}
use pedrodb.Db.{
  CompactState, nop, queued, scheduling, compacting, FileState, new_state, Db, set_state, queue,
  update_unused, schedule, poll_compact_task,
}
use pedrodb.Db.Compact.{end_compact}
use pedrodb.Db.Schedule.{
  IsPhase, more, less, Scheduler, IsExclusive, IsIdle, Step, unused, poll, begin, give_up, finish,
  stop, work, Reaches, here, step,
}

IsPhase-polled :
    (c : CompactState) (q w r : ℕ)
    → IsPhase c q w r
    → IsPhase (if q == 0 then c else scheduling) 0 (w + q) r
IsPhase-polled nop q w r h = rw h.0 (omega arith, omega (arith, h), omega (arith, h))
IsPhase-polled queued q w r h = rw h.0 (omega arith, omega (arith, h), omega (arith, h))
IsPhase-polled scheduling q w r h = rw h.0 (omega arith, omega (arith, h), omega (arith, h))
IsPhase-polled compacting q w r h = rw h.0 (omega arith, omega (arith, h), omega (arith, h))

IsPhase-waits :
    (c : CompactState) (q w r : ℕ) → IsPhase c q w r → 0 < w → (q ≡ 0) × (w ≤ 1) × (r ≡ 0)
IsPhase-waits nop q w r h some_wait = absurd (omega (arith, h))
IsPhase-waits queued q w r h some_wait = absurd (omega (arith, h))
IsPhase-waits scheduling q w r h some_wait = h
IsPhase-waits compacting q w r h some_wait = absurd (omega (arith, h))

IsPhase-runs :
    (c : CompactState) (q w r : ℕ) → IsPhase c q w r → 0 < r → (q ≡ 0) × (w ≡ 0) × (r ≤ 1)
IsPhase-runs nop q w r h some_run = absurd (omega (arith, h))
IsPhase-runs queued q w r h some_run = absurd (omega (arith, h))
IsPhase-runs scheduling q w r h some_run = absurd (omega (arith, h))
IsPhase-runs compacting q w r h some_run = h

IsPhase-fewer :
    (c : CompactState) (q w r w' r' : ℕ) → w' ≤ w → r' ≤ r → IsPhase c q w r → IsPhase c q w' r'
IsPhase-fewer nop q w r w' r' a b h = omega (arith, h)
IsPhase-fewer queued q w r w' r' a b h = omega (arith, h)
IsPhase-fewer scheduling q w r w' r' a b h = omega (arith, h)
IsPhase-fewer compacting q w r w' r' a b h = omega (arith, h)

less_le : (id : ℕ) (f : ℕ → ℕ) (j : ℕ) → less id f j ≤ f j
less_le id f j = ground arith

IsPhase-total : (c : CompactState) (q w r : ℕ) → IsPhase c q w r → q + w + r ≤ 1
IsPhase-total nop q w r h = omega (arith, h)
IsPhase-total queued q w r h = omega (arith, h)
IsPhase-total scheduling q w r h = omega (arith, h)
IsPhase-total compacting q w r h = omega (arith, h)

module _ ⦃t : IndexMap⦄ where
  IsIdle-IsExclusive : (s : Scheduler) → IsIdle s → IsExclusive s
  IsIdle-IsExclusive s (none_queued, states) j =
      let (at, w, r) = states j in rw (none_queued, at) (refl, w, r)

  pub schedule_state :
      (ids : List ℕ) (states : ℕ → FileState) (j : ℕ)
      → (schedule ids states j).compact_state
        ≡ (if count j ids == 0 then (states j).compact_state else scheduling)
  unfolding schedule
  schedule_state [] states j = refl
  schedule_state (id ∷ ids) states j =
      schedule_state ids (set_state states id (record (states id) { compact_state = scheduling })) j
      ∙ ground arith

  poll-IsExclusive :
      (s : Scheduler)
      → IsExclusive s
      → (j : ℕ)
      → IsPhase
          ((poll_compact_task s.db).1.file_states j).compact_state
          0
          (s.waiting j + count j s.db.compact_tasks)
          (s.running j)
  unfolding poll_compact_task
  poll-IsExclusive s h j = rw (schedule_state s.db.compact_tasks s.db.file_states j) (
      IsPhase-polled (s.db.file_states j).compact_state (count j s.db.compact_tasks) (s.waiting j)
        (s.running j) (h j))

  -- Another state of a file with the same phase.
  set_state-IsPhase :
      (states : ℕ → FileState) (id : ℕ) (st : FileState) (j q w r : ℕ)
      → st.compact_state ≡ (states id).compact_state
      → IsPhase (states j).compact_state q w r
      → IsPhase (set_state states id st j).compact_state q w r
  set_state-IsPhase states id st j q w r e h = elim (Bool-cases (j == id)) [
    | inl same ↦
        let at : j ≡ id = (==_iff j id).0 same in
        rw same (subst (λ c. IsPhase c q w r) (ap (λ i. (states i).compact_state) at ∙ sym e) h)
    | inr other ↦ rw other h
  ]

  -- The phase of a file becomes `c`, and the others stay as they are.
  set_state-to :
      (states : ℕ → FileState) (id : ℕ) (st : FileState) (j q w r q' w' r' : ℕ)
      → IsPhase (states j).compact_state q w r
      → (j ≡ id → IsPhase st.compact_state q' w' r')
      → (j ≢ id → (q' ≡ q) × (w' ≡ w) × (r' ≡ r))
      → IsPhase (set_state states id st j).compact_state q' w' r'
  set_state-to states id st j q w r q' w' r' h at_id away = elim (Bool-cases (j == id)) [
    | inl same ↦ rw same (at_id ((==_iff j id).0 same))
    | inr other ↦
        let (a, b, c) = away (λ e. false≢true (sym other ∙ (==_iff j id).1 e)) in
        rw (other, a, b, c) h
  ]

  -- What is known of the file itself.
  IsPhase-at :
      (states : ℕ → FileState) (id j q w r : ℕ) (c : CompactState)
      → (states id).compact_state ≡ c
      → IsPhase (states j).compact_state q w r
      → j ≡ id
      → IsPhase c q w r
  IsPhase-at states id j q w r c f h at =
      subst (λ c. IsPhase c q w r) (ap (λ i. (states i).compact_state) at ∙ f) h

  queue-IsPhase :
      (id : ℕ) (st : FileState) (c : CompactState) (db : Db) (j w r : ℕ)
      → st.compact_state ≡ c
      → (db.file_states id).compact_state ≡ c
      → IsPhase (db.file_states j).compact_state (count j db.compact_tasks) w r
      → IsPhase
          ((queue id st c db).file_states j).compact_state
          (count j (queue id st c db).compact_tasks)
          w
          r
  unfolding queue
  queue-IsPhase id st nop db j w r e f h =
      let more = count-append j db.compact_tasks (id ∷ []) in
      set_state-to db.file_states id (record st { compact_state = queued }) j
        (count j db.compact_tasks) w r (count j (db.compact_tasks ++ (id ∷ []))) w r h
        (λ at.
          let (a, b, c) =
            IsPhase-at db.file_states id j (count j db.compact_tasks) w r nop f h at in
          (ground arith, b, c))
        (λ other. (ground arith, refl, refl))
  queue-IsPhase id st c db j w r e f h =
      set_state-IsPhase db.file_states id st j (count j db.compact_tasks) w r (e ∙ sym f) h

  pub unused-IsExclusive :
      (s : Scheduler) (loc : Location) (n : ℕ)
      → IsExclusive s
      → IsExclusive (record s { db = update_unused loc n s.db })
  unfolding update_unused
  unused-IsExclusive s loc n h j =
      let old = s.db.file_states loc.id in
      let st : FileState = record old { free_bytes = old.free_bytes + n } in
      elim (Bool-cases (leb s.db.options.threshold_bytes (old.free_bytes + n))) [
        | inl over ↦ rw over (
            queue-IsPhase loc.id st old.compact_state s.db j (s.waiting j) (s.running j) refl refl
              (h j))
        | inr under ↦ rw under (
            set_state-IsPhase s.db.file_states loc.id st j (count j s.db.compact_tasks)
              (s.waiting j) (s.running j) refl (h j))
      ]

  module _ ⦃p : Platform⦄ where
    waits_at :
        (s : Scheduler)
        → IsExclusive s
        → (id j : ℕ) → 0 < s.waiting id
        → j ≡ id
        → (count j s.db.compact_tasks ≡ 0) × (s.waiting j ≤ 1) × (s.running j ≡ 0)
    waits_at s h id j some_wait at =
        IsPhase-waits (s.db.file_states j).compact_state (count j s.db.compact_tasks) (s.waiting j)
          (s.running j) (h j) (omega (arith, some_wait, ap s.waiting at))

    runs_at :
        (s : Scheduler)
        → IsExclusive s
        → (id j : ℕ) → 0 < s.running id
        → j ≡ id
        → (count j s.db.compact_tasks ≡ 0) × (s.waiting j ≡ 0) × (s.running j ≤ 1)
    runs_at s h id j some_run at =
        IsPhase-runs (s.db.file_states j).compact_state (count j s.db.compact_tasks) (s.waiting j)
          (s.running j) (h j) (omega (arith, some_run, ap s.running at))

    Step-IsExclusive : {s s' : Scheduler} → Step s s' → IsExclusive s → IsExclusive s'
    unfolding poll_compact_task end_compact
    Step-IsExclusive (unused {s} loc n) h j = unused-IsExclusive s loc n h j
    Step-IsExclusive (poll {s}) h j = poll-IsExclusive s h j
    Step-IsExclusive (begin {s} id some_wait) h j =
        set_state-to s.db.file_states id _ j (count j s.db.compact_tasks) (s.waiting j)
          (s.running j) (count j s.db.compact_tasks) (less id s.waiting j) (more id s.running j)
          (h j)
          (λ at.
            let x = waits_at s h id j some_wait at in
            (x.0, ground (arith, x.1), ground (arith, x.2)))
          (λ other. (refl, ground arith, ground arith))
    Step-IsExclusive (give_up {s} id some_wait) h j =
        IsPhase-fewer (s.db.file_states j).compact_state (count j s.db.compact_tasks) (s.waiting j)
          (s.running j) (less id s.waiting j) (s.running j) (less_le id s.waiting j) (omega arith)
          (h j)
    Step-IsExclusive (finish {s} io id some_run) h j =
        set_state-to s.db.file_states id new_state j (count j s.db.compact_tasks) (s.waiting j)
          (s.running j) (count j s.db.compact_tasks) (s.waiting j) (less id s.running j) (h j)
          (λ at. let x = runs_at s h id j some_run at in (x.0, x.1, ground (arith, x.2)))
          (λ other. (refl, refl, ground arith))
    Step-IsExclusive (stop {s} id some_run) h j =
        IsPhase-fewer (s.db.file_states j).compact_state (count j s.db.compact_tasks) (s.waiting j)
          (s.running j) (s.waiting j) (less id s.running j) (omega arith) (less_le id s.running j)
          (h j)
    Step-IsExclusive (work {s} db tasks states) h j = rw (tasks, states j) (h j)

    reaches-IsExclusive : {s s' : Scheduler} → Reaches s s' → IsExclusive s → IsExclusive s'
    reaches-IsExclusive here h = h
    reaches-IsExclusive (step first rest) h = reaches-IsExclusive rest (Step-IsExclusive first h)

    -- From a state in which no file is queued, scheduled or compacted, every sequence of steps leads
    -- to states in which each file is queued once, or waits once in the executor, or is compacted by
    -- one task, or none of these: no file is ever compacted twice at the same time.
    pub reaches_once :
        {s s' : Scheduler}
        → IsIdle s
        → Reaches s s'
        → (j : ℕ) → count j s'.db.compact_tasks + s'.waiting j + s'.running j ≤ 1
    reaches_once {s} {s'} idle r j =
        IsPhase-total (s'.db.file_states j).compact_state (count j s'.db.compact_tasks)
          (s'.waiting j) (s'.running j) (reaches-IsExclusive r (IsIdle-IsExclusive s idle) j)
