-- ===== src/FileManager/Total.antt =====
-- The rounds of `Append` of include/pedrodb/file_manager.h, and what its caller may rely on.
use pedrodb.Base.{
  ℕ, suc, ◌+◌, ◌-◌, ◌%◌, ◌≤◌, ◌<◌, ◌^◌, ◌≡◌, ◌≢◌, refl, ap, sym, ◌∙◌, arith, List, [], ◌∷◌, ◌++◌,
  length, true, false, inl, inr, ltb, lt→ltb,
}
use native.Mathlib.Decide.{dec_lt}
use pedrodb.Platform.{Platform}
use pedrodb.Format.Record.{Entry, size_of}
use pedrodb.Format.Record.Location.{Location, rank}
use pedrodb.Format.Record.RoundTrip.{IsStorable}
use pedrodb.Format.Record.Sequence.{entries_bytes, size_of-pos}
use pedrodb.File.{DiskFile, Faults, max_file_bytes, open_mapping, faulty, allocate}
use pedrodb.File.Allocate.{open_mapping_new}
use pedrodb.Metadata
use pedrodb.Status.{Status, ok}
use pedrodb.FileManager.{
  FileManager, done, activate, create_file, append, retire_active, no_location, sync_file,
  create_index_file, schedule_index,
}
use pedrodb.FileManager.Rebuild.{index_log}
use pedrodb.FileManager.Consistent.{IsConsistent, IsStored}
use pedrodb.FileManager.Promise.{Appended, Refused, in_active, in_new}
use pedrodb.FileManager.Create.{
  create_file_cases, activate-IsConsistent, new_HoldsEntries, failed, data_files-retire_active,
  active-retire_active, open_files-retire_active, index_files-retire_active,
}
use pedrodb.FileManager.Append.{append_fits, appended}
use pedrodb.FileManager.Keeps.{
  appended-IsConsistent, data_files_other, IsStored-appended, appended-IsStored,
}

module _ ⦃p : Platform⦄ where
  -- What the loop does where the active file is full.
  module _ (io : Faults) (fuel : ℕ) (e : Entry) (m m' : FileManager) (c : IsConsistent m)
      (full : max_file_bytes < c.file.write_index + size_of e)
      (small : m.active_file_id + 1 < 2 ^ 32) where
    full' : ltb (c.file.length - c.file.write_index) (size_of e) ≡ true
    full' = lt→ltb _ _ (omega (arith, c.whole, c.within))

    next_id : (m.active_file_id + 1) % 2 ^ 32 ≡ m.active_file_id + 1
    next_id = omega arith

    full_created :
        create_file io (m.active_file_id + 1) m ≡ (ok, m')
        → append io (suc fuel) e m ≡ append io fuel e m'
    unfolding append allocate
    full_created made =
        rw (c.active, append, full', next_id, made)
          (rw next_id (ap (λ r. append io fuel e r.1) made))

    full_refused :
        (status : Status)
        → create_file io (m.active_file_id + 1) m ≡ (status, m')
        → status ≢ ok
        → append io (suc fuel) e m ≡ done (status, no_location, m')
    unfolding append allocate
    full_refused ok made bad = absurd (bad refl)
    full_refused status made bad =
        rw (c.active, append, full', next_id, made)
          (rw next_id (ap (λ r. done (status, no_location, r.1)) made))

  tasks-retire_active :
      (m : FileManager) (c : IsConsistent m)
      → (retire_active m).tasks
        ≡ m.tasks
          ++ (sync_file m.active_file_id
              ∷ create_index_file m.active_file_id (index_log 0 c.entries)
              ∷ [])
  unfolding retire_active schedule_index
  tasks-retire_active m c = rw (c.active, c.index_is) refl

  data_files-activate :
      (io : Faults) (id i : ℕ) (disk : DiskFile) (m : FileManager)
      → i ≢ id
      → (activate io id disk (retire_active m)).data_files i ≡ m.data_files i
  unfolding activate
  data_files-activate io id i disk m h = ground (arith, ap (λ f. f i) (data_files-retire_active m))

  IsStored-activate :
      (io : Faults) (id : ℕ) (disk : DiskFile) (m : FileManager) (l : Location) (x : Entry)
      → m.active_file_id < id
      → IsStored m l x
      → IsStored (activate io id disk (retire_active m)) l x
  unfolding activate
  IsStored-activate io id disk m l x h st =
      let same = data_files-activate io id l.id disk m (omega (arith, st.old)) in
      record {
        stands = rw same st.stands;
        exists = rw same st.exists;
        length = rw same st.length;
        inside = st.inside;
        old = omega (arith, st.old);
        before = λ f a i. absurd (omega (arith, st.old));
      }

  Refused-failed :
      (id : ℕ) (disk : DiskFile) (m : FileManager) (c : IsConsistent m)
      → m.active_file_id < id
      → Refused m (failed (retire_active m) id disk)
  Refused-failed id disk m c h =
      let (same_file, same_id, _) = active-retire_active m in
      record {
        kept = λ l x st.
            let same = data_files-failed l.id (omega (arith, st.old)) in
            record {
              stands = rw same st.stands;
              exists = rw same st.exists;
              length = rw same st.length;
              inside = st.inside;
              old = rw same_id st.old;
              before = λ f a i. st.before f (sym same_file ∙ a) (i ∙ same_id);
            };
        same_id = same_id;
        same_file = same_file;
        log_lost = unfold retire_active in rw c.active;
        handles = open_files-retire_active m;
        others = λ i le. data_files-failed i (omega arith);
      }
    where
      data_files-failed :
          (i : ℕ) → i ≢ id → (failed (retire_active m) id disk).data_files i ≡ m.data_files i
      data_files-failed i ne = ground (arith, ap (λ f. f i) (data_files-retire_active m))

  -- In the active file the new entry stands behind every stored one.
  Appended-fits :
      (io : Faults) (m : FileManager) (c : IsConsistent m) (e : Entry) (s : IsStorable e)
      → c.file.write_index + size_of e ≤ max_file_bytes
      → Appended io c.entries m e
          (record { id = m.active_file_id; offset = c.file.write_index })
          (appended m c.file (index_log 0 c.entries) e)
  Appended-fits io m c e s room = record {
    consistent = (appended-IsConsistent m c e s room).0;
    grown =
        in_active refl c.written (appended-IsConsistent m c e s room).1 (unfold appended in refl)
          (unfold appended in refl);
    indexes = unfold appended in refl;
    stored = appended-IsStored m c e s room;
    kept = IsStored-appended m c e s room;
    newest = λ l x st sx. rank_below l x st sx (dec_lt l.id m.active_file_id);
    active = unfold appended in refl;
    grows = unfold appended in omega arith;
    step = unfold appended in omega arith;
    others = λ i h. data_files_other m c e s room i (unfold appended in h);
    handles = unfold appended in refl;
  }
    where
      rank_below :
          (l : Location) (x : Entry)
          → IsStored m l x
          → IsStorable x
          → Dec (l.id < m.active_file_id)
          → rank l < rank (record { id = m.active_file_id; offset = c.file.write_index })
      rank_below l x st sx (yes h) = omega (arith, st.inside, size_of-pos x sx)
      rank_below l x st sx (no h) =
          omega (arith, st.before c.file c.active (omega (arith, st.old)), st.old, size_of-pos x sx)

  -- What `Append` of `e` leads to.
  pub data Result (io : Faults) (es : List Entry) (m : FileManager) (e : Entry) : Type 0 where
    stored :
        (loc : Location) (m' : FileManager)
        → append io 2 e m ≡ done (ok, loc, m')
        → Appended io es m e loc m'
        → Result io es m e
    refused :
        (status : Status) (m' : FileManager)
        → append io 2 e m ≡ done (status, no_location, m')
        → status ≢ ok
        → Refused m m'
        → faulty io ≡ true
        → Result io es m e

  -- The entry goes into a file that was created for it.
  Appended-created :
      (io : Faults) (m : FileManager) (c : IsConsistent m) (e : Entry) (s : IsStorable e)
      → size_of e ≤ max_file_bytes
      → (m.data_files (m.active_file_id + 1)).exists ≡ false
      → (let r = open_mapping io max_file_bytes (m.data_files (m.active_file_id + 1)) in
          r.0 ≡ ok
          → (let m1 = activate io (m.active_file_id + 1) r.1 (retire_active m) in
              (loc : Location) × (m' : FileManager) × (append io 1 e m1 ≡ done (ok, loc, m'))
              × Appended io c.entries m e loc m'))
  Appended-created io m c e s fits new opened =
      let id : ℕ = m.active_file_id + 1 in
      let disk = (open_mapping io max_file_bytes (m.data_files id)).1 in
      let m1 = activate io id disk (retire_active m) in
      let (c1, no_entries) =
        activate-IsConsistent io id disk [] (retire_active m) (new_HoldsEntries io _ new opened) in
      let empty : c1.file.write_index ≡ 0 =
        c1.written
        ∙ ap (λ es. length (entries_bytes es)) no_entries
        ∙ unfold entries_bytes in refl in
      let room : c1.file.write_index + size_of e ≤ max_file_bytes = omega arith in
      let a = Appended-fits io m1 c1 e s room in
      let at : m1.active_file_id ≡ id = unfold activate in refl in
      let older = λ (l : Location) (x : Entry) (st : IsStored m l x).
        IsStored-activate io id disk m l x (omega arith) st in
      (
        record { id = m1.active_file_id; offset = c1.file.write_index },
        appended m1 c1.file (index_log 0 c1.entries) e,
        append_fits io 0 e m1 c1 s room,
        record {
          consistent = (appended-IsConsistent m1 c1 e s room).0;
          stored = a.stored;
          kept = λ l x st. a.kept l x (older l x st);
          newest = λ l x st. a.newest l x (older l x st);
          active = a.active;
          grows = omega (arith, a.grows);
          step = unfold appended in omega arith;
          others = λ i h.
              a.others i h
              ∙ data_files-activate io id i disk m (unfold appended in omega (arith, h, at));
          handles = a.handles ∙ unfold activate in open_files-retire_active m;
          indexes = a.indexes ∙ unfold activate in index_files-retire_active m;
          grown =
              in_new at empty
                ((appended-IsConsistent m1 c1 e s room).1 ∙ ap (λ es. es ++ (e ∷ [])) no_entries)
                (unfold appended in
                  unfold activate in
                  ap (λ x. (Metadata.create_file io (m.active_file_id + 1) x).1)
                    (active-retire_active m).2)
                (unfold appended in unfold activate in tasks-retire_active m c);
        },
      )

  -- For a consistent manager whose next id is a 32-bit integer and not on the disk, two rounds are
  -- enough for a storable entry that is no longer than a file: `Append` ends. Either the entry is
  -- stored, above all entries that are stored, with those kept and the manager consistent; or a call
  -- of the system fails, `Append` answers an error, the stored entries are kept, the active file is
  -- the same, and the active index log is lost.
  pub append_total :
      (io : Faults) (m : FileManager) (e : Entry)
      → (c : IsConsistent m) → IsStorable e
      → size_of e ≤ max_file_bytes
      → m.active_file_id + 1 < 2 ^ 32
      → (m.data_files (m.active_file_id + 1)).exists ≡ false
      → Result io c.entries m e
  append_total io m e c s fits small new =
      elim (dec_lt max_file_bytes (c.file.write_index + size_of e)) [
        | no room ↦
            stored _ _ (append_fits io 1 e m c s (omega arith))
              (Appended-fits io m c e s (omega arith))
        | yes full ↦ elim (create_file_cases io (m.active_file_id + 1) m) [
          | inl (opened, made) ↦
              let (loc, m', went, a) = Appended-created io m c e s fits new opened in
              stored loc m' (full_created io 1 e m _ c full small made ∙ went) a
          | inr (failed_open, made) ↦
              refused _ _ (full_refused io 1 e m _ c full small _ made failed_open) failed_open
                (Refused-failed _ _ m c (omega arith))
                (open_mapping_new io max_file_bytes _ (omega arith) new failed_open)
        ]
      ]
