-- ===== src/FileManager/Append.antt =====
-- `Append` of include/pedrodb/file_manager.h to a file with room.
use pedrodb.Base.{
  ℕ, suc, ◌+◌, ◌-◌, ◌≤◌, ◌≡◌, arith, List, ◌++◌, some, false, ◌==◌, ==_ne, ltb, le→ltb,
}
use pedrodb.Base.Bytes.{write_bytes}
use pedrodb.Platform.{Platform}
use pedrodb.Buffer.{WritableBuffer, append as append_bytes}
use pedrodb.Format.Index
use pedrodb.Format.Record.{Entry, size_of}
use pedrodb.Format.Record.Pack.{entry_bytes, pack-entry_bytes}
use pedrodb.Format.Record.RoundTrip.{IsStorable}
use pedrodb.File.{MappedFile, Faults, max_file_bytes, allocate, no_offset}
use pedrodb.Status.{ok}
use pedrodb.FileManager.{FileManager, done, update, index_of, append, append_packed}
use pedrodb.FileManager.Rebuild.{index_log}
use pedrodb.FileManager.Consistent.{IsConsistent}

module _ ⦃p : Platform⦄ where
  -- The state after an entry was appended to the active file.
  unfoldable pub appended : FileManager → MappedFile → List ℕ → Entry → FileManager
  appended m f log e = record m {
    active_data_file = some (record f { write_index = f.write_index + size_of e });
    active_index_log = some (log ++ Index.index_bytes (index_of f.write_index e));
    data_files = update m.data_files f.file (record (m.data_files f.file) {
      bytes = write_bytes (m.data_files f.file).bytes f.write_index (entry_bytes e);
    });
  }

  -- Where the entry fits into the active file it goes to the end of that file.
  pub append_fits :
      (io : Faults) (fuel : ℕ) (e : Entry) (m : FileManager) (c : IsConsistent m)
      → IsStorable e
      → c.file.write_index + size_of e ≤ max_file_bytes
      → append io (suc fuel) e m
        ≡ done (
          ok,
          record { id = m.active_file_id; offset = c.file.write_index },
          appended m c.file (index_log 0 c.entries) e,
        )
  unfolding append appended allocate append_packed Index.pack append_bytes
  append_fits io fuel e m c s room =
      let fits : ltb (c.file.length - c.file.write_index) (size_of e) ≡ false =
        le→ltb _ _ (omega (arith, c.whole)) in
      let offset : (c.file.write_index == no_offset) ≡ false =
        ==_ne _ _ (omega (arith, c.within)) in
      let buffer : WritableBuffer = record {
        memory = (m.data_files c.file.file).bytes;
        base = c.file.write_index;
        write_index = 0;
        capacity = size_of e;
        offset = c.file.write_index;
      } in
      let packed = pack-entry_bytes e buffer s.size_fits (omega arith) in
      let at_end : c.file.write_index + 0 ≡ c.file.write_index = omega arith in
      rw (c.active, append, fits, offset, c.index_is) (ground (arith, packed))
