-- ===== src/FileManager/Rebuild.antt =====
-- Rebuilding the index of a data file when it becomes the active file.
use pedrodb.Base.{
  ℕ, zero, suc, ◌+◌, ◌%◌, ◌^◌, ◌≤◌, ◌<◌, ◌≡◌, ap, ◌∙◌, arith, List, [], ◌∷◌, ◌++◌, length,
  length-append, append-nil, append_assoc, All, none, some,
}
use pedrodb.Base.Bytes.{Holds, Holds-append_left, Holds-append_right}
use pedrodb.Buffer.Readable.{readable_bytes-retrieve}
use pedrodb.Platform.{Platform}
use pedrodb.Buffer.{ReadableBuffer, readable_bytes, retrieve}
use pedrodb.Format.Record.{Entry, size_of, unpack}
use pedrodb.Format.Record.Pack.{entry_bytes}
use pedrodb.Format.Record.RoundTrip.{IsStorable, unpack-Holds}
use pedrodb.Format.Record.Sequence.{
  entries_bytes, length-entry_bytes-size_of, size_of-pos, unpack_end,
}
use pedrodb.Format.Index
use pedrodb.FileManager.{index_of, rebuild_loop}

end_zero : (a : ℕ) → a + 0 ≡ a
end_zero a = omega arith

module _ ⦃p : Platform⦄ where
  rebuild_loop-none :
      (fuel : ℕ) (b : ReadableBuffer) (offset : ℕ) (log : List ℕ)
      → unpack b ≡ none
      → rebuild_loop (suc fuel) b offset log ≡ (offset, log)
  unfolding rebuild_loop
  rebuild_loop-none fuel b offset log nothing = rw (nothing, rebuild_loop)

  rebuild_loop-some :
      (fuel : ℕ) (b : ReadableBuffer) (offset : ℕ) (log : List ℕ) {e : Entry} {b' : ReadableBuffer}
      → unpack b ≡ some (e, b')
      → rebuild_loop (suc fuel) b offset log
        ≡ rebuild_loop fuel b' ((offset + size_of e) % 2 ^ 32) (Index.pack (index_of offset e) log)
  unfolding rebuild_loop
  rebuild_loop-some fuel b offset log read = rw (read, rebuild_loop)

  rebuild_loop_step :
      (fuel : ℕ) (b : ReadableBuffer) (offset : ℕ) (log : List ℕ) {e : Entry} {b' : ReadableBuffer}
      → unpack b ≡ some (e, b')
      → offset + size_of e < 2 ^ 32
      → rebuild_loop (suc fuel) b offset log
        ≡ rebuild_loop fuel b' (offset + size_of e) (log ++ Index.index_bytes (index_of offset e))
  unfolding Index.pack
  rebuild_loop_step fuel b offset log {e} read small =
      let offset' : (offset + size_of e) % 2 ^ 32 ≡ offset + size_of e = omega arith in
      rw offset' at (rebuild_loop-some fuel b offset log read)

  total_shift :
      (offset : ℕ) (e : Entry) (es : List Entry)
      → IsStorable e
      → offset + length (entry_bytes e ++ entries_bytes es)
        ≡ offset + size_of e + length (entries_bytes es)
  total_shift offset e es s =
      omega
        (arith, length-append (entry_bytes e) (entries_bytes es), length-entry_bytes-size_of e s)

  -- The index log of entries that stand one behind the other from an offset on.
  unfoldable pub index_log : ℕ → List Entry → List ℕ
  index_log offset [] = []
  index_log offset (e ∷ es) =
      Index.index_bytes (index_of offset e) ++ index_log (offset + size_of e) es

  pub index_log-append :
      (offset : ℕ) (es : List Entry) (e : Entry)
      → All IsStorable es
      → index_log offset (es ++ (e ∷ []))
        ≡ index_log offset es ++ Index.index_bytes (index_of (offset + length (entries_bytes es)) e)
  unfolding index_log entries_bytes
  index_log-append offset [] e s = rw (append-nil, end_zero offset)
  index_log-append offset (x ∷ es) e (sx, s) =
      rw (total_shift offset x es sx, append_assoc)
        (ap (◌++◌ (Index.index_bytes (index_of offset x)))
          (index_log-append (offset + size_of x) es e s))

  -- Over a sequence of entries that ends in a zero byte, the loop moves the offset to the end of the
  -- sequence and adds its index log, whatever the fuel above the number of the readable bytes.
  pub rebuild_loop-entries :
      (es : List Entry) (fuel : ℕ) (b : ReadableBuffer) (offset : ℕ) (log : List ℕ)
      → All IsStorable es
      → Holds b.memory b.read_index (entries_bytes es)
      → b.memory (b.read_index + length (entries_bytes es)) ≡ 0
      → length (entries_bytes es) ≤ readable_bytes b
      → offset + length (entries_bytes es) < 2 ^ 32
      → readable_bytes b < fuel
      → rebuild_loop fuel b offset log
        ≡ (offset + length (entries_bytes es), log ++ index_log offset es)
  unfolding index_log entries_bytes
  rebuild_loop-entries [] zero b offset log s h end room small enough = absurd (omega arith)
  rebuild_loop-entries [] (suc fuel) b offset log s h end room small enough =
      rebuild_loop-none fuel b offset log (unpack_end b (rw (end_zero b.read_index) at end))
      ∙ rw (end_zero offset, append-nil)
  rebuild_loop-entries (e ∷ es) zero b offset log s h end room small enough = absurd (omega arith)
  rebuild_loop-entries (e ∷ es) (suc fuel) b offset log (se, s) h end room small enough =
      let size = length-entry_bytes-size_of e se in
      let pos = size_of-pos e se in
      let len = length-append (entry_bytes e) (entries_bytes es) in
      let read = unpack-Holds e b se (omega arith) (Holds-append_left _ _ _ _ h) in
      let left = readable_bytes-retrieve b (size_of e) (omega arith) in
      rebuild_loop_step fuel b offset log read (omega arith)
      ∙ rebuild_loop-entries es fuel (retrieve b (size_of e)) (offset + size_of e)
          (log ++ Index.index_bytes (index_of offset e)) s
          (rw size at
            (Holds-append_right b.memory b.read_index (entry_bytes e) (entries_bytes es) h))
          (rw (total_shift b.read_index e es se) at end) (omega arith) (omega arith) (omega arith)
      ∙ rw (total_shift offset e es se, append_assoc)
