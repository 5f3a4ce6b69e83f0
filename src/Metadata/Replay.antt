-- ===== src/Metadata/Replay.antt =====
-- The loop of `Recovery` over a log that was packed.
use pedrodb.Base.{
  ℕ, zero, suc, ◌≤◌, ◌≡◌, refl, arith, List, [], ◌∷◌, ◌++◌, length, length-append, some, All, ==_ne,
  ◌==◌, false, ap, ◌∙◌, append_assoc, append-nil, sym,
}
use pedrodb.Base.Bytes.{Holds, Holds-append_left, Holds-append_right}
use pedrodb.Buffer.Readable.{readable_bytes-retrieve}
use pedrodb.Platform.{Platform}
use pedrodb.Buffer.{ReadableBuffer, readable_bytes, retrieve}
use pedrodb.Format.Metadata.{LogEntry, log_entry_bytes, log_entry_size}
use pedrodb.Format.Metadata.RoundTrip.{IsStorable, length-log_entry_bytes, unpack_log_entry-Holds}
use pedrodb.Metadata.{apply, replay_loop}

-- The set that a sequence of entries builds.
unfoldable pub apply_all : List LogEntry → List ℕ → List ℕ
apply_all [] files = files
apply_all (e ∷ es) files = apply_all es (apply e files)

pub apply_all-append :
    (es : List LogEntry) (e : LogEntry) (files : List ℕ)
    → apply_all (es ++ (e ∷ [])) files ≡ apply e (apply_all es files)
unfolding apply_all
apply_all-append [] e files = refl
apply_all-append (x ∷ es) e files = apply_all-append es e (apply x files)

module _ ⦃p : Platform⦄ where
  unfoldable pub log_bytes : List LogEntry → List ℕ
  log_bytes [] = []
  log_bytes (e ∷ es) = log_entry_bytes e ++ log_bytes es

  pub log_bytes-append :
      (es : List LogEntry) (e : LogEntry)
      → log_bytes (es ++ (e ∷ [])) ≡ log_bytes es ++ log_entry_bytes e
  unfolding log_bytes
  log_bytes-append [] e = append-nil (log_entry_bytes e)
  log_bytes-append (x ∷ es) e =
      ap (◌++◌ (log_entry_bytes x)) (log_bytes-append es e)
      ∙ sym (append_assoc (log_entry_bytes x) (log_bytes es) (log_entry_bytes e))

  -- The loop reads back the entries of a log, with any fuel that reaches the number of its bytes.
  pub replay_loop-log_bytes :
      (es : List LogEntry) (fuel : ℕ) (b : ReadableBuffer) (files : List ℕ)
      → All IsStorable es
      → Holds b.memory b.read_index (log_bytes es)
      → readable_bytes b ≡ length (log_bytes es)
      → readable_bytes b ≤ fuel
      → replay_loop fuel b files ≡ some (apply_all es files)
  unfolding replay_loop apply_all log_bytes
  replay_loop-log_bytes [] zero b files s h size enough = ground arith
  replay_loop-log_bytes [] (suc fuel) b files s h size enough = ground arith
  replay_loop-log_bytes (e ∷ es) zero b files (se, s) h size enough =
      absurd
        (omega (arith, length-append (log_entry_bytes e) (log_bytes es), length-log_entry_bytes e))
  replay_loop-log_bytes (e ∷ es) (suc fuel) b files (se, s) h size enough =
      let len = length-append (log_entry_bytes e) (log_bytes es) in
      let one = length-log_entry_bytes e in
      let left = readable_bytes-retrieve b log_entry_size (omega arith) in
      let more : (readable_bytes b == 0) ≡ false = ==_ne _ _ (omega arith) in
      rw (more, unpack_log_entry-Holds e b se (omega arith) (Holds-append_left _ _ _ _ h))
        (replay_loop-log_bytes es fuel (retrieve b log_entry_size) (apply e files) s
          (rw one at
            (Holds-append_right b.memory b.read_index (log_entry_bytes e) (log_bytes es) h))
          (omega arith) (omega arith))
