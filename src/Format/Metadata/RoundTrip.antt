-- ===== src/Format/Metadata/RoundTrip.antt =====
-- Reading back the header and the log entries of the database file.
use pedrodb.Base.{
  ◌+◌, ◌%◌, ◌^◌, ◌≤◌, ◌<◌, ◌≡◌, refl, arith, length, length-append, false, ltb, le→ltb, some,
}
use pedrodb.Base.Bytes.{Holds, Holds-read, Holds-append_left}
use pedrodb.Buffer.Readable.{readable_bytes-retrieve}
use pedrodb.Platform.{Platform}
use pedrodb.Buffer.{ReadableBuffer, readable_bytes, retrieve}
use pedrodb.Buffer.Ints.{read_int-Holds, next_field}
use pedrodb.Format.Metadata.{
  Header, header_size, LogType, create_file, delete_file, other, to_u8, of_u8, LogEntry,
  log_entry_size, unpack_header, header_bytes, retrieve_log_entry, unpack_log_entry,
  log_entry_bytes,
}

abbrev pub IsWritten : LogType → Type 0
IsWritten (other n) = ⊥
IsWritten _ = Unit

pub record IsStorable (e : LogEntry) : Type 0 where
  pub written : IsWritten e.log_type
  pub id_fits : e.id < 2 ^ 32

u8_lt : (t : LogType) → IsWritten t → to_u8 t < 256
unfolding to_u8
u8_lt create_file w = omega arith
u8_lt delete_file w = omega arith
u8_lt (other n) w = absurd w

of_u8-to_u8 : (t : LogType) → IsWritten t → of_u8 (to_u8 t) ≡ t
unfolding to_u8 of_u8
of_u8-to_u8 create_file w = refl
of_u8-to_u8 delete_file w = refl
of_u8-to_u8 (other n) w = absurd w

module _ ⦃p : Platform⦄ where
  pub length-log_entry_bytes : (e : LogEntry) → length (log_entry_bytes e) ≡ log_entry_size
  unfolding log_entry_bytes
  length-log_entry_bytes e = simp (length-append, p.length-append_int)

  -- Where the packed bytes of a storable log entry stand at the read index and are readable,
  -- `UnPack` reads the entry, and the buffer moves behind it.
  pub unpack_log_entry-Holds :
      (e : LogEntry) (r : ReadableBuffer)
      → IsStorable e
      → log_entry_size ≤ readable_bytes r
      → Holds r.memory r.read_index (log_entry_bytes e)
      → unpack_log_entry r ≡ some (e, retrieve r log_entry_size)
  unfolding unpack_log_entry retrieve_log_entry log_entry_bytes
  unpack_log_entry-Holds e r s room h =
      let fits : ltb (readable_bytes r) log_entry_size ≡ false = le→ltb _ _ room in
      rw fits (
        ground (
          arith,
          of_u8-to_u8 e.log_type s.written,
          read_int-Holds r.memory r.read_index 1 _ (u8_lt e.log_type s.written)
              (Holds-append_left _ _ _ _ h),
          read_int-Holds r.memory (r.read_index + 1) 4 _ s.id_fits
              (next_field r.memory r.read_index 1 _ _ h),
        ))

  -- A name of less than 64 KiB is read back.
  pub unpack_name-Holds :
      (h : Header) (r : ReadableBuffer)
      → length h.name < 2 ^ 16
      → header_size (length h.name) ≤ readable_bytes r
      → Holds r.memory r.read_index (header_bytes h)
      → unpack_header r ≡ some (h, retrieve r (header_size (length h.name)))
  unfolding unpack_header header_bytes
  unpack_name-Holds h r small room at =
      let cut : length h.name % 2 ^ 16 ≡ length h.name = omega arith in
      let fits : ltb (readable_bytes r) (header_size 0) ≡ false = le→ltb _ _ (omega arith) in
      let left = readable_bytes-retrieve r 2 (omega arith) in
      let fits_name : ltb (readable_bytes (retrieve r 2)) (length h.name) ≡ false =
        le→ltb _ _ (omega arith) in
      let at' = rw cut at at in
      rw
        (
          fits,
          read_int-Holds r.memory r.read_index 2 _ (omega arith) (Holds-append_left _ _ _ _ at'),
          fits_name,
        )
        (ground (
          arith,
          Holds-read r.memory (r.read_index + 2) h.name
              (next_field r.memory r.read_index 2 _ _ at'),
        ))
