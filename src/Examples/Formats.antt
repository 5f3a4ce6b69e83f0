-- ===== src/Examples/Formats.antt =====
-- The codecs at concrete entries.
use pedrodb.Base.{◌+◌, ◌≡◌, ◌<◌, ◌≢◌, ◌↔◌, arith, true, some, length}
use pedrodb.Base.Bytes.{Holds-of_list}
use pedrodb.Buffer.Readable.{readable_bytes-array_buffer}
use pedrodb.Platform.BigEndian.{big_endian}
use pedrodb.Buffer.{WritableBuffer, ReadableBuffer, array_buffer, retrieve}
use pedrodb.Format.Record.{set, size_of, pack, unpack}
use pedrodb.Format.Record.RoundTrip.{unpack-pack}
use pedrodb.Format.Record.Location.{Location, lt, gt, eq, ne, rank, compare-rank}
use pedrodb.Format.Index
use pedrodb.Format.Index.RoundTrip.{unpack_index-Holds}
use pedrodb.Format.Metadata.{LogEntry, LogType, unpack_log_entry, log_entry_bytes, log_entry_size}
use pedrodb.Format.Metadata.RoundTrip.{length-log_entry_bytes, unpack_log_entry-Holds}
use pedrodb.Examples.{a_key, an_entry, an_entry-IsStorable, no_bytes}

abbrev room : WritableBuffer
room = record { memory = no_bytes; base = 100; write_index = 0; capacity = 64; offset = 100 }

unpack-pack_example :
    (pack an_entry room).0 ≡ true
    × (let r : ReadableBuffer = record {
      memory = (pack an_entry room).1.memory;
      read_index = 100 + 0;
      capacity = 200;
    } in
        unpack r ≡ some (an_entry, retrieve r (size_of an_entry)))
unpack-pack_example =
    unpack-pack an_entry room 200 an_entry-IsStorable (unfold size_of in omega arith)
      (unfold size_of in omega arith)

abbrev older : Location
older = record { id = 1; offset = 900 }

abbrev newer : Location
newer = record { id = 2; offset = 0 }

compare-rank_example :
    ((lt older newer ≡ true) ↔ (rank older < rank newer))
    × ((gt older newer ≡ true) ↔ (rank newer < rank older))
    × ((eq older newer ≡ true) ↔ (older ≡ newer))
    × ((ne older newer ≡ true) ↔ (rank older ≢ rank newer))
    × ((rank older ≡ rank newer) ↔ (older ≡ newer))
compare-rank_example = compare-rank older newer (omega arith) (omega arith)

abbrev index_entry : Index.Entry
index_entry = record { key = a_key; entry_type = set; offset = 19; len = 19 }

abbrev index_buffer : ReadableBuffer
index_buffer = array_buffer (Index.index_bytes index_entry)

unpack_index-Holds_example :
    Index.unpack index_buffer
    ≡ some (index_entry, retrieve index_buffer (length (Index.index_bytes index_entry)))
unpack_index-Holds_example =
    unpack_index-Holds index_entry index_buffer
      (record {
        written = tt;
        key_fits = omega arith;
        offset_fits = omega arith;
        len_fits = omega arith;
      })
      (omega (arith, readable_bytes-array_buffer (Index.index_bytes index_entry))) (Holds-of_list _)

abbrev log_entry : LogEntry
log_entry = record { log_type = LogType.create_file; id = 7 }

abbrev log_buffer : ReadableBuffer
log_buffer = array_buffer (log_entry_bytes log_entry)

unpack_log_entry-Holds_example :
    unpack_log_entry log_buffer ≡ some (log_entry, retrieve log_buffer log_entry_size)
unpack_log_entry-Holds_example =
    unpack_log_entry-Holds log_entry log_buffer (record { written = tt; id_fits = omega arith })
      (omega (
        arith,
        length-log_entry_bytes log_entry,
        readable_bytes-array_buffer (log_entry_bytes log_entry),
      ))
      (Holds-of_list _)
