-- ===== src/Examples/Database.antt =====
-- The database at concrete states.
mod Histories
mod Segments
mod Compaction
mod Scheduling
mod Opening
mod Scanning
mod Sessions
mod Tasks
use pedrodb.Base.{
  ℕ, ◌≡◌, refl, arith, List, [], none, some, true, false, if◌then◌else◌, ◌===◌, ===→eq, ===_refl,
  ==_refl, Bool, ◌+◌, ◌<◌,
}
use mathlib.Core.Path.{subst₂}
use pedrodb.Platform.BigEndian.{big_endian}
use pedrodb.Buffer.{array_buffer}
use pedrodb.Format.Record.{size_of, validate}
use pedrodb.Format.Record.Location.{Dir}
use pedrodb.File.{no_faults, max_file_bytes}
use pedrodb.Base.{suc, append-nil, length, ◌∷◌}
use pedrodb.Status.{ok}
use pedrodb.Base.Bytes.{write_bytes, Holds-write_self}
use pedrodb.Format.Record.Sequence.{entries_bytes}
use pedrodb.FileManager.{index_of}
use pedrodb.FileManager.Rebuild.{index_log}
use pedrodb.Iterator.IndexFile.{open_index}
use pedrodb.Iterator.{open_iterator}
use pedrodb.Db.Recovery.{recover_entry, recover_file, recover_index, recover_records}
use pedrodb.Db.Recovery.Entries.{latest, Recovered, recover_entry-newer}
use pedrodb.Db.Recovery.Kept.{IsKept}
use pedrodb.Db.Recovery.IndexFile.{index_entries, recover_file-index_log}
use pedrodb.Db.Recovery.DataFile.{recover_index-recover_records}
use pedrodb.ReadCache
use pedrodb.SegmentCache.{segment_add}
use pedrodb.Index.Sample.{function_map}
use pedrodb.Db.{Db, Options, new_state}
use pedrodb.Db.View.{Contents, HasValue, Shows, IsReady, IsCached}
use pedrodb.Db.Put.{put_index}
use pedrodb.Db.Put.Index.{PutEffect, put_index_effect}
use pedrodb.Db.Put.Refines.{Outcome, put_refines}
use pedrodb.Db.Get.Refines.{Found, get_refines}
use pedrodb.Examples.{
  a_key, a_value, an_entry, an_entry-IsStorable, no_bytes, entry_memory, manager_of,
  empty-IsConsistent, entry_held, entry_size, entry_zeros,
}

abbrev options : Options
options = record { threshold_bytes = 4096; compress_value = false; read_cache = true }

abbrev a_dir : Dir
a_dir = record { entry_size = 19; loc = record { id = 1; offset = 0 } }

abbrev pub empty_db : Db
empty_db = record {
  options = options;
  max_file = 1;
  indices = λ k. none;
  files = manager_of no_bytes 0 [];
  readonly = false;
  read_cache = ReadCache.new 1 8192;
  compact_tasks = [];
  file_states = λ id. new_state;
}

-- One key has a value.
abbrev one_db : Db
one_db = record {
  options = options;
  max_file = 1;
  indices = λ k. if a_key === k then some a_dir else none;
  files = manager_of entry_memory 19 [];
  readonly = false;
  read_cache = ReadCache.new 1 8192;
  compact_tasks = [];
  file_states = λ id. new_state;
}

abbrev nothing : Contents
nothing = λ k. none

abbrev one_value : Contents
one_value = λ k. if a_key === k then some a_value else none

one-IsCached : IsCached one_db
unfolding ReadCache.new segment_add
one-IsCached = record { newest = refl; fresh = (tt, tt); segments = omega arith }

empty-IsCached : IsCached empty_db
unfolding ReadCache.new segment_add
empty-IsCached = record { newest = refl; fresh = (tt, tt); segments = omega arith }

empty-Shows : Shows empty_db nothing
empty-Shows = record {
  present = λ k v h. cc;
  absent = λ k h. refl;
  handles = tt;
  active = record {
    file = record { file = 1; length = max_file_bytes; write_index = 0 };
    is = refl;
    same_file = refl;
    whole = refl;
  };
  cached = empty-IsCached;
}

empty-IsReady : IsReady empty_db
empty-IsReady = record { consistent = empty-IsConsistent; fresh = λ i h. ground arith }

put_refines_example : Outcome no_faults a_key a_value empty_db nothing
put_refines_example =
    put_refines no_faults a_key a_value empty_db nothing empty-Shows empty-IsReady (omega arith)
      (omega arith) (omega arith)

a_value_held : HasValue one_db a_key a_value
a_value_held = record {
  dir = a_dir;
  entry = an_entry;
  found = rw (===_refl a_key);
  storable = an_entry-IsStorable;
  stored = record {
    stands = entry_held;
    exists = refl;
    length = refl;
    inside = unfold size_of in omega arith;
    old = omega arith;
    before = λ f a i. unfold size_of in ground arith;
  };
  is_set = refl;
  key_is = refl;
  value_is = refl;
  valid = unfold validate in ==_refl _;
  size_is = unfold size_of in refl;
}

one_present :
    (k v : List ℕ) (same : Bool)
    → (a_key === k) ≡ same
    → (if same then some a_value else none) ≡ some v
    → HasValue one_db k v
one_present k v true e h =
    let value : a_value ≡ v = cc in subst₂ (HasValue one_db) (===→eq a_key k e) value a_value_held
one_present k v false e h = cc

one_absent :
    (k : List ℕ) (same : Bool)
    → (a_key === k) ≡ same
    → (if same then some a_value else none) ≡ none
    → (if a_key === k then some a_dir else none) ≡ none
one_absent k true e h = cc
one_absent k false e h = rw e refl

one-Shows : Shows one_db one_value
one-Shows = record {
  present = λ k v. one_present k v (a_key === k) refl;
  absent = λ k. one_absent k (a_key === k) refl;
  handles = tt;
  active = record {
    file = record { file = 1; length = max_file_bytes; write_index = 19 };
    is = refl;
    same_file = refl;
    whole = refl;
  };
  cached = one-IsCached;
}

one_inside :
    (dir : Dir)
    → (if a_key === a_key then some a_dir else none) ≡ some dir
    → dir.loc.offset + dir.entry_size < max_file_bytes
one_inside dir h = let at : some a_dir ≡ some dir = rw (===_refl a_key) at h in ground arith

get_refines_example : Found no_faults true (array_buffer []) a_key one_db one_value
get_refines_example =
    get_refines no_faults true (array_buffer []) a_key one_db one_value one-Shows refl refl
      (omega arith) (λ dir h d. one_inside dir h)

put_index_effect_example :
    PutEffect an_entry
      (record { id = 1; offset = 19 })
      a_key
      a_value
      one_db
      (put_index an_entry (record { id = 1; offset = 19 }) a_key a_value one_db)
put_index_effect_example =
    put_index_effect an_entry (record { id = 1; offset = 19 }) a_key a_value one_db

-- The index file of the file 3 has the entry, and the index nothing.
abbrev an_index_log : List ℕ
an_index_log = index_log 0 (an_entry ∷ [])

abbrev restarted_db : Db
restarted_db = record empty_db {
  files = record (manager_of no_bytes 0 []) {
    index_files = λ i. record {
      exists = true;
      length = length an_index_log;
      bytes = write_bytes no_bytes 0 an_index_log;
    };
  };
}

recover_file-index_log_example :
    (db' : Db) × (recover_file no_faults (array_buffer []) 3 restarted_db ≡ some (ok, db'))
    × IsKept restarted_db db'
    × ((j : List ℕ) → db'.indices j ≡ latest 3 j (index_entries 0 (an_entry ∷ [])) none)
recover_file-index_log_example =
    recover_file-index_log no_faults (array_buffer []) 3 (an_entry ∷ []) restarted_db refl refl refl
      refl (Holds-write_self no_bytes 0 an_index_log) (an_entry-IsStorable, tt)
      (unfold entries_bytes in rw append-nil (omega (arith, entry_size))) (λ j d h. cc)

recover_index-recover_records_example :
    recover_index (suc (length an_index_log)) 3 (open_index an_index_log) empty_db
    ≡ recover_records (suc 4096) 3 entry_memory (open_iterator 4096 (array_buffer [])) empty_db
recover_index-recover_records_example =
    recover_index-recover_records 3 (an_entry ∷ []) entry_memory 4096 (array_buffer []) empty_db
      (an_entry-IsStorable, tt) (unfold entries_bytes in rw append-nil entry_held)
      (unfold entries_bytes in rw append-nil (entry_zeros _ (omega (arith, entry_size))))
      (unfold entries_bytes in rw append-nil (omega (arith, entry_size))) (omega arith) refl

recover_entry-newer_example :
    Recovered 2 (index_of 5 an_entry) one_db (recover_entry 2 (index_of 5 an_entry) one_db)
recover_entry-newer_example =
    recover_entry-newer 2 (index_of 5 an_entry) one_db
      (record {
        written = tt;
        key_fits = omega arith;
        offset_fits = omega arith;
        len_fits = unfold size_of in omega arith;
      })
      (rw (===_refl a_key) (omega arith, omega arith))
