-- ===== src/Examples/Database/Compaction.antt =====
-- A compaction of a file with one entry, which the index has.
use pedrodb.Base.{
  ◌≡◌, refl, arith, Bool, List, ℕ, [], ◌∷◌, none, some, true, false, append-nil, if◌then◌else◌, inr,
  ◌===◌, ===→eq, ===_refl, ==_refl,
}
use mathlib.Core.Path.{subst₂}
use pedrodb.Platform.BigEndian.{big_endian}
use pedrodb.Buffer.{array_buffer}
use pedrodb.Format.Record.{size_of, validate}
use pedrodb.Format.Record.Location.{Dir}
use pedrodb.Format.Record.Sequence.{entries_bytes}
use pedrodb.File.{no_faults, max_file_bytes}
use pedrodb.FileManager.Consistent.{IsConsistent}
use pedrodb.FileManager.Rebuild.{index_log}
use pedrodb.Index.Sample.{function_map}
use pedrodb.Db.{Db}
use pedrodb.Db.View.{HasValue}
use pedrodb.Db.Compact.Keeps.{Keeps}
use pedrodb.Db.Compact.Loop.{first}
use pedrodb.Db.Compact.Refines.{IsCompacted, compact_file-IsCompacted}
use pedrodb.Examples.{
  a_key, a_value, an_entry, an_entry-IsStorable, entry_held, entry_size, entry_zeros,
}
use pedrodb.Examples.Caches.{two_files}
use pedrodb.Examples.Database.{one_db, one_value}

abbrev old_dir : Dir
old_dir = record { entry_size = 19; loc = record { id = 0; offset = 0 } }

abbrev two_files_db : Db
two_files_db = record one_db {
  indices = λ k. if a_key === k then some old_dir else none;
  files = two_files;
}

two_files-IsConsistent : IsConsistent two_files
unfolding entries_bytes index_log
two_files-IsConsistent = record {
  file = record { file = 1; length = max_file_bytes; write_index = 0 };
  entries = [];
  active = refl;
  same_file = refl;
  whole = refl;
  on_disk = refl;
  disk_length = refl;
  storable = tt;
  holds = tt;
  written = refl;
  within = omega arith;
  zeros = λ i h. refl;
  index_is = refl;
}

old_value_held : HasValue two_files_db a_key a_value
old_value_held = record {
  dir = old_dir;
  entry = an_entry;
  found = rw (===_refl a_key);
  storable = an_entry-IsStorable;
  stored = record {
    stands = entry_held;
    exists = refl;
    length = refl;
    inside = unfold size_of in omega arith;
    old = omega arith;
    before = λ f a i. absurd (omega (arith, i));
  };
  is_set = refl;
  key_is = refl;
  value_is = refl;
  valid = unfold validate in ==_refl _;
  size_is = unfold size_of in refl;
}

old_present :
    (k v : List ℕ) (same : Bool)
    → (a_key === k) ≡ same
    → (if same then some a_value else none) ≡ some v
    → HasValue two_files_db k v
old_present k v true e h =
    let value : a_value ≡ v = cc in
    subst₂ (HasValue two_files_db) (===→eq a_key k e) value old_value_held
old_present k v false e h = cc

old_absent :
    (k : List ℕ) (same : Bool)
    → (a_key === k) ≡ same
    → (if same then some a_value else none) ≡ none
    → (if a_key === k then some old_dir else none) ≡ none
old_absent k true e h = cc
old_absent k false e h = rw e refl

two_files_db-Keeps : Keeps two_files_db one_value
two_files_db-Keeps = record {
  present = λ k v. old_present k v (a_key === k) refl;
  absent = λ k. old_absent k (a_key === k) refl;
  handles = tt;
  ready = record { consistent = two_files-IsConsistent; fresh = λ i h. ground arith };
}

-- The index leads to the start of the file only.
leads_to :
    (key : List ℕ) (dir : Dir) (same : Bool)
    → (if same then some old_dir else none) ≡ some dir
    → dir.loc.offset ≡ 0
leads_to key dir true h = ground arith
leads_to key dir false h = cc

-- The thread's buffer has two bytes that an earlier scan left.
compact_file-IsCompacted_example :
    IsCompacted no_faults (array_buffer (1 ∷ 2 ∷ [])) 0 two_files_db one_value
compact_file-IsCompacted_example =
    compact_file-IsCompacted no_faults (array_buffer (1 ∷ 2 ∷ [])) 0 (an_entry ∷ []) two_files_db
      one_value two_files_db-Keeps refl refl refl (omega arith) (omega arith) refl refl
      (an_entry-IsStorable, tt) (unfold entries_bytes in rw append-nil entry_held)
      (unfold entries_bytes in rw append-nil (entry_zeros _ (omega (arith, entry_size))))
      (unfold entries_bytes in rw append-nil (omega (arith, entry_size))) (inr (omega arith))
      (λ key dir found here. first (leads_to key dir (a_key === key) found))
