-- ===== src/Examples/Database/Scanning.antt =====
-- A scan of a database whose index has an entry in the middle of a file.
use pedrodb.Base.{refl, arith, [], ◌∷◌, ==_refl}
use pedrodb.Platform.BigEndian.{big_endian}
use pedrodb.Buffer.{array_buffer}
use pedrodb.File.{no_faults}
use pedrodb.Format.Record.{size_of, validate}
use pedrodb.Format.Record.Location.{Dir}
use pedrodb.Db.Scan.{IsFound, is_valid, get_iterator, is_valid-first_entry}
use pedrodb.Examples.{an_entry, an_entry-IsStorable, entry_held}
use pedrodb.Examples.Caches.{two_files, two_files-HasActive}

abbrev later_dir : Dir
later_dir = record { entry_size = 19; loc = record { id = 0; offset = 100 } }

is_valid-first_entry_example :
    IsFound an_entry []
      (is_valid no_faults (get_iterator (later_dir ∷ []) (array_buffer [])) two_files)
is_valid-first_entry_example =
    is_valid-first_entry no_faults two_files later_dir [] (array_buffer []) an_entry refl refl refl
      refl two_files-HasActive tt an_entry-IsStorable entry_held (unfold size_of in omega arith)
      (unfold validate in ==_refl _)
