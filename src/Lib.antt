-- ===== src/Lib.antt =====
-- pedrodb: an embedded key-value store. Values are appended to data files of 128 MB; an index in
-- memory leads from a key to the location of its newest entry; a metadata log keeps the set of
-- data files.
--
-- How the parts work together. `DBImpl` (Db) answers Put, Delete and Get. Put makes an entry
-- (Format/Record), appends it by `FileManager::Append` (FileManager), which allocates bytes of the
-- active mapped file (File) and packs the entry there, and then updates the index (Index). Where
-- the active file is full, the file manager creates the next one, for which the metadata manager
-- (Metadata) writes a log entry (Format/Metadata); the index log of the old file (Format/Index) is
-- written by a scheduled task. Get finds the location, acquires a handle of the file through a
-- cache of handles (Lru), and reads the entry with a record iterator (Iterator), or, if the entry
-- is in an older file, through a cache of blocks (ReadCache, over SegmentCache, over Lru). At start
-- the recovery (Metadata, FileManager, Db/Recovery) rebuilds the set of files, the active file and
-- the index, from an index file where there is one, else from the data file. Files in which enough
-- is unused are queued for compaction (Db/Schedule), which appends what the index still has of a
-- file and removes the file (Db/Compact). A segmented database (SegmentDb) has databases side by
-- side, by the hash of a key.
--
-- Files and the code they are about, by the paths of the repository:
--   Base              lists, bytes in memory, sorted lists of ids (`std::set<file_id_t>`)
--   Platform          code that is not part of the repository: integer codec, hash, snappy
--   Buffer            include/pedrodb/file/readable_file.h, include/pedrodb/file/readwrite_file.h
--   Format/Record     include/pedrodb/format/record_format.h
--   Format/Index      include/pedrodb/format/index_format.h
--   Format/Metadata   include/pedrodb/format/metadata_format.h
--   File              include/pedrodb/file/mapping_readwrite_file.h
--   File/Posix        include/pedrodb/file/posix_readwrite_file.h
--   File/Readonly     include/pedrodb/file/mapping_readonly_file.h
--   Lru               include/pedrodb/cache/lru_cache.h
--   SegmentCache      include/pedrodb/cache/segment_cache.h
--   ReadCache         include/pedrodb/cache/read_cache.h
--   Metadata          src/metadata_manager.cc
--   FileManager       src/file_manager.cc, include/pedrodb/file_manager.h
--   Iterator          include/pedrodb/iterator/record_iterator.h, index_iterator.h
--   Index             the contract of the third-party map from keys to entries
--   Db                src/db_impl.cc, include/pedrodb/db_impl.h
--   Db/Put, Db/Get, Db/Recovery, Db/Compact   the methods of `DBImpl`, and what they do to the map that
--                     the database stands for (Db/View); Db/History, calls one after the other
--   Db/Open, Db/Scan  the start of a database, src/db.cc, and the iterator over it
--   Db/Restart        a start on the files of an earlier process, which FileManager/Durable describes;
--                     Db/History/Session has histories with such starts
--   Db/Schedule       the queue of compactions and the executor
--   SegmentDb         src/segment_db.cc, include/pedrodb/segment_db.h
--   Examples          concrete inputs on which the theorems are applied
-- Functions keep their names in snake case: `FileManager::CreateFile` is `create_file` of
-- FileManager, `DBImpl::HandlePut` is `handle_put` of Db/Put. A method is a function from the
-- state to an answer and the next state. A child module of a component holds its methods or is
-- named for what it shows.
--
-- Conventions. Numbers are natural numbers; a cast to a narrower integer is written as `%`. A file
-- on disk is named by the id in its name. The calls of the operating system that fail during an
-- operation are the argument `Faults`. `PEDRODB_FATAL` ends the process, which is the result
-- `none`. A buffer that an iterator fills with an index file has exactly the bytes of the file. A
-- null pointer that is dereferenced is the result `crash` of `Run`, and `none` in the recovery.
-- Where a corrupt record header with sizes that wrap moves a read index behind the end of its
-- buffer, the number of readable bytes wraps as in the source; the bytes that the source then reads
-- there are not defined, and the model has zeros or those of the file. A sum of sizes that wraps
-- around `size_t` does not happen for buffers that exist, so sums of sizes are not reduced. The
-- bytes of a removed file stay readable through handles that are open. Locks are not modelled: each
-- method runs alone, so the retry of `Append` for an active file that another thread replaced is
-- not reached; tasks of the file manager that the executor runs later are the list `tasks`, and
-- each is run by `run_task`.
--
-- Fuel. The loop that rebuilds an index has one more unit of fuel than the file has bytes: each
-- entry takes 14 bytes or more. Only after such a corrupt header can it be used up. The loop of the
-- metadata recovery has as many units as bytes: each log entry takes five. The loops of the index
-- recovery have one more unit than the file has bytes: an index entry takes ten or more; so has the
-- loop of a compaction. `Append` has two units: a file that was just created has room for any entry
-- that HandlePut lets through. The loop of the read cache has three rounds more than the entry has
-- whole blocks: it may begin and end within a block, and the last round ends the loop. The loop of
-- the iterator over segments has two rounds more than there are segments.
--
-- Processes. What is written to a mapped file is on the disk at once: a process may end between two
-- calls, but not within one, and the machine does not fail. A new process finds the data files, the
-- index files that were written and the log of the database file; tasks that did not run are lost.
-- The histories across processes have no compaction, which drops tombstones.
--
-- Compactions. `Compact(id)` is modelled as it runs alone. What the executor may interleave is the
-- step relation of Db/Schedule, on the queue, the states of the files, and how many compactions of a
-- file wait or run.
--
-- Not modelled: the opening of the buffered file without a capacity, which the file manager does not
-- use; when the workers run, and their cancelling; logging,
-- measuring and tests.
pub mod Base
pub mod Platform
pub mod Buffer
pub mod Format
pub mod Status
pub mod File
pub mod Lru
pub mod Metadata
pub mod FileManager
pub mod SegmentCache
pub mod ReadCache
pub mod SegmentDb
pub mod Iterator
pub mod Index
pub mod Db
pub mod Examples
