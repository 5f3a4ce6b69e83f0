-- ===== src/Examples/Posix.antt =====
-- A buffered file of which three bytes wait.
use pedrodb.File.Posix.{PosixFile}
use pedrodb.Examples.{no_bytes, whole_file}

abbrev waiting : PosixFile
waiting = record {
  disk = whole_file no_bytes;
  cursor = 0;
  length = 4096;
  bytes = λ i. 7;
  flush_offset = 0;
  offset = 3;
}
