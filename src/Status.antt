-- ===== src/Status.antt =====
-- include/pedrodb/status.h
pub data Status : Type 0 where
  ok not_found corruption not_supported invalid_argument io_error : Status
