-- ===== src/Buffer/Readable.antt =====
-- How many bytes of a buffer are readable, as long as its read index does not pass the capacity.
use pedrodb.Base.{ℕ, ◌-◌, ◌≤◌, ◌≡◌, arith, List, length}
use pedrodb.Base.Bytes.{Memory}
use pedrodb.Buffer.{ReadableBuffer, readable_bytes, retrieve, array_buffer}

pub readable_bytes-within :
    (m : Memory) (i capacity : ℕ)
    → i ≤ capacity
    → readable_bytes (record { memory = m; read_index = i; capacity = capacity }) ≡ capacity - i
readable_bytes-within m i capacity h = ground arith

pub readable_bytes-array_buffer : (bs : List ℕ) → readable_bytes (array_buffer bs) ≡ length bs
readable_bytes-array_buffer bs = ground arith

-- What is retrieved is not readable any more.
pub readable_bytes-retrieve :
    (b : ReadableBuffer) (n : ℕ)
    → n ≤ readable_bytes b
    → readable_bytes (retrieve b n) ≡ readable_bytes b - n
readable_bytes-retrieve b n h = ground arith
