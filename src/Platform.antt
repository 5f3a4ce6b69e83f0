-- ===== src/Platform.antt =====
-- What the program takes from code outside its repository: the integer codec of pedrolib's buffers
-- (`AppendInt`, `PeekInt`, `RetrieveInt`), `std::hash` of a string and snappy. They are arguments of
-- the model, with what the program relies on as laws.
pub mod BigEndian
use pedrodb.Base.{ℕ, ◌^◌, ◌<◌, ◌≡◌, List, length, replicate}

pub record Platform : Type 0 where
  -- the bytes that `AppendInt` appends for a value of an integer type of `width` bytes
  pub append_int : (width : ℕ) → (value : ℕ) → List ℕ
  -- the value that `PeekInt` and `RetrieveInt` read from that many bytes
  pub read_int : List ℕ → ℕ
  -- `std::hash<std::string_view>`, and `std::hash` of an integer key
  pub hash : List ℕ → ℕ
  pub hash_int : ℕ → ℕ
  -- `snappy::Compress` and `snappy::Uncompress`
  pub compress : List ℕ → List ℕ
  pub uncompress : List ℕ → List ℕ
  pub length-append_int : (width value : ℕ) → length (append_int width value) ≡ width
  pub read_int-append_int :
      (width value : ℕ) → value < 256 ^ width → read_int (append_int width value) ≡ value
  pub read_int_zeros : (width : ℕ) → read_int (replicate width 0) ≡ 0
  pub uncompress-compress : (s : List ℕ) → uncompress (compress s) ≡ s
