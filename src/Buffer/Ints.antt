-- ===== src/Buffer/Ints.antt =====
-- `PeekInt`, `RetrieveInt` and `AppendInt` of pedrolib on these buffers, over the platform's codec.
use pedrodb.Base.{
  ℕ, ◌+◌, ◌^◌, ◌<◌, ◌≡◌, ap, ◌∙◌, List, ◌++◌, Option, none, some, ltb, if◌then◌else◌,
}
use pedrodb.Base.Bytes.{Memory, read_bytes, Holds, Holds-at, Holds-append_right}
use pedrodb.Platform.{Platform}
use pedrodb.Buffer.{ReadableBuffer, readable_bytes, retrieve, peek, WritableBuffer, append}

module _ ⦃p : Platform⦄ where
  unfoldable pub peek_int : ℕ → ReadableBuffer → Option ℕ
  peek_int width b = if ltb (readable_bytes b) width then none else some (p.read_int (peek b width))

  -- The value, and the buffer behind it.
  unfoldable pub retrieve_int : ℕ → ReadableBuffer → ℕ × ReadableBuffer
  retrieve_int width b = (p.read_int (peek b width), retrieve b width)

  unfoldable pub append_int : WritableBuffer → ℕ → ℕ → WritableBuffer
  append_int b width value = append b (p.append_int width value)

  pub read_int-Holds :
      (m : Memory) (offset width value : ℕ)
      → value < 256 ^ width
      → Holds m offset (p.append_int width value)
      → p.read_int (read_bytes m offset width) ≡ value
  read_int-Holds m offset width value fits h =
      ap p.read_int (Holds-at m offset width _ h (p.length-append_int width value))
      ∙ p.read_int-append_int width value fits

  -- What follows a packed integer stands behind its bytes.
  pub next_field :
      (m : Memory) (offset width value : ℕ) (rest : List ℕ)
      → Holds m offset (p.append_int width value ++ rest)
      → Holds m (offset + width) rest
  next_field m offset width value rest h =
      rw (p.length-append_int) at (Holds-append_right m offset (p.append_int width value) rest h)
