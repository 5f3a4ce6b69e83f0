-- ===== src/Platform/BigEndian.antt =====
-- A concrete platform, on which the model runs: integers with the highest byte first, a checksum in
-- place of the hash, and no compression.
use native.Mathlib.Nat.{pow-suc}
use pedrodb.Base.{
  ℕ, zero, suc, ◌+◌, ◌*◌, ◌/◌, ◌%◌, ◌^◌, ◌<◌, ◌≡◌, refl, ◌∙◌, arith, List, [], ◌∷◌, ◌++◌, length,
  replicate, length-append,
}
use pedrodb.Platform.{Platform}

unfoldable pub encode : ℕ → ℕ → List ℕ
encode zero value = []
encode (suc width) value = encode width (value / 256) ++ (value % 256 ∷ [])

unfoldable pub decode : ℕ → List ℕ → ℕ
decode acc [] = acc
decode acc (b ∷ bs) = decode (acc * 256 + b) bs

pub length-encode : (width value : ℕ) → length (encode width value) ≡ width
unfolding encode
length-encode zero value = refl
length-encode (suc width) value =
    length-append (encode width (value / 256)) (value % 256 ∷ [])
    ∙ omega (arith, length-encode width (value / 256))

decode-append : (acc : ℕ) (xs ys : List ℕ) → decode acc (xs ++ ys) ≡ decode (decode acc xs) ys
unfolding decode
decode-append acc [] ys = refl
decode-append acc (x ∷ xs) ys = decode-append (acc * 256 + x) xs ys

pub decode-encode : (width value : ℕ) → value < 256 ^ width → decode 0 (encode width value) ≡ value
unfolding encode decode
decode-encode zero value h = omega arith
decode-encode (suc width) value h =
    decode-append 0 (encode width (value / 256)) (value % 256 ∷ [])
    ∙ omega (arith, decode-encode width (value / 256) (omega (arith, pow-suc 256 width)))

pub decode_zeros : (width : ℕ) → decode 0 (replicate width 0) ≡ 0
unfolding decode
decode_zeros zero = refl
decode_zeros (suc width) = decode_zeros width

-- A polynomial hash of a byte string.
unfoldable pub fold_hash : ℕ → List ℕ → ℕ
fold_hash acc [] = acc
fold_hash acc (b ∷ bs) = fold_hash ((acc * 31 + b) % 2 ^ 64) bs

instance abbrev pub big_endian : Platform
big_endian = record {
  append_int = encode;
  read_int = decode 0;
  hash = fold_hash 7;
  hash_int = λ n. n;
  compress = λ s. s;
  uncompress = λ s. s;
  length-append_int = length-encode;
  read_int-append_int = decode-encode;
  read_int_zeros = decode_zeros;
  uncompress-compress = λ s. refl;
}
