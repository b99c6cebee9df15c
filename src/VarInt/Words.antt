-- ===== src/VarInt/Words.antt =====
-- The arrays of 32-bit words of components/utils/data_convert.go, which the merge storage keeps its
-- times in. Each word follows its own length, which is always written as 4. `VarEncode` of a number,
-- in encoding.go, is `WriteVarInt`. `none` is the panic of `binary.LittleEndian.Uint32`. A length that
-- is too large for the memory is not modelled.
pub mod RoundTrip
mod Tests
use l.Base.{ℕ, zero, suc, List, [], ◌∷◌, ◌++◌, Bool, Option, none, some, length}
use l.VarInt.{put_uint, uint, var_int, read_full, read_var_int}

unfoldable pub uint32_to_bytes : ℕ → List ℕ
unfolding put_uint
uint32_to_bytes src = put_uint 4 src

unfoldable pub bytes_to_uint32 : List ℕ → Option ℕ
unfolding uint
bytes_to_uint32 (b0 ∷ b1 ∷ b2 ∷ b3 ∷ src) = some (uint (b0 ∷ b1 ∷ b2 ∷ b3 ∷ []))
bytes_to_uint32 src = none

unfoldable pub write_words : List ℕ → List ℕ
unfolding var_int uint32_to_bytes
write_words [] = []
write_words (v ∷ array) =
    var_int (length (uint32_to_bytes v)) ++ uint32_to_bytes v ++ write_words array

unfoldable pub uint32_array_to_bytes : List ℕ → List ℕ
unfolding var_int write_words
uint32_array_to_bytes array = var_int (length array) ++ write_words array

unfoldable pub push_word : Option ℕ → Option (List ℕ) → Option (List ℕ)
push_word (some v) (some array) = some (v ∷ array)
push_word v array = none

-- The loop, for `len` words. Errors of the reads are ignored, and a stream that ends early leaves
-- zeros in the buffer.
unfoldable pub read_words : ℕ → List ℕ → Option (List ℕ)
unfolding read_var_int read_full bytes_to_uint32 push_word
read_words zero r = some []
read_words (suc len) r =
    let (uint32_len, ok, r') = read_var_int r in
    let (buf, full, rest) = read_full uint32_len r' in
    push_word (bytes_to_uint32 buf) (read_words len rest)

unfoldable pub bytes_to_uint32_arrary : List ℕ → Option (List ℕ)
unfolding read_var_int read_words
bytes_to_uint32_arrary src = let (len, ok, r) = read_var_int src in read_words len r
