-- ===== src/VarInt.antt =====
-- components/utils/varlen.go: numbers of variable length. A byte is a number below 256; a stream is
-- the list of the bytes that are left, and `r.Read` on an empty one fails with EOF.
pub mod RoundTrip
pub mod Words
mod Tests
use l.Base.{
  ℕ, zero, suc, ◌+◌, ◌-◌, ◌*◌, ◌/◌, ◌%◌, ◌^◌, ◌<◌, Bool, true, false, List, [], ◌∷◌, ◌++◌, ltb, leb,
  eqb, if◌then◌else◌,
}

-- `binary.LittleEndian.Put…` into a buffer of `k` bytes, and back.
unfoldable pub put_uint : ℕ → ℕ → List ℕ
put_uint zero n = []
put_uint (suc k) n = n % 256 ∷ put_uint k (n / 256)

unfoldable pub uint : List ℕ → ℕ
uint [] = 0
uint (b ∷ bs) = b + 256 * uint bs

unfoldable pub var_int : ℕ → List ℕ
unfolding put_uint
var_int n =
    if ltb n 253
    then n ∷ []
    else if leb n (2 ^ 16 - 1)
    then 253 ∷ put_uint 2 n
    else if leb n (2 ^ 32 - 1)
    then 254 ∷ put_uint 4 n
    else 255 ∷ put_uint 8 n

-- `WriteVarInt`, onto a stream that takes every write.
pub write_var_int : List ℕ → ℕ → List ℕ
write_var_int w count = w ++ var_int count

-- `io.ReadFull`: the buffer, of which a stream that ends early fills the front only, whether it was
-- filled, and the rest of the stream.
unfoldable pub read_full : ℕ → List ℕ → List ℕ × Bool × List ℕ
read_full zero bs = ([], true, bs)
read_full (suc k) [] = let (buf, full, rest) = read_full k [] in (0 ∷ buf, false, rest)
read_full (suc k) (b ∷ bs) = let (buf, full, rest) = read_full k bs in (b ∷ buf, full, rest)

unfoldable pub read_uint : ℕ → List ℕ → ℕ × Bool × List ℕ
unfolding read_full uint
read_uint k bs = let (buf, full, rest) = read_full k bs in (uint buf, full, rest)

-- The number, whether it was read without an error, and the rest of the stream.
unfoldable pub read_var_int : List ℕ → ℕ × Bool × List ℕ
unfolding read_uint
read_var_int [] = (0, false, [])
read_var_int (b ∷ bs) =
    if eqb b 253
    then read_uint 2 bs
    else if eqb b 254
    then read_uint 4 bs
    else if eqb b 255
    then read_uint 8 bs
    else (b, true, bs)
