-- ===== src/VarInt/Words/RoundTrip.antt =====
-- An array of words that is written is read back.
use l.Base.{
  ℕ, ◌+◌, ◌*◌, ◌^◌, ◌<◌, ◌≤◌, ◌≡◌, refl, ap, ap₂, some, List, [], ◌∷◌, All, length, arith,
  length-append,
}
use l.VarInt.{var_int}
use l.VarInt.RoundTrip.{four, read_var_int-var_int, length-var_int}
use l.VarInt.Words.{
  uint32_to_bytes, write_words, uint32_array_to_bytes, push_word, read_words,
  bytes_to_uint32_arrary,
}

abbrev pub IsWord : ℕ → Type 0
IsWord n = n < 2 ^ 32

read_words-write_words :
    (array : List ℕ) → All IsWord array → read_words (length array) (write_words array) ≡ some array
unfolding read_words write_words
read_words-write_words [] words = refl
read_words-write_words (v ∷ array) words =
    ap₂ push_word (ap some (four v words.0)) (read_words-write_words array words.1)

length-write_words : (array : List ℕ) → length (write_words array) ≡ 5 * length array
unfolding write_words uint32_to_bytes
length-write_words [] = refl
length-write_words (v ∷ array) = omega (arith, length-write_words array)

-- An array of fewer than 2 ^ 64 words below 2 ^ 32 is written in at most 9 bytes and 5 for each
-- word, and is read back from them without a panic.
pub bytes_to_uint32_arrary-uint32_array_to_bytes :
    (array : List ℕ)
    → length array < 2 ^ 64
    → All IsWord array
    → (bytes_to_uint32_arrary (uint32_array_to_bytes array) ≡ some array)
      × (length (uint32_array_to_bytes array) ≤ 9 + 5 * length array)
unfolding bytes_to_uint32_arrary uint32_array_to_bytes
bytes_to_uint32_arrary-uint32_array_to_bytes array size words =
    let (short, ones, threes, fives) = length-var_int (length array) size in
    (
      rw (read_var_int-var_int (length array) (write_words array) size)
          (read_words-write_words array words),
      rw (length-append (var_int (length array)) (write_words array), length-write_words array)
          (omega (arith, short)),
    )
