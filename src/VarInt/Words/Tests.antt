-- ===== src/VarInt/Words/Tests.antt =====
-- Two words, and a stream that ends within the first.
use l.Base.{◌≡◌, ◌≤◌, ◌+◌, ◌*◌, refl, some, none, List, ℕ, [], ◌∷◌, length, arith}
use l.VarInt.Words.{uint32_array_to_bytes, bytes_to_uint32_arrary}
use l.VarInt.Words.RoundTrip.{bytes_to_uint32_arrary-uint32_array_to_bytes}

abbrev two_words : List ℕ
two_words = 70000 ∷ 3 ∷ []

bytes_to_uint32_arrary-uint32_array_to_bytes_example :
    (bytes_to_uint32_arrary (uint32_array_to_bytes two_words) ≡ some two_words)
    × (length (uint32_array_to_bytes two_words) ≤ 9 + 5 * length two_words)
bytes_to_uint32_arrary-uint32_array_to_bytes_example =
    bytes_to_uint32_arrary-uint32_array_to_bytes two_words (omega arith)
      (omega arith, (omega arith, tt))

-- The missing bytes are zeros, and no bytes at all are a panic.
cut_short : bytes_to_uint32_arrary (1 ∷ 4 ∷ 7 ∷ []) ≡ some (7 ∷ [])
unfolding bytes_to_uint32_arrary
cut_short = refl

no_length : bytes_to_uint32_arrary (1 ∷ []) ≡ none
unfolding bytes_to_uint32_arrary
no_length = refl
