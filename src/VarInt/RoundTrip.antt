-- ===== src/VarInt/RoundTrip.antt =====
-- What is written is read back, in as few bytes as its size allows.
use l.Base.{
  ℕ, zero, suc, ◌-◌, ◌/◌, ◌%◌, ◌^◌, ◌<◌, ◌≤◌, ◌≡◌, ◌↔◌, refl, ap, ◌∙◌, true, List, ◌∷◌, ◌++◌,
  length, ltb, leb, arith, Bool-cases, inl, inr,
}
use l.VarInt.{put_uint, uint, var_int, read_full, read_uint, read_var_int}

pub read_full-put_uint :
    (k n : ℕ) (rest : List ℕ) → read_full k (put_uint k n ++ rest) ≡ (put_uint k n, true, rest)
unfolding read_full put_uint
read_full-put_uint zero n rest = refl
read_full-put_uint (suc k) n rest =
    ap (λ r. (n % 256 ∷ r.0, r.1, r.2)) (read_full-put_uint k (n / 256) rest)

read_uint-put_uint :
    (k n : ℕ) (rest : List ℕ)
    → uint (put_uint k n) ≡ n
    → read_uint k (put_uint k n ++ rest) ≡ (n, true, rest)
unfolding read_uint
read_uint-put_uint k n rest h =
    ap (λ r. (uint r.0, r.1, r.2)) (read_full-put_uint k n rest) ∙ ap (λ m. (m, true, rest)) h

two : (n : ℕ) → n < 2 ^ 16 → uint (put_uint 2 n) ≡ n
unfolding uint put_uint
two n h = omega arith

pub four : (n : ℕ) → n < 2 ^ 32 → uint (put_uint 4 n) ≡ n
unfolding uint put_uint
four n h = omega arith

eight : (n : ℕ) → n < 2 ^ 64 → uint (put_uint 8 n) ≡ n
unfolding uint put_uint
eight n h = omega arith

-- A number below 2 ^ 64 that is written in front of a stream is read back from it, without an
-- error, and the stream is what is left.
pub read_var_int-var_int :
    (n : ℕ) (rest : List ℕ) → n < 2 ^ 64 → read_var_int (var_int n ++ rest) ≡ (n, true, rest)
unfolding read_var_int var_int
read_var_int-var_int n rest h = elim (Bool-cases (ltb n 253)) [
  | inl one ↦ ground arith
  | inr more ↦ elim (Bool-cases (leb n (2 ^ 16 - 1))) [
    | inl short ↦ rw (more, short) (read_uint-put_uint 2 n rest (two n (ground arith)))
    | inr wide ↦ elim (Bool-cases (leb n (2 ^ 32 - 1))) [
      | inl word ↦ rw (more, wide, word) (read_uint-put_uint 4 n rest (four n (ground arith)))
      | inr long ↦ rw (more, wide, long) (read_uint-put_uint 8 n rest (eight n h))
    ]
  ]
]

-- A number below 2 ^ 64 is written in one byte exactly if it is below 253, in at most 3 exactly
-- if it is below 2 ^ 16, in at most 5 exactly if it is below 2 ^ 32, and never in more than 9.
pub length-var_int :
    (n : ℕ)
    → n < 2 ^ 64
    → (length (var_int n) ≤ 9)
      × ((length (var_int n) ≡ 1) ↔ (n < 253))
      × ((length (var_int n) ≤ 3) ↔ (n < 2 ^ 16))
      × ((length (var_int n) ≤ 5) ↔ (n < 2 ^ 32))
unfolding var_int put_uint
length-var_int n h = (ground arith, ground arith, ground arith, ground arith)
