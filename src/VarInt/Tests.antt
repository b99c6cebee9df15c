-- ===== src/VarInt/Tests.antt =====
-- A number that takes a mark and four bytes.
use l.Base.{◌≡◌, ◌≤◌, ◌<◌, ◌↔◌, ◌^◌, length, arith}
use l.VarInt.{var_int}
use l.VarInt.RoundTrip.{length-var_int}

length-var_int_example :
    (length (var_int 70000) ≤ 9)
    × ((length (var_int 70000) ≡ 1) ↔ (70000 < 253))
    × ((length (var_int 70000) ≤ 3) ↔ (70000 < 2 ^ 16))
    × ((length (var_int 70000) ≤ 5) ↔ (70000 < 2 ^ 32))
length-var_int_example = length-var_int 70000 (omega arith)
