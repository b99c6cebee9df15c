-- ===== src/Lbft/Counters/Laws.antt =====
-- How the counters move when a batch is committed.
use l.Base.{ℕ, ◌<◌, ◌^◌, ◌≡◌, arith, ltb, if◌then◌else◌}
use l.Lbft.Counters.{Counters, update_last_height_num, update_last_seq_no, update_verify_seq_no}

-- Of 32-bit heights, the last one becomes the given one, whether that is above or below it: the
-- test keeps nothing back.
pub update_last_height_num-eq :
    (h : ℕ) (c : Counters)
    → h < 2 ^ 32
    → c.last_height < 2 ^ 32
    → update_last_height_num h c ≡ record c { last_height = h }
unfolding update_last_height_num
update_last_height_num-eq h c small words = ground arith

-- Below 2 ^ 63, the last and the verified sequence number never fall: each becomes the larger of
-- itself and the given one.
pub update_seq_nos-max :
    (n : ℕ) (c : Counters)
    → n < 2 ^ 63
    → c.last_seq_no < 2 ^ 63
    → c.verify_seq_no < 2 ^ 63
    → update_verify_seq_no n (update_last_seq_no n c) ≡ record c {
      last_seq_no = if ltb c.last_seq_no n then n else c.last_seq_no;
      verify_seq_no = if ltb c.verify_seq_no n then n else c.verify_seq_no;
    }
unfolding update_verify_seq_no update_last_seq_no
update_seq_nos-max n c small last verified = ground arith
