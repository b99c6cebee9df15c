-- ===== src/Lbft/Options/Tests.antt =====
-- Ten replicas with a quorum of three: the quorum is corrected to seven.
use l.Base.{◌≡◌, ◌≤◌, refl, some, String, arith, lookup, insert}
use l.Vote.{Vote, add, new_vote, size, voter_by_ticket}
use l.Vote.Tally.{IsTally, new_vote-IsTally, add-IsTally}
use l.Lbft.Options.{Options, new_default_options, corrected}
use l.Lbft.Options.Bounds.{corrected_unique}

abbrev ten_replicas : Options
ten_replicas = record new_default_options { n = 10 }

abbrev ten_corrected : Options
ten_corrected = record new_default_options { n = 10; q = 7 }

ten_replicas-corrected : corrected ten_replicas ≡ some ten_corrected
unfolding corrected
ten_replicas-corrected = refl

-- Four replicas, of which three vote alike.
abbrev four_corrected : Options
four_corrected = new_default_options

four_sound : corrected four_corrected ≡ some four_corrected
unfolding corrected
four_sound = refl

abbrev own_name : String → String
own_name t = t

abbrev alike : Vote String
alike = add own_name "c" "x" (add own_name "b" "x" (add own_name "a" "x" new_vote))

alike-IsTally : IsTally own_name alike
alike-IsTally =
    add-IsTally own_name "c" "x" _
      (add-IsTally own_name "b" "x" _ (add-IsTally own_name "a" "x" _ (new_vote-IsTally own_name)))

alike_few : size alike ≤ 4
unfolding size add new_vote lookup insert
alike_few = omega arith

alike_quorum : 3 ≤ voter_by_ticket own_name "x" alike
unfolding voter_by_ticket add new_vote lookup insert
alike_quorum = omega arith

corrected_unique_example : own_name "x" ≡ own_name "x"
corrected_unique_example =
    corrected_unique four_corrected four_corrected own_name alike "x" "x" four_sound alike-IsTally
      alike_few alike_quorum alike_quorum
