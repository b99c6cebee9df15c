-- ===== src/State/Tests.antt =====
-- Alice has 10 and Bob nothing; nothing else is stored.
use l.Base.{
  pos, negsuc, ◌+ℤ◌, ◌-ℤ◌, ◌≤ℤ◌, ◌≡◌, ◌≢◌, ◌⊎◌, inl, inr, refl, String, [], ◌∷◌, lookup,
  if◌then◌else◌, string_eq, ◌==◌, ==_iff, arith,
}
use l.Transaction.{atomic, issue}
use l.State.{Balance, Stored, absent, present, ok, err, negative_balance, transfer, get_balance}
use l.State.Views.{view}
use l.State.Transfers.{debited, credited, transfer_moves, transfer_half_done}

abbrev ten : Balance
ten = record { amount = pos 10; nonce = 0 }

abbrev nothing : Balance
nothing = record { amount = pos 0; nonce = 0 }

abbrev ledger : String → Stored
ledger a = if a == "alice" then present ten else absent

-- What is moved: 4, too much, or a negative amount.
abbrev four : Balance
four = record { amount = pos 4; nonce = 1 }

abbrev forty : Balance
forty = record { amount = pos 40; nonce = 1 }

abbrev minus_four : Balance
minus_four = record { amount = negsuc 3; nonce = 1 }

abbrev alice : String
alice = "alice"

abbrev bob : String
bob = "bob"

apart : alice ≢ bob
apart e = cc ((==_iff alice bob).1 e)

sees_alice : view ledger [] alice ≡ ok ten
unfolding view get_balance lookup
sees_alice = refl

sees_bob : view ledger [] bob ≡ ok nothing
unfolding view get_balance lookup
sees_bob = refl

transfer_moves_example :
    let result = transfer ledger alice bob (pos 1) four atomic [] in
    (result.1 ≡ ok ((alice, debited ten (pos 1) four) ∷ (bob, credited nothing four) ∷ []))
    × ((j : String)
        → view ledger result.0 j ≡ (
            if bob == j
            then ok (credited nothing four)
            else if alice == j
            then ok (debited ten (pos 1) four)
            else view ledger [] j))
unfolding ◌+ℤ◌ ◌-ℤ◌
transfer_moves_example =
    transfer_moves ledger alice bob (pos 1) four atomic [] ten nothing apart sees_alice sees_bob
      (inl (omega arith)) (inl (omega arith))

cannot_pay_forty : ¬ ((pos 0 ≤ℤ (debited ten (pos 1) forty).amount) ⊎ (atomic ≡ issue))
unfolding ◌+ℤ◌ ◌-ℤ◌
cannot_pay_forty (inl h) = absurd (omega arith)
cannot_pay_forty (inr h) = cc h

bob_declines : ¬ ((pos 0 ≤ℤ (credited nothing minus_four).amount) ⊎ (atomic ≡ issue))
unfolding ◌+ℤ◌ ◌-ℤ◌
bob_declines (inl h) = absurd (omega arith)
bob_declines (inr h) = cc h

-- Alice, who has 10, is seen with 13 after the refused transfer of -4 with fee 1.
transfer_half_done_example :
    let result = transfer ledger alice bob (pos 1) minus_four atomic [] in
    (result.1 ≡ err negative_balance)
    × ((j : String)
        → view ledger result.0 j
          ≡ (if alice == j then ok (debited ten (pos 1) minus_four) else view ledger [] j))
unfolding ◌+ℤ◌ ◌-ℤ◌
transfer_half_done_example =
    transfer_half_done ledger alice bob (pos 1) minus_four atomic [] ten nothing apart sees_alice
      sees_bob (inl (omega arith)) bob_declines
