-- ===== src/Ledger/Sync.antt =====
-- A block as its maker executes it, and as it is synchronised.
use mathlib.Core.List.{append-nil, append_assoc}
use l.Base.{
  ◌≡◌, refl, ap, sym, ◌∙◌, subst, Bool, true, false, String, List, [], ◌∷◌, ◌++◌, All, string_eq,
  ==_self, arith,
}
use l.Transaction.{Transaction}
use l.State.{ok}
use l.Ledger.{
  Chain, Machine, World, Acc, no_acc, holds, and_then, is_contract, execute_other, execute_one,
  execute_txs, execute_transaction,
}
use l.Ledger.Then.{and_then_assoc, and_then_cong}
use l.Ledger.Replay.{mirror, Apart, execute_txs-again}

abbrev pub NoContracts : List Transaction → Type 0
NoContracts txs = All (λ tx. is_contract tx.type ≡ false) txs

AllHeld : (Transaction → String) → List Transaction → List Transaction → Type 0
AllHeld hash made txs = All (λ tx. holds hash tx made ≡ true) txs

holds_within :
    (hash : Transaction → String) (before : List Transaction) (tx : Transaction)
    (after : List Transaction)
    → holds hash tx (before ++ (tx ∷ after)) ≡ true
unfolding holds
holds_within hash [] tx after = ground (arith, ==_self (hash tx))
holds_within hash (b ∷ bs) tx after = ground (arith, holds_within hash bs tx after)

-- A list holds its own transactions.
AllHeld-after :
    (hash : Transaction → String) (before txs : List Transaction) → AllHeld hash (before ++ txs) txs
unfolding AllHeld holds
AllHeld-after hash before [] = tt
AllHeld-after hash before (tx ∷ txs) = (
  holds_within hash before tx txs,
  subst (λ made. AllHeld hash made txs) (append_assoc before (tx ∷ []) txs)
      (AllHeld-after hash (before ++ (tx ∷ [])) txs),
)

module _ {C : Type 0} (chain : Chain) (machine : Machine C) where
  execute_txs-append :
      (flag : Bool) (xs ys : List Transaction) (acc : Acc) (w : World C)
      → execute_txs chain machine flag (xs ++ ys) acc w
        ≡ and_then (execute_txs chain machine flag xs acc w) (execute_txs chain machine flag ys)
  unfolding execute_txs and_then
  execute_txs-append flag [] ys acc w = refl
  execute_txs-append flag (x ∷ xs) ys acc w =
      and_then_cong (execute_one chain machine flag x acc w) _ _
        (λ b v. execute_txs-append flag xs ys b v)
      ∙ sym (and_then_assoc (execute_one chain machine flag x acc w) _ _)

  -- What a contract has made is passed over.
  execute_txs-held :
      (txs : List Transaction) (acc : Acc) (w : World C)
      → NoContracts txs
      → AllHeld chain.hash acc.generated txs
      → execute_txs chain machine false txs acc w ≡ (w, ok acc)
  unfolding execute_txs execute_one execute_other and_then AllHeld
  execute_txs-held [] acc w plain held = refl
  execute_txs-held (tx ∷ txs) acc w (no_contract, plain) (here, held) =
      rw (no_contract, here) (execute_txs-held txs acc w plain held)

  -- A block is made of `txs`, and the contracts among them make `acc.appended`, which are no
  -- contracts themselves and whose hashes are not in `txs`. Whoever synchronises the block, which has
  -- them at its end, comes to the same balances, accounts, contracts, batches and transactions.
  pub execute_transaction-sync :
      (txs : List Transaction) (w w' : World C) (acc : Acc)
      → execute_txs chain machine true txs no_acc w ≡ (w', ok acc)
      → Apart chain.hash acc.appended txs
      → NoContracts acc.appended
      → execute_transaction chain machine false (txs ++ acc.appended) w
        ≡ execute_transaction chain machine true txs w
  unfolding execute_transaction and_then
  execute_transaction-sync txs w w' acc made apart plain =
      let again : execute_txs chain machine false (txs ++ acc.appended) no_acc w
          ≡ (w', ok (mirror acc)) =
        execute_txs-append false txs acc.appended no_acc w
        ∙ ap (λ p. and_then p (execute_txs chain machine false acc.appended))
            (execute_txs-again chain machine txs no_acc acc w w' made apart)
        ∙ execute_txs-held acc.appended (mirror acc) w' plain
            (AllHeld-after chain.hash [] acc.appended) in
      rw (again, made, append-nil (txs ++ acc.appended)) refl
