-- ===== src/Validator/Account.antt =====
-- `validatorAccount` of core/blockchain/validator.go: the transactions of one sender that wait for
-- consensus, in order, and those that came too early. The hash of a transaction is a parameter. Its
-- mutex makes each method one step.
pub mod Accepts
pub mod Orphans
pub mod Commits
mod Tests
use l.Base.{
  ℕ, zero, suc, ◌+◌, ◌%◌, ◌^◌, ◌<◌, ℤ, pos, ltb_ℤ, ◌+ℤ◌, ◌-ℤ◌, Bool, true, false, not, ◌&&◌, ◌||◌,
  String, Option, none, some, List, [], ◌∷◌, ◌++◌, Map, lookup, insert, delete, length, ltb, leb,
  eqb, if◌then◌else◌, string_eq, ◌==◌,
}
use l.Transaction.{
  Transaction, TxType, atomic, across_chain, merged, backfront, distribut, issue, js_contract_init,
  lua_contract_init, contract_invoke, contract_query, other,
}
use l.Elements.{Elem, unlink, insert_back}

pub record Account : Type 0 where
  pub orphans : List Transaction
  pub txs_list : List (Elem Transaction)
  pub txs_map : Map String (Elem Transaction)
  pub next_id : ℕ
  pub amount : ℤ
  pub nonce : ℕ  -- uint32: the next one expected
  pub curr_tx_hash : String  -- up to which transactions have been fetched; zero at first

abbrev pub next_nonce : ℕ → ℕ
next_nonce n = (n + 1) % 2 ^ 32

-- `newValidatorAccount`, from the balance and the nonce of the ledger.
pub new_account : ℤ → ℕ → Account
new_account amount nonce = record {
  orphans = [];
  txs_list = [];
  txs_map = [];
  next_id = 0;
  amount = amount;
  nonce = next_nonce nonce;
  curr_tx_hash = "";
}

-- The `switch` of `addTransaction`: `left` is what the account holds after the transaction. A type
-- that no case names is logged as an error, and passes.
unfoldable pub is_acceptable : TxType → ℕ → ℕ → ℤ → Bool
is_acceptable merged nonce tx_nonce left = true
is_acceptable issue nonce tx_nonce left = eqb nonce tx_nonce
is_acceptable across_chain nonce tx_nonce left = eqb nonce tx_nonce && not (ltb_ℤ left (pos 0))
is_acceptable distribut nonce tx_nonce left = eqb nonce tx_nonce && not (ltb_ℤ left (pos 0))
is_acceptable backfront nonce tx_nonce left = eqb nonce tx_nonce && not (ltb_ℤ left (pos 0))
is_acceptable js_contract_init nonce tx_nonce left = eqb nonce tx_nonce && not (ltb_ℤ left (pos 0))
is_acceptable lua_contract_init nonce tx_nonce left = eqb nonce tx_nonce && not (ltb_ℤ left (pos 0))
is_acceptable contract_invoke nonce tx_nonce left = eqb nonce tx_nonce && not (ltb_ℤ left (pos 0))
is_acceptable atomic nonce tx_nonce left = eqb nonce tx_nonce && not (ltb_ℤ left (pos 0))
is_acceptable contract_query nonce tx_nonce left = true
is_acceptable (other n) nonce tx_nonce left = true

abbrev is_merged : TxType → Bool
is_merged merged = true
is_merged _ = false

-- The orphans are kept by their nonces; past a million the first one goes.
drop_first : List Transaction → List Transaction
drop_first [] = []
drop_first (tx ∷ txs) = txs

unfoldable pub trim : List Transaction → List Transaction
unfolding drop_first
trim txs = if ltb 1000000 (length txs) then drop_first txs else txs

unfoldable pub insert_orphan : Transaction → List Transaction → List Transaction
insert_orphan tx os = elim (insert_back (λ (o : Transaction). ltb o.nonce tx.nonce) tx os) [
  | some placed ↦ placed
  | none ↦ tx ∷ os
]

-- `processOrphan`'s loop from the front: the orphans of the nonces that follow, and those left.
unfoldable pub take_orphans : ℕ → List Transaction → List Transaction × List Transaction
take_orphans nonce [] = ([], [])
take_orphans nonce (tx ∷ txs) =
    let older = take_orphans nonce txs in
    let (taken, left) = take_orphans (next_nonce nonce) txs in
    if ltb tx.nonce nonce
    then older
    else if eqb tx.nonce nonce
    then (tx ∷ taken, left)
    else ([], tx ∷ txs)

unfoldable pub process_orphan : Account → Account × List Transaction
process_orphan va =
    let (taken, left) = take_orphans va.nonce va.orphans in (record va { orphans = left }, taken)

-- `update…Balance`: the receiver gains, the sender loses.
abbrev pub update_transaction_receiver_balance : Transaction → Account → Account
update_transaction_receiver_balance tx va = record va { amount = va.amount +ℤ tx.amount }

abbrev pub update_transaction_sender_balance : Transaction → Account → Account
update_transaction_sender_balance tx va = record va { amount = va.amount -ℤ tx.amount }

-- A nil dereference is `panic`; `out_of_fuel` is no value of the program.
pub data Outcome (A : Type 0) : Type 0 where
  done : A → Outcome A
  panic out_of_fuel : Outcome A

-- `elem.Prev()`: nil at the front, and for an element that the list no longer holds.
unfoldable pub prev : Elem Transaction → List (Elem Transaction) → Option (Elem Transaction)
prev e [] = none
prev e (x ∷ []) = none
prev e (x ∷ y ∷ ys) = let rest = prev e (y ∷ ys) in if eqb y.id e.id then some x else rest

pub get_account_transaction_size : Account → ℕ
get_account_transaction_size va = length va.txs_list

pub get_transaction_by_hash : String → Account → Option Transaction
get_transaction_by_hash h va = elim (lookup h va.txs_map) [ some e ↦ some e.value | none ↦ none ]

module _ (hash : Transaction → String) where
  unfoldable pub add_transaction : Transaction → Account → Account × Bool
  add_transaction tx va =
      let left = va.amount -ℤ tx.amount in
      let e : Elem Transaction = record { id = va.next_id; value = tx } in
      if is_acceptable tx.type va.nonce tx.nonce left
      then (
        record va {
          txs_list = va.txs_list ++ (e ∷ []);
          txs_map = insert (hash tx) e va.txs_map;
          next_id = va.next_id + 1;
          amount = left;
          nonce = if is_merged tx.type then va.nonce else next_nonce va.nonce;
        },
        true,
      )
      else if ltb va.nonce tx.nonce
      then (record va { orphans = insert_orphan tx (trim va.orphans) }, false)
      else (va, false)

  pub has_transaction : Transaction → Account → Bool
  has_transaction tx va = elim (lookup (hash tx) va.txs_map) [ some _ ↦ true | none ↦ false ]

  -- Of a transaction that the pool does not hold, `Remove` is called on nil.
  unfoldable pub rollback_and_remove : Transaction → Account → Outcome Account
  rollback_and_remove tx va = elim (lookup (hash tx) va.txs_map) [
    | none ↦ panic
    | some e ↦ done (record va {
      txs_list = unlink e va.txs_list;
      txs_map = delete (hash tx) va.txs_map;
      amount = va.amount +ℤ tx.amount;
    })
  ]

  -- The loop over the predecessors: each round takes the one in front of `del` and reads its value
  -- before any test for nil.
  unfoldable pub remove_previous : ℕ → Option (Elem Transaction) → Account → Outcome Account
  remove_previous fuel none va = done va
  remove_previous zero (some del) va = out_of_fuel
  remove_previous (suc fuel) (some del) va = elim (prev del va.txs_list) [
    | none ↦ panic
    | some p ↦ remove_previous fuel (some p) (record va {
      txs_list = unlink p va.txs_list;
      txs_map = delete (hash p.value) va.txs_map;
      amount = va.amount +ℤ p.value.amount;
    })
  ]

  -- A transaction that the pool never saw is settled at once.
  unfoldable pub settle : Transaction → Account → Account
  settle tx va = record va {
    amount = va.amount -ℤ tx.amount;
    nonce = if leb va.nonce tx.nonce then next_nonce tx.nonce else va.nonce;
  }

  unfoldable pub committed_and_remove : Transaction → Account → Outcome Account
  committed_and_remove tx va = elim (lookup (hash tx) va.txs_map) [
    | none ↦ done (settle tx va)
    | some e ↦
        remove_previous (length va.txs_list + 1) (prev e va.txs_list)
          (record va { txs_list = unlink e va.txs_list; txs_map = delete (hash tx) va.txs_map })
  ]
