-- ===== src/Validator/Pool.antt =====
-- What consensus and the network do with the accounts of a `Validator`, of
-- core/blockchain/validator.go: new transactions, the verification of a batch, and what a delivered
-- block commits, rolls back and brings in. The ledger, which gives a new account its balance and
-- nonce, and the recovery of a signer are parameters, as are the hash of a transaction, the public
-- addresses that may issue and the difference of two sets. `log.Panicf` and a nil dereference are
-- `panic`.
pub mod Delivers
mod Tests
use l.Base.{
  ℕ, ◌+◌, ◌<◌, ℤ, ◌+ℤ◌, ◌-ℤ◌, Bool, true, false, not, ◌&&◌, ◌||◌, String, Option, none, some, List,
  [], ◌∷◌, ◌++◌, Map, lookup, insert, length, ltb, leb, eqb, if◌then◌else◌, string_eq, ◌==◌,
}
use l.Transaction.{
  Transaction, TxType, atomic, across_chain, merged, backfront, distribut, issue, is_local_chain,
}
use l.Validator.Account.{
  Account, Outcome, done, panic, out_of_fuel, new_account, add_transaction, has_transaction,
  process_orphan, rollback_and_remove, committed_and_remove, update_transaction_receiver_balance,
  update_transaction_sender_balance, get_account_transaction_size, get_transaction_by_hash,
}
use l.Validator.Exception.{check_exception_transaction}
use l.Lbft.Blocks.{CommittedTxs}
use l.Validator.Accounts.{Validator, set_account, on_account, update_transaction_receiver}

-- Chains are hex strings here: their coordinates have the same length and the same parents as the
-- strings have. `parent` is the coordinate without its last byte.
pub record Chains : Type 0 where
  pub own : String
  pub size : String → ℕ
  pub parent : String → String

pub is_issuer : List String → String → Bool
is_issuer [] address = false
is_issuer (a ∷ rest) address = if a == address then true else is_issuer rest address

-- `checkTransaction`; the floors that an issue compares are both those of the chain of origin.
pub check_transaction : Chains → List String → Transaction → Bool
unfolding is_issuer
check_transaction chains issuers tx =
    if not (tx.from_chain == chains.own || tx.to_chain == chains.own) then false else elim tx.type [
      | atomic ↦ tx.from_chain == tx.to_chain
      | across_chain ↦
          eqb (chains.size tx.from_chain) (chains.size tx.to_chain)
          && not (tx.from_chain == tx.to_chain)
      | distribut ↦ tx.from_chain == chains.parent tx.to_chain && tx.sender == tx.recipient
      | backfront ↦ chains.parent tx.from_chain == tx.to_chain && tx.sender == tx.recipient
      | issue ↦ is_issuer issuers tx.sender
      | _ ↦ true
    ]

-- The ledger's answer on an address, and the hash.
module _ (balance : String → ℤ × ℕ) (hash : Transaction → String) where
  abbrev pub account_or_new : String → Option Account → Account
  account_or_new address none = let (amount, nonce) = balance address in new_account amount nonce
  account_or_new address (some va) = va

  -- `fetchSenderAccount`: an account that is missing is made.
  pub fetch_sender_account : String → Validator → Validator × Account
  fetch_sender_account address vr =
      let va = account_or_new address (lookup address vr.accounts) in
      (set_account address va vr, va)

  pub get_balance_nonce : String → Validator → Validator × (ℤ × ℕ)
  unfolding fetch_sender_account
  get_balance_nonce address vr =
      let (vr', va) = fetch_sender_account address vr in (vr', (va.amount, va.nonce))

  unfoldable pub verify_transaction : Transaction → Validator → Outcome (Validator × Bool)
  unfolding fetch_sender_account
  verify_transaction tx vr =
      let (vr', va) = fetch_sender_account tx.sender vr in
      if has_transaction hash tx va
      then done (vr', true)
      else elim (check_exception_transaction hash tx va) [
        | panic ↦ panic
        | out_of_fuel ↦ out_of_fuel
        | done (after, true) ↦ done (set_account tx.sender after vr', true)
        | done (after, false) ↦
            let (added, ok) = add_transaction hash tx after in
            done (set_account tx.sender added vr', ok)
      ]

  verify_all : List Transaction → Validator → Outcome (Validator × Bool)
  verify_all [] vr = done (vr, true)
  verify_all (tx ∷ txs) vr = elim (verify_transaction tx vr) [
    | panic ↦ panic
    | out_of_fuel ↦ out_of_fuel
    | done (vr', true) ↦ verify_all txs vr'
    | done (vr', false) ↦ done (vr', false)
  ]

  pub verify_txs_in_tx_pool : List Transaction → Bool → Validator → Outcome (Validator × Bool)
  unfolding verify_all
  verify_txs_in_tx_pool txs primary vr =
      if not vr.is_valid || primary then done (vr, true) else verify_all txs vr

  unfoldable pub rollback_transaction : List Transaction → Validator → Outcome Validator
  unfolding fetch_sender_account
  rollback_transaction [] vr = done vr
  rollback_transaction (tx ∷ txs) vr =
      let (vr', va) = fetch_sender_account tx.sender vr in
      if has_transaction hash tx va
      then elim (rollback_and_remove hash tx va) [
        | done after ↦ rollback_transaction txs (set_account tx.sender after vr')
        | panic ↦ panic
        | out_of_fuel ↦ out_of_fuel
      ]
      else rollback_transaction txs vr'

  -- The orphans that `processOrphan` hands back are added one after the other.
  unfoldable pub add_transactions : List Transaction → Account → Account
  add_transactions [] va = va
  add_transactions (tx ∷ txs) va = add_transactions txs (add_transaction hash tx va).0

  unfoldable pub adopt_orphans : Account → Account
  unfolding add_transactions
  adopt_orphans va = let (va', txs) = process_orphan va in add_transactions txs va'

  -- One transaction of `committedTransaction`: the sender first, then the receiver, which may be
  -- the same account, and then the sender's orphans.
  unfoldable pub commit_one : Transaction → Validator → Outcome Validator
  unfolding fetch_sender_account adopt_orphans on_account
  commit_one tx vr =
      let (vr', va) = fetch_sender_account tx.sender vr in
      elim (committed_and_remove hash tx va) [
        | panic ↦ panic
        | out_of_fuel ↦ out_of_fuel
        | done after ↦
            let settled = set_account tx.sender after vr' in
            let received =
              if is_local_chain tx
              then on_account (update_transaction_receiver_balance tx) tx.recipient settled
              else settled in
            done (on_account adopt_orphans tx.sender received)
      ]

  unfoldable pub committed_transaction : List Transaction → Validator → Outcome Validator
  committed_transaction [] vr = done vr
  committed_transaction (tx ∷ txs) vr = elim (commit_one tx vr) [
    | done vr' ↦ committed_transaction txs vr'
    | panic ↦ panic
    | out_of_fuel ↦ out_of_fuel
  ]

  -- `signer` is what the signature of the transaction gives.
  pub push_tx_in_tx_pool :
      Chains
      → List String
      → (Transaction → Option String)
      → Transaction
      → Validator
      → Validator × Bool
  unfolding check_transaction fetch_sender_account adopt_orphans
  push_tx_in_tx_pool chains issuers signer tx vr =
      let (vr', va) = fetch_sender_account tx.sender vr in
      let (added, ok) = add_transaction hash tx (adopt_orphans va) in
      if not vr.is_valid then (vr, false) else elim (signer tx) [
        | none ↦ (vr, false)
        | some address ↦
            if not (address == tx.sender)
            then (vr, false)
            else if not (check_transaction chains issuers tx)
            then (vr, false)
            else (set_account tx.sender added vr', ok)
      ]

  -- `difference` is that of the two sets, of mapset.go.
  unfoldable pub remove_txs_in_tx_pool :
      (List Transaction → List Transaction → List Transaction)
      → List Transaction
      → List Transaction
      → List Transaction
      → Validator
      → Outcome Validator
  unfolding rollback_transaction committed_transaction update_transaction_receiver
  remove_txs_in_tx_pool difference total group o_chain vr =
      let dropped = if ltb (length group) (length total) then difference total group else [] in
      let kept : Outcome Validator = elim (rollback_transaction dropped vr) [
        | done vr' ↦ committed_transaction group vr'
        | panic ↦ panic
        | out_of_fuel ↦ out_of_fuel
      ] in
      let removed : Outcome Validator = elim dropped [
        | [] ↦ committed_transaction total vr
        | _ ∷ _ ↦ kept
      ] in
      if ltb (length total) (length group) then panic else elim removed [
        | done vr' ↦ done (update_transaction_receiver o_chain vr')
        | panic ↦ panic
        | out_of_fuel ↦ out_of_fuel
      ]

-- What the loop of `GetCommittedTxs` makes of the outputs of a block.
pub record Outputs : Type 0 where
  pub block_time : ℕ
  pub total : List Transaction
  pub group : List Transaction
  pub o_chain : List Transaction
  pub committed : List Transaction

abbrev pub no_outputs : Outputs
no_outputs = record { block_time = 0; total = []; group = []; o_chain = []; committed = [] }

unfoldable pub classify : List CommittedTxs → Outputs → Outputs
classify [] o = o
classify (cts ∷ rest) o =
    let skipped = classify rest (record o { block_time = cts.time; total = cts.transactions }) in
    let local_ = classify rest (record o {
      group = o.group ++ cts.transactions;
      committed = o.committed ++ cts.transactions;
    }) in
    let foreign_ = classify rest (record o {
      o_chain = o.o_chain ++ cts.transactions;
      committed = o.committed ++ cts.transactions;
    }) in
    if cts.skip then skipped else if cts.is_local_chain then local_ else foreign_

unfoldable pub get_committed_txs :
    (String → ℤ × ℕ)
    → (Transaction → String)
    → (List Transaction → List Transaction → List Transaction)
    → List CommittedTxs
    → Validator
    → Outcome (Validator × (List Transaction × ℕ))
unfolding classify remove_txs_in_tx_pool
get_committed_txs balance hash difference outputs vr =
    let o = classify outputs no_outputs in
    elim (remove_txs_in_tx_pool balance hash difference o.total o.group o.o_chain vr) [
      | done vr' ↦ done (vr', (o.committed, o.block_time))
      | panic ↦ panic
      | out_of_fuel ↦ out_of_fuel
    ]
