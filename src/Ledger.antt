-- ===== src/Ledger.antt =====
-- `executeTransaction` of core/ledger/ledger.go, and what it calls: the transactions of a block, each
-- by its type, on the cache of balances, on the pool's accounts and on the contracts. Chains and
-- their coordinates are one here, as in the state. The database, the address of a chain, the address
-- behind a merged transaction's signature, the hash and the contract machine with its store are
-- parameters. Log lines are left out.
pub mod Then
pub mod Store
pub mod Replay
pub mod Sync
pub mod Written
pub mod Commits
mod Tests
use l.Base.{
  ℕ, ℤ, pos, Bool, true, false, not, ◌&&◌, ◌||◌, String, Option, none, some, List, [], ◌∷◌, ◌++◌,
  if◌then◌else◌, string_eq, ◌==◌,
}
use l.Transaction.{
  Transaction, TxType, atomic, across_chain, merged, backfront, distribut, issue, js_contract_init,
  lua_contract_init, contract_invoke, contract_query, other, is_local_chain,
}
use l.State.{
  Balance, Stored, Error, negative_balance, unknown_operation, database, Result, ok, err, Operation,
  plus, sub, WriteBatch, Cache, update_balance, transfer,
}
use l.Validator.Accounts.{Validator, update_account, roll_back_account}

pub record Chain : Type 0 where
  pub own : String  -- `params.ChainID`
  pub address : String → String  -- `ChainCoordinateToAddress`
  pub signer : Transaction → String  -- the address made of the signature's bytes
  pub hash : Transaction → String
  pub stored : String → Stored

-- The contract machine: a run either fails or gives new transactions. It reads balances through the
-- ledger, which caches them.
pub record Machine (C : Type 0) : Type 1 where
  pub execute : Transaction → Cache → C → Cache × C × Option (List Transaction)
  pub changes : C → C × Result (List WriteBatch)

-- What is done with the outcome of an update: a lack of funds is logged and passes.
unfoldable pub tolerate :
    List WriteBatch → Cache × Result (List WriteBatch) → Cache × Result (List WriteBatch)
tolerate batches (tmp, ok more) = (tmp, ok (batches ++ more))
tolerate batches (tmp, err negative_balance) = (tmp, ok batches)
tolerate batches (tmp, err e) = (tmp, err e)

abbrev pub strict :
    List WriteBatch → Cache × Result (List WriteBatch) → Cache × Result (List WriteBatch)
strict batches (tmp, ok more) = (tmp, ok (batches ++ more))
strict batches (tmp, err e) = (tmp, err e)

abbrev pub balance_of : Transaction → Balance
balance_of tx = record { amount = tx.amount; nonce = tx.nonce }

-- Of a chain: neither a nonce nor a fee.
abbrev pub chain_balance : Transaction → Balance
chain_balance tx = record { amount = tx.amount; nonce = 0 }

module _ (chain : Chain) where
  unfoldable pub execute_issue_tx :
      Transaction → List WriteBatch → Cache → Cache × Result (List WriteBatch)
  execute_issue_tx tx batches tmp =
      strict batches (transfer chain.stored tx.sender tx.recipient tx.fee (balance_of tx) issue tmp)

  unfoldable pub execute_atomic_tx :
      Transaction → List WriteBatch → Cache → Cache × Result (List WriteBatch)
  unfolding tolerate
  execute_atomic_tx tx batches tmp =
      tolerate batches
        (transfer chain.stored tx.sender tx.recipient tx.fee (balance_of tx) atomic tmp)

  unfoldable pub execute_across_chain_tx :
      Transaction → List WriteBatch → Cache → Cache × Result (List WriteBatch)
  unfolding tolerate
  execute_across_chain_tx tx batches tmp =
      if tx.from_chain == chain.own
      then tolerate batches (update_balance chain.stored tx.sender (balance_of tx) tx.fee sub tmp)
      else tolerate batches
          (update_balance chain.stored tx.recipient (balance_of tx) tx.fee plus tmp)

  abbrev is_merged_type : TxType → Bool
  is_merged_type merged = true
  is_merged_type _ = false

  unfoldable pub execute_merged_tx :
      Transaction → List WriteBatch → Cache → Cache × Result (List WriteBatch)
  unfolding tolerate execute_across_chain_tx
  execute_merged_tx tx batches tmp =
      if is_merged_type tx.type && is_local_chain tx
      then tolerate batches
          (transfer chain.stored (chain.signer tx) tx.recipient tx.fee (balance_of tx) tx.type tmp)
      else execute_across_chain_tx tx batches tmp

  -- The chain's side first, and then, unless it fails or lacks the funds, the account's.
  unfoldable pub and_across :
      Transaction
      → List WriteBatch
      → Cache × Result (List WriteBatch)
      → Cache × Result (List WriteBatch)
  unfolding execute_across_chain_tx
  and_across tx batches (tmp, ok more) = execute_across_chain_tx tx (batches ++ more) tmp
  and_across tx batches (tmp, err negative_balance) = (tmp, ok batches)
  and_across tx batches (tmp, err e) = (tmp, err e)

  unfoldable pub execute_distri_tx :
      Transaction → List WriteBatch → Cache → Cache × Result (List WriteBatch)
  unfolding and_across execute_across_chain_tx
  execute_distri_tx tx batches tmp =
      if tx.from_chain == chain.own
      then and_across tx batches (
          update_balance chain.stored (chain.address tx.to_chain) (chain_balance tx) (pos 0) plus
            tmp)
      else execute_across_chain_tx tx batches tmp

  unfoldable pub execute_backfront_tx :
      Transaction → List WriteBatch → Cache → Cache × Result (List WriteBatch)
  unfolding and_across execute_across_chain_tx
  execute_backfront_tx tx batches tmp =
      if tx.to_chain == chain.own
      then and_across tx batches (
          update_balance chain.stored (chain.address tx.to_chain) (chain_balance tx) (pos 0) sub
            tmp)
      else execute_across_chain_tx tx batches tmp

  -- A type that no case names leaves all as it is.
  unfoldable pub by_type :
      TxType → Transaction → List WriteBatch → Cache → Cache × Result (List WriteBatch)
  unfolding execute_issue_tx execute_atomic_tx execute_across_chain_tx execute_merged_tx
      execute_backfront_tx execute_distri_tx
  by_type issue tx batches tmp = execute_issue_tx tx batches tmp
  by_type atomic tx batches tmp = execute_atomic_tx tx batches tmp
  by_type across_chain tx batches tmp = execute_across_chain_tx tx batches tmp
  by_type merged tx batches tmp = execute_merged_tx tx batches tmp
  by_type backfront tx batches tmp = execute_backfront_tx tx batches tmp
  by_type distribut tx batches tmp = execute_distri_tx tx batches tmp
  by_type js_contract_init tx batches tmp = (tmp, ok batches)
  by_type lua_contract_init tx batches tmp = (tmp, ok batches)
  by_type contract_invoke tx batches tmp = (tmp, ok batches)
  by_type contract_query tx batches tmp = (tmp, ok batches)
  by_type (other n) tx batches tmp = (tmp, ok batches)

  unfoldable pub commited_tranaction :
      Transaction → List WriteBatch → Cache → Cache × Result (List WriteBatch)
  unfolding by_type
  commited_tranaction tx batches tmp = by_type tx.type tx batches tmp

abbrev is_contract : TxType → Bool
is_contract js_contract_init = true
is_contract lua_contract_init = true
is_contract contract_invoke = true
is_contract _ = false

abbrev on_validator : (Validator → Validator) → Option Validator → Option Validator
on_validator f none = none
on_validator f (some vr) = some (f vr)

-- What a block changes: the cached balances, the pool's accounts and the contracts.
pub record World (C : Type 0) : Type 0 where
  pub tmp : Cache
  pub validator : Option Validator
  pub contract : C

-- `writeBatchs`, `syncContractGenTxs` and what has been appended to `Txs`.
pub record Acc : Type 0 where
  pub batches : List WriteBatch
  pub generated : List Transaction
  pub appended : List Transaction

abbrev pub no_acc : Acc
no_acc = record { batches = []; generated = []; appended = [] }

unfoldable pub holds : (Transaction → String) → Transaction → List Transaction → Bool
holds hash tx [] = false
holds hash tx (v ∷ vs) = let rest = holds hash tx vs in if hash tx == hash v then true else rest

-- An error ends the loop; what it has changed before stays.
unfoldable pub and_then : {W A B : Type 0} → W × Result A → (A → W → W × Result B) → W × Result B
and_then (w, ok a) next = next a w
and_then (w, err e) next = (w, err e)

module _ {C : Type 0} (chain : Chain) (machine : Machine C) where
  unfoldable pub commit_in :
      Transaction → List WriteBatch → World C → World C × Result (List WriteBatch)
  unfolding commited_tranaction
  commit_in tx batches w =
      let (tmp', r) = commited_tranaction chain tx batches w.tmp in (record w { tmp = tmp' }, r)

  -- The transactions that a contract has made.
  unfoldable pub commit_generated :
      List Transaction → List WriteBatch → World C → World C × Result (List WriteBatch)
  unfolding commit_in
  commit_generated [] batches w = (w, ok batches)
  commit_generated (v ∷ vs) batches w = and_then (commit_in v batches w) (λ batches' w'.
      commit_generated vs batches'
        (record w' { validator = on_validator (update_account v) w'.validator }))

  -- What becomes of a contract's run, which has failed or made new transactions. `flag` is set where
  -- the block is made, and not where it is synchronised. The Boolean is false where the loop goes on
  -- with the next transaction.
  unfoldable pub settle_contract :
      Bool
      → Transaction
      → Acc
      → List WriteBatch
      → World C
      → Option (List Transaction)
      → World C × Result (Bool × Acc)
  unfolding commit_generated
  settle_contract flag tx acc paid w none =
      (record w { validator = on_validator (roll_back_account tx) w.validator }, ok (false, acc))
  settle_contract flag tx acc paid w (some txs) =
      and_then (commit_generated txs (acc.batches ++ paid) w) (λ batches' w'. (
        w',
        ok (
          true,
          record {
            batches = batches';
            generated = if flag then acc.generated else acc.generated ++ txs;
            appended = if flag then acc.appended ++ txs else acc.appended;
          },
        ),
      ))

  unfoldable pub run_contract :
      Bool → Transaction → Acc → List WriteBatch → World C → World C × Result (Bool × Acc)
  unfolding settle_contract
  run_contract flag tx acc paid w =
      let (tmp', c, made) = machine.execute tx w.tmp w.contract in
      settle_contract flag tx acc paid (record w { tmp = tmp'; contract = c }) made

  unfoldable pub execute_contract :
      Bool → Transaction → Acc → World C → World C × Result (Bool × Acc)
  unfolding execute_atomic_tx run_contract
  execute_contract flag tx acc w =
      let (tmp', paid) = execute_atomic_tx chain tx [] w.tmp in
      and_then (record w { tmp = tmp' }, paid) (run_contract flag tx acc)

  -- The rest of the round: a transaction that a contract has made is not executed once more.
  unfoldable pub execute_other : Bool → Transaction → Acc → World C → World C × Result Acc
  unfolding commit_in
  execute_other flag tx acc w =
      if not flag && holds chain.hash tx acc.generated
      then (w, ok acc)
      else and_then (commit_in tx acc.batches w)
          (λ batches' w'. (w', ok (record acc { batches = batches' })))

  unfoldable pub execute_one : Bool → Transaction → Acc → World C → World C × Result Acc
  unfolding execute_contract execute_other
  execute_one flag tx acc w =
      if is_contract tx.type
      then and_then (execute_contract flag tx acc w)
          (λ (going, acc') w'. if going then execute_other flag tx acc' w' else (w', ok acc'))
      else execute_other flag tx acc w

  unfoldable pub execute_txs : Bool → List Transaction → Acc → World C → World C × Result Acc
  unfolding execute_one
  execute_txs flag [] acc w = (w, ok acc)
  execute_txs flag (tx ∷ txs) acc w = and_then (execute_one flag tx acc w) (execute_txs flag txs)

  -- The batches, and the transactions of the block with those appended.
  unfoldable pub execute_transaction :
      Bool → List Transaction → World C → World C × Result (List WriteBatch × List Transaction)
  unfolding execute_txs
  execute_transaction flag txs w = and_then (execute_txs flag txs no_acc w) (λ acc w'.
      let (c, changed) = machine.changes w'.contract in
      and_then (record w' { contract = c }, changed)
        (λ more w''. (w'', ok (acc.batches ++ more, txs ++ acc.appended))))
