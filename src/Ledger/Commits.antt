-- ===== src/Ledger/Commits.antt =====
-- The batches of a committed transaction follow the cache, whatever its type.
use l.Base.{pos, ◌≡◌, subst, Bool, true, false, List, ◌++◌, if◌then◌else◌, string_eq}
use l.Transaction.{
  Transaction, TxType, atomic, across_chain, merged, backfront, distribut, issue, js_contract_init,
  lua_contract_init, contract_invoke, contract_query, other,
}
use l.State.{
  negative_balance, unknown_operation, database, Result, ok, err, plus, sub, WriteBatch, Cache,
}
use l.Ledger.{
  Chain, tolerate, strict, execute_issue_tx, execute_atomic_tx, execute_across_chain_tx,
  execute_merged_tx, and_across, execute_distri_tx, execute_backfront_tx, by_type,
  commited_tranaction, balance_of, chain_balance,
}
use l.Ledger.Written.{Written, Takes, Adds, transfer-Adds, update_balance-Adds}

module _ (chain : Chain) where
  -- If a step passes, its batches are those of the cache.
  Fine : Cache × Result (List WriteBatch) → Type 0
  Fine (tmp, ok batches) = Written chain.stored batches tmp
  Fine (tmp, err e) = Unit {0}

  Fine-at :
      (p : Cache × Result (List WriteBatch)) (tmp : Cache) (batches : List WriteBatch)
      → Fine p
      → p ≡ (tmp, ok batches)
      → Written chain.stored batches tmp
  unfolding Fine
  Fine-at p tmp batches f h = subst Fine h f

  Fine-if :
      (test : Bool) (p q : Cache × Result (List WriteBatch))
      → Fine p
      → Fine q
      → Fine (if test then p else q)
  Fine-if true p q f g = f
  Fine-if false p q f g = g

  tolerate-Fine :
      (batches : List WriteBatch) (p : Cache × Result (List WriteBatch))
      → Adds chain.stored batches p
      → Fine (tolerate batches p)
  unfolding tolerate Adds Fine
  tolerate-Fine batches (tmp, ok more) h = h
  tolerate-Fine batches (tmp, err negative_balance) h = h
  tolerate-Fine batches (tmp, err unknown_operation) h = tt
  tolerate-Fine batches (tmp, err database) h = tt

  strict-Fine :
      (batches : List WriteBatch) (p : Cache × Result (List WriteBatch))
      → Adds chain.stored batches p
      → Fine (strict batches p)
  unfolding Adds Fine
  strict-Fine batches (tmp, ok more) h = h
  strict-Fine batches (tmp, err e) h = tt

  across-Fine :
      (tx : Transaction) (batches : List WriteBatch) (tmp : Cache)
      → Written chain.stored batches tmp
      → Fine (execute_across_chain_tx chain tx batches tmp)
  unfolding execute_across_chain_tx
  across-Fine tx batches tmp h =
      Fine-if _ _ _
        (tolerate-Fine batches _
          (update_balance-Adds chain.stored batches tx.sender (balance_of tx) tx.fee sub tmp h))
        (tolerate-Fine batches _
          (update_balance-Adds chain.stored batches tx.recipient (balance_of tx) tx.fee plus tmp h))

  and_across-Fine :
      (tx : Transaction) (batches : List WriteBatch) (p : Cache × Result (List WriteBatch))
      → Adds chain.stored batches p
      → Fine (and_across chain tx batches p)
  unfolding and_across Adds Fine
  and_across-Fine tx batches (tmp, ok more) h = across-Fine tx (batches ++ more) tmp h
  and_across-Fine tx batches (tmp, err negative_balance) h = h
  and_across-Fine tx batches (tmp, err unknown_operation) h = tt
  and_across-Fine tx batches (tmp, err database) h = tt

  by_type-Fine :
      (type : TxType) (tx : Transaction) (batches : List WriteBatch) (tmp : Cache)
      → Takes chain.stored tmp tx.recipient (balance_of tx)
      → Written chain.stored batches tmp
      → Fine (by_type chain type tx batches tmp)
  unfolding by_type execute_issue_tx execute_atomic_tx execute_merged_tx execute_distri_tx
      execute_backfront_tx Fine
  by_type-Fine issue tx batches tmp t h = strict-Fine batches _ (
      transfer-Adds chain.stored batches tx.sender tx.recipient tx.fee (balance_of tx) issue tmp t
        h)
  by_type-Fine atomic tx batches tmp t h = tolerate-Fine batches _ (
      transfer-Adds chain.stored batches tx.sender tx.recipient tx.fee (balance_of tx) atomic tmp t
        h)
  by_type-Fine across_chain tx batches tmp t h = across-Fine tx batches tmp h
  by_type-Fine merged tx batches tmp t h =
      Fine-if _ _ _
        (tolerate-Fine batches _ (
          transfer-Adds chain.stored batches (chain.signer tx) tx.recipient tx.fee (balance_of tx)
            tx.type tmp t h))
        (across-Fine tx batches tmp h)
  by_type-Fine backfront tx batches tmp t h =
      Fine-if _ _ _
        (and_across-Fine tx batches _ (
          update_balance-Adds chain.stored batches (chain.address tx.to_chain) (chain_balance tx)
            (pos 0) sub tmp h))
        (across-Fine tx batches tmp h)
  by_type-Fine distribut tx batches tmp t h =
      Fine-if _ _ _
        (and_across-Fine tx batches _ (
          update_balance-Adds chain.stored batches (chain.address tx.to_chain) (chain_balance tx)
            (pos 0) plus tmp h))
        (across-Fine tx batches tmp h)
  by_type-Fine js_contract_init tx batches tmp t h = h
  by_type-Fine lua_contract_init tx batches tmp t h = h
  by_type-Fine contract_invoke tx batches tmp t h = h
  by_type-Fine contract_query tx batches tmp t h = h
  by_type-Fine (other n) tx batches tmp t h = h

  -- The batches so far, written over the database, give every balance that the cache shows, but an
  -- account that is put has the amount without its sign. If the recipient's balance can be read and
  -- takes the amount, and a transaction of any type passes, then this holds of the batches and the cache
  -- that it leaves, also where it has failed for lack of funds.
  pub commited_tranaction-Written :
      (tx : Transaction) (batches batches' : List WriteBatch) (tmp tmp' : Cache)
      → Takes chain.stored tmp tx.recipient (balance_of tx)
      → Written chain.stored batches tmp
      → commited_tranaction chain tx batches tmp ≡ (tmp', ok batches')
      → Written chain.stored batches' tmp'
  unfolding commited_tranaction
  commited_tranaction-Written tx batches batches' tmp tmp' takes h passed =
      Fine-at _ tmp' batches' (by_type-Fine tx.type tx batches tmp takes h) passed
