-- ===== src/TxPool/Search.antt =====
-- What the pool answers for a hash after it has changed.
use l.Base.{
  ◌≡◌, true, false, String, arith, lookup, lookup-insert, lookup-delete, if◌then◌else◌, string_eq,
  ◌==◌, ==_iff, Option-cases, inl, inr,
}
use l.Transaction.{Transaction}
use l.LinkedList.{remove}
use l.LinkedList.Linked.{add_new, add_old}
use l.TxPool.{Pool, contains, add_tx, remove_tx}

module _ (hash : Transaction → String) where
  -- Once a transaction is added, the pool contains its hash; once it is removed, it does not;
  -- and what the pool contains of other hashes stays as it was.
  pub contains-add_remove :
      (tx : Transaction) (k : String) (pool : Pool)
      → (contains k (add_tx hash tx pool) ≡ (if hash tx == k then true else contains k pool))
        × (contains k (remove_tx hash tx pool) ≡ (if hash tx == k then false else contains k pool))
  unfolding contains add_tx remove_tx remove
  contains-add_remove tx k pool = elim (Option-cases (lookup (hash tx) pool.mapping)) [
    | inl new ↦ (
      rw (add_new hash tx pool new) (
          ground (
            arith,
            lookup-insert (hash tx) k (record { id = pool.next_id; value = tx }) pool.mapping,
          )),
      rw (new, remove) (ground (arith, ==_iff (hash tx) k)),
    )
    | inr (e, old) ↦ (
      rw (add_old hash tx e pool old) (ground (arith, ==_iff (hash tx) k)),
      rw (old, remove) (ground (arith, lookup-delete (hash tx) k pool.mapping)),
    )
  ]
