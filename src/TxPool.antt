-- ===== src/TxPool.antt =====
-- core/blockchain/txpool.go: the container of components/utils/linkedlist once more, for transactions
-- under their hash, which is a parameter. `Has` and `Contains` take the hash itself. The function
-- that `IterElement` calls is followed to the element at which it returns true.
pub mod Search
mod Tests
use l.Base.{
  ℕ, Bool, true, false, String, Option, none, some, List, Map, lookup, Comparable, string_eq,
}
use l.Transaction.{Transaction}
use l.Elements.{Elem}
use l.LinkedList.{
  LinkedList, clear, new_linked_list, lst_len, add, remove, removes, remove_before, remove_all, get,
  iter_element,
}

abbrev pub Pool : Type 0
Pool = LinkedList Transaction

pub new_pool : Pool
new_pool = new_linked_list

pub clear_pool : Pool → Pool
clear_pool lst = clear lst

pub pool_len : Pool → ℕ
pool_len lst = lst_len lst

unfoldable pub has_key : String → Pool → Option Transaction
has_key key lst = elim (lookup key lst.mapping) [ some e ↦ some e.value | none ↦ none ]

unfoldable pub contains : String → Pool → Bool
contains key lst = elim (lookup key lst.mapping) [ some _ ↦ true | none ↦ false ]

pub get_first : ℕ → Pool → List Transaction
get_first n lst = get n lst

pub iter : (Transaction → Bool) → Pool → Bool
iter f lst = iter_element f lst

module _ (hash : Transaction → String) where
  unfoldable pub add_tx : Transaction → Pool → Pool
  add_tx element lst = add hash element lst

  unfoldable pub remove_tx : Transaction → Pool → Pool
  remove_tx element lst = remove hash element lst

  unfoldable pub remove_txs : List Transaction → Pool → Pool
  remove_txs elements lst = removes hash elements lst

  pub remove_txs_before :
      ⦃e : Comparable Transaction⦄ → Transaction → Pool → Option (Pool × List Transaction)
  remove_txs_before element lst = remove_before hash element lst

  pub remove_all_txs : Pool → Option (Pool × List Transaction)
  remove_all_txs lst = remove_all hash lst
