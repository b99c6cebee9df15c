-- ===== src/Validator/Grouping.antt =====
-- `iterTransaction` and `FetchGroupingTxsInTxPool` of core/blockchain/validator.go: the transactions
-- of the pool that consensus has not seen yet, in groups of one destination chain each. The order in
-- which Go walks a map is left open there; here it is that of the association list.
pub mod Groups
pub mod Parts
pub mod Fetches
mod Tests
use l.Base.{
  ℕ, zero, suc, ◌+◌, ◌*◌, ◌<◌, Bool, true, false, String, Option, none, some, List, [], ◌∷◌, ◌++◌,
  Map, lookup, insert, delete, length, ltb, leb, eqb, if◌then◌else◌, string_eq, map,
}
use l.Transaction.{Transaction}
use l.Elements.{Elem}
use l.Validator.Account.{Account}
use l.Validator.Accounts.{Validator}

-- A group is the list of its transactions, and `cnt` its length. `groupingMap` holds the groups of a
-- chain by their indices, which count from zero: a list, with the last one in front.
pub record Fetched : Type 0 where
  pub groups : Map String (List (List Transaction))
  pub grouping_size : ℕ
  pub txs_cnt : ℕ
  pub all : List Transaction  -- `groupingTxs[0]`

abbrev pub nothing_fetched : Fetched
nothing_fetched = record { groups = []; grouping_size = 0; txs_cnt = 0; all = [] }

abbrev pub counted_in : Transaction → Map String (List (List Transaction)) → Fetched → Fetched
counted_in tx groups f = record f {
  groups = groups;
  txs_cnt = f.txs_cnt + 1;
  all = f.all ++ (tx ∷ []);
}

-- A group more, if there may be one.
unfoldable pub open_group : ℕ → Transaction → List (List Transaction) → Fetched → Fetched × Bool
open_group grouping_num tx gs f =
    let f' = record f { grouping_size = f.grouping_size + 1 } in
    if ltb grouping_num (f.grouping_size + 1)
    then (f', false)
    else (counted_in tx (insert tx.to_chain ((tx ∷ []) ∷ gs) f.groups) f', true)

-- The groups of a chain, none if it has no entry.
abbrev pub groups_of : Option (List (List Transaction)) → List (List Transaction)
groups_of none = []
groups_of (some gs) = gs

abbrev pub own_groups : String → Map String (List (List Transaction)) → List (List Transaction)
own_groups own groups = groups_of (lookup own groups)

-- Into the last group of the chain, unless there is none or it is full.
unfoldable pub add_to_last :
    ℕ → ℕ → Transaction → List (List Transaction) → Fetched → Fetched × Bool
unfolding open_group
add_to_last grouping_num max_size tx [] f = open_group grouping_num tx [] f
add_to_last grouping_num max_size tx (g ∷ gs) f =
    if leb max_size (length g)
    then open_group grouping_num tx (g ∷ gs) f
    else (counted_in tx (insert tx.to_chain ((g ++ (tx ∷ [])) ∷ gs) f.groups) f, true)

-- `iterFunc`.
unfoldable pub take_tx : ℕ → ℕ → Transaction → Fetched → Fetched × Bool
unfolding add_to_last
take_tx grouping_num max_size tx f =
    add_to_last grouping_num max_size tx (own_groups tx.to_chain f.groups) f

-- The elements behind that with the id.
behind : Elem Transaction → List (Elem Transaction) → List (Elem Transaction)
behind e [] = []
behind e (x ∷ xs) = let rest = behind e xs in if eqb x.id e.id then xs else rest

-- Those that `iterTransaction` starts with.
unfoldable pub pending : Account → List (Elem Transaction)
unfolding behind
pending va = elim (lookup va.curr_tx_hash va.txs_map) [
  | none ↦ va.txs_list
  | some e ↦ behind e va.txs_list
]

module _ (hash : Transaction → String) (grouping_num max_size : ℕ) where
  -- The loop of `iterTransaction`, up to the first transaction that is refused, and the hash of the
  -- last one that is not.
  unfoldable pub walk : List (Elem Transaction) → String → Fetched → String × Fetched
  unfolding take_tx
  walk [] curr f = (curr, f)
  walk (e ∷ es) curr f =
      let (f', ok) = take_tx grouping_num max_size e.value f in
      let rest = walk es (hash e.value) f' in if ok then rest else (curr, f')

  unfoldable pub iter_transaction : Account → Fetched → Account × Fetched
  unfolding pending walk
  iter_transaction va f =
      let (curr, f') = walk (pending va) va.curr_tx_hash f in
      (record va { curr_tx_hash = curr }, f')

  -- Over the accounts, until more is fetched than the groups hold.
  unfoldable pub iter_accounts : Map String Account → Fetched → Map String Account × Fetched
  unfolding iter_transaction
  iter_accounts [] f = ([], f)
  iter_accounts ((sender, va) ∷ rest) f =
      let (va', f') = iter_transaction va f in
      let (rest', f'') = iter_accounts rest f' in
      if ltb (max_size * grouping_num) f'.txs_cnt
      then ((sender, va') ∷ rest, f')
      else ((sender, va') ∷ rest', f'')

-- The groups in a row, those of the own chain first.
unfoldable pub all_groups : Map String (List (List Transaction)) → List (List Transaction)
all_groups [] = []
all_groups ((chain, gs) ∷ rest) = gs ++ all_groups rest

unfoldable pub empties : ℕ → List (List Transaction)
empties zero = []
empties (suc n) = [] ∷ empties n

-- `make` fills the slice up; more groups than it has room for are a panic.
unfoldable pub fill : ℕ → List (List Transaction) → Option (List (List Transaction))
unfolding empties
fill n [] = some (empties n)
fill zero (g ∷ gs) = none
fill (suc n) (g ∷ gs) = elim (fill n gs) [ none ↦ none | some r ↦ some (g ∷ r) ]

unfoldable pub fetch_grouping_txs_in_tx_pool :
    (Transaction → String)
    → String
    → ℕ
    → ℕ
    → Validator
    → Validator × Option (List (List Transaction))
unfolding iter_accounts all_groups fill
fetch_grouping_txs_in_tx_pool hash own grouping_num max_size vr =
    let (accounts', f) = iter_accounts hash grouping_num max_size vr.accounts nothing_fetched in
    (
      record vr { accounts = accounts' },
      fill (grouping_num + 1) (f.all ∷ own_groups own f.groups ++ all_groups (delete own f.groups)),
    )
