-- ===== src/Validator/Exception.antt =====
-- `checkExceptionTransaction` of core/blockchain/validator.go: a transaction that consensus proposes
-- takes the place of the pooled one with its nonce. The position is counted from the end of the pool.
-- A nil dereference and `log.Panicf` are `panic`. The pool is shorter than 2 ^ 31.
pub mod Position
pub mod GivesBack
pub mod Exchanges
mod Tests
use mathlib.Core.List.{reverse}
use l.Base.{
  ℕ, zero, suc, ◌+◌, ◌-◌, ◌/◌, ◌%◌, ◌^◌, ◌<◌, ℤ, pos, ltb_ℤ, ◌+ℤ◌, ◌-ℤ◌, Bool, true, false, not,
  ◌&&◌, ◌||◌, String, Option, none, some, List, [], ◌∷◌, ◌++◌, Map, lookup, insert, delete, length,
  ltb, leb, eqb, if◌then◌else◌, string_eq,
}
use l.Transaction.{Transaction}
use l.Elements.{Elem, unlink}
use l.Validator.Account.{Account, Outcome, done, panic, out_of_fuel, prev}

-- The loop that counts up to the `n`-th element; past the end its `next` is nil.
unfoldable pub count_to : ℕ → ℕ → List (Elem Transaction) → Option (Elem Transaction)
count_to n cnt [] = none
count_to n cnt (e ∷ es) =
    let rest = count_to n (cnt + 1) es in if eqb (cnt + 1) n then some e else rest

-- `int32(va.nonce - tx.Nonce())`, as the word that it is cut from.
abbrev pub diff_nonce : ℕ → ℕ → ℕ
diff_nonce nonce tx_nonce = (nonce + 2 ^ 32 - tx_nonce) % 2 ^ 32

abbrev pub is_positive : ℕ → Bool
is_positive d = ltb 0 d && ltb d (2 ^ 31)

-- From the back in the near half, from the front in the far one.
unfoldable pub select : ℕ → List (Elem Transaction) → Option (Elem Transaction)
unfolding count_to
select diff es =
    if ltb diff (length es / 2)
    then count_to diff 0 (reverse es)
    else count_to (length es - diff) 0 es

-- `InsertAfter`.
insert_after :
    Elem Transaction → Elem Transaction → List (Elem Transaction) → List (Elem Transaction)
insert_after at e [] = []
insert_after at e (x ∷ xs) =
    let rest = insert_after at e xs in if eqb x.id at.id then x ∷ e ∷ xs else x ∷ rest

pub back : List (Elem Transaction) → Option (Elem Transaction)
back [] = none
back (x ∷ []) = some x
back (x ∷ y ∷ ys) = back (y ∷ ys)

is_at : Elem Transaction → Elem Transaction → Bool
is_at a b = eqb a.id b.id

module _ (hash : Transaction → String) where
  -- The exchange at the end of the method: `tx` stands where `next` stood.
  unfoldable pub replace : Transaction → Elem Transaction → Account → Account
  unfolding insert_after
  replace tx next va =
      let e : Elem Transaction = record { id = va.next_id; value = tx } in
      record va {
        txs_list = unlink next (insert_after next e va.txs_list);
        txs_map = delete (hash next.value) (insert (hash tx) e va.txs_map);
        next_id = va.next_id + 1;
      }

  -- The loop that takes transactions off the end until the amount is covered. The removed element
  -- has no predecessor any more, and `be` is nil in the next round, which is not `next`.
  unfoldable pub give_back :
      ℕ → Elem Transaction → Option (Elem Transaction) → ℤ → Account → Outcome (Account × Bool)
  unfolding is_at
  give_back fuel next none amount va = panic
  give_back zero next (some be) amount va = out_of_fuel
  give_back (suc fuel) next (some be) amount va =
      let rest =
        give_back fuel next (prev be (unlink be va.txs_list)) (amount +ℤ be.value.amount)
          (record va {
            txs_list = unlink be va.txs_list;
            txs_map = delete (hash be.value) va.txs_map;
          }) in
      if is_at be next
      then done (va, true)
      else if ltb be.value.nonce next.value.nonce
      then done (va, false)
      else if ltb_ℤ amount (pos 0)
      then rest
      else done (va, true)

  -- What follows the loop, unless the method has returned.
  pub replace_after :
      Transaction → Elem Transaction → Outcome (Account × Bool) → Outcome (Account × Bool)
  unfolding replace
  replace_after tx next (done (va, true)) = done (replace tx next va, true)
  replace_after tx next (done (va, false)) = done (va, false)
  replace_after tx next panic = panic
  replace_after tx next out_of_fuel = out_of_fuel

  -- The part behind the search for `next`.
  unfoldable pub exchange : Transaction → Elem Transaction → Account → Outcome (Account × Bool)
  unfolding replace give_back replace_after back
  exchange tx next va =
      let old = next.value.amount in
      let amount = va.amount +ℤ (old -ℤ tx.amount) in
      if not (eqb next.value.nonce tx.nonce)
      then panic
      else if ltb_ℤ tx.amount old
      then done (replace tx next (record va { amount = amount }), true)
      else if ltb_ℤ old tx.amount
      then (if not (ltb_ℤ amount (pos 0))
          then done (replace tx next (record va { amount = amount }), true)
          else replace_after tx next
              (give_back (length va.txs_list + 1) next (back va.txs_list) amount va))
      else done (va, true)

  unfoldable pub check_exception_transaction : Transaction → Account → Outcome (Account × Bool)
  unfolding select exchange
  check_exception_transaction tx va =
      let diff = diff_nonce va.nonce tx.nonce in
      elim (lookup (hash tx) va.txs_map) [
        | some _ ↦ done (va, true)
        | none ↦
            if not (is_positive diff) || ltb (length va.txs_list) diff
            then done (va, false)
            else elim (select diff va.txs_list) [ none ↦ panic | some next ↦ exchange tx next va ]
      ]
