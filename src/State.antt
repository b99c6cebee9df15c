-- ===== src/State.antt =====
-- core/ledger/state/state.go and balance.go: the balances of the accounts, with a cache of those
-- that the block under construction has touched. The database is a parameter: what it stores under
-- an account, if anything, or its error. A cached balance is a shared pointer that the methods
-- change in place, so the cache is part of the state that a failing method leaves behind.
pub mod Views
pub mod Transfers
mod Tests
use l.Base.{
  ℕ, ℤ, pos, ◌+ℤ◌, ◌-ℤ◌, ltb_ℤ, Bool, true, false, not, ◌&&◌, String, Option, none, some, List, [],
  ◌∷◌, Map, lookup, insert, if◌then◌else◌, string_eq, ◌==◌,
}
use l.Transaction.{TxType, issue}

pub record Balance : Type 0 where
  pub amount : ℤ
  pub nonce : ℕ

pub data Stored : Type 0 where
  failed absent : Stored
  present : Balance → Stored

pub data Error : Type 0 where
  negative_balance unknown_operation database : Error

pub data Result {ℓ} (A : Type ℓ) : Type ℓ where
  ok : A → Result A
  err : Error → Result A

pub data Operation : Type 0 where
  plus sub : Operation
  other : ℕ → Operation

-- A put of the balance under the account, for `AtomicWrite`.
abbrev pub WriteBatch : Type 0
WriteBatch = String × Balance

abbrev pub Cache : Type 0
Cache = Map String Balance

-- Zero for an account that is not stored.
unfoldable pub get_balance : (String → Stored) → String → Result Balance
get_balance db a = elim (db a) [
  | failed ↦ err database
  | absent ↦ ok (record { amount = pos 0; nonce = 0 })
  | present b ↦ ok b
]

-- A balance that is not cached is cached.
unfoldable pub get_tmp_balance : (String → Stored) → String → Cache → Cache × Result Balance
unfolding get_balance
get_tmp_balance db a tmp = elim (lookup a tmp) [
  | some b ↦ (tmp, ok b)
  | none ↦ elim (get_balance db a) [ err e ↦ (tmp, err e) | ok b ↦ (insert a b tmp, ok b) ]
]

abbrev is_negative : ℤ → Bool
is_negative x = ltb_ℤ x (pos 0)

unfoldable pub check_balance : ℤ → ℤ → ℤ → Operation → Bool
check_balance balance change fee plus = not (is_negative (balance +ℤ change))
check_balance balance change fee sub = not (is_negative (balance -ℤ fee -ℤ change))
check_balance balance change fee (other n) = not (is_negative balance)

-- `UpdateBalance` behind the fetch of the balance `b`.
unfoldable pub update_fetched :
    String → Balance → ℤ → Operation → Balance → Cache → Cache × Result (List WriteBatch)
unfolding check_balance
update_fetched a balance fee plus b tmp =
    let b' : Balance = record b { amount = b.amount +ℤ balance.amount } in
    if not (check_balance b.amount balance.amount (pos 0) plus)
    then (tmp, err negative_balance)
    else (insert a b' tmp, ok ((a, b') ∷ []))
update_fetched a balance fee sub b tmp =
    let b' : Balance = record {
      amount = b.amount -ℤ fee -ℤ balance.amount;
      nonce = balance.nonce;
    } in
    if not (check_balance b.amount balance.amount fee sub)
    then (tmp, err negative_balance)
    else (insert a b' tmp, ok ((a, b') ∷ []))
update_fetched a balance fee (other n) b tmp = (tmp, err unknown_operation)

unfoldable pub update_balance :
    (String → Stored) → String → Balance → ℤ → Operation → Cache → Cache × Result (List WriteBatch)
unfolding update_fetched get_tmp_balance
update_balance db a balance fee op tmp =
    let (tmp', fetched) = get_tmp_balance db a tmp in
    elim fetched [ err e ↦ (tmp', err e) | ok b ↦ update_fetched a balance fee op b tmp' ]

abbrev pub is_issue : TxType → Bool
is_issue issue = true
is_issue _ = false

-- `Transfer` from an account to itself: the fee is taken, the amount stays.
unfoldable pub transfer_self :
    String → ℤ → Balance → TxType → Balance → Cache → Cache × Result (List WriteBatch)
unfolding check_balance
transfer_self a fee balance type b tmp =
    let b' : Balance = record { amount = b.amount -ℤ fee; nonce = balance.nonce } in
    if not (check_balance b.amount (pos 0) fee sub) && not (is_issue type)
    then (tmp, err negative_balance)
    else (insert a b' tmp, ok ((a, b') ∷ []))

-- The credit of the recipient; the sender's balance `b'` is in the cache by now.
unfoldable pub credit :
    (String → Stored)
    → String
    → String
    → Balance
    → TxType
    → Balance
    → Cache
    → Cache × Result (List WriteBatch)
unfolding check_balance get_tmp_balance
credit db sender recipient balance type b' tmp =
    let (tmp', fetched) = get_tmp_balance db recipient tmp in
    elim fetched [
      | err e ↦ (tmp', err e)
      | ok r ↦
          let r' : Balance = record r { amount = r.amount +ℤ balance.amount } in
          if not (check_balance r.amount balance.amount (pos 0) plus) && not (is_issue type)
          then (tmp', err negative_balance)
          else (insert recipient r' tmp', ok ((sender, b') ∷ (recipient, r') ∷ []))
    ]

unfoldable pub transfer :
    (String → Stored)
    → String
    → String
    → ℤ
    → Balance
    → TxType
    → Cache
    → Cache × Result (List WriteBatch)
unfolding check_balance get_tmp_balance transfer_self credit
transfer db sender recipient fee balance type tmp =
    let (tmp', fetched) = get_tmp_balance db sender tmp in
    elim fetched [
      | err e ↦ (tmp', err e)
      | ok b ↦
          let b' : Balance = record {
            amount = b.amount -ℤ fee -ℤ balance.amount;
            nonce = balance.nonce;
          } in
          let credited = credit db sender recipient balance type b' (insert sender b' tmp') in
          if sender == recipient
          then transfer_self sender fee balance type b tmp'
          else if not (check_balance b.amount balance.amount fee sub) && not (is_issue type)
          then (tmp', err negative_balance)
          else credited
    ]

-- `AtomicWrite`: the cache is emptied when the database has taken the batches, and kept if not.
unfoldable pub atomic_write : Bool → Cache → Cache × Result (Unit {0})
atomic_write true tmp = ([], ok tt)
atomic_write false tmp = (tmp, err database)
