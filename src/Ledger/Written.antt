-- ===== src/Ledger/Written.antt =====
-- What the batches of a block make of the database, against what the cache has shown.
use l.Base.{
  ℤ, pos, ◌+ℤ◌, ◌-ℤ◌, ◌≤ℤ◌, ◌≡◌, refl, ap, ap₂, sym, ◌∙◌, subst, ltb_ℤ, Bool, true, false, not,
  ◌&&◌, ◌||◌, String, List, [], ◌∷◌, ◌++◌, insert, if◌then◌else◌, string_eq, ◌==◌, arith,
  Bool-cases, inl, inr,
}
use mathlib.Core.List.{append_assoc}
use l.Transaction.{TxType}
use l.State.{
  Balance, Stored, Error, failed, absent, present, negative_balance, unknown_operation, database,
  Result, ok, err, Operation, plus, sub, other, WriteBatch, Cache, get_balance, get_tmp_balance,
  check_balance, update_fetched, update_balance, transfer_self, credit, transfer, is_issue,
}
use l.State.Views.{view, view-insert, view-get_tmp_balance}
use l.State.Transfers.{credit_fetched}
use l.Ledger.Store.{read_back, put, written}

written-append :
    (xs ys : List WriteBatch) (db : String → Stored)
    → written (xs ++ ys) db ≡ written ys (written xs db)
unfolding written
written-append [] ys db = refl
written-append ((a, b) ∷ xs) ys db = written-append xs ys (put a b db)

stored_if :
    (at : Bool) (b : Balance) (s : Stored)
    → elim (if at then present b else s) [
      | failed ↦ err database
      | absent ↦ ok (record { amount = pos 0; nonce = 0 })
      | present b ↦ ok b
    ]
      ≡ (if at then ok b else elim s [
        | failed ↦ err database
        | absent ↦ ok (record { amount = pos 0; nonce = 0 })
        | present b ↦ ok b
      ])
stored_if true b s = refl
stored_if false b s = refl

get_balance-put :
    (a : String) (b : Balance) (db : String → Stored) (j : String)
    → get_balance (put a b db) j ≡ (if a == j then ok (read_back b) else get_balance db j)
unfolding get_balance put
get_balance-put a b db j = stored_if (a == j) (read_back b) (db j)

unfoldable pub is_put : String → List WriteBatch → Bool
is_put j [] = false
is_put j ((a, b) ∷ batches) = is_put j batches || (a == j)

abbrev pub read_back_of : Result Balance → Result Balance
read_back_of (ok b) = ok (read_back b)
read_back_of (err e) = err e

-- What the database gives of a balance that is seen as `r`.
abbrev pub stored_as : Bool → Result Balance → Result Balance
stored_as at r = if at then read_back_of r else r

is_put-last :
    (j a : String) (b : Balance) (batches : List WriteBatch)
    → is_put j (batches ++ ((a, b) ∷ [])) ≡ is_put j batches || (a == j)
unfolding is_put
is_put-last j a b [] = refl
is_put-last j a b ((c, d) ∷ batches) = ground (arith, is_put-last j a b batches)

shown_put :
    (at old : Bool) (b : Balance) (r v : Result Balance)
    → r ≡ stored_as old v
    → (if at then ok (read_back b) else r) ≡ stored_as (old || at) (if at then ok b else v)
shown_put true true b r v h = refl
shown_put true false b r v h = refl
shown_put false true b r v h = h
shown_put false false b r v h = h

module _ (db : String → Stored) where
  -- With the batches written, the database alone gives what the cache and the old one give, of the
  -- balances that are put without the sign.
  unfoldable pub Written : List WriteBatch → Cache → Type 0
  unfolding written
  Written batches tmp =
      (j : String)
      → get_balance (written batches db) j ≡ stored_as (is_put j batches) (view db tmp j)

  Written-put :
      (a : String) (b : Balance) (batches : List WriteBatch) (tmp : Cache)
      → Written batches tmp
      → Written (batches ++ ((a, b) ∷ [])) (insert a b tmp)
  unfolding Written written
  Written-put a b batches tmp h j =
      ap (λ d. get_balance d j) (written-append batches ((a, b) ∷ []) db)
      ∙ get_balance-put a b (written batches db) j
      ∙ shown_put (a == j) (is_put j batches) b _ (view db tmp j) (h j)
      ∙ ap₂ stored_as (sym (is_put-last j a b batches)) (sym (view-insert db a j b tmp))

  Written-fetch :
      (a : String) (batches : List WriteBatch) (tmp : Cache)
      → Written batches tmp
      → Written batches (get_tmp_balance db a tmp).0
  unfolding Written
  Written-fetch a batches tmp h j =
      h j ∙ ap (stored_as (is_put j batches)) (sym (view-get_tmp_balance db a j tmp))

  -- Of an update that adds its batches to these.
  unfoldable pub Adds : List WriteBatch → Cache × Result (List WriteBatch) → Type 0
  Adds batches (tmp, ok more) = Written (batches ++ more) tmp
  Adds batches (tmp, err e) = Written batches tmp

  Adds-unless :
      (batches : List WriteBatch) (refused : Bool) (tmp : Cache)
      (r : Cache × Result (List WriteBatch))
      → Written batches tmp
      → Adds batches r
      → Adds batches (if refused then (tmp, err negative_balance) else r)
  unfolding Adds
  Adds-unless batches true tmp r h g = h
  Adds-unless batches false tmp r h g = g

  Adds-puts :
      (batches more : List WriteBatch) (tmp : Cache)
      → Written (batches ++ more) tmp
      → Adds batches (tmp, ok more)
  unfolding Adds
  Adds-puts batches more tmp h = h

  Adds-none :
      (batches : List WriteBatch) (tmp : Cache) (e : Error)
      → Written batches tmp
      → Adds batches (tmp, err e)
  unfolding Adds
  Adds-none batches tmp e h = h

  Adds-put :
      (a : String) (b : Balance) (batches : List WriteBatch) (tmp : Cache)
      → Written batches tmp
      → Adds batches (insert a b tmp, ok ((a, b) ∷ []))
  Adds-put a b batches tmp h =
      Adds-puts batches ((a, b) ∷ []) (insert a b tmp) (Written-put a b batches tmp h)

  update_fetched-Adds :
      (batches : List WriteBatch) (a : String) (balance : Balance) (fee : ℤ) (op : Operation)
      (b : Balance) (tmp : Cache)
      → Written batches tmp
      → Adds batches (update_fetched a balance fee op b tmp)
  unfolding update_fetched
  update_fetched-Adds batches a balance fee plus b tmp h =
      Adds-unless batches _ tmp _ h (Adds-put a _ batches tmp h)
  update_fetched-Adds batches a balance fee sub b tmp h =
      Adds-unless batches _ tmp _ h (Adds-put a _ batches tmp h)
  update_fetched-Adds batches a balance fee (other n) b tmp h =
      Adds-none batches tmp unknown_operation h

  pub update_balance-Adds :
      (batches : List WriteBatch) (a : String) (balance : Balance) (fee : ℤ) (op : Operation)
      (tmp : Cache)
      → Written batches tmp
      → Adds batches (update_balance db a balance fee op tmp)
  unfolding update_balance
  update_balance-Adds batches a balance fee op tmp h =
      let fetched = Written-fetch a batches tmp h in
      elim (get_tmp_balance db a tmp).1
        as (λ r. Adds batches (elim r [
          | err e ↦ ((get_tmp_balance db a tmp).0, err e)
          | ok b ↦ update_fetched a balance fee op b (get_tmp_balance db a tmp).0
        ])) [
          | err e ↦ Adds-none batches _ e fetched
          | ok b ↦ update_fetched-Adds batches a balance fee op b _ fetched
        ]

  transfer_self-Adds :
      (batches : List WriteBatch) (a : String) (fee : ℤ) (balance : Balance) (type : TxType)
      (b : Balance) (tmp : Cache)
      → Written batches tmp
      → Adds batches (transfer_self a fee balance type b tmp)
  unfolding transfer_self
  transfer_self-Adds batches a fee balance type b tmp h =
      Adds-unless batches _ tmp _ h (Adds-put a _ batches tmp h)

  -- The recipient's balance, which can be read, takes the amount.
  abbrev pub Takes : Cache → String → Balance → Type 0
  Takes tmp r moved = (c : Balance) × (view db tmp r ≡ ok c) × (pos 0 ≤ℤ c.amount +ℤ moved.amount)

  credit-Adds :
      (batches : List WriteBatch) (s r : String) (moved : Balance) (type : TxType) (b' : Balance)
      (tmp : Cache)
      → Takes tmp r moved
      → Written (batches ++ ((s, b') ∷ [])) tmp
      → Adds batches (credit db s r moved type b' tmp)
  unfolding check_balance
  credit-Adds batches s r moved type b' tmp (c, seen, room) h =
      let after : Balance = record c { amount = c.amount +ℤ moved.amount } in
      let both = Written-put r after _ _ (Written-fetch r _ tmp h) in
      let fits : ltb_ℤ (c.amount +ℤ moved.amount) (pos 0) ≡ false = ground arith in
      subst (Adds batches) (sym (credit_fetched db s r (pos 0) moved type tmp b' c tmp seen)) (
        rw fits (
          Adds-puts batches ((s, b') ∷ (r, after) ∷ []) _ (
            subst (λ bs. Written bs (insert r after (get_tmp_balance db r tmp).0))
              (append_assoc batches ((s, b') ∷ []) ((r, after) ∷ [])) both)))

  Takes-paid :
      (s r : String) (b' moved : Balance) (tmp : Cache)
      → (s == r) ≡ false
      → Takes tmp r moved
      → Takes (insert s b' (get_tmp_balance db s tmp).0) r moved
  Takes-paid s r b' moved tmp apart (c, seen, room) =
      (c, view-insert db s r b' _ ∙ rw apart (view-get_tmp_balance db s r tmp ∙ seen), room)

  -- `transfer` behind the fetch of the sender.
  abbrev after_sender :
      String
      → String
      → ℤ
      → Balance
      → TxType
      → Cache
      → Result Balance
      → Cache × Result (List WriteBatch)
  after_sender s r fee moved type tmp (err e) = (tmp, err e)
  after_sender s r fee moved type tmp (ok b) =
      let b' : Balance = record { amount = b.amount -ℤ fee -ℤ moved.amount; nonce = moved.nonce } in
      if s == r
      then transfer_self s fee moved type b tmp
      else if not (check_balance b.amount moved.amount fee sub) && not (is_issue type)
      then (tmp, err negative_balance)
      else credit db s r moved type b' (insert s b' tmp)

  pub transfer-Adds :
      (batches : List WriteBatch) (s r : String) (fee : ℤ) (moved : Balance) (type : TxType)
      (tmp : Cache)
      → Takes tmp r moved
      → Written batches tmp
      → Adds batches (transfer db s r fee moved type tmp)
  unfolding transfer
  transfer-Adds batches s r fee moved type tmp takes h =
      let tmp' = (get_tmp_balance db s tmp).0 in
      let fetched = Written-fetch s batches tmp h in
      elim (get_tmp_balance db s tmp).1
        as (λ x. Adds batches (after_sender s r fee moved type tmp' x)) [
          | err e ↦ Adds-none batches tmp' e fetched
          | ok b ↦ elim (Bool-cases (s == r)) [
            | inl same ↦ rw same (transfer_self-Adds batches s fee moved type b tmp' fetched)
            | inr apart ↦
                let b' : Balance = record {
                  amount = b.amount -ℤ fee -ℤ moved.amount;
                  nonce = moved.nonce;
                } in
                rw apart (
                  Adds-unless batches _ tmp' _ fetched (
                    credit-Adds batches s r moved type b' (insert s b' tmp')
                      (Takes-paid s r b' moved tmp apart takes)
                      (Written-put s b' batches tmp' fetched)))
          ]
        ]
