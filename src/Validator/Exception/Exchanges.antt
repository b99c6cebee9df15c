-- ===== src/Validator/Exception/Exchanges.antt =====
-- What `checkExceptionTransaction` does with the pooled transaction that it finds.
use l.Base.{
  ℕ, ℤ, pos, ◌+ℤ◌, ◌-ℤ◌, ◌+◌, ◌/◌, ◌^◌, ◌<◌, ◌≤◌, ◌≡◌, ◌⊎◌, refl, sym, ap, subst, ◌∙◌, String, true,
  false, none, some, List, [], ◌∷◌, lookup, insert, lookup-insert, lookup-delete, length, eqb,
  eqb_self, ap₂, ltb_ℤ, string_eq, ◌==◌, arith, Bool-cases, inl, inr, if◌then◌else◌,
}
use l.Transaction.{Transaction}
use l.Elements.{Elem, unlink, values, UniqueIds}
use l.Validator.Account.{Account, done, panic}
use l.Validator.Exception.{
  insert_after, replace, replace_after, give_back, back, exchange, check_exception_transaction,
}
use l.Validator.Exception.Position.{
  NoncesFrom, In, behind_search, select_near, select_far, select_first, exchange_wrong,
}
use l.Validator.Exception.GivesBack.{nonce-In, id-In, give_back_last, give_back_panics}

-- The transactions with `tx` in the place of the one with its nonce.
unfoldable pub swap : Transaction → List Transaction → List Transaction
swap tx [] = []
swap tx (t ∷ ts) = (if eqb t.nonce tx.nonce then tx else t) ∷ swap tx ts

swap_below :
    (tx : Transaction) (s : ℕ) (es : List (Elem Transaction))
    → NoncesFrom s es
    → tx.nonce < s
    → swap tx (values es) ≡ values es
unfolding swap
swap_below tx s [] row low = refl
swap_below tx s (x ∷ xs) row low =
    let apart : eqb x.value.nonce tx.nonce ≡ false = ground (arith, row.0) in
    rw apart (ap (λ r. x.value ∷ r) (swap_below tx (s + 1) xs row.1 (omega arith)))

-- To insert behind an element and to unlink that one is to swap.
values-replaced :
    (s : ℕ) (tx : Transaction) (next e : Elem Transaction) (es : List (Elem Transaction))
    → e.value ≡ tx
    → next.value.nonce ≡ tx.nonce
    → NoncesFrom s es
    → UniqueIds es
    → In next es
    → values (unlink next (insert_after next e es)) ≡ swap tx (values es)
unfolding unlink insert_after swap
values-replaced s tx next e [] new same row ids h = absurd h
values-replaced s tx next e (x ∷ xs) new same row ids (inl here) =
    let hit : eqb x.id next.id ≡ true =
      subst (λ (y : Elem Transaction). eqb x.id y.id ≡ true) here (eqb_self x.id) in
    let nonce : x.value.nonce ≡ tx.nonce =
      ap (λ (y : Elem Transaction). y.value.nonce) here ∙ same in
    let at : eqb x.value.nonce tx.nonce ≡ true = ground (arith, nonce) in
    rw (hit, hit, at)
      (ap₂ (λ t ts. t ∷ ts) new
        (sym (swap_below tx (s + 1) xs row.1 (omega (arith, nonce, row.0)))))
values-replaced s tx next e (x ∷ xs) new same row ids (inr there) =
    let apart : eqb x.id next.id ≡ false = ground (arith, id-In x.id next xs ids.0 there) in
    let other : eqb x.value.nonce tx.nonce ≡ false =
      ground (arith, nonce-In (s + 1) next xs row.1 there, same, row.0) in
    rw (apart, apart, other)
      (ap (λ ts. x.value ∷ ts) (values-replaced (s + 1) tx next e xs new same row.1 ids.1 there))

module _ (hash : Transaction → String) (tx : Transaction) where
  -- `tx` has taken the place of `old` in the pool and in its map, and the balance is `amount`.
  pub record Exchanged (old : Transaction) (amount : ℤ) (va va' : Account) : Type 0 where
    pub listed : values va'.txs_list ≡ swap tx (values va.txs_list)
    pub mapped :
        (j : String)
        → lookup j va'.txs_map ≡ (
            if hash old == j
            then none
            else if hash tx == j
            then some (record { id = va.next_id; value = tx })
            else lookup j va.txs_map)
    pub balance : va'.amount ≡ amount
    pub same_nonce : va'.nonce ≡ va.nonce
    pub same_orphans : va'.orphans ≡ va.orphans

  replace-Exchanged :
      (s : ℕ) (next : Elem Transaction) (va : Account)
      → next.value.nonce ≡ tx.nonce
      → NoncesFrom s va.txs_list
      → UniqueIds va.txs_list
      → In next va.txs_list
      → Exchanged next.value va.amount va (replace hash tx next va)
  unfolding replace
  replace-Exchanged s next va same row ids there =
      let e : Elem Transaction = record { id = va.next_id; value = tx } in
      record {
        listed = values-replaced s tx next e va.txs_list refl same row ids there;
        mapped = λ j.
            lookup-delete (hash next.value) j (insert (hash tx) e va.txs_map)
            ∙ ap (λ r. if hash next.value == j then none else r)
                (lookup-insert (hash tx) j e va.txs_map);
        balance = refl;
        same_nonce = refl;
        same_orphans = refl;
      }

  -- The balance when `old` has been exchanged.
  abbrev pub settled : Transaction → Account → ℤ
  settled old va = va.amount +ℤ (old.amount -ℤ tx.amount)

  exchange_equal :
      (next : Elem Transaction) (va : Account)
      → next.value.nonce ≡ tx.nonce
      → next.value.amount ≡ tx.amount
      → exchange hash tx next va ≡ done (va, true)
  unfolding exchange
  exchange_equal next va same equal =
      let at : eqb next.value.nonce tx.nonce ≡ true = ground (arith, same) in
      let over : ltb_ℤ tx.amount tx.amount ≡ false = ground arith in simp (at, equal, over)

  -- The new one is cheaper, or dearer and the balance covers it.
  abbrev pub Covered : Transaction → Account → Type 0
  Covered old va =
      (ltb_ℤ tx.amount old.amount ≡ true)
      ⊎ ((ltb_ℤ old.amount tx.amount ≡ true) × (ltb_ℤ (settled old va) (pos 0) ≡ false))

  exchange-Covered :
      (next : Elem Transaction) (va : Account)
      → next.value.nonce ≡ tx.nonce
      → Covered next.value va
      → exchange hash tx next va
        ≡ done (replace hash tx next (record va { amount = settled next.value va }), true)
  unfolding exchange
  exchange-Covered next va same (inl cheaper) =
      let at : eqb next.value.nonce tx.nonce ≡ true = ground (arith, same) in rw (at, cheaper) refl
  exchange-Covered next va same (inr (dearer, room)) =
      let at : eqb next.value.nonce tx.nonce ≡ true = ground (arith, same) in
      let not_cheaper : ltb_ℤ tx.amount next.value.amount ≡ false = ground (arith, dearer) in
      rw (at, not_cheaper, dearer, room) refl

  -- The new one is dearer, and the balance does not cover it.
  abbrev pub Short : Transaction → Account → Type 0
  Short old va = (ltb_ℤ old.amount tx.amount ≡ true) × (ltb_ℤ (settled old va) (pos 0) ≡ true)

  exchange-Short :
      (next : Elem Transaction) (va : Account)
      → next.value.nonce ≡ tx.nonce
      → Short next.value va
      → exchange hash tx next va
        ≡ replace_after hash tx next (
            give_back hash
              (length va.txs_list + 1)
              next
              (back va.txs_list)
              (settled next.value va)
              va)
  unfolding exchange
  exchange-Short next va same (dearer, short) =
      let at : eqb next.value.nonce tx.nonce ≡ true = ground (arith, same) in
      let not_cheaper : ltb_ℤ tx.amount next.value.amount ≡ false = ground (arith, dearer) in
      rw (at, not_cheaper, dearer, short) refl

  module _ (s : ℕ) (next : Elem Transaction) (va : Account) (same : next.value.nonce ≡ tx.nonce)
      (row : NoncesFrom s va.txs_list) (ids : UniqueIds va.txs_list) (there : In next va.txs_list)
      (short : Short next.value va) where
    exchange_at_end :
        next.value.nonce + 1 ≡ s + length va.txs_list
        → exchange hash tx next va ≡ done (replace hash tx next va, true)
    unfolding replace_after
    exchange_at_end at_end =
        exchange-Short next va same short
        ∙ ap (replace_after hash tx next)
            (give_back_last hash next (settled next.value va) va s row ids there short.1 at_end)

    exchange_panics :
        next.value.nonce + 1 < s + length va.txs_list → exchange hash tx next va ≡ panic
    unfolding replace_after
    exchange_panics inside =
        exchange-Short next va same short
        ∙ ap (replace_after hash tx next)
            (give_back_panics hash next (settled next.value va) va s row ids there short.1 inside)

-- The pool holds the transactions of the nonces from `s` up to the account's, and `tx`, which it
-- does not know, has the nonce `d` places before its end.
module _ (hash : Transaction → String) (tx : Transaction) (va : Account) where
  pub check_exception_transaction_lem :
      (s d : ℕ)
      → NoncesFrom s va.txs_list
      → UniqueIds va.txs_list
      → va.nonce ≡ s + length va.txs_list
      → va.nonce < 2 ^ 31
      → lookup (hash tx) va.txs_map ≡ none
      → tx.nonce + d ≡ va.nonce
      → 0 < d
      → d ≤ length va.txs_list
      → (d < length va.txs_list / 2
          → (next : Elem Transaction) × In next va.txs_list
            × (next.value.nonce ≡ tx.nonce)
            × (next.value.amount ≡ tx.amount
                → check_exception_transaction hash tx va ≡ done (va, true))
            × (Covered hash tx next.value va
                → (va' : Account) × (check_exception_transaction hash tx va ≡ done (va', true))
                  × Exchanged hash tx next.value (settled hash tx next.value va) va va')
            × (Short hash tx next.value va
                → (d ≡ 1
                    → (va' : Account) × (check_exception_transaction hash tx va ≡ done (va', true))
                      × Exchanged hash tx next.value va.amount va va')
                  × (1 < d → check_exception_transaction hash tx va ≡ panic)))
        × (length va.txs_list / 2 ≤ d → check_exception_transaction hash tx va ≡ panic)
  check_exception_transaction_lem s d row ids full word new same some_ inside = (
    (λ near.
        let (e, found, nonce, there) = select_near s va.txs_list row d some_ near in
        let here : e.value.nonce ≡ tx.nonce = omega (arith, nonce) in
        let runs : check_exception_transaction hash tx va ≡ exchange hash tx e va =
          behind_search hash tx va d new word same some_ inside ∙ rw found refl in
        let paid : Account = record va { amount = settled hash tx e.value va } in
        (
          e,
          there,
          here,
          λ equal. runs ∙ exchange_equal hash tx e va here equal,
          λ covered. (
            replace hash tx e paid,
            runs ∙ exchange-Covered hash tx e va here covered,
            moved e there here,
          ),
          λ short. (
            (λ one. (
              replace hash tx e va,
              runs
                  ∙ exchange_at_end hash tx s e va here row ids there short
                      (omega (arith, nonce, one)),
              replace-Exchanged hash tx s e va here row ids there,
            )),
            (λ many.
                runs
                ∙ exchange_panics hash tx s e va here row ids there short
                    (omega (arith, nonce, many))),
          ),
        )),
    (λ far. elim (Bool-cases (eqb d (length va.txs_list))) [
      | inl all ↦
          behind_search hash tx va d new word same some_ inside
          ∙ rw (select_first s va.txs_list row d (ground arith) some_) refl
      | inr part ↦
          let (e, found, nonce) = select_far s va.txs_list row d far (ground arith) in
          behind_search hash tx va d new word same some_ inside
          ∙ rw found (exchange_wrong hash tx e va (omega (arith, nonce)))
    ]),
  )
    where
      moved :
          (e : Elem Transaction)
          → In e va.txs_list
          → e.value.nonce ≡ tx.nonce
          → Exchanged hash tx e.value
              (settled hash tx e.value va)
              va
              (replace hash tx e (record va { amount = settled hash tx e.value va }))
      moved e there here =
          let paid : Account = record va { amount = settled hash tx e.value va } in
          let x = replace-Exchanged hash tx s e paid here row ids there in
          record {
            listed = x.listed;
            mapped = x.mapped;
            balance = x.balance;
            same_nonce = x.same_nonce;
            same_orphans = x.same_orphans;
          }
