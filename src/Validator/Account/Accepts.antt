-- ===== src/Validator/Account/Accepts.antt =====
-- What the pool of an account holds and what it spends: `addTransaction` takes from the balance what
-- `rollbackAndRemoveTransaction` gives back.
use l.Base.{
  ℕ, ◌≡◌, refl, ap, subst, ℤ, pos, pos_part, neg_part, ◌+ℤ◌, ◌-ℤ◌, ◌≤ℤ◌, int_laws, inl, inr, Bool,
  true, false, String, some, List, [], ◌∷◌, ◌++◌, arith, lookup, delete, eqb, ltb, string_eq,
  Bool-cases,
}
use l.Transaction.{Transaction, TxType, merged, issue, contract_query, other}
use l.Elements.{Elem, unlink}
use l.Validator.Account.{Account, done, is_acceptable, add_transaction, rollback_and_remove}

-- What the pooled transactions spend.
abbrev pub total : List (Elem Transaction) → ℤ
total [] = pos 0
total (e ∷ es) = e.value.amount +ℤ total es

-- What an equation of integers says of their parts.
parts_of_eq : (a b : ℤ) → a ≡ b → (pos_part a ≡ pos_part b) × (neg_part a ≡ neg_part b)
parts_of_eq a b h = (ap pos_part h, ap neg_part h)

total-append :
    (es : List (Elem Transaction)) (e : Elem Transaction)
    → total (es ++ (e ∷ [])) ≡ total es +ℤ e.value.amount
total-append [] e = omega int_laws
total-append (x ∷ xs) e = omega (int_laws, parts_of_eq _ _ (total-append xs e))

-- The first element with the identity of `e` is `e`.
abbrev pub IsIn : Elem Transaction → List (Elem Transaction) → Type 0
IsIn e [] = ⊥
IsIn e (x ∷ xs) = elim (eqb x.id e.id) [ true ↦ x ≡ e | false ↦ IsIn e xs ]

total-unlink :
    (e : Elem Transaction) (es : List (Elem Transaction))
    → IsIn e es
    → total (unlink e es) +ℤ e.value.amount ≡ total es
unfolding unlink
total-unlink e [] h = absurd h
total-unlink e (x ∷ xs) h = elim (Bool-cases (eqb x.id e.id)) [
  | inl hit ↦
      let same : x ≡ e = subst (λ (b : Bool). elim b [ true ↦ x ≡ e | false ↦ IsIn e xs ]) hit h in
      rw (hit, same) (omega int_laws)
  | inr miss ↦
      let later : IsIn e xs =
        subst (λ (b : Bool). elim b [ true ↦ x ≡ e | false ↦ IsIn e xs ]) miss h in
      rw miss (omega (int_laws, parts_of_eq _ _ (total-unlink e xs later)))
]

-- The balance and the pooled transactions together.
abbrev pub worth : Account → ℤ
worth va = va.amount +ℤ total va.txs_list

-- The types that `addTransaction` charges: those that it names, but merged, issue and query.
abbrev pub IsCharged : TxType → Type 0
IsCharged merged = ⊥
IsCharged issue = ⊥
IsCharged contract_query = ⊥
IsCharged (other n) = ⊥
IsCharged _ = Unit {0}

charged_acceptable :
    (type : TxType) (n k : ℕ) (left : ℤ)
    → IsCharged type
    → is_acceptable type n k left ≡ true
    → (k ≡ n) × (pos 0 ≤ℤ left)
unfolding is_acceptable
charged_acceptable merged n k left h a = absurd h
charged_acceptable issue n k left h a = absurd h
charged_acceptable contract_query n k left h a = absurd h
charged_acceptable (other m) n k left h a = absurd h
charged_acceptable _ n k left h a = ground arith

module _ (hash : Transaction → String) where
  -- A transaction of a charged type that is accepted has the nonce that was expected, and
  -- leaves the balance at zero or above.
  pub accepted_in_turn :
      (tx : Transaction) (va : Account)
      → IsCharged tx.type
      → (add_transaction hash tx va).1 ≡ true
      → (tx.nonce ≡ va.nonce) × (pos 0 ≤ℤ (add_transaction hash tx va).0.amount)
  unfolding add_transaction
  accepted_in_turn tx va charged ok =
      elim (Bool-cases (is_acceptable tx.type va.nonce tx.nonce (va.amount -ℤ tx.amount))) [
        | inl taken ↦ rw taken (charged_acceptable tx.type va.nonce tx.nonce _ charged taken)
        | inr refused ↦ elim (Bool-cases (ltb va.nonce tx.nonce)) [
          | inl early ↦ ground arith
          | inr late ↦ ground arith
        ]
      ]

  -- To add a transaction, whether it is accepted or not, keeps the sum of the balance and what
  -- the pooled transactions spend.
  pub worth-add_transaction :
      (tx : Transaction) (va : Account) → worth (add_transaction hash tx va).0 ≡ worth va
  unfolding add_transaction
  worth-add_transaction tx va =
      elim (Bool-cases (is_acceptable tx.type va.nonce tx.nonce (va.amount -ℤ tx.amount))) [
        | inl taken ↦ rw taken (
            omega (
              int_laws,
              parts_of_eq _ _ (total-append va.txs_list (record { id = va.next_id; value = tx })),
            ))
        | inr refused ↦ elim (Bool-cases (ltb va.nonce tx.nonce)) [
          | inl early ↦ rw (refused, early) refl
          | inr late ↦ rw (refused, late) refl
        ]
      ]

  -- To roll back a transaction that the pool holds under its hash does not panic, and keeps
  -- the sum of the balance and what the pooled transactions spend.
  pub worth-rollback :
      (tx : Transaction) (e : Elem Transaction) (va : Account)
      → lookup (hash tx) va.txs_map ≡ some e
      → IsIn e va.txs_list
      → e.value ≡ tx
      → (va' : Account) × (rollback_and_remove hash tx va ≡ done va') × (worth va' ≡ worth va)
  unfolding rollback_and_remove
  worth-rollback tx e va found pooled same =
      let left : Account = record va {
        txs_list = unlink e va.txs_list;
        txs_map = delete (hash tx) va.txs_map;
        amount = va.amount +ℤ tx.amount;
      } in
      (
        left,
        rw (found, rollback_and_remove) refl,
        omega (
          int_laws,
          parts_of_eq _ _ (total-unlink e va.txs_list pooled),
          parts_of_eq _ _ (ap (λ (t : Transaction). t.amount) same),
        ),
      )
