-- ===== src/Validator/Accounts/Undo.antt =====
-- The ledger's corrections of the pool's balances undo one another.
use l.Base.{
  ◌≡◌, ◌≢◌, refl, ap, sym, ◌∙◌, ℤ, ◌+ℤ◌, ◌-ℤ◌, int_laws, false, String, none, some, [], ◌∷◌, Map,
  lookup, insert, string_eq, ◌==◌, ==_iff, ==_self, arith, Bool-cases, Option-cases, inl, inr,
  lookup-insert, lookup-insert_self,
}
use l.Transaction.{Transaction}
use l.Validator.Account.{Account}
use l.Validator.Accounts.{
  Validator, set_account, on_account, with_amount, update_account, roll_back_account,
}

insert_twice :
    (k : String) (v w : Account) (m : Map String Account) → insert k w (insert k v m) ≡ insert k w m
unfolding insert
insert_twice k v w [] = ground (arith, ==_self k)
insert_twice k v w ((j, x) ∷ m) = ground (arith, ==_self k, insert_twice k v w m)

insert_same :
    (k : String) (v : Account) (m : Map String Account) → lookup k m ≡ some v → insert k v m ≡ m
unfolding insert lookup
insert_same k v [] h = cc
insert_same k v ((j, x) ∷ m) h = ground (arith, ==_iff j k, insert_same k v m)

-- Two keys that are there are set in any order.
insert_comm :
    (k j : String) (v w x y : Account) (m : Map String Account)
    → k ≢ j
    → lookup k m ≡ some x
    → lookup j m ≡ some y
    → insert k v (insert j w m) ≡ insert j w (insert k v m)
unfolding insert lookup
insert_comm k j v w x y [] d hk hj = cc
insert_comm k j v w x y ((i, z) ∷ m) d hk hj =
    ground (arith, ==_iff i k, ==_iff i j, ==_iff k j, ==_iff j k, insert_comm k j v w x y m d)

on_account-none :
    (f : Account → Account) (a : String) (vr : Validator)
    → lookup a vr.accounts ≡ none
    → on_account f a vr ≡ vr
unfolding on_account
on_account-none f a vr h = rw (on_account, h) refl

on_account-some :
    (f : Account → Account) (a : String) (vr : Validator) (va : Account)
    → lookup a vr.accounts ≡ some va
    → on_account f a vr ≡ set_account a (f va) vr
unfolding on_account
on_account-some f a vr va h = rw (on_account, h) refl

-- Two changes of one account are one.
on_account_twice :
    (f g : Account → Account) (a : String) (vr : Validator)
    → on_account g a (on_account f a vr) ≡ on_account (λ va. g (f va)) a vr
on_account_twice f g a vr = elim (Option-cases (lookup a vr.accounts)) [
  | inl e ↦
      rw
        (
          on_account-none f a vr e,
          on_account-none g a vr e,
          on_account-none (λ va. g (f va)) a vr e,
        )
        refl
  | inr (va, e) ↦
      rw
        (
          on_account-some f a vr va e,
          on_account-some (λ va. g (f va)) a vr va e,
          on_account-some g a (set_account a (f va) vr) (f va)
              (lookup-insert_self a (f va) vr.accounts),
          insert_twice a (f va) (g (f va)) vr.accounts,
        )
        refl
]

on_account_id :
    (f : Account → Account) (a : String) (vr : Validator)
    → ((va : Account) → f va ≡ va)
    → on_account f a vr ≡ vr
on_account_id f a vr h = elim (Option-cases (lookup a vr.accounts)) [
  | inl e ↦ on_account-none f a vr e
  | inr (va, e) ↦
      on_account-some f a vr va e
      ∙ ap (λ m. record vr { accounts = m })
          (insert_same a (f va) vr.accounts (e ∙ ap some (sym (h va))))
]

differ : (a b : String) → (a == b) ≡ false → a ≢ b
differ a b h = ground (arith, h, ==_iff a b)

lookup_elsewhere :
    (f : Account → Account) (a b : String) (vr : Validator)
    → (a == b) ≡ false
    → lookup b (on_account f a vr).accounts ≡ lookup b vr.accounts
lookup_elsewhere f a b vr d = elim (Option-cases (lookup a vr.accounts)) [
  | inl e ↦ rw (on_account-none f a vr e) refl
  | inr (va, e) ↦ rw (on_account-some f a vr va e, lookup-insert a b (f va) vr.accounts, d) refl
]

-- Changes of different accounts are made in any order.
on_account_comm :
    (f g : Account → Account) (a b : String) (vr : Validator)
    → (a == b) ≡ false
    → (b == a) ≡ false
    → on_account f a (on_account g b vr) ≡ on_account g b (on_account f a vr)
on_account_comm f g a b vr ab ba = elim (Option-cases (lookup a vr.accounts)) [
  | inl e ↦
      on_account-none f a _ (lookup_elsewhere g b a vr ba ∙ e)
      ∙ ap (on_account g b) (sym (on_account-none f a vr e))
  | inr (va, e) ↦ elim (Option-cases (lookup b vr.accounts)) [
    | inl h ↦
        ap (on_account f a) (on_account-none g b vr h)
        ∙ sym (on_account-none g b _ (lookup_elsewhere f a b vr ab ∙ h))
    | inr (vb, h) ↦
        on_account-some f a _ va (lookup_elsewhere g b a vr ba ∙ e)
        ∙ ap (set_account a (f va)) (on_account-some g b vr vb h)
        ∙ ap (λ m. record vr { accounts = m })
            (insert_comm a b (f va) (g vb) va vb vr.accounts (differ a b ab) e h)
        ∙ sym (
            on_account-some g b _ vb (lookup_elsewhere f a b vr ab ∙ h)
            ∙ ap (set_account b (g vb)) (on_account-some f a vr va e))
  ]
]

sender_back : (x : ℤ) (va : Account) → with_amount (λ a. a +ℤ x) (with_amount (λ a. a -ℤ x) va) ≡ va
sender_back x va = ap (λ (a : ℤ). record va { amount = a }) (omega int_laws)

recipient_back :
    (x : ℤ) (va : Account) → with_amount (λ a. a -ℤ x) (with_amount (λ a. a +ℤ x) va) ≡ va
recipient_back x va = ap (λ (a : ℤ). record va { amount = a }) (omega int_laws)

both_back :
    (x : ℤ) (va : Account)
    → with_amount
        (λ a. a -ℤ x)
        (with_amount (λ a. a +ℤ x) (with_amount (λ a. a +ℤ x) (with_amount (λ a. a -ℤ x) va)))
      ≡ va
both_back x va = ap (λ (a : ℤ). record va { amount = a }) (omega int_laws)

-- `RollBackAccount` takes back exactly what `UpdateAccount` did, whoever of the two has an account
-- in the pool, and also for a transaction from an account to itself.
pub roll_back_account-update_account :
    (tx : Transaction) (vr : Validator) → roll_back_account tx (update_account tx vr) ≡ vr
unfolding roll_back_account update_account
roll_back_account-update_account tx vr =
    let x = tx.amount in
    let lose = with_amount (λ a. a -ℤ x) in
    let gain = with_amount (λ a. a +ℤ x) in
    let s = tx.sender in
    let r = tx.recipient in
    elim (Bool-cases (s == r)) [
      | inl e ↦
          let same : r ≡ s = sym ((==_iff s r).0 e) in
          rw same (
            ap (λ v. on_account lose s (on_account gain s v)) (on_account_twice lose gain s vr)
            ∙ ap (on_account lose s) (on_account_twice _ gain s vr)
            ∙ on_account_twice _ lose s vr
            ∙ on_account_id _ s vr (both_back x))
      | inr d ↦
          ap (on_account lose r) (
            on_account_comm gain gain s r (on_account lose s vr) d
              (ground (arith, d, ==_iff s r, ==_iff r s)))
          ∙ on_account_twice gain lose r _
          ∙ on_account_id _ r _ (recipient_back x)
          ∙ on_account_twice lose gain s vr
          ∙ on_account_id _ s vr (sender_back x)
    ]
