-- ===== src/Ledger/Replay.antt =====
-- Whoever synchronises a block comes to what its maker came to.
use mathlib.Core.List.{append-nil, append_assoc}
use l.Base.{
  ◌≡◌, refl, ap, sym, ◌∙◌, Bool, true, false, ◌||◌, String, Option, none, some, List, [], ◌∷◌, ◌++◌,
  All, if◌then◌else◌, string_eq, arith, Bool-cases, inl, inr,
}
use l.Transaction.{Transaction}
use l.State.{ok, WriteBatch}
use l.Ledger.Then.{
  on_ok, IfOk, IfOk-at, and_then_ok, and_then_cong, on_ok-and_then, IfOk-and_then, IfOk-then,
  IfOk-weaken,
}
use l.Ledger.{
  Chain, Machine, World, Acc, holds, and_then, is_contract, settle_contract, run_contract,
  execute_contract, execute_other, execute_one, execute_txs,
}

holds-append :
    (hash : Transaction → String) (tx : Transaction) (xs ys : List Transaction)
    → holds hash tx (xs ++ ys) ≡ (holds hash tx xs || holds hash tx ys)
unfolding holds
holds-append hash tx [] ys = refl
holds-append hash tx (x ∷ xs) ys = ground (arith, holds-append hash tx xs ys)

-- What `syncContractGenTxs` holds when the block is synchronised, `Txs` got when it was made.
abbrev pub mirror : Acc → Acc
mirror acc = record { batches = acc.batches; generated = acc.appended; appended = [] }

mirror_going : Bool × Acc → Bool × Acc
mirror_going (going, acc) = (going, mirror acc)

-- The transactions appended only grow.
abbrev Grows : Acc → Acc → Type 0
Grows acc acc' = (more : List Transaction) × (acc'.appended ≡ acc.appended ++ more)

Grows-twice : (a b c : Acc) → Grows a b → Grows b c → Grows a c
Grows-twice a b c (xs, first) (ys, second) =
    (xs ++ ys, second ∙ ap (λ zs. zs ++ ys) first ∙ append_assoc a.appended xs ys)

-- No transaction of a block that is made has the hash of one that a contract makes in it.
abbrev pub Apart : (Transaction → String) → List Transaction → List Transaction → Type 0
Apart hash made txs = All (λ tx. holds hash tx made ≡ false) txs

module _ {C : Type 0} (chain : Chain) (machine : Machine C) where
  settle_contract-mirror :
      (tx : Transaction) (acc : Acc) (paid : List WriteBatch) (w : World C)
      (made : Option (List Transaction))
      → settle_contract chain machine false tx (mirror acc) paid w made
        ≡ on_ok mirror_going (settle_contract chain machine true tx acc paid w made)
  unfolding settle_contract on_ok mirror_going
  settle_contract-mirror tx acc paid w none = refl
  settle_contract-mirror tx acc paid w (some txs) = sym (on_ok-and_then mirror_going _ _)

  execute_contract-mirror :
      (tx : Transaction) (acc : Acc) (w : World C)
      → execute_contract chain machine false tx (mirror acc) w
        ≡ on_ok mirror_going (execute_contract chain machine true tx acc w)
  unfolding execute_contract run_contract
  execute_contract-mirror tx acc w =
      and_then_cong _ _ _ (λ paid w'.
        settle_contract-mirror tx acc paid
          (record w' {
            tmp = (machine.execute tx w'.tmp w'.contract).0;
            contract = (machine.execute tx w'.tmp w'.contract).1;
          })
          (machine.execute tx w'.tmp w'.contract).2)
      ∙ sym (on_ok-and_then mirror_going _ (run_contract chain machine true tx acc))

  execute_other-mirror :
      (tx : Transaction) (acc : Acc) (w : World C)
      → holds chain.hash tx acc.appended ≡ false
      → execute_other chain machine false tx (mirror acc) w
        ≡ on_ok mirror (execute_other chain machine true tx acc w)
  unfolding execute_other on_ok
  execute_other-mirror tx acc w h = rw h (sym (on_ok-and_then mirror _ _))

  settle_contract-Grows :
      (tx : Transaction) (acc : Acc) (paid : List WriteBatch) (w : World C)
      (made : Option (List Transaction))
      → IfOk (λ r. Grows acc r.1) (settle_contract chain machine true tx acc paid w made)
  unfolding settle_contract IfOk
  settle_contract-Grows tx acc paid w none = ([], sym (append-nil acc.appended))
  settle_contract-Grows tx acc paid w (some txs) = IfOk-then _ _ _ (λ b w'. (txs, refl))

  execute_contract-Grows :
      (tx : Transaction) (acc : Acc) (w : World C)
      → IfOk (λ r. Grows acc r.1) (execute_contract chain machine true tx acc w)
  unfolding execute_contract run_contract
  execute_contract-Grows tx acc w =
      IfOk-then _ _ (run_contract chain machine true tx acc) (λ paid w'.
        settle_contract-Grows tx acc paid
          (record w' {
            tmp = (machine.execute tx w'.tmp w'.contract).0;
            contract = (machine.execute tx w'.tmp w'.contract).1;
          })
          (machine.execute tx w'.tmp w'.contract).2)

  execute_other-Grows :
      (tx : Transaction) (acc : Acc) (w : World C)
      → IfOk (Grows acc) (execute_other chain machine true tx acc w)
  unfolding execute_other IfOk
  execute_other-Grows tx acc w = IfOk-then _ _ _ (λ b w'. ([], sym (append-nil acc.appended)))

  goes_on :
      (tx : Transaction) (acc acc' : Acc) (w : World C) (going : Bool)
      → Grows acc acc'
      → IfOk
          (Grows acc)
          (if going then execute_other chain machine true tx acc' w else (w, ok acc'))
  unfolding IfOk
  goes_on tx acc acc' w true g =
      IfOk-weaken (Grows acc') (Grows acc) (execute_other chain machine true tx acc' w)
        (λ b. Grows-twice acc acc' b g) (execute_other-Grows tx acc' w)
  goes_on tx acc acc' w false g = g

  execute_one-Grows :
      (tx : Transaction) (acc : Acc) (w : World C)
      → IfOk (Grows acc) (execute_one chain machine true tx acc w)
  unfolding execute_one
  execute_one-Grows tx acc w = elim (Bool-cases (is_contract tx.type)) [
    | inr other ↦ rw other (execute_other-Grows tx acc w)
    | inl contract ↦ rw contract (
        IfOk-and_then (λ r. Grows acc r.1) (Grows acc) _ _ (execute_contract-Grows tx acc w)
          (λ r w'. goes_on tx acc r.1 w' r.0))
  ]

  execute_txs-Grows :
      (txs : List Transaction) (acc : Acc) (w : World C)
      → IfOk (Grows acc) (execute_txs chain machine true txs acc w)
  unfolding execute_txs IfOk
  execute_txs-Grows [] acc w = ([], sym (append-nil acc.appended))
  execute_txs-Grows (tx ∷ txs) acc w =
      IfOk-and_then (Grows acc) (Grows acc) _ _ (execute_one-Grows tx acc w) (λ b w' g.
        IfOk-weaken (Grows b) (Grows acc) (execute_txs chain machine true txs b w')
          (λ c. Grows-twice acc b c g) (execute_txs-Grows txs b w'))

  not_held_before :
      (tx : Transaction) (a b : Acc)
      → Grows a b
      → holds chain.hash tx b.appended ≡ false
      → holds chain.hash tx a.appended ≡ false
  not_held_before tx a b (more, g) h =
      let split = holds-append chain.hash tx a.appended more in ground (arith, split, h, g)

  execute_other-again :
      (tx : Transaction) (acc acc' : Acc) (w w' : World C)
      → execute_other chain machine true tx acc w ≡ (w', ok acc')
      → holds chain.hash tx acc'.appended ≡ false
      → execute_other chain machine false tx (mirror acc) w ≡ (w', ok (mirror acc'))
  unfolding on_ok
  execute_other-again tx acc acc' w w' made apart =
      let grown = IfOk-at (Grows acc) _ w' acc' (execute_other-Grows tx acc w) made in
      execute_other-mirror tx acc w (not_held_before tx acc acc' grown apart)
      ∙ ap (on_ok mirror) made

  execute_contract-again :
      (tx : Transaction) (acc acc' : Acc) (w w' : World C) (going : Bool)
      → (if going then execute_other chain machine true tx acc w else (w, ok acc)) ≡ (w', ok acc')
      → holds chain.hash tx acc'.appended ≡ false
      → (if going
          then execute_other chain machine false tx (mirror acc) w
          else (w, ok (mirror acc)))
        ≡ (w', ok (mirror acc'))
  unfolding on_ok
  execute_contract-again tx acc acc' w w' true made apart =
      execute_other-again tx acc acc' w w' made apart
  execute_contract-again tx acc acc' w w' false made apart = ap (on_ok mirror) made

  by_kind :
      (contract : Bool) (tx : Transaction) (acc acc' : Acc) (w w' : World C)
      → (if contract
          then and_then
              (execute_contract chain machine true tx acc w)
              (λ (going, b) v. if going then execute_other chain machine true tx b v else (v, ok b))
          else execute_other chain machine true tx acc w)
        ≡ (w', ok acc')
      → holds chain.hash tx acc'.appended ≡ false
      → (if contract
          then and_then (execute_contract chain machine false tx (mirror acc) w) (λ (going, b) v.
            if going then execute_other chain machine false tx b v else (v, ok b))
          else execute_other chain machine false tx (mirror acc) w)
        ≡ (w', ok (mirror acc'))
  unfolding and_then on_ok mirror_going
  by_kind false tx acc acc' w w' made apart = execute_other-again tx acc acc' w w' made apart
  by_kind true tx acc acc' w w' made apart =
      let (w1, (going, b), first, then_) =
        and_then_ok (execute_contract chain machine true tx acc w) _ w' acc' made in
      rw (execute_contract-mirror tx acc w, first)
        (execute_contract-again tx b acc' w1 w' going then_ apart)

  execute_one-again :
      (tx : Transaction) (acc acc' : Acc) (w w' : World C)
      → execute_one chain machine true tx acc w ≡ (w', ok acc')
      → holds chain.hash tx acc'.appended ≡ false
      → execute_one chain machine false tx (mirror acc) w ≡ (w', ok (mirror acc'))
  unfolding execute_one
  execute_one-again tx acc acc' w w' made apart =
      by_kind (is_contract tx.type) tx acc acc' w w' made apart

  pub execute_txs-again :
      (txs : List Transaction) (acc acc' : Acc) (w w' : World C)
      → execute_txs chain machine true txs acc w ≡ (w', ok acc')
      → Apart chain.hash acc'.appended txs
      → execute_txs chain machine false txs (mirror acc) w ≡ (w', ok (mirror acc'))
  unfolding execute_txs on_ok and_then
  execute_txs-again [] acc acc' w w' made apart = ap (on_ok mirror) made
  execute_txs-again (tx ∷ txs) acc acc' w w' made (apart, rest) =
      let (w1, b, first, then_) =
        and_then_ok (execute_one chain machine true tx acc w) _ w' acc' made in
      let grown = IfOk-at (Grows b) _ w' acc' (execute_txs-Grows txs b w1) then_ in
      rw (execute_one-again tx acc b w w1 first (not_held_before tx b acc' grown apart))
        (execute_txs-again txs b acc' w1 w' then_ rest)
