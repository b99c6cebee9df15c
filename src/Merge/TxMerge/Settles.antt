-- ===== src/Merge/TxMerge/Settles.antt =====
-- What is netted settles what the transactions moved.
use l.Base.{
  ℤ, pos, ◌+ℤ◌, int_laws, ◌≡◌, ◌≢◌, ◌⊎◌, inl, inr, refl, ap, sym, ◌∙◌, subst, true, String, none,
  some, List, [], ◌∷◌, map, Map, lookup, insert, lookup-insert, string_eq, pair_eq, ◌==◌, ==_iff,
  Bool-cases, Option-cases,
}
use mathlib.Core.Path.{fun_ext}
use l.Transaction.{Transaction}
use l.Merge.TxMerge.{AmountTimeHash, net_tx, net_txs, direction, abs_ℤ}
use l.Merge.TxMerge.Netted.{
  total, flow, moved, count, total_of, total-net_txs, moved-Adds, count-Adds, direction_moves,
  entry_moved, entry_count,
}

-- Of two chains at most one direction has an entry.
abbrev pub OneWay : Map (String × String) AmountTimeHash → Type 0
OneWay m = (a b : String) → a ≢ b → (lookup (a, b) m ≡ none) ⊎ (lookup (b, a) m ≡ none)

-- A new value of an old key leaves open which keys there are.
none_kept :
    (k j : String × String) (v w : AmountTimeHash) (m : Map (String × String) AmountTimeHash)
    → lookup k m ≡ some w
    → lookup j m ≡ none
    → lookup j (insert k v m) ≡ none
none_kept k j v w m found missing = elim (Bool-cases (k == j)) [
  | inl same ↦ absurd (some_none (sym found ∙ ap (λ i. lookup i m) ((==_iff k j).0 same) ∙ missing))
  | inr other ↦ rw (lookup-insert k j v m, other) missing
]
  where
    some_none : some w ≡ none → ⊥
    some_none e = cc

OneWay-old :
    (k : String × String) (v w : AmountTimeHash) (m : Map (String × String) AmountTimeHash)
    → lookup k m ≡ some w
    → OneWay m
    → OneWay (insert k v m)
OneWay-old k v w m found one a b apart = elim (one a b apart) [
  | inl e ↦ inl (none_kept k (a, b) v w m found e)
  | inr e ↦ inr (none_kept k (b, a) v w m found e)
]

OneWay-new :
    (from to : String) (v : AmountTimeHash) (m : Map (String × String) AmountTimeHash)
    → lookup (from, to) m ≡ none
    → lookup (to, from) m ≡ none
    → OneWay m
    → OneWay (insert (from, to) v m)
OneWay-new from to v m free free1 one a b apart =
    let key : String × String = (from, to) in
    let ab : String × String = (a, b) in
    let ba : String × String = (b, a) in
    let turn : (j : String × String) → (key == j) ≡ true → lookup (j.1, j.0) m ≡ none = λ j e.
      subst (λ (i : String × String). lookup (i.1, i.0) m ≡ none) ((==_iff key j).0 e) free1 in
    elim (Bool-cases (key == ab)) [
      | inl same ↦ elim (Bool-cases (key == ba)) [
        | inl both ↦ absurd (
            apart (
              ap (λ (i : String × String). i.0)
                (sym ((==_iff key ab).0 same) ∙ (==_iff key ba).0 both)))
        | inr neither ↦ inr (rw (lookup-insert key ba v m, neither) (turn ab same))
      ]
      | inr other ↦ elim (Bool-cases (key == ba)) [
        | inl turned ↦ inl (rw (lookup-insert key ab v m, other) (turn ba turned))
        | inr neither ↦ elim (one a b apart) [
          | inl e ↦ inl (rw (lookup-insert key ab v m, other) e)
          | inr e ↦ inr (rw (lookup-insert key ba v m, neither) e)
        ]
      ]
    ]

net_tx-OneWay :
    (hash : String) (tx : Transaction) (m : Map (String × String) AmountTimeHash)
    → OneWay m
    → OneWay (net_tx hash tx m)
unfolding net_tx
net_tx-OneWay hash tx m one =
    let key : String × String = (tx.from_chain, tx.to_chain) in
    let key1 : String × String = (tx.to_chain, tx.from_chain) in
    elim (Option-cases (lookup key m)) [
      | inr (ath, found) ↦ rw (found, net_tx) (OneWay-old key _ ath m found one)
      | inl missing ↦ elim (Option-cases (lookup key1 m)) [
        | inr (ath, found) ↦ rw (missing, found, net_tx) (OneWay-old key1 _ ath m found one)
        | inl free ↦
            rw (missing, free, net_tx) (OneWay-new tx.from_chain tx.to_chain _ m missing free one)
      ]
    ]

net_txs-OneWay :
    (hash : Transaction → String) (txs : List Transaction)
    (m : Map (String × String) AmountTimeHash)
    → OneWay m
    → OneWay (net_txs hash txs m)
unfolding net_txs
net_txs-OneWay hash [] m one = one
net_txs-OneWay hash (tx ∷ txs) m one =
    net_txs-OneWay hash txs (net_tx (hash tx) tx m) (net_tx-OneWay (hash tx) tx m one)

flow-total :
    (a b : String) (hash : Transaction → String) (txs : List Transaction)
    → total_of (λ h tx. moved a b (tx.from_chain, tx.to_chain) tx.amount) hash txs ≡ flow a b txs
unfolding flow
flow-total a b hash [] = refl
flow-total a b hash (tx ∷ txs) =
    ap (λ t. moved a b (tx.from_chain, tx.to_chain) tx.amount +ℤ t) (flow-total a b hash txs)

count-total :
    (h : String) (hash : Transaction → String) (txs : List Transaction)
    → total_of (λ j tx. pos (count h (j ∷ []))) hash txs ≡ pos (count h (map hash txs))
unfolding count
count-total h hash [] = refl
count-total h hash (tx ∷ txs) =
    ap (λ t. pos (count h (hash tx ∷ [])) +ℤ t) (count-total h hash txs) ∙ omega int_laws

-- The entries of the map that is left, each with the direction and the amount of the transaction
-- that it makes.
pub record IsNetted (hash : Transaction → String) (txs : List Transaction)
    (m : Map (String × String) AmountTimeHash) : Type 0 where
  pub settled :
      (a b : String) → total (λ e. moved a b (direction e) (abs_ℤ e.1.amount)) m ≡ flow a b txs
  pub hashes : (h : String) → total (entry_count h) m ≡ pos (count h (map hash txs))
  pub one_way : OneWay m

-- For any two chains, the transactions made of the entries move as much from the one to the other,
-- less what they move back, as the transactions that are netted do; each of these has its hash in
-- the entries as often as it occurs; and of two chains at most one direction has an entry.
pub net_txs-IsNetted :
    (hash : Transaction → String) (txs : List Transaction) → IsNetted hash txs (net_txs hash txs [])
unfolding lookup
net_txs-IsNetted hash txs = record {
  settled = λ a b.
      ap (λ μ. total μ (net_txs hash txs [])) (fun_ext (direction_moves a b))
      ∙ total-net_txs (entry_moved a b) _ (moved-Adds a b) hash txs []
      ∙ zero_add (total_of (λ h tx. moved a b (tx.from_chain, tx.to_chain) tx.amount) hash txs)
      ∙ flow-total a b hash txs;
  hashes = λ h.
      total-net_txs (entry_count h) _ (count-Adds h) hash txs []
      ∙ zero_add (total_of (λ j tx. pos (count h (j ∷ []))) hash txs)
      ∙ count-total h hash txs;
  one_way = net_txs-OneWay hash txs [] (λ a b apart. inl refl);
}
  where
    zero_add : (x : ℤ) → pos 0 +ℤ x ≡ x
    zero_add x = omega int_laws
