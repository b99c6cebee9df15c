-- ===== src/Merge/TxMerge/Netted.antt =====
-- Netting keeps what each chain owes to each other.
use l.Base.{
  ℕ, ℤ, pos, negsuc, pos_part, neg_part, ◌+ℤ◌, ◌-ℤ◌, int_laws, ◌+◌, ◌≡◌, inl, inr, refl, ap, sym,
  ◌∙◌, Bool, true, false, ◌&&◌, String, none, some, List, [], ◌∷◌, ◌++◌, Map, lookup, insert,
  if◌then◌else◌, string_eq, pair_eq, ◌==◌, ==_iff, ltb_ℤ, Comparable, arith, Bool-cases,
  Option-cases,
}
use l.Transaction.{Transaction}
use l.Merge.TxMerge.{AmountTimeHash, net_tx, net_txs, direction, abs_ℤ}

+ℤ_assoc : (a b c : ℤ) → (a +ℤ b) +ℤ c ≡ a +ℤ (b +ℤ c)
+ℤ_assoc a b c = omega int_laws

+ℤ_swap : (a b c : ℤ) → (a +ℤ b) +ℤ c ≡ (c +ℤ b) +ℤ a
+ℤ_swap a b c = omega int_laws

module _ {K V : Type 0} ⦃c : Comparable K⦄ (μ : K × V → ℤ) where
  -- A sum over the entries.
  abbrev pub total : Map K V → ℤ
  total [] = pos 0
  total (e ∷ m) = μ e +ℤ total m

  total-insert_new :
      (k : K) (v : V) (m : Map K V) → lookup k m ≡ none → total (insert k v m) ≡ total m +ℤ μ (k, v)
  unfolding lookup insert
  total-insert_new k v [] h = omega int_laws
  total-insert_new k v ((j, w) ∷ m) h = elim (Bool-cases (j == k)) [
    | inl same ↦ let there : some w ≡ none = rw same at h in cc
    | inr other ↦ rw other (
        ap (λ t. μ (j, w) +ℤ t) (total-insert_new k v m (rw other at h))
        ∙ sym (+ℤ_assoc (μ (j, w)) (total m) (μ (k, v))))
  ]

  total-insert_old :
      (k : K) (v w : V) (m : Map K V)
      → lookup k m ≡ some w
      → total (insert k v m) +ℤ μ (k, w) ≡ total m +ℤ μ (k, v)
  unfolding lookup insert
  total-insert_old k v w [] h = cc
  total-insert_old k v w ((j, u) ∷ m) h = elim (Bool-cases (j == k)) [
    | inl same ↦
        let first : some u ≡ some w = rw same at h in
        let entry : μ (j, u) ≡ μ (k, w) = cc (first, (==_iff j k).0 same) in
        rw (same, entry) (+ℤ_swap (μ (k, v)) (total m) (μ (k, w)))
    | inr other ↦ rw other (
        +ℤ_assoc (μ (j, u)) (total (insert k v m)) (μ (k, w))
        ∙ ap (λ t. μ (j, u) +ℤ t) (total-insert_old k v w m (rw other at h))
        ∙ sym (+ℤ_assoc (μ (j, u)) (total m) (μ (k, v))))
  ]

-- The amount with its sign: along the pair, or against it.
abbrev pub signed : Bool → Bool → ℤ → ℤ
signed along against x = (if along then x else pos 0) -ℤ (if against then x else pos 0)

signed_add : (p q : Bool) (x y : ℤ) → signed p q (x +ℤ y) ≡ signed p q x +ℤ signed p q y
signed_add true true x y = omega int_laws
signed_add true false x y = omega int_laws
signed_add false true x y = omega int_laws
signed_add false false x y = omega int_laws

signed_sub : (p q : Bool) (x y : ℤ) → signed q p (x -ℤ y) ≡ signed q p x +ℤ signed p q y
signed_sub true true x y = omega int_laws
signed_sub true false x y = omega int_laws
signed_sub false true x y = omega int_laws
signed_sub false false x y = omega int_laws

-- What a transfer of `x` from `from` to `to` moves from `a` to `b`.
abbrev pub moved : String → String → String × String → ℤ → ℤ
moved a b (from, to) x = signed (from == a && to == b) (to == a && from == b) x

unfoldable pub flow : String → String → List Transaction → ℤ
flow a b [] = pos 0
flow a b (tx ∷ txs) = moved a b (tx.from_chain, tx.to_chain) tx.amount +ℤ flow a b txs

-- A transaction adds `c` to a sum over the entries, whichever of them it is netted with.
pub record Adds (μ : (String × String) × AmountTimeHash → ℤ) (hash : String) (tx : Transaction)
    (c : ℤ) : Type 0 where
  along :
      (ath : AmountTimeHash)
      → μ (
        (tx.from_chain, tx.to_chain),
        record {
          amount = ath.amount +ℤ tx.amount;
          fee = ath.fee +ℤ tx.fee;
          tx_time = tx.create_time;
          txs_hash = ath.txs_hash ++ (hash ∷ []);
        },
      )
        ≡ μ ((tx.from_chain, tx.to_chain), ath) +ℤ c
  against :
      (ath : AmountTimeHash)
      → μ (
        (tx.to_chain, tx.from_chain),
        record {
          amount = ath.amount -ℤ tx.amount;
          fee = ath.fee -ℤ tx.fee;
          tx_time = tx.create_time;
          txs_hash = ath.txs_hash ++ (hash ∷ []);
        },
      )
        ≡ μ ((tx.to_chain, tx.from_chain), ath) +ℤ c
  alone :
      μ (
        (tx.from_chain, tx.to_chain),
        record { amount = tx.amount; fee = tx.fee; tx_time = tx.create_time; txs_hash = hash ∷ [] },
      )
      ≡ c

+ℤ_cancel : (a b w : ℤ) → a +ℤ w ≡ b +ℤ w → a ≡ b
+ℤ_cancel a b w h = omega (int_laws, ap pos_part h, ap neg_part h)

replaced : (t' t w v c : ℤ) → t' +ℤ w ≡ t +ℤ v → v ≡ w +ℤ c → t' ≡ t +ℤ c
replaced t' t w v c h e =
    let regroup : t +ℤ (w +ℤ c) ≡ (t +ℤ c) +ℤ w = omega int_laws in
    +ℤ_cancel t' (t +ℤ c) w (h ∙ ap (λ u. t +ℤ u) e ∙ regroup)

module _ (μ : (String × String) × AmountTimeHash → ℤ) where
  total-net_tx :
      (hash : String) (tx : Transaction) (c : ℤ) (m : Map (String × String) AmountTimeHash)
      → Adds μ hash tx c
      → total μ (net_tx hash tx m) ≡ total μ m +ℤ c
  unfolding net_tx
  total-net_tx hash tx c m adds =
      let key : String × String = (tx.from_chain, tx.to_chain) in
      let key1 : String × String = (tx.to_chain, tx.from_chain) in
      elim (Option-cases (lookup key m)) [
        | inr (ath, found) ↦
            rw (found, net_tx)
              (replaced _ _ _ _ c (total-insert_old μ key _ ath m found) (adds.along ath))
        | inl missing ↦ elim (Option-cases (lookup key1 m)) [
          | inr (ath, found) ↦
              rw (missing, found, net_tx)
                (replaced _ _ _ _ c (total-insert_old μ key1 _ ath m found) (adds.against ath))
          | inl free ↦
              rw (missing, free, net_tx)
                (total-insert_new μ key _ m missing ∙ ap (λ u. total μ m +ℤ u) adds.alone)
        ]
      ]

-- The sums over all the transactions.
abbrev pub total_of : (String → Transaction → ℤ) → (Transaction → String) → List Transaction → ℤ
total_of c hash [] = pos 0
total_of c hash (tx ∷ txs) = c (hash tx) tx +ℤ total_of c hash txs

pub total-net_txs :
    (μ : (String × String) × AmountTimeHash → ℤ) (c : String → Transaction → ℤ)
    → ((hash : String) (tx : Transaction) → Adds μ hash tx (c hash tx))
    → (hash : Transaction → String) (txs : List Transaction)
      (m : Map (String × String) AmountTimeHash)
    → total μ (net_txs hash txs m) ≡ total μ m +ℤ total_of c hash txs
unfolding net_txs
total-net_txs μ c adds hash [] m = omega int_laws
total-net_txs μ c adds hash (tx ∷ txs) m =
    total-net_txs μ c adds hash txs (net_tx (hash tx) tx m)
    ∙ ap (λ t. t +ℤ total_of c hash txs)
        (total-net_tx μ (hash tx) tx (c (hash tx) tx) m (adds (hash tx) tx))
    ∙ +ℤ_assoc (total μ m) (c (hash tx) tx) (total_of c hash txs)

-- What an entry moves from `a` to `b`.
abbrev pub entry_moved : String → String → (String × String) × AmountTimeHash → ℤ
entry_moved a b (key, ath) = moved a b key ath.amount

pub moved-Adds :
    (a b hash : String) (tx : Transaction)
    → Adds (entry_moved a b) hash tx (moved a b (tx.from_chain, tx.to_chain) tx.amount)
moved-Adds a b hash tx = record {
  along = λ ath.
      signed_add (tx.from_chain == a && tx.to_chain == b) (tx.to_chain == a && tx.from_chain == b)
        ath.amount tx.amount;
  against = λ ath.
      signed_sub (tx.from_chain == a && tx.to_chain == b) (tx.to_chain == a && tx.from_chain == b)
        ath.amount tx.amount;
  alone = refl;
}

unfoldable pub count : String → List String → ℕ
count h [] = 0
count h (j ∷ js) = (if j == h then 1 else 0) + count h js

count-append : (h : String) (xs ys : List String) → count h (xs ++ ys) ≡ count h xs + count h ys
unfolding count
count-append h [] ys = omega arith
count-append h (x ∷ xs) ys = omega (arith, count-append h xs ys)

abbrev pub entry_count : String → (String × String) × AmountTimeHash → ℤ
entry_count h (key, ath) = pos (count h ath.txs_hash)

pub count-Adds :
    (h hash : String) (tx : Transaction) → Adds (entry_count h) hash tx (pos (count h (hash ∷ [])))
count-Adds h hash tx =
    let more : (ath : AmountTimeHash)
        → pos (count h (ath.txs_hash ++ (hash ∷ [])))
          ≡ pos (count h ath.txs_hash) +ℤ pos (count h (hash ∷ [])) =
      λ ath. ap pos (count-append h ath.txs_hash (hash ∷ [])) ∙ omega int_laws in
    record { along = more; against = more; alone = refl }

-- The transaction that an entry makes moves what the entry holds.
pub direction_moves :
    (a b : String) (e : (String × String) × AmountTimeHash)
    → moved a b (direction e) (abs_ℤ e.1.amount) ≡ entry_moved a b e
direction_moves a b ((from, to), v) = elim (Bool-cases (ltb_ℤ v.amount (pos 0))) [
  | inl owed ↦ rw owed (turned (from == a && to == b) (to == a && from == b) v.amount owed)
  | inr own ↦
      rw own (ap (signed (from == a && to == b) (to == a && from == b)) (abs_self v.amount own))
]
  where
    turned : (p q : Bool) (x : ℤ) → ltb_ℤ x (pos 0) ≡ true → signed q p (abs_ℤ x) ≡ signed p q x
    turned true true x h = omega int_laws
    turned true false (pos n) h = ground (arith, h)
    turned true false (negsuc n) h = omega int_laws
    turned false true (pos n) h = ground (arith, h)
    turned false true (negsuc n) h = omega int_laws
    turned false false x h = omega int_laws

    abs_self : (x : ℤ) → ltb_ℤ x (pos 0) ≡ false → abs_ℤ x ≡ x
    abs_self (pos n) h = omega int_laws
    abs_self (negsuc n) h = ground (arith, h)
