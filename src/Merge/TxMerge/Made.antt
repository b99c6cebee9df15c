-- ===== src/Merge/TxMerge/Made.antt =====
-- The transactions that mergerTx sends to the parent chain, against those that it nets.
use l.Base.{
  ℕ, ℤ, pos, ◌+ℤ◌, ◌≤ℤ◌, ◌≡◌, inl, inr, refl, ap₂, ◌∙◌, Bool-cases, Option-cases, String, some,
  List, [], ◌∷◌, ◌++◌, Map, lookup, All, All-insert, arith, string_eq, pair_eq, ltb_ℤ,
}
use l.Transaction.{Transaction, merged}
use l.Merge.Storage.{Storage, put_txs_hash_by_merge_tx_hash}
use l.Merge.TxMerge.{
  AmountTimeHash, MergedTx, TxMerge, net_tx, net_txs, direction, abs_ℤ, parent, make_one,
  maketransaction, make_all, merger_tx, back_up, get_backup_txs,
}
use l.Merge.TxMerge.Netted.{total, moved, flow}
use l.Merge.TxMerge.Settles.{IsNetted, net_txs-IsNetted}

-- A coordinate with a byte, which can be dropped.
abbrev pub HasParent : String → Type 0
HasParent c = (p : String) × (parent c ≡ some p)

-- Both chains of a pair or of a transaction.
abbrev pub BothHave : String × String → Type 0
BothHave (from, to) = HasParent from × HasParent to

abbrev pub TxHas : Transaction → Type 0
TxHas tx = BothHave (tx.from_chain, tx.to_chain)

-- A transaction from the one chain to the other, which stand in it by their addresses and parents,
-- of an amount that is not negative.
abbrev pub Between : (String → String) → String × String → MergedTx → Type 0
Between address (from, to) made =
    (made.signature ≡ address from)
    × (made.tx.recipient ≡ address to)
    × (parent from ≡ some made.tx.from_chain)
    × (parent to ≡ some made.tx.to_chain)
    × (pos 0 ≤ℤ made.tx.amount)

abbrev pub AllBetween : (String → String) → List (String × String) → List MergedTx → Type 0
AllBetween address [] [] = Unit {0}
AllBetween address (d ∷ ds) (t ∷ ts) = Between address d t × AllBetween address ds ts
AllBetween address [] (t ∷ ts) = ⊥
AllBetween address (d ∷ ds) [] = ⊥

-- What the transactions move from `a` to `b`.
unfoldable pub paid : String → String → List (String × String) → List MergedTx → ℤ
paid a b (d ∷ ds) (t ∷ ts) = moved a b d t.tx.amount +ℤ paid a b ds ts
paid a b ds ts = pos 0

net_tx-BothHave :
    (hash : String) (tx : Transaction) (m : Map (String × String) AmountTimeHash)
    → TxHas tx
    → All (λ e. BothHave e.0) m
    → All (λ e. BothHave e.0) (net_tx hash tx m)
unfolding net_tx
net_tx-BothHave hash tx m (from, to) a =
    let key : String × String = (tx.from_chain, tx.to_chain) in
    let key1 : String × String = (tx.to_chain, tx.from_chain) in
    elim (Option-cases (lookup key m)) [
      | inr (ath, found) ↦ rw (found, net_tx) (All-insert (λ e. BothHave e.0) key _ m a (from, to))
      | inl missing ↦ elim (Option-cases (lookup key1 m)) [
        | inr (ath, found) ↦
            rw (missing, found, net_tx) (All-insert (λ e. BothHave e.0) key1 _ m a (to, from))
        | inl free ↦
            rw (missing, free, net_tx) (All-insert (λ e. BothHave e.0) key _ m a (from, to))
      ]
    ]

net_txs-BothHave :
    (hash : Transaction → String) (txs : List Transaction)
    (m : Map (String × String) AmountTimeHash)
    → All TxHas txs
    → All (λ e. BothHave e.0) m
    → All (λ e. BothHave e.0) (net_txs hash txs m)
unfolding net_txs
net_txs-BothHave hash [] m h a = a
net_txs-BothHave hash (tx ∷ txs) m h a =
    net_txs-BothHave hash txs (net_tx (hash tx) tx m) h.1 (net_tx-BothHave (hash tx) tx m h.0 a)

abs_not_negative : (x : ℤ) → pos 0 ≤ℤ abs_ℤ x
abs_not_negative x = omega arith

direction-BothHave :
    (e : (String × String) × AmountTimeHash) → BothHave e.0 → BothHave (direction e)
direction-BothHave ((from, to), v) (h, k) = elim (Bool-cases (ltb_ℤ v.amount (pos 0))) [
  | inl owed ↦ rw owed (k, h)
  | inr owns ↦ rw owns (h, k)
]

module _ (own : String) (address : String → String) where
  maketransaction-Between :
      (from to : String) (amount fee : ℤ) (time : ℕ)
      → pos 0 ≤ℤ amount
      → BothHave (from, to)
      → (made : MergedTx) × (maketransaction own address from to amount fee time ≡ some made)
        × Between address (from, to) made
        × (made.tx.amount ≡ amount)
  unfolding maketransaction
  maketransaction-Between from to amount fee time low ((p, has), (q, has')) = (
    record {
      tx = record {
        from_chain = p;
        to_chain = q;
        type = merged;
        nonce = 0;
        sender = address own;
        recipient = address to;
        amount = amount;
        fee = fee;
        create_time = time;
      };
      signature = address from;
    },
    rw (has, has', maketransaction) refl,
    (refl, refl, has, has', low),
    refl,
  )

  make_one-Between :
      (e : (String × String) × AmountTimeHash)
      → BothHave (direction e)
      → (made : MergedTx) × (make_one own address e ≡ some made)
        × Between address (direction e) made
        × (made.tx.amount ≡ abs_ℤ e.1.amount)
  unfolding make_one
  make_one-Between e h =
      maketransaction-Between (direction e).0 (direction e).1 (abs_ℤ e.1.amount) e.1.fee e.1.tx_time
        (abs_not_negative e.1.amount) h

module _ (own : String) (address : String → String) (hash : Transaction → String)
    (merged_hash : MergedTx → String) where
  make_all-AllBetween :
      (m : Map (String × String) AmountTimeHash) (s : Storage)
      → All (λ e. BothHave e.0) m
      → (made : List MergedTx) × (s' : Storage) × (ds : List (String × String)) × (make_all own
            address hash merged_hash m s
          ≡ some (made, s'))
        × AllBetween address ds made
        × ((a b : String)
            → paid a b ds made ≡ total (λ e. moved a b (direction e) (abs_ℤ e.1.amount)) m)
  unfolding make_all paid
  make_all-AllBetween [] s h = ([], s, [], refl, tt, λ a b. refl)
  make_all-AllBetween ((key, v) ∷ m) s (has, h) =
      let (one, makes, between, size) =
        make_one-Between own address (key, v) (direction-BothHave (key, v) has) in
      let (made, s', ds, rest, all, sums) =
        make_all-AllBetween m (put_txs_hash_by_merge_tx_hash (merged_hash one) v.txs_hash s) h in
      (
        one ∷ made,
        s',
        direction (key, v) ∷ ds,
        rw (makes, rest, make_all) refl,
        (between, all),
        λ a b. ap₂ (λ x y. moved a b (direction (key, v)) x +ℤ y) size (sums a b),
      )

  -- The transactions of netted ones: each goes from a chain to another, between which they move, less
  -- what they move back, as much as the netted ones do.
  pub record IsSettled (txs : List Transaction) (made : List MergedTx) : Type 0 where
    pub directions : List (String × String)
    pub between : AllBetween address directions made
    pub settled : (a b : String) → paid a b directions made ≡ flow a b txs

  -- If every chain of the transactions and the own one have a parent, then `mergerTx` goes on, and
  -- sends to the parent chain, behind all that it has sent, the backups so far and new transactions.
  -- Each of these stands for a transfer of an amount that is not negative between two chains, with
  -- their addresses and parents; and for any two chains, the new transactions move as much from the one
  -- to the other, less what they move back, as the transactions that are netted. Each of those has its
  -- hash in the entries as often as it occurs, and of two chains at most one direction has an entry.
  pub merger_tx-IsSettled :
      (tx : Transaction) (txs : List Transaction) (tm : TxMerge)
      → HasParent own
      → All TxHas (tx ∷ txs)
      → (tm' : TxMerge) × (made : List MergedTx) × (dst : String) × (merger_tx own address hash
            merged_hash
            (tx ∷ txs)
            tm
          ≡ some tm')
        × (parent own ≡ some dst)
        × (tm'.sent
            ≡ tm.sent
              ++ ((
                dst,
                record { repeat_merge_txs = get_backup_txs tm.backup_txs; merge_txs = made },
              )
                  ∷ []))
        × IsSettled (tx ∷ txs) made
        × IsNetted hash (tx ∷ txs) (net_txs hash (tx ∷ txs) [])
  unfolding merger_tx
  merger_tx-IsSettled tx txs tm (dst, has) h =
      let netted = net_txs-IsNetted hash (tx ∷ txs) in
      let (made, s', ds, makes, all, sums) =
        make_all-AllBetween (net_txs hash (tx ∷ txs) []) tm.storage
          (net_txs-BothHave hash (tx ∷ txs) [] h tt) in
      let settles : IsSettled (tx ∷ txs) made = record {
        directions = ds;
        between = all;
        settled = λ a b. sums a b ∙ netted.settled a b;
      } in
      let after : TxMerge = record tm {
        storage = s';
        backup_txs = back_up own address hash merged_hash made tm.backup_txs;
        sent =
            tm.sent
            ++ ((dst, record { repeat_merge_txs = get_backup_txs tm.backup_txs; merge_txs = made })
                ∷ []);
      } in
      (after, made, dst, rw (makes, has, merger_tx) refl, has, refl, settles, netted)
