-- ===== src/Merge/Filter/Majority.antt =====
-- A merged transaction is sent back when more than half of the peers have sent it.
use l.Base.{
  ℕ, ◌+◌, ◌*◌, ◌/◌, ◌%◌, ◌^◌, ◌<◌, ◌≤◌, ◌≡◌, refl, ap, subst, inl, inr, Bool, true, false, ◌&&◌,
  String, List, [], ◌∷◌, ◌++◌, Map, lookup, insert, lookup-insert, delete, lookup-delete, ltb,
  if◌then◌else◌, string_eq, pair_eq, ◌==◌, ==_iff, ==_self, arith, Bool-cases,
}
use l.Transaction.{Transaction}
use l.Merge.Filter.{
  CountDot, PeerTx, ChainCacheTable, exists, dot_or_new, new_chain_cache_table, handle_tx,
  handle_all, repeat_all, add_merge_txs, has_handled_tx,
}

-- The peers that have sent the transaction with this hash.
unfoldable pub votes : String → List (String × String) → ℕ
votes h [] = 0
votes h ((peer, j) ∷ keys) = (if j == h then 1 else 0) + votes h keys

-- How often it was sent back as valid.
unfoldable pub sends : (Transaction → String) → String → List PeerTx → ℕ
sends hash h [] = 0
sends hash h (p ∷ ps) = (if p.valid && hash p.tx == h then 1 else 0) + sends hash h ps

sends-append :
    (hash : Transaction → String) (h : String) (xs ys : List PeerTx)
    → sends hash h (xs ++ ys) ≡ sends hash h xs + sends hash h ys
unfolding sends
sends-append hash h [] ys = omega arith
sends-append hash h (x ∷ xs) ys = omega (arith, sends-append hash h xs ys)

abbrev pub AreOnce : List (String × String) → Type 0
AreOnce [] = Unit {0}
AreOnce (k ∷ keys) = (exists k keys ≡ false) × AreOnce keys

-- With `peer_num` peers, each `peer_num / 2 + 1` votes have sent a transaction back once, and the
-- others, fewer than that, are counted; and a peer has one vote for a transaction.
pub record IsTallied (hash : Transaction → String) (peer_num : ℕ) (cct : ChainCacheTable)
    : Type 0 where
  pub counted :
      (h : String)
      → sends hash h cct.sent_back * (peer_num / 2 + 1) + (dot_or_new (lookup h cct.count_dot)).cnt
        ≡ votes h cct.items
  pub below : (h : String) → (dot_or_new (lookup h cct.count_dot)).cnt ≤ peer_num / 2
  pub open_still : (h : String) → (dot_or_new (lookup h cct.count_dot)).flag ≡ false
  pub once : AreOnce cct.items

pub new_chain_cache_table-IsTallied :
    (hash : Transaction → String) (peer_num : ℕ) → IsTallied hash peer_num new_chain_cache_table
unfolding lookup sends votes
new_chain_cache_table-IsTallied hash peer_num = record {
  counted = λ h. omega arith;
  below = λ h. omega arith;
  open_still = λ h. refl;
  once = tt;
}

one_more : (s k c : ℕ) → c + 1 ≡ k → (s + 1) * k + 0 ≡ s * k + c + 1
one_more s k c e = grind arith

module _ (hash : Transaction → String) (peer_num : ℕ) (p : PeerTx) (cct : ChainCacheTable)
    (t : IsTallied hash peer_num cct) (small : peer_num < 2 ^ 32) (valid : p.valid ≡ true) where
  abbrev voted_key : String × String
  voted_key = (p.peer_id, hash p.tx)

  abbrev dot : CountDot
  dot = dot_or_new (lookup (hash p.tx) cct.count_dot)

  abbrev dots : Map String CountDot
  dots = insert (hash p.tx) dot cct.count_dot

  -- The entry that is made sure of changes no count.
  dot-dots : (h : String) → dot_or_new (lookup h dots) ≡ dot_or_new (lookup h cct.count_dot)
  dot-dots h = elim (Bool-cases (hash p.tx == h)) [
    | inl same ↦
        rw (lookup-insert (hash p.tx) h dot cct.count_dot, same)
          (ap (λ j. dot_or_new (lookup j cct.count_dot)) ((==_iff (hash p.tx) h).0 same))
    | inr other ↦ rw (lookup-insert (hash p.tx) h dot cct.count_dot, other) refl
  ]

  no_wrap : (dot.cnt + 1) % 2 ^ 32 ≡ dot.cnt + 1
  no_wrap = omega (arith, t.below (hash p.tx), small)

  repeated : IsTallied hash peer_num (record cct { count_dot = dots })
  repeated = record {
    counted = λ h. rw (dot-dots h) (t.counted h);
    below = λ h. rw (dot-dots h) (t.below h);
    open_still = λ h. rw (dot-dots h) (t.open_still h);
    once = t.once;
  }

  abbrev Replaces : CountDot → Map String CountDot → Type 0
  Replaces d m =
      (h : String)
      → dot_or_new (lookup h m)
        ≡ (if hash p.tx == h then d else dot_or_new (lookup h cct.count_dot))

  -- A vote that is new, with what becomes of the count and of what is sent back.
  voted_new :
      (d : CountDot) (m : Map String CountDot) (sent : List PeerTx)
      → exists voted_key cct.items ≡ false
      → Replaces d m
      → d.cnt ≤ peer_num / 2
      → d.flag ≡ false
      → sends hash (hash p.tx) sent * (peer_num / 2 + 1) + d.cnt
        ≡ sends hash (hash p.tx) cct.sent_back * (peer_num / 2 + 1) + dot.cnt + 1
      → ((h : String) → (hash p.tx == h) ≡ false → sends hash h sent ≡ sends hash h cct.sent_back)
      → IsTallied hash peer_num
          (record { items = voted_key ∷ cct.items; count_dot = m; sent_back = sent })
  unfolding votes
  voted_new d m sent new at few unflagged own others = record {
    counted = λ h. elim (Bool-cases (hash p.tx == h)) [
      | inl same ↦
          subst
            (λ j.
              sends hash j sent * (peer_num / 2 + 1) + (dot_or_new (lookup j m)).cnt
              ≡ votes j (voted_key ∷ cct.items))
            ((==_iff (hash p.tx) h).0 same)
            (rw (at (hash p.tx), ==_self (hash p.tx)) (omega (arith, own, t.counted (hash p.tx))))
      | inr other ↦ rw (at h, other, others h other) (omega (arith, t.counted h))
    ];
    below = λ h. elim (Bool-cases (hash p.tx == h)) [
      | inl same ↦ rw (at h, same) few
      | inr other ↦ rw (at h, other) (t.below h)
    ];
    open_still = λ h. elim (Bool-cases (hash p.tx == h)) [
      | inl same ↦ rw (at h, same) unflagged
      | inr other ↦ rw (at h, other) (t.open_still h)
    ];
    once = (new, t.once);
  }

  counts_on :
      exists voted_key cct.items ≡ false
      → dot.cnt + 1 ≤ peer_num / 2
      → IsTallied hash peer_num (record cct {
        items = voted_key ∷ cct.items;
        count_dot = insert (hash p.tx) (record dot { cnt = dot.cnt + 1 }) dots;
      })
  counts_on new few =
      voted_new (record dot { cnt = dot.cnt + 1 }) _ cct.sent_back new
        (λ h. elim (Bool-cases (hash p.tx == h)) [
          | inl same ↦
              rw (lookup-insert (hash p.tx) h (record dot { cnt = dot.cnt + 1 }) dots, same) refl
          | inr other ↦
              rw (lookup-insert (hash p.tx) h (record dot { cnt = dot.cnt + 1 }) dots, other)
                (dot-dots h)
        ])
        few (t.open_still (hash p.tx)) (omega arith) (λ h other. refl)

  sends_back :
      exists voted_key cct.items ≡ false
      → dot.cnt + 1 ≡ peer_num / 2 + 1
      → IsTallied hash peer_num (record {
        items = voted_key ∷ cct.items;
        count_dot = delete (hash p.tx) dots;
        sent_back = cct.sent_back ++ (p ∷ []);
      })
  unfolding sends
  sends_back new enough =
      voted_new (record { cnt = 0; flag = false }) _ (cct.sent_back ++ (p ∷ [])) new
        (λ h. elim (Bool-cases (hash p.tx == h)) [
          | inl same ↦ rw (lookup-delete (hash p.tx) h dots, same) refl
          | inr other ↦ rw (lookup-delete (hash p.tx) h dots, other) (dot-dots h)
        ])
        (omega arith) refl
        (rw (sends-append hash (hash p.tx) cct.sent_back (p ∷ []), valid, ==_self (hash p.tx))
          (one_more (sends hash (hash p.tx) cct.sent_back) (peer_num / 2 + 1) dot.cnt enough))
        (λ h other. rw (sends-append hash h cct.sent_back (p ∷ []), valid, other) (omega arith))

  pub handle_tx-IsTallied : IsTallied hash peer_num (handle_tx hash peer_num p cct)
  unfolding handle_tx
  handle_tx-IsTallied = elim (Bool-cases (exists voted_key cct.items)) [
    | inl old ↦ rw old repeated
    | inr new ↦ elim (Bool-cases (ltb (peer_num / 2) (dot.cnt + 1))) [
      | inl enough ↦
          rw (new, no_wrap, enough, t.open_still (hash p.tx))
            (sends_back new (ground (arith, enough, t.below (hash p.tx))))
      | inr few ↦ rw (new, no_wrap, few) (counts_on new (ground (arith, few)))
    ]
  ]

module _ (hash : Transaction → String) (peer_num : ℕ) (small : peer_num < 2 ^ 32)
    (chain_id peer_id : String) where
  handle_all-IsTallied :
      (txs : List Transaction) (cct : ChainCacheTable)
      → IsTallied hash peer_num cct
      → IsTallied hash peer_num (handle_all hash peer_num chain_id peer_id txs cct)
  unfolding handle_all
  handle_all-IsTallied [] cct t = t
  handle_all-IsTallied (tx ∷ txs) cct t =
      handle_all-IsTallied txs _ (handle_tx-IsTallied hash peer_num _ cct t small refl)

  -- An acknowledgement of what is done counts for nothing.
  acknowledged :
      (tx : Transaction) (cct : ChainCacheTable)
      → IsTallied hash peer_num cct
      → IsTallied hash peer_num (record cct {
        sent_back =
            cct.sent_back
            ++ (record { chain_id = chain_id; peer_id = peer_id; tx = tx; valid = false } ∷ []);
      })
  unfolding sends
  acknowledged tx cct t = record {
    counted = λ h.
        rw
          (
            sends-append hash h cct.sent_back
                (record { chain_id = chain_id; peer_id = peer_id; tx = tx; valid = false } ∷ []),
            add_zero (sends hash h cct.sent_back),
          )
          (t.counted h);
    below = t.below;
    open_still = t.open_still;
    once = t.once;
  }
    where
      add_zero : (n : ℕ) → n + 0 ≡ n
      add_zero n = omega arith

  repeat_all-IsTallied :
      (contains : String → String → Bool) (tx_cache : Map String String) (txs : List Transaction)
      (cct : ChainCacheTable)
      → IsTallied hash peer_num cct
      → IsTallied hash peer_num
          (repeat_all hash contains tx_cache peer_num chain_id peer_id txs cct)
  unfolding repeat_all
  repeat_all-IsTallied contains tx_cache [] cct t = t
  repeat_all-IsTallied contains tx_cache (tx ∷ txs) cct t =
      repeat_all-IsTallied contains tx_cache txs _
        (elim (Bool-cases (has_handled_tx hash contains tx_cache chain_id tx)) [
          | inl done ↦ rw done (acknowledged tx cct t)
          | inr waits ↦ rw waits (handle_tx-IsTallied hash peer_num _ cct t small refl)
        ])

  -- A message of a peer keeps the tally: for every transaction, the peers that have sent it, each
  -- counted once, are as many as `peer_num / 2 + 1` for each time that it was sent back as valid, and
  -- those of its count, which are no more than half of the peers. This holds as long as no vote
  -- expires, all peers tell the same number of peers, and that is a word of 32 bits.
  pub add_merge_txs-IsTallied :
      (contains : String → String → Bool) (tx_cache : Map String String)
      (repeat_merge_txs merge_txs : List Transaction) (cct : ChainCacheTable)
      → IsTallied hash peer_num cct
      → IsTallied hash peer_num (
          add_merge_txs hash contains tx_cache peer_num chain_id peer_id repeat_merge_txs merge_txs
            cct)
  unfolding add_merge_txs
  add_merge_txs-IsTallied contains tx_cache repeat_merge_txs merge_txs cct t =
      handle_all-IsTallied merge_txs _
        (repeat_all-IsTallied contains tx_cache repeat_merge_txs cct t)
