-- ===== src/Blockchain/Linked.antt =====
-- The block chain under any interleaving of its services.
use l.Base.{
  ℕ, zero, suc, ◌+◌, ◌%◌, ◌^◌, ◌≡◌, refl, ap, sym, ◌∙◌, subst, Bool, true, false, String, List, [],
  ◌∷◌, Option, none, some, ltb, eqb, if◌then◌else◌, string_eq, ◌==◌, ==_iff, arith,
}
use l.Elements.{Elem, unlink}
use l.Transaction.{Transaction}
use l.Lbft.Blocks.{OutputTxs}
use l.State.{ok, err, Result, WriteBatch}
use l.Validator.Account.{Outcome, done, panic, out_of_fuel}
use l.Validator.Pool.{Chains}
use l.Ledger.Store.{BlockHeader, Block, Ledger, append_block, settle_block}
use l.Blockchain.{
  Blockchain, Services, proceed, process_consensus_output, process_orphans, next, trim_orphans,
  push_orphan, handle_output, front, process_block, process_transaction,
}
use l.Blockchain.Orphans.{Kept, process_consensus_output-Kept}

module _ {C : Type 0} (s : Services C) where
  -- The current header stays.
  SameHeader : BlockHeader → Outcome (Blockchain C) → Type 0
  SameHeader h (done bc') = bc'.current_block_header ≡ h
  SameHeader h panic = Unit {0}
  SameHeader h out_of_fuel = Unit {0}

  SameHeader-done :
      (bc bc' : Blockchain C)
      → bc'.current_block_header ≡ bc.current_block_header
      → SameHeader bc.current_block_header (done bc')
  unfolding SameHeader
  SameHeader-done bc bc' h = h

  SameHeader-proceed :
      (bc : Blockchain C) (r : Outcome (Blockchain C)) (f : Blockchain C → Outcome (Blockchain C))
      → SameHeader bc.current_block_header r
      → ((bc' : Blockchain C) → SameHeader bc'.current_block_header (f bc'))
      → SameHeader bc.current_block_header (proceed r f)
  unfolding proceed SameHeader
  SameHeader-proceed bc panic f h g = tt
  SameHeader-proceed bc out_of_fuel f h g = tt
  SameHeader-proceed bc (done bc') f h g = moved bc bc' (f bc') h (g bc')
    where
      moved :
          (bc bc' : Blockchain C) (r : Outcome (Blockchain C))
          → bc'.current_block_header ≡ bc.current_block_header
          → SameHeader bc'.current_block_header r
          → SameHeader bc.current_block_header r
      moved bc bc' (done bc'') h k = k ∙ h
      moved bc bc' panic h k = tt
      moved bc bc' out_of_fuel h k = tt

  SameHeader-consensus :
      (output : OutputTxs) (bc : Blockchain C)
      → SameHeader bc.current_block_header (process_consensus_output s output bc)
  unfolding SameHeader
  SameHeader-consensus output bc =
      only bc (process_consensus_output s output bc) (process_consensus_output-Kept s output bc)
    where
      only :
          (bc : Blockchain C) (r : Outcome (Blockchain C))
          → Kept s bc r
          → SameHeader bc.current_block_header r
      only bc (done bc') k = k.1
      only bc panic k = tt
      only bc out_of_fuel k = tt

  SameHeader-if :
      (test : Bool) (bc : Blockchain C) (p q : Outcome (Blockchain C))
      → SameHeader bc.current_block_header p
      → SameHeader bc.current_block_header q
      → SameHeader bc.current_block_header (if test then p else q)
  SameHeader-if true bc p q h k = h
  SameHeader-if false bc p q h k = k

  process_orphans-SameHeader :
      (fuel height : ℕ) (e : Option (Elem OutputTxs)) (bc : Blockchain C)
      → SameHeader bc.current_block_header (process_orphans s fuel height e bc)
  unfolding process_orphans SameHeader
  process_orphans-SameHeader zero height none bc = SameHeader-done bc bc refl
  process_orphans-SameHeader (suc fuel) height none bc = SameHeader-done bc bc refl
  process_orphans-SameHeader zero height (some e) bc = tt
  process_orphans-SameHeader (suc fuel) height (some e) bc =
      SameHeader-if (ltb e.value.height height) bc _ _
        (process_orphans-SameHeader fuel height _ (record bc { orphans = unlink e bc.orphans }))
        (SameHeader-if (eqb e.value.height height) bc _ _
          (SameHeader-proceed bc
            (process_consensus_output s e.value (record bc { orphans = unlink e bc.orphans })) _
            (SameHeader-consensus e.value (record bc { orphans = unlink e bc.orphans }))
            (λ bc'.
              process_orphans-SameHeader fuel ((height + 1) % 2 ^ 32) (next e bc'.orphans) bc'))
          (SameHeader-done bc bc refl))

  trim_orphans-header :
      (bc : Blockchain C) → (trim_orphans s bc).current_block_header ≡ bc.current_block_header
  unfolding trim_orphans front
  trim_orphans-header bc = ground arith

  handle_output-SameHeader :
      (output : OutputTxs) (bc : Blockchain C)
      → SameHeader bc.current_block_header (handle_output s output bc)
  unfolding handle_output
  handle_output-SameHeader output bc =
      SameHeader-if _ bc _ _ (SameHeader-consensus output (record bc { synced = true })) (
        SameHeader-if _ bc _ _
          (SameHeader-proceed bc (process_orphans s _ _ (front bc.orphans) bc) _
            (process_orphans-SameHeader _ _ (front bc.orphans) bc)
            (λ bc'.
              SameHeader-done bc' (push_orphan s output (trim_orphans s bc'))
                (trim_orphans-header bc')))
          (SameHeader-done bc bc refl))

  -- Blocks come from the relays and from other nodes, outputs from consensus, transactions from the
  -- network, in any order. The list holds the headers of the blocks that are taken.
  pub data Runs : Blockchain C → List BlockHeader → Blockchain C → Type 1 where
    stay : {bc : Blockchain C} → Runs bc [] bc
    take :
        {bc bc' bc'' : Blockchain C} {hs : List BlockHeader} (accepts flag : Bool) (blk : Block)
        → process_block s accepts blk flag bc ≡ (bc', true)
        → Runs bc' hs bc''
        → Runs bc (bc'.current_block_header ∷ hs) bc''
    refuse :
        {bc bc' bc'' : Blockchain C} {hs : List BlockHeader} (accepts flag : Bool) (blk : Block)
        → process_block s accepts blk flag bc ≡ (bc', false)
        → Runs bc' hs bc''
        → Runs bc hs bc''
    deliver :
        {bc bc' bc'' : Blockchain C} {hs : List BlockHeader} (output : OutputTxs)
        → handle_output s output bc ≡ done bc'
        → Runs bc' hs bc''
        → Runs bc hs bc''
    receive :
        {bc bc'' : Blockchain C} {hs : List BlockHeader} (chains : Chains) (issuers : List String)
        (signer : Transaction → Option String) (tx : Transaction)
        → Runs (process_transaction s chains issuers signer tx bc).0 hs bc''
        → Runs bc hs bc''

  -- A chain of headers from one to another: each names the hash of the one before.
  abbrev pub LinkedFrom : BlockHeader → List BlockHeader → BlockHeader → Type 0
  LinkedFrom h [] last = last ≡ h
  LinkedFrom h (x ∷ xs) last = (x.previous_hash ≡ s.header_hash h) × LinkedFrom x xs last

  abbrev step_or : Bool → Blockchain C → Blockchain C → Blockchain C × Bool
  step_or test x bc = if test then (x, true) else (bc, false)

  taken :
      (test : Bool) (x bc bc' : Blockchain C)
      → step_or test x bc ≡ (bc', true)
      → (test ≡ true) × (x ≡ bc')
  taken true x bc bc' h = (refl, ap (λ p. p.0) h)
  taken false x bc bc' h = cc

  refused : (test : Bool) (x bc bc' : Blockchain C) → step_or test x bc ≡ (bc', false) → bc ≡ bc'
  refused true x bc bc' h = cc
  refused false x bc bc' h = ap (λ p. p.0) h

  settle_block-previous_hash :
      (accepts : Bool) (blk : Block) (l : Ledger C)
      (r : Result (List WriteBatch × List Transaction))
      → (settle_block s.chain s.machine s.merkle accepts blk l r).0.0.header.previous_hash
        ≡ blk.header.previous_hash
  unfolding settle_block
  settle_block-previous_hash accepts blk l (err e) = refl
  settle_block-previous_hash accepts blk l (ok (batches, txs)) = refl

  append_block-previous_hash :
      (accepts flag : Bool) (blk : Block) (l : Ledger C)
      → (append_block s.chain s.machine s.merkle accepts flag blk l).0.0.header.previous_hash
        ≡ blk.header.previous_hash
  unfolding append_block
  append_block-previous_hash accepts flag blk l = settle_block-previous_hash accepts blk _ _

  process_block-links :
      (accepts flag : Bool) (blk : Block) (bc bc' : Blockchain C)
      → process_block s accepts blk flag bc ≡ (bc', true)
      → bc'.current_block_header.previous_hash ≡ s.header_hash bc.current_block_header
  unfolding process_block
  process_block-links accepts flag blk bc bc' h =
      let (names, moved) =
        taken (blk.header.previous_hash == s.header_hash bc.current_block_header) _ bc bc' h in
      ap (λ b. b.current_block_header.previous_hash) (sym moved)
      ∙ append_block-previous_hash accepts flag blk bc.ledger
      ∙ (==_iff blk.header.previous_hash (s.header_hash bc.current_block_header)).0 names

  process_block-refuses :
      (accepts flag : Bool) (blk : Block) (bc bc' : Blockchain C)
      → process_block s accepts blk flag bc ≡ (bc', false)
      → bc ≡ bc'
  unfolding process_block
  process_block-refuses accepts flag blk bc bc' h =
      refused (blk.header.previous_hash == s.header_hash bc.current_block_header) _ bc bc' h

  LinkedFrom-moved :
      (h k last : BlockHeader) (hs : List BlockHeader)
      → h ≡ k
      → LinkedFrom k hs last
      → LinkedFrom h hs last
  LinkedFrom-moved h k last hs e l = subst (λ x. LinkedFrom x hs last) (sym e) l

  SameHeader-at :
      (h : BlockHeader) (r : Outcome (Blockchain C)) (bc : Blockchain C)
      → SameHeader h r
      → r ≡ done bc
      → h ≡ bc.current_block_header
  unfolding SameHeader
  SameHeader-at h r bc k e = sym (subst (SameHeader h) e k)

  either :
      (test : Bool) (h : BlockHeader) (x y : Blockchain C × Bool)
      → h ≡ x.0.current_block_header
      → h ≡ y.0.current_block_header
      → h ≡ (if test then x else y).0.current_block_header
  either true h x y a b = a
  either false h x y a b = b

  -- Whatever the services do, and in whatever order, the headers of the blocks taken form a chain of
  -- hashes from the header at the beginning to the current one.
  pub Runs-LinkedFrom :
      {bc bc' : Blockchain C} {hs : List BlockHeader}
      → Runs bc hs bc'
      → LinkedFrom bc.current_block_header hs bc'.current_block_header
  unfolding process_transaction
  Runs-LinkedFrom stay = refl
  Runs-LinkedFrom (take accepts flag blk h rest) =
      (process_block-links accepts flag blk _ _ h, Runs-LinkedFrom rest)
  Runs-LinkedFrom (refuse accepts flag blk h rest) =
      LinkedFrom-moved _ _ _ _
        (ap (λ b. b.current_block_header) (process_block-refuses accepts flag blk _ _ h))
        (Runs-LinkedFrom rest)
  Runs-LinkedFrom (deliver output h rest) =
      LinkedFrom-moved _ _ _ _ (SameHeader-at _ _ _ (handle_output-SameHeader output _) h)
        (Runs-LinkedFrom rest)
  Runs-LinkedFrom (receive chains issuers signer tx rest) =
      LinkedFrom-moved _ _ _ _ (either _ _ _ _ refl refl) (Runs-LinkedFrom rest)
