-- ===== src/Blockchain/Orphans.antt =====
-- What the service does with the outputs that came too early.
use l.Base.{
  ℕ, suc, ◌+◌, ◌%◌, ◌^◌, ◌≡◌, ◌≢◌, refl, ap, ◌∙◌, subst, List, [], ◌∷◌, none, some, ltb, eqb,
  eqb_self, if◌then◌else◌, arith, All, Bool-cases, inl, inr,
}
use l.Elements.{Elem, unlink, UniqueIds}
use l.Transaction.{Transaction}
use l.Lbft.Blocks.{OutputTxs}
use l.Validator.Account.{Outcome, done, panic, out_of_fuel}
use l.Validator.Accounts.{Validator}
use l.Validator.Pool.{get_committed_txs}
use l.Blockchain.{
  Blockchain, Services, proceed, relay, process_consensus_output, process_orphans, next,
  generate_block,
}

next_absent :
    (e : Elem OutputTxs) (es : List (Elem OutputTxs)) → All (λ y. y.id ≢ e.id) es → next e es ≡ none
unfolding next
next_absent e [] h = refl
next_absent e (x ∷ []) h = refl
next_absent e (x ∷ y ∷ ys) (apart, h) = ground (arith, next_absent e (y ∷ ys) h)

unlink_first : (e : Elem OutputTxs) (es : List (Elem OutputTxs)) → unlink e (e ∷ es) ≡ es
unfolding unlink
unlink_first e es = rw (eqb_self e.id) refl

module _ {C : Type 0} (s : Services C) where
  -- What consensus delivers leaves the orphans and the current header as they are.
  abbrev pub Kept : Blockchain C → Outcome (Blockchain C) → Type 0
  Kept bc (done bc') =
      (bc'.orphans ≡ bc.orphans) × (bc'.current_block_header ≡ bc.current_block_header)
  Kept bc panic = Unit {0}
  Kept bc out_of_fuel = Unit {0}

  relay-Kept :
      (output : OutputTxs) (bc : Blockchain C) (r : Outcome (Validator × (List Transaction × ℕ)))
      → Kept bc (
          proceed r (λ (vr, (txs, time)).
            done (relay output (generate_block s txs time bc) (record bc { tx_validator = vr }))))
  unfolding relay proceed
  relay-Kept output bc panic = tt
  relay-Kept output bc out_of_fuel = tt
  relay-Kept output bc (done (vr, (txs, time))) =
      elim (Bool-cases (eqb (generate_block s txs time bc).header.height output.height)) [
        | inl same ↦ rw same (refl, refl)
        | inr other ↦ rw other (refl, refl)
      ]

  pub process_consensus_output-Kept :
      (output : OutputTxs) (bc : Blockchain C) → Kept bc (process_consensus_output s output bc)
  unfolding process_consensus_output
  process_consensus_output-Kept output bc =
      relay-Kept output bc
        (get_committed_txs s.balance s.chain.hash s.difference output.outputs bc.tx_validator)

  -- Behind the processed element there is nothing left to look at.
  ends :
      (fuel height : ℕ) (e : Elem OutputTxs) (es : List (Elem OutputTxs)) (bc : Blockchain C)
      (r : Outcome (Blockchain C))
      → All (λ y. y.id ≢ e.id) es
      → bc.orphans ≡ es
      → Kept bc r
      → proceed r (λ bc'. process_orphans s fuel height (next e bc'.orphans) bc') ≡ r
  unfolding proceed process_orphans
  ends fuel height e es bc panic apart left kept = refl
  ends fuel height e es bc out_of_fuel apart left kept = refl
  ends fuel height e es bc (done bc') apart left kept =
      let none_left : next e bc'.orphans ≡ none =
        ap (next e) (kept.0 ∙ left) ∙ next_absent e es apart in
      rw none_left refl

  -- The loop over the orphans looks at the first one and at no other, since the element has no
  -- successor once it is removed: it is dropped if it is too low, processed if it has the height, and
  -- left otherwise. It never runs out of fuel by itself, however little above one step it has.
  pub process_orphans_lem :
      (fuel height : ℕ) (e : Elem OutputTxs) (es : List (Elem OutputTxs)) (bc : Blockchain C)
      → bc.orphans ≡ e ∷ es
      → UniqueIds bc.orphans
      → process_orphans s (suc fuel) height (some e) bc ≡ (
          if ltb e.value.height height
          then done (record bc { orphans = es })
          else if eqb e.value.height height
          then process_consensus_output s e.value (record bc { orphans = es })
          else done bc)
  unfolding process_orphans
  process_orphans_lem fuel height e es bc first unique =
      let apart : All (λ y. y.id ≢ e.id) es = (subst UniqueIds first unique).0 in
      let after : Blockchain C = record bc { orphans = es } in
      let removed : unlink e bc.orphans ≡ es = ap (unlink e) first ∙ unlink_first e es in
      let processed =
        ends fuel ((height + 1) % 2 ^ 32) e es after (process_consensus_output s e.value after)
          apart refl (process_consensus_output-Kept e.value after) in
      rw (removed, next_absent e es apart) (rw processed refl)
