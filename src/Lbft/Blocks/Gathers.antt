-- ===== src/Lbft/Blocks/Gathers.antt =====
-- Nothing that is delivered is lost, doubled or reordered on its way to the block chain.
use mathlib.Core.List.{append-nil, append_assoc, map-append}
use l.Base.{
  ℕ, ◌+◌, ◌≡◌, refl, ap, sym, ◌∙◌, ◌||◌, String, List, [], ◌∷◌, ◌++◌, map, eqb, string_eq, ◌==◌,
  Bool-cases, inl, inr,
}
use l.Transaction.{Transaction}
use l.Lbft.Message.{from_chain}
use l.Lbft.Blocks.{
  CommittedRequestBatch, CommittedTxs, OutputTxs, Writer, outputs_from, write_block, is_own, gather,
  gather_all,
}

-- A batch as the block chain sees it: its number and its transactions.
abbrev pub Line : Type 0
Line = ℕ × List Transaction

abbrev pub line : CommittedRequestBatch → Line
line ctt = (ctt.seq_no, ctt.request_batch.requests)

abbrev line_out : CommittedTxs → Line
line_out cts = (cts.seq_no, cts.transactions)

abbrev pub lines_sent : List OutputTxs → List Line
lines_sent [] = []
lines_sent (o ∷ os) = map line_out o.outputs ++ lines_sent os

-- All that a writer has sent, and then all that it holds.
abbrev pub lines : Writer → List Line
lines w = lines_sent w.sent ++ map line w.block

outputs_lines :
    (own : String) (num : ℕ) (ctts : List CommittedRequestBatch)
    → map line_out (outputs_from own num ctts) ≡ map line ctts
unfolding outputs_from
outputs_lines own num [] = refl
outputs_lines own num (ctt ∷ ctts) = elim (Bool-cases (from_chain ctt.request_batch == own)) [
  | inl local_ ↦ rw local_ (ap (◌∷◌ (line ctt)) (outputs_lines own (num + 1) ctts))
  | inr foreign_ ↦ rw foreign_ (ap (◌∷◌ (line ctt)) (outputs_lines own num ctts))
]

lines_sent-append :
    (os : List OutputTxs) (o : OutputTxs)
    → lines_sent (os ++ (o ∷ [])) ≡ lines_sent os ++ map line_out o.outputs
lines_sent-append [] o = append-nil (map line_out o.outputs)
lines_sent-append (x ∷ os) o =
    ap (◌++◌ (map line_out x.outputs)) (lines_sent-append os o)
    ∙ sym (append_assoc (map line_out x.outputs) (lines_sent os) (map line_out o.outputs))

write_block-lines : (own : String) (w : Writer) → lines_sent (write_block own w).sent ≡ lines w
unfolding write_block
write_block-lines own w = go w.block w refl
  where
    go :
        (block : List CommittedRequestBatch) (w : Writer)
        → w.block ≡ block
        → lines_sent (write_block own w).sent ≡ lines w
    go [] w e = rw (e, write_block) (sym (append-nil (lines_sent w.sent)))
    go (ctt ∷ ctts) w e =
        rw (e, write_block)
          (lines_sent-append w.sent _
            ∙ ap (◌++◌ (lines_sent w.sent)) (outputs_lines own 0 (ctt ∷ ctts)))

held :
    (os : List OutputTxs) (block : List CommittedRequestBatch) (ctt : CommittedRequestBatch)
    → lines_sent os ++ map line (block ++ (ctt ∷ []))
      ≡ (lines_sent os ++ map line block) ++ (line ctt ∷ [])
held os block ctt =
    ap (◌++◌ (lines_sent os)) (map-append line block (ctt ∷ []))
    ∙ sym (append_assoc (lines_sent os) (map line block) (line ctt ∷ []))

-- A delivered batch is added at the end.
gather-lines :
    (own : String) (ctt : CommittedRequestBatch) (w : Writer)
    → lines (gather own ctt w) ≡ lines w ++ (line ctt ∷ [])
unfolding gather
gather-lines own ctt w = elim (Bool-cases (is_own own ctt.request_batch)) [
  | inr foreign_ ↦ rw foreign_ (held w.sent w.block ctt)
  | inl mine ↦ elim (Bool-cases (eqb w.height 0 || eqb w.height ctt.request_batch.height)) [
    | inl same ↦ rw (mine, same) (held w.sent w.block ctt)
    | inr new ↦ rw (mine, new) (ap (λ ls. ls ++ (line ctt ∷ [])) (write_block-lines own w))
  ]
]

-- Whatever batches are delivered, what has been sent and what is held make up all of them, with
-- their numbers and transactions, in the order of delivery.
pub gather_all-lines :
    (own : String) (ctts : List CommittedRequestBatch) (w : Writer)
    → lines (gather_all own ctts w) ≡ lines w ++ map line ctts
unfolding gather_all
gather_all-lines own [] w = sym (append-nil (lines w))
gather_all-lines own (ctt ∷ ctts) w =
    gather_all-lines own ctts (gather own ctt w)
    ∙ ap (λ ls. ls ++ map line ctts) (gather-lines own ctt w)
    ∙ append_assoc (lines w) (line ctt ∷ []) (map line ctts)
