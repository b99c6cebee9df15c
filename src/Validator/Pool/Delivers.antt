-- ===== src/Validator/Pool/Delivers.antt =====
-- What a block of consensus brings to the pool and to the ledger.
use mathlib.Core.List.{append-nil, append_assoc}
use l.Base.{
  ℕ, ◌+◌, ◌<◌, ◌≡◌, refl, sym, ◌∙◌, Bool, false, String, List, [], ◌∷◌, ◌++◌, eqb, if◌then◌else◌,
  string_eq, ◌==◌, arith, Bool-cases, inl, inr,
}
use l.Transaction.{Transaction}
use l.Lbft.Message.{from_chain}
use l.Lbft.Blocks.{CommittedRequestBatch, outputs_from}
use l.Validator.Pool.{Outputs, no_outputs, classify}

abbrev is_local : String → CommittedRequestBatch → Bool
is_local own ctt = from_chain ctt.request_batch == own

-- The transactions of the own chain's batches, of the other chains', and of all.
abbrev pub own_requests : String → List CommittedRequestBatch → List Transaction
own_requests own [] = []
own_requests own (ctt ∷ ctts) =
    (if is_local own ctt then ctt.request_batch.requests else []) ++ own_requests own ctts

abbrev pub foreign_requests : String → List CommittedRequestBatch → List Transaction
foreign_requests own [] = []
foreign_requests own (ctt ∷ ctts) =
    (if is_local own ctt then [] else ctt.request_batch.requests) ++ foreign_requests own ctts

abbrev pub all_requests : List CommittedRequestBatch → List Transaction
all_requests [] = []
all_requests (ctt ∷ ctts) = ctt.request_batch.requests ++ all_requests ctts

-- The first batch of the own chain, and the block without it.
abbrev pub first_own : String → List CommittedRequestBatch → List Transaction
first_own own [] = []
first_own own (ctt ∷ ctts) =
    if is_local own ctt then ctt.request_batch.requests else first_own own ctts

abbrev pub without_first_own : String → List CommittedRequestBatch → List CommittedRequestBatch
without_first_own own [] = []
without_first_own own (ctt ∷ ctts) =
    if is_local own ctt then ctts else ctt ∷ without_first_own own ctts

-- What `o` becomes when these are added at its ends.
abbrev pub Adds :
    Outputs
    → Outputs
    → List Transaction
    → List Transaction
    → List Transaction
    → List Transaction
    → Type 0
Adds o r total group o_chain committed =
    (r.total ≡ total)
    × (r.group ≡ o.group ++ group)
    × (r.o_chain ≡ o.o_chain ++ o_chain)
    × (r.committed ≡ o.committed ++ committed)

extend : (xs ys zs ws : List Transaction) → ws ≡ (xs ++ ys) ++ zs → ws ≡ xs ++ (ys ++ zs)
extend xs ys zs ws h = h ∙ append_assoc xs ys zs

counted : (n : ℕ) → 0 < n → eqb (n + 1) 1 ≡ false
counted n h = ground arith

classify_later :
    (own : String) (n : ℕ) (ctts : List CommittedRequestBatch) (o : Outputs)
    → 0 < n
    → Adds o
        (classify (outputs_from own n ctts) o)
        o.total
        (own_requests own ctts)
        (foreign_requests own ctts)
        (all_requests ctts)
unfolding classify outputs_from
classify_later own n [] o h =
    (refl, sym (append-nil o.group), sym (append-nil o.o_chain), sym (append-nil o.committed))
classify_later own n (ctt ∷ ctts) o h = elim (Bool-cases (is_local own ctt)) [
  | inl here ↦
      let i =
        classify_later own (n + 1) ctts
          (record o {
            group = o.group ++ ctt.request_batch.requests;
            committed = o.committed ++ ctt.request_batch.requests;
          })
          (omega arith) in
      rw (here, counted n h) (i.0, extend o.group _ _ _ i.1, i.2, extend o.committed _ _ _ i.3)
  | inr there ↦
      let i =
        classify_later own n ctts
          (record o {
            o_chain = o.o_chain ++ ctt.request_batch.requests;
            committed = o.committed ++ ctt.request_batch.requests;
          })
          h in
      rw there (i.0, i.1, extend o.o_chain _ _ _ i.2, extend o.committed _ _ _ i.3)
]

classify_first :
    (own : String) (ctts : List CommittedRequestBatch) (o : Outputs)
    → o.total ≡ []
    → Adds o
        (classify (outputs_from own 0 ctts) o)
        (first_own own ctts)
        (own_requests own (without_first_own own ctts))
        (foreign_requests own ctts)
        (all_requests (without_first_own own ctts))
unfolding classify outputs_from
classify_first own [] o e =
    (e, sym (append-nil o.group), sym (append-nil o.o_chain), sym (append-nil o.committed))
classify_first own (ctt ∷ ctts) o e = elim (Bool-cases (is_local own ctt)) [
  | inl here ↦ rw here (
      classify_later own 1 ctts
        (record o { block_time = ctt.request_batch.time; total = ctt.request_batch.requests })
        (omega arith))
  | inr there ↦
      let i =
        classify_first own ctts
          (record o {
            o_chain = o.o_chain ++ ctt.request_batch.requests;
            committed = o.committed ++ ctt.request_batch.requests;
          })
          e in
      rw there (i.0, rw there (i.1), extend o.o_chain _ _ _ i.2, extend o.committed _ _ _ i.3)
]

-- Of a block that `writeBlock` hands over, `GetCommittedTxs` takes the first batch of the own chain
-- for the total of the pool, the own chain's other batches for what passed, and those of other
-- chains for what came in; the ledger gets all transactions but those of the first, in order.
pub classify-outputs_from :
    (own : String) (ctts : List CommittedRequestBatch)
    → Adds no_outputs
        (classify (outputs_from own 0 ctts) no_outputs)
        (first_own own ctts)
        (own_requests own (without_first_own own ctts))
        (foreign_requests own ctts)
        (all_requests (without_first_own own ctts))
classify-outputs_from own ctts = classify_first own ctts no_outputs refl
