-- ===== src/Validator/Exception/GivesBack.antt =====
-- The loop of `checkExceptionTransaction` that takes transactions off the end of the pool.
use l.Base.{
  ℕ, suc, ℤ, pos, ◌+◌, ◌≤◌, ◌<◌, ◌≡◌, ◌≢◌, refl, sym, ap, subst, ◌∙◌, String, true, false, none,
  some, List, [], ◌∷◌, length, eqb, ltb_ℤ, ltb, arith, inl, inr, All,
}
use l.Transaction.{Transaction}
use l.Elements.{Elem, unlink, UniqueIds}
use l.Validator.Account.{Account, done, panic, prev}
use l.Validator.Account.Commits.{prev_absent, unlink_absent}
use l.Validator.Exception.{back, is_at, give_back}
use l.Validator.Exception.Position.{NoncesFrom, In}

pub nonce-In :
    (s : ℕ) (next : Elem Transaction) (es : List (Elem Transaction))
    → NoncesFrom s es
    → In next es
    → s ≤ next.value.nonce
nonce-In s next [] row h = absurd h
nonce-In s next (x ∷ xs) row (inl here) =
    subst (λ (e : Elem Transaction). s ≤ e.value.nonce) here (omega (arith, row.0))
nonce-In s next (x ∷ xs) row (inr there) = omega (arith, nonce-In (s + 1) next xs row.1 there)

pub id-In :
    (n : ℕ) (next : Elem Transaction) (es : List (Elem Transaction))
    → All (λ y. y.id ≢ n) es
    → In next es
    → next.id ≢ n
id-In n next [] a h = absurd h
id-In n next (x ∷ xs) a (inl here) = subst (λ (e : Elem Transaction). e.id ≢ n) here a.0
id-In n next (x ∷ xs) a (inr there) = id-In n next xs a.1 there

-- Elements of one identity have one nonce, and the other way round.
same_nonce :
    (a b : Elem Transaction) (es : List (Elem Transaction))
    → UniqueIds es
    → In a es
    → In b es
    → a.id ≡ b.id
    → a.value.nonce ≡ b.value.nonce
same_nonce a b [] ids h k same = absurd h
same_nonce a b (x ∷ xs) ids (inl h) (inl k) same =
    ap (λ (e : Elem Transaction). e.value.nonce) (sym h ∙ k)
same_nonce a b (x ∷ xs) ids (inl h) (inr k) same =
    absurd (id-In x.id b xs ids.0 k (sym same ∙ sym (ap (λ (e : Elem Transaction). e.id) h)))
same_nonce a b (x ∷ xs) ids (inr h) (inl k) same =
    absurd (id-In x.id a xs ids.0 h (same ∙ sym (ap (λ (e : Elem Transaction). e.id) k)))
same_nonce a b (x ∷ xs) ids (inr h) (inr k) same = same_nonce a b xs ids.1 h k same

same_id :
    (s : ℕ) (a b : Elem Transaction) (es : List (Elem Transaction))
    → NoncesFrom s es
    → In a es
    → In b es
    → a.value.nonce ≡ b.value.nonce
    → a.id ≡ b.id
same_id s a b [] row h k same = absurd h
same_id s a b (x ∷ xs) row (inl h) (inl k) same = ap (λ (e : Elem Transaction). e.id) (sym h ∙ k)
same_id s a b (x ∷ xs) row (inl h) (inr k) same =
    let first : x.value.nonce ≡ a.value.nonce = ap (λ (e : Elem Transaction). e.value.nonce) h in
    absurd (omega (arith, nonce-In (s + 1) b xs row.1 k, row.0, first, same))
same_id s a b (x ∷ xs) row (inr h) (inl k) same =
    let first : x.value.nonce ≡ b.value.nonce = ap (λ (e : Elem Transaction). e.value.nonce) k in
    absurd (omega (arith, nonce-In (s + 1) a xs row.1 h, row.0, first, same))
same_id s a b (x ∷ xs) row (inr h) (inr k) same = same_id (s + 1) a b xs row.1 h k same

back_last :
    (s : ℕ) (es : List (Elem Transaction))
    → NoncesFrom s es
    → 0 < length es
    → (b : Elem Transaction) × (back es ≡ some b) × In b es × (b.value.nonce + 1 ≡ s + length es)
unfolding back
back_last s [] row h = absurd (omega arith)
back_last s (x ∷ []) row h = (x, refl, inl refl, omega (arith, row.0))
back_last s (x ∷ y ∷ ys) row h =
    let (b, last, there, nonce) = back_last (s + 1) (y ∷ ys) row.1 (omega arith) in
    (b, last, inr there, omega (arith, nonce))

module _ (hash : Transaction → String) (next : Elem Transaction) (amount : ℤ) (va : Account) (s : ℕ)
    (row : NoncesFrom s va.txs_list) (ids : UniqueIds va.txs_list) (there : In next va.txs_list)
    (short : ltb_ℤ amount (pos 0) ≡ true) where
  some_pooled : (es : List (Elem Transaction)) → In next es → 0 < length es
  some_pooled [] h = absurd h
  some_pooled (x ∷ xs) h = omega arith

  -- From the last one nothing is taken off.
  pub give_back_last :
      next.value.nonce + 1 ≡ s + length va.txs_list
      → give_back hash (length va.txs_list + 1) next (back va.txs_list) amount va ≡ done (va, true)
  unfolding give_back is_at
  give_back_last at_end =
      let (b, last, b_there, nonce) = back_last s va.txs_list row (some_pooled va.txs_list there) in
      let same : b.id ≡ next.id =
        same_id s b next va.txs_list row b_there there (omega (arith, nonce, at_end)) in
      let at : eqb b.id next.id ≡ true = ground (arith, same) in
      let one : length va.txs_list + 1 ≡ suc (length va.txs_list) = omega arith in
      rw (last, one, at) refl

  -- Behind any other, the last one is taken off, which has no predecessor then.
  pub give_back_panics :
      next.value.nonce + 1 < s + length va.txs_list
      → give_back hash (length va.txs_list + 1) next (back va.txs_list) amount va ≡ panic
  unfolding give_back is_at
  give_back_panics inside =
      let (b, last, b_there, nonce) = back_last s va.txs_list row (some_pooled va.txs_list there) in
      let apart : eqb b.id next.id ≡ false =
        ground (arith, nonce, inside, same_nonce b next va.txs_list ids b_there there) in
      let later : ltb b.value.nonce next.value.nonce ≡ false = ground (arith, nonce, inside) in
      let gone : prev b (unlink b va.txs_list) ≡ none =
        prev_absent b (unlink b va.txs_list) (unlink_absent b va.txs_list ids) in
      let one : length va.txs_list + 1 ≡ suc (length va.txs_list) = omega arith in
      rw (last, one, apart, later, short, gone) refl
