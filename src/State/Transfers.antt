-- ===== src/State/Transfers.antt =====
-- What a transfer does to the balances that are seen.
use l.Base.{
  ℤ, pos, ◌+ℤ◌, ◌-ℤ◌, ◌≤ℤ◌, int_laws, ◌≡◌, ◌≢◌, refl, sym, subst, ◌∙◌, ap, ◌⊎◌, inl, inr, Bool,
  true, false, not, ◌&&◌, String, List, [], ◌∷◌, arith, insert, if◌then◌else◌, string_eq, ◌==◌,
  ==_iff, Bool-cases,
}
use l.Transaction.{TxType, issue, other}
use l.State.{
  Balance, Stored, Result, ok, err, Cache, negative_balance, get_tmp_balance, check_balance,
  transfer, credit, plus, sub, is_issue,
}
use l.State.Views.{view, view-insert, get_tmp_balance-view, view-get_tmp_balance}

abbrev pub debited : Balance → ℤ → Balance → Balance
debited b fee moved = record { amount = b.amount -ℤ fee -ℤ moved.amount; nonce = moved.nonce }

abbrev pub credited : Balance → Balance → Balance
credited c moved = record c { amount = c.amount +ℤ moved.amount }

-- A transfer between two accounts keeps their sum but for the fee.
pub debited-credited :
    (b c moved : Balance) (fee : ℤ)
    → (debited b fee moved).amount +ℤ (credited c moved).amount +ℤ fee ≡ b.amount +ℤ c.amount
debited-credited b c moved fee = omega int_laws

is_issue-issue : (type : TxType) → is_issue type ≡ true → type ≡ issue
is_issue-issue issue h = refl
is_issue-issue (other n) h = cc
is_issue-issue _ h = cc

module _ (db : String → Stored) (s r : String) (fee : ℤ) (moved : Balance) (type : TxType)
    (tmp : Cache) where
  transfer_fetched :
      (b : Balance)
      → view db tmp s ≡ ok b
      → s ≢ r
      → transfer db s r fee moved type tmp ≡ (
          if not (check_balance b.amount moved.amount fee sub) && not (is_issue type)
          then ((get_tmp_balance db s tmp).0, err negative_balance)
          else credit db s r moved type
              (debited b fee moved)
              (insert s (debited b fee moved) (get_tmp_balance db s tmp).0))
  unfolding transfer
  transfer_fetched b seen apart = ground (arith, get_tmp_balance-view db s tmp, ==_iff s r)

  -- The balance of the recipient is seen through the debit of the sender.
  pub credit_fetched :
      (b' c : Balance) (tmp' : Cache)
      → view db tmp' r ≡ ok c
      → credit db s r moved type b' tmp' ≡ (
          if not (check_balance c.amount moved.amount (pos 0) plus) && not (is_issue type)
          then ((get_tmp_balance db r tmp').0, err negative_balance)
          else (
            insert r (credited c moved) (get_tmp_balance db r tmp').0,
            ok ((s, b') ∷ (r, credited c moved) ∷ []),
          ))
  unfolding credit
  credit_fetched b' c tmp' seen = ground (arith, get_tmp_balance-view db r tmp')

  -- The cache when the sender has been debited.
  abbrev paid : Balance → Cache
  paid b = insert s (debited b fee moved) (get_tmp_balance db s tmp).0

  view-paid :
      (b : Balance) (j : String)
      → view db (paid b) j ≡ (if s == j then ok (debited b fee moved) else view db tmp j)
  view-paid b j =
      view-insert db s j (debited b fee moved) _
      ∙ ap (λ v. if s == j then ok (debited b fee moved) else v) (view-get_tmp_balance db s j tmp)

  -- The sender can pay if the fee and the amount leave nothing negative, or the type is an issue;
  -- the recipient accepts if its balance does not end up negative, or the type is an issue.
  abbrev pub CanPay : Balance → Type 0
  CanPay b = (pos 0 ≤ℤ (debited b fee moved).amount) ⊎ (type ≡ issue)

  abbrev pub Accepts : Balance → Type 0
  Accepts c = (pos 0 ≤ℤ (credited c moved).amount) ⊎ (type ≡ issue)

  refuses : Balance → Bool
  refuses b = not (check_balance b.amount moved.amount fee sub) && not (is_issue type)

  declines : Balance → Bool
  declines c = not (check_balance c.amount moved.amount (pos 0) plus) && not (is_issue type)

  can_pay : (b : Balance) → CanPay b → refuses b ≡ false
  unfolding refuses check_balance
  can_pay b (inl h) = ground arith
  can_pay b (inr h) = ground (arith, ap is_issue h)

  cannot_pay : (b : Balance) → ¬ CanPay b → refuses b ≡ true
  unfolding refuses check_balance
  cannot_pay b h = elim (Bool-cases (is_issue type)) [
    | inl e ↦ absurd (h (inr (is_issue-issue type e)))
    | inr e ↦ rw e (ground (arith, λ (e : pos 0 ≤ℤ (debited b fee moved).amount). h (inl e)))
  ]

  accepts : (c : Balance) → Accepts c → declines c ≡ false
  unfolding declines check_balance
  accepts c (inl h) = ground arith
  accepts c (inr h) = ground (arith, ap is_issue h)

  not-Accepts : (c : Balance) → ¬ Accepts c → declines c ≡ true
  unfolding declines check_balance
  not-Accepts c h = elim (Bool-cases (is_issue type)) [
    | inl e ↦ absurd (h (inr (is_issue-issue type e)))
    | inr e ↦ rw e (ground (arith, λ (e : pos 0 ≤ℤ (credited c moved).amount). h (inl e)))
  ]

  -- What a caller sees after a transfer: the answer, and every balance.
  abbrev pub Shows :
      Cache × Result (List (String × Balance))
      → Result (List (String × Balance))
      → (String → Result Balance)
      → Type 0
  Shows result answer seen = (result.1 ≡ answer) × ((j : String) → view db result.0 j ≡ seen j)

  module _ (b c : Balance) (apart : s ≢ r) (sees : view db tmp s ≡ ok b)
      (seer : view db tmp r ≡ ok c) where
    seen_recipient : view db (paid b) r ≡ ok c
    seen_recipient = view-paid b r ∙ ground (arith, ==_iff s r)

    -- Between two different accounts that are seen, a transfer that the sender cannot pay is
    -- refused, and no balance that is seen changes.
    pub transfer_refused :
        ¬ CanPay b → Shows (transfer db s r fee moved type tmp) (err negative_balance) (view db tmp)
    unfolding refuses
    transfer_refused poor =
        let e : transfer db s r fee moved type tmp
            ≡ ((get_tmp_balance db s tmp).0, err negative_balance) =
          ground (arith, transfer_fetched b sees apart, cannot_pay b poor) in
        subst (λ x. Shows x (err negative_balance) (view db tmp)) (sym e)
          (refl, λ j. view-get_tmp_balance db s j tmp)

    -- Between two different accounts that are seen, a transfer that the sender can pay but
    -- the recipient does not accept is refused, and from then on the sender is seen debited.
    pub transfer_half_done :
        CanPay b
        → ¬ Accepts c
        → Shows
            (transfer db s r fee moved type tmp)
            (err negative_balance)
            (λ j. if s == j then ok (debited b fee moved) else view db tmp j)
    unfolding refuses declines
    transfer_half_done rich full =
        let e : transfer db s r fee moved type tmp
            ≡ ((get_tmp_balance db r (paid b)).0, err negative_balance) =
          ground (
            arith,
            transfer_fetched b sees apart,
            can_pay b rich,
            credit_fetched (debited b fee moved) c (paid b) seen_recipient,
            not-Accepts c full,
          ) in
        subst
          (λ x.
            Shows x (err negative_balance)
              (λ j. if s == j then ok (debited b fee moved) else view db tmp j))
          (sym e) (refl, λ j. view-get_tmp_balance db r j (paid b) ∙ view-paid b j)

    -- Between two different accounts that are seen, a transfer that the sender can pay and
    -- the recipient accepts writes and shows both new balances, and no other balance that is
    -- seen changes.
    pub transfer_moves :
        CanPay b
        → Accepts c
        → Shows
            (transfer db s r fee moved type tmp)
            (ok ((s, debited b fee moved) ∷ (r, credited c moved) ∷ []))
            (λ j.
              if r == j
              then ok (credited c moved)
              else if s == j
              then ok (debited b fee moved)
              else view db tmp j)
    unfolding refuses declines
    transfer_moves rich open_ =
        let answer = ok ((s, debited b fee moved) ∷ (r, credited c moved) ∷ []) in
        let e : transfer db s r fee moved type tmp
            ≡ (insert r (credited c moved) (get_tmp_balance db r (paid b)).0, answer) =
          ground (
            arith,
            transfer_fetched b sees apart,
            can_pay b rich,
            credit_fetched (debited b fee moved) c (paid b) seen_recipient,
            accepts c open_,
          ) in
        subst
          (λ x. Shows x answer (λ j.
            if r == j
            then ok (credited c moved)
            else if s == j
            then ok (debited b fee moved)
            else view db tmp j))
          (sym e)
          (
            refl,
            λ j.
                view-insert db r j (credited c moved) _
                ∙ ap (λ v. if r == j then ok (credited c moved) else v)
                    (view-get_tmp_balance db r j (paid b) ∙ view-paid b j),
          )
