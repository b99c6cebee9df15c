-- ===== src/State/Views.antt =====
-- The balance of an account as a block sees it: the cached one, or else the stored one.
use l.Base.{
  ◌≡◌, refl, ap, subst, ◌∙◌, Bool-cases, lookup-insert_self, String, none, some, arith, lookup,
  insert, if◌then◌else◌, string_eq, ◌==◌, ==_iff, lookup-insert, Option-cases, inl, inr,
}
use l.State.{Balance, Stored, Result, ok, err, Cache, get_balance, get_tmp_balance}

unfoldable pub view : (String → Stored) → Cache → String → Result Balance
view db tmp a = elim (lookup a tmp) [ some b ↦ ok b | none ↦ get_balance db a ]

pub view-insert :
    (db : String → Stored) (a j : String) (b : Balance) (tmp : Cache)
    → view db (insert a b tmp) j ≡ (if a == j then ok b else view db tmp j)
unfolding view
view-insert db a j b tmp = ground (arith, lookup-insert a j b tmp)

-- To fetch a balance returns what is seen, and changes nothing that is seen.
pub get_tmp_balance-view :
    (db : String → Stored) (a : String) (tmp : Cache) → (get_tmp_balance db a tmp).1 ≡ view db tmp a
unfolding view get_tmp_balance
get_tmp_balance-view db a tmp = ground arith

-- What the fetch leaves in the cache, by what the database answers.
after_fetch :
    (db : String → Stored) (a : String) (tmp : Cache) (r : Result Balance)
    → lookup a tmp ≡ none
    → get_balance db a ≡ r
    → (get_tmp_balance db a tmp).0 ≡ elim r [ err e ↦ tmp | ok b ↦ insert a b tmp ]
unfolding get_tmp_balance
after_fetch db a tmp (err e) new answer = ground arith
after_fetch db a tmp (ok b) new answer = ground arith

view_fetched :
    (db : String → Stored) (a j : String) (tmp : Cache) (r : Result Balance)
    → lookup a tmp ≡ none
    → get_balance db a ≡ r
    → view db (elim r [ err e ↦ tmp | ok b ↦ insert a b tmp ]) j ≡ view db tmp j
unfolding view
view_fetched db a j tmp (err e) new answer = refl
view_fetched db a j tmp (ok b) new answer = elim (Bool-cases (a == j)) [
  | inl same ↦
      let at : a ≡ j = (==_iff a j).0 same in
      subst
        (λ i.
          elim (lookup i (insert a b tmp)) [ some c ↦ ok c | none ↦ get_balance db i ]
          ≡ elim (lookup i tmp) [ some c ↦ ok c | none ↦ get_balance db i ])
        at (rw (lookup-insert_self a b tmp, new, answer))
  | inr other ↦ ground (arith, lookup-insert a j b tmp)
]

pub view-get_tmp_balance :
    (db : String → Stored) (a j : String) (tmp : Cache)
    → view db (get_tmp_balance db a tmp).0 j ≡ view db tmp j
view-get_tmp_balance db a j tmp = elim (Option-cases (lookup a tmp)) [
  | inr (b, cached) ↦ ap (λ c. view db c j) (cached_fetch db a b tmp cached)
  | inl new ↦
      ap (λ c. view db c j) (after_fetch db a tmp (get_balance db a) new refl)
      ∙ view_fetched db a j tmp (get_balance db a) new refl
]
  where
    cached_fetch :
        (db : String → Stored) (a : String) (b : Balance) (tmp : Cache)
        → lookup a tmp ≡ some b
        → (get_tmp_balance db a tmp).0 ≡ tmp
    cached_fetch db a b tmp cached = unfold get_tmp_balance in ground arith
