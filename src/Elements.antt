-- ===== src/Elements.antt =====
-- The doubly linked list of Go's container/list, as far as the containers use it: elements with an
-- identity (the pointer) and a value, and a map from keys to elements beside the list.
use l.Base.{
  ℕ, ◌+◌, ◌<◌, ◌≡◌, ◌≢◌, refl, subst, Bool, false, String, Option, none, some, List, [], ◌∷◌, ◌++◌,
  map, arith, All, eqb, eqb_self, if◌then◌else◌, ◌==◌, ==_iff, string_eq, Bool-cases, inl, inr,
}

pub record Elem (T : Type 0) : Type 0 where
  pub id : ℕ
  pub value : T

module _ {T : Type 0} where
  -- `list.Remove(e)`: the element with this identity goes, if the list holds it.
  unfoldable pub unlink : Elem T → List (Elem T) → List (Elem T)
  unlink e [] = []
  unlink e (x ∷ xs) = let rest = unlink e xs in if eqb x.id e.id then xs else x ∷ rest

  abbrev pub values : List (Elem T) → List T
  values = map (λ e. e.value)

  abbrev pub UniqueIds : List (Elem T) → Type 0
  UniqueIds [] = Unit {0}
  UniqueIds (x ∷ xs) = All (λ y. y.id ≢ x.id) xs × UniqueIds xs

  abbrev pub Below : ℕ → List (Elem T) → Type 0
  Below n = All (λ e. e.id < n)

  pub Below-suc : (n : ℕ) (xs : List (Elem T)) → Below n xs → Below (n + 1) xs
  Below-suc n [] b = tt
  Below-suc n (x ∷ xs) b = (omega arith, Below-suc n xs b.1)

  pub Below-fresh : (n : ℕ) (xs : List (Elem T)) → Below n xs → All (λ y. y.id ≢ n) xs
  Below-fresh n [] b = tt
  Below-fresh n (x ∷ xs) b = (omega arith, Below-fresh n xs b.1)

  pub unlink-All {ℓ} :
      (P : Elem T → Type ℓ) (e : Elem T) (xs : List (Elem T)) → All P xs → All P (unlink e xs)
  unfolding unlink
  unlink-All P e [] a = tt
  unlink-All P e (x ∷ xs) a = elim (Bool-cases (eqb x.id e.id)) [
    | inl hit ↦ rw hit a.1
    | inr miss ↦ rw miss (a.0, unlink-All P e xs a.1)
  ]

  pub unlink-UniqueIds : (e : Elem T) (xs : List (Elem T)) → UniqueIds xs → UniqueIds (unlink e xs)
  unfolding unlink
  unlink-UniqueIds e [] a = tt
  unlink-UniqueIds e (x ∷ xs) a = elim (Bool-cases (eqb x.id e.id)) [
    | inl hit ↦ rw hit a.1
    | inr miss ↦ rw miss (unlink-All _ e xs a.0, unlink-UniqueIds e xs a.1)
  ]

module _ {T : Type 0} (key : T → String) where
  -- The first element whose value has the key.
  unfoldable pub find_key : String → List (Elem T) → Option (Elem T)
  find_key k [] = none
  find_key k (x ∷ xs) = if key x.value == k then some x else find_key k xs

  abbrev pub UniqueKeys : List (Elem T) → Type 0
  UniqueKeys [] = Unit {0}
  UniqueKeys (x ∷ xs) = (find_key (key x.value) xs ≡ none) × UniqueKeys xs

  -- The list without the value that has the key.
  unfoldable pub without : String → List T → List T
  without k [] = []
  without k (t ∷ ts) = let rest = without k ts in if key t == k then rest else t ∷ rest

  pub find_key-key :
      (k : String) (e : Elem T) (xs : List (Elem T)) → find_key k xs ≡ some e → key e.value ≡ k
  unfolding find_key
  find_key-key k e [] h = cc
  find_key-key k e (x ∷ xs) h = ground (arith, find_key-key k e xs, ==_iff (key x.value) k)

  pub find_key-append :
      (k : String) (xs ys : List (Elem T))
      → find_key k (xs ++ ys) ≡ elim (find_key k xs) [ none ↦ find_key k ys | some e ↦ some e ]
  unfolding find_key
  find_key-append k [] ys = refl
  find_key-append k (x ∷ xs) ys = ground (arith, find_key-append k xs ys)

  pub find_key-All {ℓ} :
      (P : Elem T → Type ℓ) (k : String) (e : Elem T) (xs : List (Elem T))
      → All P xs
      → find_key k xs ≡ some e
      → P e
  unfolding find_key
  find_key-All P k e [] a h = cc
  find_key-All P k e (x ∷ xs) a h = elim (Bool-cases (key x.value == k)) [
    | inl hit ↦ subst P (ground arith) a.0
    | inr miss ↦ find_key-All P k e xs a.1 (ground arith)
  ]

  -- To unlink the element with a key is to look no more at that key.
  pub find_key-unlink :
      (k j : String) (e : Elem T) (xs : List (Elem T))
      → UniqueIds xs
      → UniqueKeys xs
      → find_key k xs ≡ some e
      → find_key j (unlink e xs) ≡ (if k == j then none else find_key j xs)
  unfolding find_key unlink
  find_key-unlink k j e [] a b h = cc
  find_key-unlink k j e (x ∷ xs) a b h = elim (Bool-cases (key x.value == k)) [
    | inl hit ↦
        let same : x ≡ e = ground arith in
        subst (λ y. find_key j (unlink y (x ∷ xs)) ≡ (if k == j then none else find_key j (x ∷ xs)))
          same
          (rw (eqb_self x.id)
            (ground (arith, ==_iff (key x.value) k, ==_iff (key x.value) j, ==_iff k j, b.0)))
    | inr miss ↦
        let later : find_key k xs ≡ some e = ground arith in
        let apart : eqb x.id e.id ≡ false =
          ground (arith, find_key-All (λ y. y.id ≢ x.id) k e xs a.0 later) in
        rw apart (
          ground (
            arith,
            ==_iff (key x.value) k,
            ==_iff (key x.value) j,
            ==_iff k j,
            find_key-unlink k j e xs a.1 b.1 later,
          ))
  ]

  without-none :
      (k : String) (xs : List (Elem T)) → find_key k xs ≡ none → without k (values xs) ≡ values xs
  unfolding find_key without
  without-none k [] h = refl
  without-none k (x ∷ xs) h = ground (arith, without-none k xs)

  pub without-unlink :
      (k : String) (e : Elem T) (xs : List (Elem T))
      → UniqueIds xs
      → UniqueKeys xs
      → find_key k xs ≡ some e
      → values (unlink e xs) ≡ without k (values xs)
  unfolding find_key unlink without
  without-unlink k e [] a b h = cc
  without-unlink k e (x ∷ xs) a b h = ground (
    arith,
    ==_iff (key x.value) k,
    find_key-All (λ y. y.id ≢ x.id) k e xs a.0,
    without-none k xs,
    b.0,
    without-unlink k e xs a.1 b.1,
  )

  pub unlink-UniqueKeys :
      (k : String) (e : Elem T) (xs : List (Elem T))
      → UniqueIds xs
      → UniqueKeys xs
      → find_key k xs ≡ some e
      → UniqueKeys (unlink e xs)
  unfolding find_key unlink
  unlink-UniqueKeys k e [] a b h = cc
  unlink-UniqueKeys k e (x ∷ xs) a b h = elim (Bool-cases (eqb x.id e.id)) [
    | inl hit ↦ rw hit b.1
    | inr miss ↦ rw miss (
      ground (arith, find_key-unlink k (key x.value) e xs a.1 b.1, b.0),
      unlink-UniqueKeys k e xs a.1 b.1 (ground (arith)),
    )
  ]

-- A scan from the back for the first item that passes the test, and `InsertAfter` it.
module _ {ℓ} {A : Type ℓ} where
  unfoldable pub insert_back : (A → Bool) → A → List A → Option (List A)
  insert_back test a [] = none
  insert_back test a (x ∷ xs) = elim (insert_back test a xs) [
    | some placed ↦ some (x ∷ placed)
    | none ↦ if test x then some (x ∷ a ∷ xs) else none
  ]
