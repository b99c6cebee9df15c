-- ===== src/Base/Maps.antt =====
-- Go's maps as association lists. The order of the list stands for the order in which `range`
-- visits the entries, which Go leaves open: theorems speak of every list.
use Prim.Native.Nat.{◌+◌}
use mathlib.Core.Path.{◌≡◌, refl, subst, ap}
use mathlib.Core.Logic.{inl, inr}
use mathlib.Core.Bool.{Bool, true, false}
use mathlib.Core.Option.{Option, none, some}
use mathlib.Core.List.{List, [], ◌∷◌, ◌++◌}
use native.Mathlib.Omega.{arith}
use l.Base.Tests.{if◌then◌else◌, Bool-cases}
use l.Base.Keys.{Comparable, ◌==◌, ==_iff, ==_self}
use l.Base.Lists.{length, All}

abbrev pub Map {ℓ κ} : Type ℓ → Type κ → Type (ℓ ⊔ κ)
Map K V = List (K × V)

value_or {κ} : {V : Type κ} → V → Option V → V
value_or v none = v
value_or v (some w) = w

module _ {ℓ κ} {K : Type ℓ} {V : Type κ} ⦃e : Comparable K⦄ where
  unfoldable pub lookup : K → Map K V → Option V
  lookup key ((at, value) ∷ rest) = if at == key then some value else lookup key rest
  lookup key [] = none

  -- A key that is there keeps its place.
  unfoldable pub insert : K → V → Map K V → Map K V
  insert key new ((at, value) ∷ rest) =
      let later = insert key new rest in
      if at == key then (key, new) ∷ rest else (at, value) ∷ later
  insert key new [] = (key, new) ∷ []

  unfoldable pub delete : K → Map K V → Map K V
  delete k [] = []
  delete k ((j, w) ∷ m) = let rest = delete k m in if j == k then rest else (j, w) ∷ rest

  pub lookup-insert :
      (key other : K) (new : V) (entries : Map K V)
      → lookup other (insert key new entries)
        ≡ (if key == other then some new else lookup other entries)
  unfolding lookup insert
  lookup-insert key other new ((at, value) ∷ rest) =
      ground
        (arith, lookup-insert key other new rest, ==_iff at key, ==_iff at other, ==_iff key other)
  lookup-insert key other new [] = refl

  pub lookup-insert_self :
      (key : K) (new : V) (entries : Map K V) → lookup key (insert key new entries) ≡ some new
  lookup-insert_self key new entries = rw (lookup-insert key key new entries, ==_self key) refl

  pub lookup-delete :
      (k j : K) (m : Map K V) → lookup j (delete k m) ≡ (if k == j then none else lookup j m)
  unfolding lookup delete
  lookup-delete k j [] = ground arith
  lookup-delete k j ((i, w) ∷ m) =
      ground (arith, ==_iff k j, ==_iff i k, ==_iff i j, lookup-delete k j m)

  -- A new key makes one more entry.
  pub length-insert_new :
      (k : K) (v : V) (m : Map K V) → lookup k m ≡ none → length (insert k v m) ≡ length m + 1
  unfolding lookup insert
  length-insert_new k v [] h = omega arith
  length-insert_new k v ((j, w) ∷ m) h = ground (arith, length-insert_new k v m)

  pub insert_new-append :
      (k : K) (v : V) (m : Map K V) → lookup k m ≡ none → insert k v m ≡ m ++ ((k, v) ∷ [])
  unfolding lookup insert
  insert_new-append k v [] h = refl
  insert_new-append k v ((j, w) ∷ m) h = ground (arith, insert_new-append k v m)

  -- Each key stands once.
  abbrev pub IsDistinct : Map K V → Type κ
  IsDistinct [] = Unit {κ}
  IsDistinct ((k, v) ∷ m) = (lookup k m ≡ none) × IsDistinct m

  pub insert-IsDistinct : (k : K) (v : V) (m : Map K V) → IsDistinct m → IsDistinct (insert k v m)
  unfolding lookup insert
  insert-IsDistinct k v [] d = (refl, tt)
  insert-IsDistinct k v ((j, w) ∷ m) d =
      ground (arith, ==_iff j k, ==_iff k j, lookup-insert k j v m, insert-IsDistinct k v m)

  -- A property of all entries.
  pub All-insert {ν} :
      (P : K × V → Type ν) (k : K) (v : V) (m : Map K V) → All P m → P (k, v) → All P (insert k v m)
  unfolding insert
  All-insert P k v [] h p = (p, tt)
  All-insert P k v ((j, w) ∷ m) (h, hm) p = elim (Bool-cases (j == k)) [
    | inl same ↦ rw same (p, hm)
    | inr apart ↦ rw apart (h, All-insert P k v m hm p)
  ]

  pub All-delete {ν} : (P : K × V → Type ν) (k : K) (m : Map K V) → All P m → All P (delete k m)
  unfolding delete
  All-delete P k [] h = tt
  All-delete P k ((j, w) ∷ m) (h, hm) = elim (Bool-cases (j == k)) [
    | inl same ↦ rw same (All-delete P k m hm)
    | inr apart ↦ rw apart (h, All-delete P k m hm)
  ]

  entry_at {ν} :
      (P : K × V → Type ν) (at : Bool) (k j : K) (v w : V) (rest : Option V)
      → (at ≡ true → j ≡ k)
      → P (j, w)
      → (rest ≡ some v → P (k, v))
      → (if at then some w else rest) ≡ some v
      → P (k, v)
  unfolding value_or
  entry_at P true k j v w rest same h later e =
      subst (λ u. P (k, u)) (ap (value_or w) e) (subst (λ i. P (i, w)) (same refl) h)
  entry_at P false k j v w rest same h later e = later e

  pub All-lookup {ν} :
      (P : K × V → Type ν) (k : K) (v : V) (m : Map K V) → All P m → lookup k m ≡ some v → P (k, v)
  unfolding lookup
  All-lookup P k v [] h e = cc
  All-lookup P k v ((j, w) ∷ m) (h, hm) e =
      entry_at P (j == k) k j v w (lookup k m) (λ same. (==_iff j k).0 same) h
        (All-lookup P k v m hm) e
