-- ===== src/Base/Keys.antt =====
-- Go's `==` on the keys of maps: a type that Go can compare, with what the comparison decides.
use l.Base.Tests.{eqb, eqb_iff, eqb_self}
use Prim.Native.Nat.{ℕ}
use mathlib.Core.Logic.{◌↔◌}
use mathlib.Core.Bool.{Bool, true, ◌&&◌}
use native.Mathlib.Omega.{arith}
use mathlib.Core.Path.{◌≡◌, refl, subst, ap₂}
use Prim.Native.String.{String}
use text.Mathlib.TextEquality.{eq_iff}
use text.Mathlib.Text.{◌==◌ as same_text}

pub record Comparable {ℓ} (K : Type ℓ) : Type ℓ where
  pub same : K → K → Bool
  pub same_self : (k : K) → same k k ≡ true
  pub same_sound : (k j : K) → same k j ≡ true → k ≡ j

instance abbrev pub string_eq : Comparable String
string_eq = record {
  same = same_text;
  same_self = λ s. (eq_iff s s).1 refl;
  same_sound = λ s t. (eq_iff s t).0;
}

instance abbrev pub nat_eq : Comparable ℕ
nat_eq = record { same = eqb; same_self = eqb_self; same_sound = λ n m. (eqb_iff n m).0 }

abbrev pub same_pair : String × String → String × String → Bool
same_pair k j = same_text k.0 j.0 && same_text k.1 j.1

pub same_pair_self : (k : String × String) → same_pair k k ≡ true
same_pair_self k = ground (arith, string_eq.same_self k.0, string_eq.same_self k.1)

pub same_pair_sound : (k j : String × String) → same_pair k j ≡ true → k ≡ j
same_pair_sound k j h =
    ap₂ (λ (a b : String). (a, b)) (string_eq.same_sound k.0 j.0 (ground (arith, h)))
      (string_eq.same_sound k.1 j.1 (ground (arith, h)))

instance abbrev pub pair_eq : Comparable (String × String)
pair_eq = record { same = same_pair; same_self = same_pair_self; same_sound = same_pair_sound }

module _ {ℓ} {K : Type ℓ} ⦃c : Comparable K⦄ where
  infix 50 ◌==◌
  abbrev pub ◌==◌ : K → K → Bool
  k == j = c.same k j

  pub ==_self : (k : K) → (k == k) ≡ true
  ==_self k = c.same_self k

  pub ==_iff : (k j : K) → ((k == j) ≡ true) ↔ (k ≡ j)
  ==_iff k j = (c.same_sound k j, λ h. subst (λ i. (k == i) ≡ true) h (c.same_self k))
