-- ===== src/Ledger/Then.antt =====
-- Lemmas on `and_then`: what holds of steps in a row, each of which may fail.
use l.Base.{◌≡◌, refl, ap, subst}
use l.State.{Result, ok, err}
use l.Ledger.{and_then}

value_or : {A : Type 0} → A → Result A → A
value_or a (ok b) = b
value_or a (err e) = a

unfoldable pub on_ok : {W A B : Type 0} → (A → B) → W × Result A → W × Result B
on_ok f (w, ok a) = (w, ok (f a))
on_ok f (w, err e) = (w, err e)

unfoldable pub IfOk : {W A : Type 0} → (A → Type 0) → W × Result A → Type 0
IfOk P (w, ok a) = P a
IfOk P (w, err e) = Unit {0}

pub IfOk-at :
    {W A : Type 0} (P : A → Type 0) (p : W × Result A) (w : W) (a : A)
    → IfOk P p
    → p ≡ (w, ok a)
    → P a
unfolding IfOk value_or
IfOk-at P (w', ok b) w a q h = subst P (ap (λ r. value_or b r.1) h) q
IfOk-at P (w', err e) w a q h = cc

pub IfOk-weaken :
    {W A : Type 0} (Q P : A → Type 0) (p : W × Result A)
    → ((a : A) → Q a → P a)
    → IfOk Q p
    → IfOk P p
unfolding IfOk
IfOk-weaken Q P (w, ok a) h q = h a q
IfOk-weaken Q P (w, err e) h q = tt

module _ {W A B : Type 0} where
  pub and_then_ok :
      (p : W × Result A) (f : A → W → W × Result B) (w' : W) (b : B)
      → and_then p f ≡ (w', ok b)
      → (w : W) × (a : A) × (p ≡ (w, ok a)) × (f a w ≡ (w', ok b))
  unfolding and_then
  and_then_ok (w, ok a) f w' b h = (w, a, refl, h)
  and_then_ok (w, err e) f w' b h = cc

  pub and_then_cong :
      (p : W × Result A) (f g : A → W → W × Result B)
      → ((a : A) (w : W) → f a w ≡ g a w)
      → and_then p f ≡ and_then p g
  unfolding and_then
  and_then_cong (w, ok a) f g h = h a w
  and_then_cong (w, err e) f g h = refl

  pub on_ok-and_then :
      {D : Type 0} (f : A → B) (p : W × Result D) (g : D → W → W × Result A)
      → on_ok f (and_then p g) ≡ and_then p (λ d w. on_ok f (g d w))
  unfolding on_ok and_then
  on_ok-and_then f (w, ok d) g = refl
  on_ok-and_then f (w, err e) g = refl

  pub and_then_assoc :
      {D : Type 0} (p : W × Result D) (f : D → W → W × Result A) (g : A → W → W × Result B)
      → and_then (and_then p f) g ≡ and_then p (λ d w. and_then (f d w) g)
  unfolding and_then
  and_then_assoc (w, ok d) f g = refl
  and_then_assoc (w, err e) f g = refl

  pub IfOk-and_then :
      (Q : A → Type 0) (P : B → Type 0) (p : W × Result A) (f : A → W → W × Result B)
      → IfOk Q p
      → ((a : A) (w : W) → Q a → IfOk P (f a w))
      → IfOk P (and_then p f)
  unfolding and_then IfOk
  IfOk-and_then Q P (w, ok a) f q h = h a w q
  IfOk-and_then Q P (w, err e) f q h = tt

  pub IfOk-then :
      (P : B → Type 0) (p : W × Result A) (f : A → W → W × Result B)
      → ((a : A) (w : W) → IfOk P (f a w))
      → IfOk P (and_then p f)
  unfolding and_then IfOk
  IfOk-then P (w, ok a) f h = h a w
  IfOk-then P (w, err e) f h = tt
