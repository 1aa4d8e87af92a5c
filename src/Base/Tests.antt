-- ===== src/Base/Tests.antt =====
-- Boolean tests on the native numbers, the conditional, and splits that keep the equation.
use Prim.Native.Nat.{ℕ, compare, Ordering}
use mathlib.Core.Path.{◌≡◌, refl}
use mathlib.Core.Logic.{◌↔◌, ◌⊎◌, inl, inr}
use mathlib.Core.Bool.{Bool, true, false}
use mathlib.Core.Option.{Option, none, some}
use native.Mathlib.Omega.{arith}

abbrev pub ltb : ℕ → ℕ → Bool
ltb a b = elim (compare a b) [ Ordering.lt ↦ true | _ ↦ false ]

abbrev pub leb : ℕ → ℕ → Bool
leb a b = elim (compare a b) [ Ordering.gt ↦ false | _ ↦ true ]

infix 50 ◌==◌
abbrev pub ◌==◌ : ℕ → ℕ → Bool
a == b = elim (compare a b) [ Ordering.eq ↦ true | _ ↦ false ]

infix 1 if◌then◌else◌
abbrev pub if◌then◌else◌ {ℓ} : {A : Type ℓ} → Bool → A → A → A
if true then x else y = x
if false then x else y = y

pub ==_iff : (a b : ℕ) → ((a == b) ≡ true) ↔ (a ≡ b)
==_iff a b = ground arith

pub Bool-cases : (b : Bool) → (b ≡ true) ⊎ (b ≡ false)
Bool-cases true = inl refl
Bool-cases false = inr refl

pub Option-cases {ℓ} : {A : Type ℓ} (o : Option A) → (o ≡ none) ⊎ ((a : A) × (o ≡ some a))
Option-cases none = inl refl
Option-cases (some a) = inr (a, refl)

-- What a guarded result that is there tells.
module _ {ℓ} {A : Type ℓ} where
  pub if-eq-some :
      (b : Bool) (x : Option A) {v : A}
      → (if b then x else none) ≡ some v
      → (b ≡ true) × (x ≡ some v)
  if-eq-some true x h = (refl, h)
  if-eq-some false x h = absurd (cc)

  pub else-eq-some :
      (b : Bool) (x : Option A) {v : A}
      → (if b then none else x) ≡ some v
      → (b ≡ false) × (x ≡ some v)
  else-eq-some true x h = absurd (cc)
  else-eq-some false x h = (refl, h)

  pub elim-eq-some {κ} :
      {B : Type κ} (o : Option B) (f : B → Option A) {v : A}
      → (elim o as (λ x. Option A) [ none ↦ none | some b ↦ f b ]) ≡ some v
      → (b : B) × (o ≡ some b) × (f b ≡ some v)
  elim-eq-some none f h = absurd (cc)
  elim-eq-some (some b) f h = (b, refl, h)
