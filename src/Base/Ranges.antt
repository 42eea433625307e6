-- ===== src/Base/Ranges.antt =====
-- Statements about all the numbers of a range, extended at either end.
use mathlib.Core.Logic.{◌⊎◌, inl, inr}
use mathlib.Core.Path.{◌≡◌, subst, sym}
use native.Mathlib.Omega.{arith}
use Prim.Native.Nat.{ℕ, ◌+◌, ◌≤◌, ◌<◌}

abbrev pub Between {ℓ} : (ℕ → Type ℓ) → ℕ → ℕ → Type ℓ
Between P a b = (j : ℕ) → a ≤ j → j < b → P j

eq-or-le : (a j : ℕ) → a ≤ j → (a ≡ j) ⊎ (a + 1 ≤ j)
eq-or-le a j h = grind arith

pub le-or-lt : (a b : ℕ) → (a ≤ b) ⊎ (b < a)
le-or-lt a b = grind arith

module _ {ℓ} (P : ℕ → Type ℓ) where
  pub Between-nil : (a b : ℕ) → b ≤ a → Between P a b
  Between-nil a b h j p q = absurd (omega arith)

  pub Between-cons : (a b : ℕ) → P a → Between P (a + 1) b → Between P a b
  Between-cons a b h rest j p q = elim (eq-or-le a j p) [ inl e ↦ subst P e h | inr l ↦ rest j l q ]

  pub Between-concat : (a b : ℕ) → Between P a b → P b → Between P a (b + 1)
  Between-concat a b rest h j p q = elim (eq-or-le j b (omega arith)) [
    | inl e ↦ subst P (sym e) h
    | inr l ↦ rest j p (omega arith)
  ]
