-- ===== src/Prelude/Signed.antt =====
-- Numbers with a common denominator: an integer as a difference of two natural numbers, which stands
-- for its value in units of that denominator.
use Prim.Native.Nat.{ℕ, ◌+◌, ◌-◌, ◌≤◌}
use mathlib.Core.Bool.{Bool}
use azkaban_private.Prelude.Tests.{ltb, leb, ◌==◌, if◌then◌else◌}

pub record Signed : Type 0 where
  pub plus : ℕ
  pub minus : ℕ

abbrev pub whole : ℕ → Signed
whole n = record { plus = n; minus = 0 }

infixl 65 ◌⊕◌ ◌⊖◌
infix 50 ◌⊑◌
abbrev pub ◌⊕◌ : Signed → Signed → Signed
a ⊕ b = record { plus = a.plus + b.plus; minus = a.minus + b.minus }

abbrev pub ◌⊖◌ : Signed → Signed → Signed
a ⊖ b = record { plus = a.plus + b.minus; minus = a.minus + b.plus }

-- The first is at most the second.
abbrev pub ◌⊑◌ : Signed → Signed → Type 0
a ⊑ b = a.plus + b.minus ≤ b.plus + a.minus

-- `a < b`
abbrev pub below : Signed → Signed → Bool
below a b = ltb (a.plus + b.minus) (b.plus + a.minus)

-- `a == b`
abbrev pub equals : Signed → Signed → Bool
equals a b = a.plus + b.minus == b.plus + a.minus

-- The distance of two numbers: `Math.abs(a - b)`.
abbrev pub distance : Signed → Signed → ℕ
distance a b =
    if leb (a.plus + b.minus) (b.plus + a.minus)
    then b.plus + a.minus - (a.plus + b.minus)
    else a.plus + b.minus - (b.plus + a.minus)
