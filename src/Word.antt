-- ===== src/Word.antt =====
-- Machine integers of C++ as integers: ranges, wrap-around to a width, and the operations on
-- two's complement that the evaluator uses. A width enters by its modulus, `2 ^ w`.
pub mod Division
use enlightenedc.Prelude.{
  ℕ, zero, suc, ◌-◌, ◌/◌, ◌%◌, ◌^◌, Bool, true, false, ltb, leb, ◌==◌, if◌then◌else◌,
}
use enlightenedc.Prelude.Int.{ℤ, pos, negsuc}

-- Whether an integer fits a signed type of modulus `m`: from -(m / 2) to m / 2 - 1.
abbrev pub fits : ℕ → ℤ → Bool
fits m (pos n) = ltb n (m / 2)
fits m (negsuc n) = ltb n (m / 2)

-- The pattern of an integer, reduced modulo `m`, and the integer that a pattern stands for.
abbrev pub to_bits : ℕ → ℤ → ℕ
to_bits m (pos n) = n % m
to_bits m (negsuc n) = m - 1 - n % m

abbrev pub of_bits : ℕ → ℕ → ℤ
of_bits m b = if ltb b (m / 2) then pos b else negsuc (m - 1 - b)

-- The value of a conversion to a signed type of modulus `m`.
abbrev pub wrap : ℕ → ℤ → ℤ
wrap m z = of_bits m (to_bits m z)

-- -n
abbrev pub minus_ℕ : ℕ → ℤ
minus_ℕ zero = pos 0
minus_ℕ (suc n) = negsuc n

abbrev pub neg_ℤ : ℤ → ℤ
neg_ℤ (pos n) = minus_ℕ n
neg_ℤ (negsuc n) = pos (suc n)

-- ~z, which is -z - 1.
abbrev pub flip : ℤ → ℤ
flip (pos n) = negsuc n
flip (negsuc n) = pos n

abbrev pub is_zero : ℤ → Bool
is_zero (pos n) = n == 0
is_zero (negsuc n) = false

abbrev pub eq_ℤ : ℤ → ℤ → Bool
eq_ℤ (pos a) (pos b) = a == b
eq_ℤ (negsuc a) (negsuc b) = a == b
eq_ℤ _ _ = false

abbrev pub lt_ℤ : ℤ → ℤ → Bool
lt_ℤ (pos a) (pos b) = ltb a b
lt_ℤ (pos a) (negsuc b) = false
lt_ℤ (negsuc a) (pos b) = true
lt_ℤ (negsuc a) (negsuc b) = ltb b a

abbrev pub le_ℤ : ℤ → ℤ → Bool
le_ℤ (pos a) (pos b) = leb a b
le_ℤ (pos a) (negsuc b) = false
le_ℤ (negsuc a) (pos b) = true
le_ℤ (negsuc a) (negsuc b) = leb b a

-- Division towards zero, and the remainder with the sign of the dividend.
abbrev pub div_ℤ : ℤ → ℤ → ℤ
div_ℤ (pos a) (pos b) = pos (a / b)
div_ℤ (pos a) (negsuc b) = minus_ℕ (a / suc b)
div_ℤ (negsuc a) (pos b) = minus_ℕ (suc a / b)
div_ℤ (negsuc a) (negsuc b) = pos (suc a / suc b)

abbrev pub mod_ℤ : ℤ → ℤ → ℤ
mod_ℤ (pos a) (pos b) = pos (a % b)
mod_ℤ (pos a) (negsuc b) = pos (a % suc b)
mod_ℤ (negsuc a) (pos b) = minus_ℕ (suc a % b)
mod_ℤ (negsuc a) (negsuc b) = minus_ℕ (suc a % suc b)

-- z >> k, rounding down.
abbrev pub shr_ℤ : ℤ → ℕ → ℤ
shr_ℤ (pos n) k = pos (n / 2 ^ k)
shr_ℤ (negsuc n) k = negsuc (n / 2 ^ k)
