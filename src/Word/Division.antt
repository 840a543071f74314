-- ===== src/Word/Division.antt =====
-- Division of integers towards zero, as C++ divides.
use native.Mathlib.Nat.{div-add-mod}
use enlightenedc.Prelude.{suc, ◌≡◌, false, arith}
use enlightenedc.Prelude.Int.{ℤ, pos, negsuc, ◌+ℤ◌, ◌*ℤ◌}
use enlightenedc.Word.{div_ℤ, mod_ℤ, is_zero}

-- Quotient times divisor plus remainder is the dividend.
pub div_mod_identity : (a b : ℤ) → is_zero b ≡ false → div_ℤ a b *ℤ b +ℤ mod_ℤ a b ≡ a
unfolding ◌+ℤ◌ ◌*ℤ◌
div_mod_identity (pos a) (pos b) h = ground (arith, div-add-mod a b)
div_mod_identity (pos a) (negsuc b) h = ground (arith, div-add-mod a (suc b))
div_mod_identity (negsuc a) (pos b) h = ground (arith, div-add-mod (suc a) b)
div_mod_identity (negsuc a) (negsuc b) h = ground (arith, div-add-mod (suc a) (suc b))
