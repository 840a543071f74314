-- ===== src/Examples.antt =====
-- The theorems at concrete inputs, with whole numbers in place of floating values.
pub mod Operators
pub mod Scopes
pub mod Text
pub mod Lists
pub mod Folding
pub mod Types
pub mod TypeObjects
pub mod Members
pub mod Initialisers
use enlightenedc.Prelude.{ℕ, some, ◌^◌}
use enlightenedc.Prelude.Int.{ℤ, ◌+ℤ◌, ◌-ℤ◌, ◌*ℤ◌}
use enlightenedc.Float.{Floats, FloatOps}
use enlightenedc.Word.{neg_ℤ, eq_ℤ, lt_ℤ, le_ℤ, div_ℤ, to_bits}

-- Arithmetic without fractions, of bit patterns of a given number of values.
abbrev whole_ops : ℕ → FloatOps ℤ
whole_ops m = record {
  add = ◌+ℤ◌;
  sub = ◌-ℤ◌;
  mul = ◌*ℤ◌;
  div = div_ℤ;
  neg = neg_ℤ;
  eq = eq_ℤ;
  lt = lt_ℤ;
  le = le_ℤ;
  of_int = λ z. z;
  to_int = λ z. some z;
  bits = to_bits m;
}

instance abbrev pub whole_floats : Floats
whole_floats = record {
  Float = ℤ;
  Double = ℤ;
  float = whole_ops (2 ^ 32);
  double = whole_ops (2 ^ 64);
  to_double = λ z. z;
  to_float = λ z. z;
}
