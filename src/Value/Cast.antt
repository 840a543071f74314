-- ===== src/Value/Cast.antt =====
-- lib/eval/value.cpp and include/eval/value.hpp: conversions of a `Value` to another type.
-- A conversion to an integer type wraps around; one from a floating value whose integer part the
-- target cannot hold is undefined in C++.
use enlightenedc.Prelude.{ℕ, ◌^◌, Bool, false, Option, none, some, ltb, if◌then◌else◌}
use enlightenedc.Prelude.Int.{ℤ, pos, negsuc}
use enlightenedc.Token.Kinds.{PrimType}
use enlightenedc.Primitive
use enlightenedc.Primitive.Enumerate.{pr_eq}
use enlightenedc.Outcome.{
  Outcome, ok, fail, eval_semantic_error, undefined_behaviour, ◌>>=◌, throw_if, ◌>>◌,
}
use enlightenedc.Float.{Floats}
use enlightenedc.Word.{fits, to_bits, wrap}
use enlightenedc.Value.{
  Value, ValueEnum, ptr_value, valenum, primtype, is_pointer, is_float, to_bool, bits,
}

-- A value read as a number: an integer, or a floating value.
pub data Number (F : Floats) : Type 0 where
  whole : ℤ → Number F
  float : F.Float → Number F
  double : F.Double → Number F

module _ ⦃F : Floats⦄ where
  -- The alternative that `std::visit` hands to the cast; a pointer is its address.
  unfoldable pub number : Value F → Number F
  number (Value.i8 v) = whole v
  number (Value.i16 v) = whole v
  number (Value.i32 v) = whole v
  number (Value.i64 v) = whole v
  number (Value.u8 v) = whole (pos v)
  number (Value.u16 v) = whole (pos v)
  number (Value.u32 v) = whole (pos v)
  number (Value.u64 v) = whole (pos v)
  number (Value.f32 v) = float v
  number (Value.f64 v) = double v
  number (Value.bool v) = whole (if v then pos 1 else pos 0)
  number (Value.ptr v) = whole (pos v.address)

  -- `static_cast` of a floating value with integer part `o` to an integer type.
  unfoldable pub truncate : (ℤ → Bool) → Option ℤ → Outcome ℤ
  truncate in_range none = fail undefined_behaviour
  truncate in_range (some z) = if in_range z then ok z else fail undefined_behaviour

  unfoldable pub to_signed : ℕ → Number F → Outcome ℤ
  unfolding truncate
  to_signed m (whole z) = ok (wrap m z)
  to_signed m (float x) = truncate (fits m) (F.float.to_int x)
  to_signed m (double x) = truncate (fits m) (F.double.to_int x)

  abbrev pub fits_unsigned : ℕ → ℤ → Bool
  fits_unsigned m (pos n) = ltb n m
  fits_unsigned m (negsuc n) = false

  unfoldable pub to_unsigned : ℕ → Number F → Outcome ℕ
  unfolding truncate
  to_unsigned m (whole z) = ok (to_bits m z)
  to_unsigned m (float x) =
      (truncate (fits_unsigned m) (F.float.to_int x)) >>= λ z. ok (to_bits m z)
  to_unsigned m (double x) =
      (truncate (fits_unsigned m) (F.double.to_int x)) >>= λ z. ok (to_bits m z)

  unfoldable pub to_f32 : Number F → F.Float
  to_f32 (whole z) = F.float.of_int z
  to_f32 (float x) = x
  to_f32 (double x) = F.to_float x

  unfoldable pub to_f64 : Number F → F.Double
  to_f64 (whole z) = F.double.of_int z
  to_f64 (float x) = F.to_double x
  to_f64 (double x) = x

  -- `pr_cast(ValueEnum)`. The two paths of the source, for a pointer and for any other value, convert
  -- alike to each integer type; a pointer is refused by the floating types.
  unfoldable pub pr_cast_to : ValueEnum → Value F → Outcome (Value F)
  unfolding number to_signed to_unsigned to_f32 to_f64 is_pointer to_bool bits
  pr_cast_to ValueEnum.bool v = ok (Value.bool (to_bool v))
  pr_cast_to ValueEnum.u8 v = do n ← to_unsigned (2 ^ 8) (number v); ok (Value.u8 n)
  pr_cast_to ValueEnum.u16 v = do n ← to_unsigned (2 ^ 16) (number v); ok (Value.u16 n)
  pr_cast_to ValueEnum.u32 v = do n ← to_unsigned (2 ^ 32) (number v); ok (Value.u32 n)
  pr_cast_to ValueEnum.u64 v = do n ← to_unsigned (2 ^ 64) (number v); ok (Value.u64 n)
  pr_cast_to ValueEnum.i8 v = do z ← to_signed (2 ^ 8) (number v); ok (Value.i8 z)
  pr_cast_to ValueEnum.i16 v = do z ← to_signed (2 ^ 16) (number v); ok (Value.i16 z)
  pr_cast_to ValueEnum.i32 v = do z ← to_signed (2 ^ 32) (number v); ok (Value.i32 z)
  pr_cast_to ValueEnum.i64 v = do z ← to_signed (2 ^ 64) (number v); ok (Value.i64 z)
  pr_cast_to ValueEnum.f32 v = do
    throw_if (is_pointer v) eval_semantic_error
    ok (Value.f32 (to_f32 (number v)))
  pr_cast_to ValueEnum.f64 v = do
    throw_if (is_pointer v) eval_semantic_error
    ok (Value.f64 (to_f64 (number v)))
  pr_cast_to ValueEnum.ptr v = ok (Value.ptr (ptr_value (bits v) 0))

  unfoldable pub pr_cast : PrimType → Value F → Outcome (Value F)
  unfolding pr_cast_to valenum
  pr_cast pr v = pr_cast_to (valenum pr) v

  -- `cast_to_pointer(width)`; with no argument it is the cast to stride 0.
  unfoldable pub cast_to_pointer : ℕ → Value F → Outcome (Value F)
  unfolding is_float bits ptr_value
  cast_to_pointer width v = do
    throw_if (is_float v) eval_semantic_error
    ok (Value.ptr (ptr_value (bits v) width))

  unfoldable pub promote_typed :
      Value F → Value F → Option PrimType → Option PrimType → Outcome (Value F × Value F)
  unfolding pr_cast
  promote_typed l r (some lt) (some rt) = do
    let promoted = Primitive.pr_promote lt rt
    l' ← if pr_eq lt promoted then ok l else pr_cast promoted l
    r' ← if pr_eq rt promoted then ok r else pr_cast promoted r
    ok (l', r')
  promote_typed l r _ _ = fail eval_semantic_error

  -- `promote`: both operands at the type that they promote to. A pointer has none.
  unfoldable pub promote : Value F → Value F → Outcome (Value F × Value F)
  unfolding promote_typed primtype
  promote l r = promote_typed l r (primtype l) (primtype r)
