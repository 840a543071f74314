-- ===== src/Value.antt =====
-- include/eval/value.hpp: a value of a primitive or pointer type in the compile-time evaluator. A
-- constructor stands for the variant's alternative and for the `type` tag that goes with it. Signed
-- alternatives hold an integer and unsigned ones a number.
pub mod Cast
pub mod Bitwise
pub mod Arith
pub mod Compare
pub mod Binary
pub mod Unary
pub mod HasType
pub mod Promoted
pub mod Ranges
pub mod Typing
pub mod InRange
pub mod Complement
pub mod Exact
pub mod Quotient
pub mod Safety
pub mod Progress
use enlightenedc.Prelude.{
  ℕ, ◌-◌, ◌^◌, Bool, true, false, not, Option, none, some, leb, ◌==◌, if◌then◌else◌,
}
use enlightenedc.Prelude.Int.{ℤ, pos}
use enlightenedc.Token.Kinds.{PrimType}
use enlightenedc.Primitive
use enlightenedc.Float.{Floats}
use enlightenedc.Word.{to_bits, is_zero}

-- A pointer with its stride, if it has one.
pub record PtrValue : Type 0 where
  pub address : ℕ
  pub width : Option ℕ

-- The constructor `PtrValue(address, width)`, where a width of 0 is no stride.
unfoldable pub ptr_value : ℕ → ℕ → PtrValue
ptr_value address width = record {
  address = address;
  width = if width == 0 then none else some width;
}

pub data ValueEnum : Type 0 where
  u8 u16 u32 u64 i8 i16 i32 i64 f32 f64 bool ptr : ValueEnum

pub data Value (F : Floats) : Type 0 where
  i8 i16 i32 i64 : ℤ → Value F
  u8 u16 u32 u64 : ℕ → Value F
  f32 : F.Float → Value F
  f64 : F.Double → Value F
  bool : Bool → Value F
  ptr : PtrValue → Value F

unfoldable pub valenum : PrimType → ValueEnum
valenum PrimType.u8 = ValueEnum.u8
valenum PrimType.u16 = ValueEnum.u16
valenum PrimType.u32 = ValueEnum.u32
valenum PrimType.u64 = ValueEnum.u64
valenum PrimType.i8 = ValueEnum.i8
valenum PrimType.i16 = ValueEnum.i16
valenum PrimType.i32 = ValueEnum.i32
valenum PrimType.i64 = ValueEnum.i64
valenum PrimType.f32 = ValueEnum.f32
valenum PrimType.f64 = ValueEnum.f64
valenum PrimType.bool = ValueEnum.bool

module _ ⦃F : Floats⦄ where
  -- The tag.
  unfoldable pub valuetype : Value F → ValueEnum
  valuetype (Value.i8 v) = ValueEnum.i8
  valuetype (Value.i16 v) = ValueEnum.i16
  valuetype (Value.i32 v) = ValueEnum.i32
  valuetype (Value.i64 v) = ValueEnum.i64
  valuetype (Value.u8 v) = ValueEnum.u8
  valuetype (Value.u16 v) = ValueEnum.u16
  valuetype (Value.u32 v) = ValueEnum.u32
  valuetype (Value.u64 v) = ValueEnum.u64
  valuetype (Value.f32 v) = ValueEnum.f32
  valuetype (Value.f64 v) = ValueEnum.f64
  valuetype (Value.bool v) = ValueEnum.bool
  valuetype (Value.ptr v) = ValueEnum.ptr

-- `narrow<PrimType>` of a tag: all but the pointer's lie in the range of primitive types.
unfoldable pub prim_of_enum : ValueEnum → Option PrimType
prim_of_enum ValueEnum.u8 = some PrimType.u8
prim_of_enum ValueEnum.u16 = some PrimType.u16
prim_of_enum ValueEnum.u32 = some PrimType.u32
prim_of_enum ValueEnum.u64 = some PrimType.u64
prim_of_enum ValueEnum.i8 = some PrimType.i8
prim_of_enum ValueEnum.i16 = some PrimType.i16
prim_of_enum ValueEnum.i32 = some PrimType.i32
prim_of_enum ValueEnum.i64 = some PrimType.i64
prim_of_enum ValueEnum.f32 = some PrimType.f32
prim_of_enum ValueEnum.f64 = some PrimType.f64
prim_of_enum ValueEnum.bool = some PrimType.bool
prim_of_enum ValueEnum.ptr = none

module _ ⦃F : Floats⦄ where
  unfoldable pub primtype : Value F → Option PrimType
  unfolding valuetype prim_of_enum
  primtype v = prim_of_enum (valuetype v)

  unfoldable pub is_pointer : Value F → Bool
  is_pointer (Value.ptr p) = true
  is_pointer _ = false

  -- A test on the primitive type; a pointer passes none.
  unfoldable pub prim_test : (PrimType → Bool) → Option PrimType → Bool
  prim_test p none = false
  prim_test p (some pr) = p pr

  unfoldable pub is_integer : Value F → Bool
  unfolding prim_test primtype Primitive.pr_is_integer
  is_integer v = prim_test Primitive.pr_is_integer (primtype v)

  unfoldable pub is_float : Value F → Bool
  unfolding prim_test primtype Primitive.pr_is_float
  is_float v = prim_test Primitive.pr_is_float (primtype v)

  unfoldable pub is_signed : Value F → Bool
  unfolding prim_test primtype Primitive.pr_is_signed
  is_signed v = prim_test Primitive.pr_is_signed (primtype v)

  unfoldable pub is_nullptr : Value F → Bool
  is_nullptr (Value.ptr p) = p.address == 0
  is_nullptr _ = false

  unfoldable pub from_literal : ℕ → Value F
  from_literal lit =
      if leb lit (2 ^ 31 - 1)
      then Value.i32 (pos lit)
      else if leb lit (2 ^ 63 - 1)
      then Value.i64 (pos lit)
      else Value.u64 lit

  -- `operator bool`. A floating value is compared with 0.
  unfoldable pub to_bool : Value F → Bool
  to_bool (Value.i8 v) = not (is_zero v)
  to_bool (Value.i16 v) = not (is_zero v)
  to_bool (Value.i32 v) = not (is_zero v)
  to_bool (Value.i64 v) = not (is_zero v)
  to_bool (Value.u8 v) = not (v == 0)
  to_bool (Value.u16 v) = not (v == 0)
  to_bool (Value.u32 v) = not (v == 0)
  to_bool (Value.u64 v) = not (v == 0)
  to_bool (Value.f32 v) = not (F.float.eq v (F.float.of_int (pos 0)))
  to_bool (Value.f64 v) = not (F.double.eq v (F.double.of_int (pos 0)))
  to_bool (Value.bool v) = v
  to_bool (Value.ptr v) = not (v.address == 0)

  -- `bits`: the value's pattern as a `uint64_t`, with the sign extended.
  unfoldable pub bits : Value F → ℕ
  bits (Value.i8 v) = to_bits (2 ^ 64) v
  bits (Value.i16 v) = to_bits (2 ^ 64) v
  bits (Value.i32 v) = to_bits (2 ^ 64) v
  bits (Value.i64 v) = to_bits (2 ^ 64) v
  bits (Value.u8 v) = v
  bits (Value.u16 v) = v
  bits (Value.u32 v) = v
  bits (Value.u64 v) = v
  bits (Value.f32 v) = F.float.bits v
  bits (Value.f64 v) = F.double.bits v
  bits (Value.bool v) = if v then 1 else 0
  bits (Value.ptr v) = v.address
