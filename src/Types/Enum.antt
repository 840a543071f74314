-- ===== src/Types/Enum.antt =====
-- `EnumType` of include/semantics/types.hpp and lib/semantics/types.cpp, and the ranges of the integer
-- types that it asks for. Locations are dropped. The counter's step past the largest 64-bit value is
-- undefined in the source.
pub mod Finish
pub mod Numbering
use enlightenedc.Prelude.{
  ℕ, ◌+◌, ◌-◌, ◌^◌, Bool, true, false, ◌||◌, not, Option, none, some, List, [], ◌∷◌, ◌++◌, length,
  get_elem?, ltb, match_option, if◌then◌else◌,
}
use enlightenedc.Prelude.Int.{ℤ, pos, negsuc, ◌+ℤ◌, ltb_ℤ}
use enlightenedc.Token.Kinds.{PrimType}
use enlightenedc.Primitive.{pr_is_integer}
use enlightenedc.Symbols.Name.{Name, name_eq}

unfoldable pub int_max : PrimType → Option ℕ
int_max PrimType.u8 = some (2 ^ 8 - 1)
int_max PrimType.u16 = some (2 ^ 16 - 1)
int_max PrimType.u32 = some (2 ^ 32 - 1)
int_max PrimType.u64 = some (2 ^ 64 - 1)
int_max PrimType.bool = some 1
int_max PrimType.i8 = some (2 ^ 7 - 1)
int_max PrimType.i16 = some (2 ^ 15 - 1)
int_max PrimType.i32 = some (2 ^ 31 - 1)
int_max PrimType.i64 = some (2 ^ 63 - 1)
int_max PrimType.f32 = none
int_max PrimType.f64 = none

unfoldable pub int_min : PrimType → Option ℤ
int_min PrimType.u8 = some (pos 0)
int_min PrimType.u16 = some (pos 0)
int_min PrimType.u32 = some (pos 0)
int_min PrimType.u64 = some (pos 0)
int_min PrimType.bool = some (pos 0)
int_min PrimType.i8 = some (negsuc (2 ^ 7 - 1))
int_min PrimType.i16 = some (negsuc (2 ^ 15 - 1))
int_min PrimType.i32 = some (negsuc (2 ^ 31 - 1))
int_min PrimType.i64 = some (negsuc (2 ^ 63 - 1))
int_min PrimType.f32 = none
int_min PrimType.f64 = none

pub record EnumTypeMember : Type 0 where
  pub name : Name
  pub value : ℤ

pub record EnumType : Type 0 where
  pub enumerators : List EnumTypeMember
  pub underlying : PrimType
  pub def_in_progress : Bool
  pub complete : Bool

pub data EnumError : Type 0 where
  enumerator_declared invalid_underlying count_overflow value_overflow : EnumError
  assertion undefined : EnumError

pub data EnumResult {ℓ} (A : Type ℓ) : Type ℓ where
  refused : EnumError → EnumResult A
  done : A → EnumResult A

unfoldable pub find_member : List EnumTypeMember → Name → Option EnumTypeMember
unfolding name_eq
find_member [] name = none
find_member (m ∷ ms) name = if name_eq name m.name then some m else find_member ms name

unfoldable pub find : EnumType → Name → Option EnumTypeMember
unfolding find_member
find e name = find_member e.enumerators name

unfoldable pub find_at : EnumType → ℕ → Option EnumTypeMember
find_at e idx = get_elem? e.enumerators idx

-- `enumerators.back()->value`.
unfoldable pub last_value : List EnumTypeMember → Option ℤ
last_value [] = none
last_value (m ∷ []) = some m.value
last_value (m ∷ n ∷ ms) = last_value (n ∷ ms)

abbrev pub int64_max : ℤ
int64_max = pos (2 ^ 63 - 1)

-- The call with a value; the result has the value that is returned.
unfoldable pub add_enumerator_value : EnumType → Name → ℤ → EnumResult (ℤ × EnumType)
unfolding find
add_enumerator_value e name value =
    match_option (find e name)
      (done (
        value,
        record e { enumerators = e.enumerators ++ record { name = name; value = value } ∷ [] },
      ))
      (λ _. refused enumerator_declared)

unfoldable pub add_enumerator : EnumType → Name → EnumResult (ℤ × EnumType)
unfolding find last_value add_enumerator_value
add_enumerator e name =
    match_option (find e name)
      (match_option (last_value e.enumerators) (add_enumerator_value e name (pos 0)) (λ last.
        if ltb_ℤ last int64_max
        then add_enumerator_value e name (last +ℤ pos 1)
        else refused undefined))
      (λ _. refused enumerator_declared)

-- The value that `std::max_element` finds, from the largest one so far.
unfoldable pub max_value : ℤ → List EnumTypeMember → ℤ
max_value largest [] = largest
max_value largest (m ∷ ms) = max_value (if ltb_ℤ largest m.value then m.value else largest) ms

unfoldable pub value_fits : ℕ → List EnumTypeMember → Bool
unfolding max_value
value_fits max [] = true
value_fits max (m ∷ ms) =
    let largest = max_value m.value ms in not (ltb_ℤ largest (pos 0) || ltb_ℤ (pos max) largest)

unfoldable pub finish : EnumType → EnumResult EnumType
unfolding int_max value_fits pr_is_integer
finish e =
    if not e.def_in_progress
    then refused assertion
    else if not (pr_is_integer e.underlying)
    then refused invalid_underlying
    else match_option (int_max e.underlying) (refused undefined) (λ max_enum_ct.
      if ltb max_enum_ct (length e.enumerators)
      then refused count_overflow
      else if not (value_fits max_enum_ct e.enumerators)
      then refused value_overflow
      else done (record e { def_in_progress = false; complete = true }))
