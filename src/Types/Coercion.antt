-- ===== src/Types/Coercion.antt =====
-- lib/semantics/types.cpp: which types are converted without a cast (`coercible_to`), and which by one
-- (`castable_to`). The helpers by clauses take the destination without its qualifiers, as the kind
-- tests and the casts of the source read it.
pub mod Classes
pub mod Qualifiers
pub mod Pointers
use enlightenedc.Prelude.{
  ℕ, Bool, true, false, ◌||◌, ◌&&◌, ◌==◌, not, Option, none, some, if◌then◌else◌, match_option,
}
use enlightenedc.Token.Kinds.{PrimType}
use mathlib.Core.Logic.{ite}
use enlightenedc.Primitive.{pr_is_integer, pr_is_float, pr_is_bool}
use enlightenedc.Symbols.Scope.{LangLinkage}
use enlightenedc.Types.{
  Ty, ClassType, base_class, derived_class, Params, void_type, primitive_type, class_type,
  union_type, enum_type, pointer_type, array_type, function_type, const_type, atomic_type,
  volatile_type, unqual, is_const, Class-discrete, Ty-discrete, Params-discrete, Linkage-discrete,
}
use enlightenedc.Types.Kinds.{
  is_void, is_class, is_pointer, is_array, is_function, nesting_lvl, true_base,
}

-- Pointer comparisons.
abbrev pub same_type : Ty → Ty → Bool
same_type a b = ite (Ty-discrete a b) true false

abbrev pub same_class : ClassType → ClassType → Bool
same_class a b = ite (Class-discrete a b) true false

unfoldable pub primitive_to_primitive : PrimType → PrimType → Bool
unfolding pr_is_integer pr_is_float pr_is_bool
primitive_to_primitive p q =
    if pr_is_bool q
    then pr_is_integer p || pr_is_float p
    else if pr_is_float p && pr_is_integer q
    then false
    else true

unfoldable pub primitive_coercible : PrimType → Ty → Bool
unfolding primitive_to_primitive
primitive_coercible p (primitive_type q) = primitive_to_primitive p q
primitive_coercible p (enum_type id underlying) = primitive_to_primitive p underlying
primitive_coercible p dst = false

-- The loop of `ClassType::coercible_to`: up the parents of `curr` until the target.
unfoldable pub climbs_to : ClassType → ClassType → Bool
climbs_to (base_class id) target = false
climbs_to (derived_class id parent) target =
    if same_class parent target then true else climbs_to parent target

unfoldable pub class_coercible : ClassType → Ty → Bool
unfolding climbs_to
class_coercible cls (class_type target) = climbs_to cls target
class_coercible cls dst = false

unfoldable pub same_signature : Ty → Ty → Bool
same_signature (function_type r ps v l) (function_type s qs w m) =
    same_type (function_type r ps v l) (function_type s qs w l)
same_signature f g = false

unfoldable pub same_linkage : Ty → Ty → Bool
same_linkage (function_type r ps v l) (function_type s qs w m) =
    ite (Linkage-discrete l m) true false
same_linkage f g = false

unfoldable pub is_variadic : Ty → Bool
is_variadic (function_type r ps v l) = v
is_variadic f = false

unfoldable pub function_coercible : Ty → Ty → Bool
unfolding is_function same_signature same_linkage is_variadic
function_coercible f dst =
    if not (is_function dst)
    then false
    else same_signature f dst && (not (is_variadic f) || same_linkage f dst)

-- `base_coerces` is `base->coercible_to`.
unfoldable pub pointer_to_pointer : Ty → (Ty → Bool) → Ty → Bool
unfolding nesting_lvl true_base is_function is_void is_class function_coercible
pointer_to_pointer base base_coerces dst_pointee =
    let dst_base = true_base dst_pointee in
    if not (nesting_lvl base == 1) || not (nesting_lvl dst_pointee == 1)
    then false
    else if is_function base && is_function dst_base
    then function_coercible (unqual base) (unqual dst_base)
    else if same_type base dst_base || is_void dst_base || is_void base
    then true
    else is_class base && base_coerces dst_base

unfoldable pub pointer_coercible : Ty → (Ty → Bool) → Ty → Bool
unfolding pointer_to_pointer
pointer_coercible base base_coerces (pointer_type pointee) =
    pointer_to_pointer base base_coerces pointee
pointer_coercible base base_coerces dst = false

unfoldable pub size_compatible_with : Option ℕ → Option ℕ → Bool
size_compatible_with (some m) (some n) = n == m
size_compatible_with m n = true

unfoldable pub array_coercible : Ty → Option ℕ → (Ty → Bool) → Ty → Bool
unfolding is_array pointer_coercible size_compatible_with
array_coercible base size base_coerces (array_type dst_base dst_size) =
    if is_array dst_base && is_array base
    then base_coerces dst_base && size_compatible_with size dst_size
    else same_type dst_base base && size_compatible_with size dst_size
array_coercible base size base_coerces (pointer_type pointee) =
    pointer_coercible base base_coerces (pointer_type pointee)
array_coercible base size base_coerces dst = false

unfoldable pub coercible_to : Ty → Ty → Bool
unfolding primitive_coercible class_coercible pointer_coercible array_coercible function_coercible
coercible_to void_type dst = false
coercible_to (primitive_type p) dst = primitive_coercible p (unqual dst)
coercible_to (class_type cls) dst = class_coercible cls (unqual dst)
coercible_to (union_type id none) dst = false
coercible_to (union_type id (some rep)) dst = primitive_coercible rep (unqual dst)
coercible_to (enum_type id underlying) dst = primitive_coercible underlying (unqual dst)
coercible_to (pointer_type base) dst = pointer_coercible base (coercible_to base) (unqual dst)
coercible_to (array_type base size) dst = array_coercible base size (coercible_to base) (unqual dst)
coercible_to (function_type r ps v l) dst = function_coercible (function_type r ps v l) (unqual dst)
coercible_to (const_type base) dst =
    if not (is_const dst) then false else coercible_to base (unqual dst)
coercible_to (atomic_type base) dst = coercible_to base dst
coercible_to (volatile_type base) dst = coercible_to base dst

-- The integer type as wide as a pointer of the backend; null for another width.
unfoldable pub get_size_type : ℕ → Bool → Option PrimType
get_size_type bits is_signed =
    if bits == 8
    then some (if is_signed then PrimType.i8 else PrimType.u8)
    else if bits == 16
    then some (if is_signed then PrimType.i16 else PrimType.u16)
    else if bits == 32
    then some (if is_signed then PrimType.i32 else PrimType.u32)
    else if bits == 64
    then some (if is_signed then PrimType.i64 else PrimType.u64)
    else none

-- The test of a type against `as_integer()`, by its pointer.
unfoldable pub is_size_type : ℕ → Ty → Bool
unfolding get_size_type
is_size_type bits dst =
    match_option (get_size_type bits false) false (λ p. same_type dst (primitive_type p))

unfoldable pub primitive_castable : ℕ → PrimType → Ty → Bool
unfolding is_size_type
primitive_castable bits p (primitive_type q) = true
primitive_castable bits p (pointer_type base) = is_size_type bits (primitive_type p)
primitive_castable bits p dst = false

unfoldable pub class_castable : ClassType → Ty → Bool
unfolding climbs_to
class_castable cls (class_type target) = climbs_to cls target || climbs_to target cls
class_castable cls dst = false

unfoldable pub castable_to : ℕ → Ty → Ty → Bool
unfolding primitive_castable class_castable coercible_to is_size_type
castable_to bits (primitive_type p) dst = primitive_castable bits p (unqual dst)
castable_to bits (class_type cls) dst = class_castable cls (unqual dst)
castable_to bits (pointer_type base) dst =
    coercible_to (pointer_type base) dst || is_size_type bits dst
castable_to bits (const_type base) dst = castable_to bits base (unqual dst)
castable_to bits (atomic_type base) dst = castable_to bits base (unqual dst)
castable_to bits (volatile_type base) dst = castable_to bits base (unqual dst)
castable_to bits t dst = coercible_to t dst
