-- ===== src/Types/Qualified.antt =====
-- The qualifiers of include/semantics/types.hpp (`QualifiedType` and its subclasses) and the calls of
-- `TypeContext` that wrap a type in one. The calls are mutually recursive and terminate because of
-- the order of the qualifiers: fuel bounds the depth of the calls, and four levels are enough.
pub mod Canonical
pub mod Order
pub mod Effective
use enlightenedc.Prelude.{
  ℕ, zero, suc, Bool, true, false, ◌||◌, Option, match_option, if◌then◌else◌,
}
use enlightenedc.Types.{
  Ty, void_type, primitive_type, class_type, union_type, enum_type, pointer_type, array_type,
  function_type, const_type, atomic_type, volatile_type, is_qualified, unqual, is_const, is_atomic,
  is_volatile, as_const, as_atomic, as_volatile,
}
use enlightenedc.Prelude.{none, some}

-- `QualifiedType::Flags`: a bit for each qualifier.
pub record Flags : Type 0 where
  pub const : Bool
  pub atomic : Bool
  pub volatile : Bool

abbrev pub no_flags : Flags
no_flags = record { const = false; atomic = false; volatile = false }

unfoldable pub qualflag : Ty → Flags
qualflag (const_type t) = record { const = true; atomic = false; volatile = false }
qualflag (atomic_type t) = record { const = false; atomic = true; volatile = false }
qualflag (volatile_type t) = record { const = false; atomic = false; volatile = true }
qualflag t = no_flags

unfoldable pub flags_or : Flags → Flags → Flags
flags_or f g = record {
  const = f.const || g.const;
  atomic = f.atomic || g.atomic;
  volatile = f.volatile || g.volatile;
}

-- The flags that the wrappers of a type add to `start`.
unfoldable pub collect : Flags → Ty → Flags
unfolding qualflag flags_or
collect start (const_type t) = collect (flags_or start (qualflag (const_type t))) t
collect start (atomic_type t) = collect (flags_or start (qualflag (atomic_type t))) t
collect start (volatile_type t) = collect (flags_or start (qualflag (volatile_type t))) t
collect start t = start

unfoldable pub all_qualflags : Ty → Flags
unfolding collect
all_qualflags t = collect no_flags t

-- The interned wrapper over a type, whatever the type is.
unfoldable pub get_const_unordered : Ty → Ty
get_const_unordered t = const_type t

unfoldable pub get_atomic_unordered : Ty → Ty
get_atomic_unordered t = atomic_type t

unfoldable pub get_volatile_unordered : Ty → Ty
get_volatile_unordered t = volatile_type t

-- The three calls, given the two that each of them makes.
unfoldable pub const_call : (Ty → Ty) → (Ty → Ty) → Ty → Ty
unfolding is_const as_const is_qualified unqual all_qualflags get_const_unordered
const_call atomic volatile base =
    let flags = if is_qualified base then all_qualflags base else no_flags in
    let act_base = if is_qualified base then unqual base else base in
    let cnst = get_const_unordered act_base in
    let then_atomic = if flags.atomic then atomic cnst else cnst in
    let then_volatile = if flags.volatile then volatile then_atomic else then_atomic in
    if is_const base then match_option (as_const base) base (λ c. c) else then_volatile

unfoldable pub atomic_call : (Ty → Ty) → (Ty → Ty) → Ty → Ty
unfolding is_atomic as_atomic is_qualified unqual all_qualflags get_atomic_unordered
atomic_call const volatile base =
    let flags = if is_qualified base then all_qualflags base else no_flags in
    let act_base = if is_qualified base then unqual base else base in
    let then_const = if flags.const then const act_base else act_base in
    let atomic = get_atomic_unordered then_const in
    let then_volatile = if flags.volatile then volatile atomic else atomic in
    if is_atomic base then match_option (as_atomic base) base (λ c. c) else then_volatile

unfoldable pub volatile_call : (Ty → Ty) → (Ty → Ty) → Ty → Ty
unfolding is_volatile as_volatile is_qualified unqual all_qualflags get_volatile_unordered
volatile_call const atomic base =
    let flags = if is_qualified base then all_qualflags base else no_flags in
    let act_base = if is_qualified base then unqual base else base in
    let then_const = if flags.const then const act_base else act_base in
    let then_atomic = if flags.atomic then atomic then_const else then_const in
    let vol = get_volatile_unordered then_atomic in
    if is_volatile base then match_option (as_volatile base) base (λ c. c) else vol

unfoldable mutual
  pub get_const : ℕ → Ty → Ty
  get_const zero base = base
  get_const (suc n) base = const_call (get_atomic n) (get_volatile n) base

  pub get_atomic : ℕ → Ty → Ty
  get_atomic zero base = base
  get_atomic (suc n) base = atomic_call (get_const n) (get_volatile n) base

  pub get_volatile : ℕ → Ty → Ty
  get_volatile zero base = base
  get_volatile (suc n) base = volatile_call (get_const n) (get_atomic n) base

-- The nesting of those calls.
abbrev pub call_depth : ℕ
call_depth = 4

-- The body of `QualifiedType::effective_type` after its type is stripped.
unfoldable pub requalify : Flags → Ty → Ty
unfolding get_const get_atomic get_volatile
requalify flags start =
    let start_const = if flags.const then get_const call_depth start else start in
    let start_atomic = if flags.atomic then get_atomic call_depth start_const else start_const in
    if flags.volatile then get_volatile call_depth start_atomic else start_atomic

-- `effective_type` of the type under the qualifiers.
unfoldable pub bare_effective : Ty → Ty
unfolding requalify all_qualflags
bare_effective (const_type t) = bare_effective t
bare_effective (atomic_type t) = bare_effective t
bare_effective (volatile_type t) = bare_effective t
bare_effective (pointer_type base) =
    pointer_type (requalify (all_qualflags base) (bare_effective base))
bare_effective (array_type base size) =
    array_type (requalify (all_qualflags base) (bare_effective base)) size
bare_effective (union_type id none) = union_type id none
bare_effective (union_type id (some rep)) = primitive_type rep
bare_effective (enum_type id underlying) = primitive_type underlying
bare_effective void_type = void_type
bare_effective (primitive_type p) = primitive_type p
bare_effective (class_type cls) = class_type cls
bare_effective (function_type ret params variadic linkage) =
    function_type ret params variadic linkage

-- A type with no qualifier has no flags, so that its own effective type is left as it is.
unfoldable pub effective_type : Ty → Ty
unfolding requalify all_qualflags bare_effective
effective_type t = requalify (all_qualflags t) (bare_effective t)
