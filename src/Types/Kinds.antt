-- ===== src/Types/Kinds.antt =====
-- The kind of a type object, which a qualifier takes over from its base, and what is read through it.
use enlightenedc.Prelude.{ℕ, suc, ◌+◌, Bool, true, false, ◌&&◌, ◌==◌, none, some, if◌then◌else◌}
use enlightenedc.Types.{
  Ty, void_type, primitive_type, class_type, union_type, enum_type, pointer_type, array_type,
  function_type, const_type, atomic_type, volatile_type,
}

pub data Kind : Type 0 where
  void primitive class union enum pointer array function : Kind

unfoldable pub kind : Ty → Kind
kind void_type = Kind.void
kind (primitive_type p) = Kind.primitive
kind (class_type c) = Kind.class
kind (union_type id rep) = Kind.union
kind (enum_type id underlying) = Kind.enum
kind (pointer_type base) = Kind.pointer
kind (array_type base size) = Kind.array
kind (function_type ret params variadic linkage) = Kind.function
kind (const_type base) = kind base
kind (atomic_type base) = kind base
kind (volatile_type base) = kind base

unfoldable pub is_void : Ty → Bool
unfolding kind
is_void t = elim (kind t) [ Kind.void ↦ true | _ ↦ false ]

unfoldable pub is_class : Ty → Bool
unfolding kind
is_class t = elim (kind t) [ Kind.class ↦ true | _ ↦ false ]

unfoldable pub is_pointer : Ty → Bool
unfolding kind
is_pointer t = elim (kind t) [ Kind.pointer ↦ true | _ ↦ false ]

unfoldable pub is_array : Ty → Bool
unfolding kind
is_array t = elim (kind t) [ Kind.array ↦ true | _ ↦ false ]

unfoldable pub is_function : Ty → Bool
unfolding kind
is_function t = elim (kind t) [ Kind.function ↦ true | _ ↦ false ]

-- `PointerType::nesting_lvl` of the pointer to this base.
unfoldable pub pointers_in : Ty → ℕ
pointers_in (pointer_type base) = suc (pointers_in base)
pointers_in (const_type base) = pointers_in base
pointers_in (atomic_type base) = pointers_in base
pointers_in (volatile_type base) = pointers_in base
pointers_in t = 0

unfoldable pub nesting_lvl : Ty → ℕ
unfolding pointers_in
nesting_lvl base = 1 + pointers_in base

-- `PointerType::true_base`, from the base on: the qualifiers of the last base stay.
unfoldable pub true_base : Ty → Ty
unfolding is_pointer
true_base (pointer_type base) = true_base base
true_base (const_type base) = if is_pointer base then true_base base else const_type base
true_base (atomic_type base) = if is_pointer base then true_base base else atomic_type base
true_base (volatile_type base) = if is_pointer base then true_base base else volatile_type base
true_base t = t

unfoldable pub is_callable : Ty → Bool
unfolding is_function nesting_lvl
is_callable (pointer_type base) = (nesting_lvl base == 1) && is_function base
is_callable (function_type ret params variadic linkage) = true
is_callable (const_type base) = is_callable base
is_callable (atomic_type base) = is_callable base
is_callable (volatile_type base) = is_callable base
is_callable t = false

-- `complete` is the flag of the user types.
unfoldable pub is_complete : (Ty → Bool) → Ty → Bool
is_complete complete void_type = false
is_complete complete (primitive_type p) = true
is_complete complete (class_type c) = complete (class_type c)
is_complete complete (union_type id rep) = complete (union_type id rep)
is_complete complete (enum_type id underlying) = complete (enum_type id underlying)
is_complete complete (pointer_type base) = true
is_complete complete (array_type base none) = false
is_complete complete (array_type base (some n)) = is_complete complete base
is_complete complete (function_type ret params variadic linkage) = false
is_complete complete (const_type base) = is_complete complete base
is_complete complete (atomic_type base) = is_complete complete base
is_complete complete (volatile_type base) = is_complete complete base
