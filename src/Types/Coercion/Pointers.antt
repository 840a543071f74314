-- ===== src/Types/Coercion/Pointers.antt =====
-- lib/semantics/types.cpp, `PointerType` and `ArrayType`: conversions of pointers.
use enlightenedc.Prelude.{
  ==_ne, ◌↔◌, ◌<◌, ◌≡◌, ◌⊎◌, refl, ap, Bool, true, false, ◌||◌, ◌&&◌, arith, if◌then◌else◌,
  Bool-cases, inl, inr,
}
use enlightenedc.Types.{
  Ty, ClassType, class_type, pointer_type, const_type, atomic_type, volatile_type, unqual,
}
use enlightenedc.Types.Kinds.{
  is_pointer, kind, is_void, is_class, is_function, nesting_lvl, pointers_in, true_base,
}
use enlightenedc.Types.Coercion.{
  same_type, coercible_to, pointer_coercible, pointer_to_pointer, class_coercible, climbs_to,
}
use enlightenedc.Types.Coercion.Classes.{Inherits, climbs_iff}

not_pointer : (t : Ty) → pointers_in t ≡ 0 → is_pointer t ≡ false
unfolding pointers_in is_pointer kind
not_pointer (pointer_type b) h = absurd (omega (arith, h))
not_pointer (const_type b) h = not_pointer b h
not_pointer (atomic_type b) h = not_pointer b h
not_pointer (volatile_type b) h = not_pointer b h
not_pointer t h = refl

-- The last base of a type that is no pointer is the type.
single_base : (t : Ty) → pointers_in t ≡ 0 → true_base t ≡ t
unfolding pointers_in true_base
single_base (pointer_type b) h = absurd (omega (arith, h))
single_base (const_type b) h = rw (not_pointer b h)
single_base (atomic_type b) h = rw (not_pointer b h)
single_base (volatile_type b) h = rw (not_pointer b h)
single_base t h = refl

module _ (base : Ty) where
  refuses_nested :
      (coerces : Ty → Bool) (d : Ty)
      → 1 < nesting_lvl base
      → pointer_coercible base coerces d ≡ false
  unfolding pointer_coercible pointer_to_pointer
  refuses_nested coerces (pointer_type p) deep =
      rw (==_ne (nesting_lvl base) 1 (omega (arith, deep)))
  refuses_nested coerces d deep = refl

  single_to_single :
      (pointee : Ty)
      → pointers_in base ≡ 0
      → pointers_in pointee ≡ 0
      → is_function base ≡ false
      → pointer_coercible base (coercible_to base) (pointer_type pointee) ≡ (
          if same_type base pointee || is_void pointee || is_void base
          then true
          else is_class base && coercible_to base pointee)
  unfolding pointer_coercible pointer_to_pointer nesting_lvl
  single_to_single pointee h k data_pointer = rw (single_base pointee k, h, k, data_pointer)

-- A pointer to a pointer is converted to nothing, not even to its own type.
pub nested_pointer :
    (base dst : Ty) → 1 < nesting_lvl base → coercible_to (pointer_type base) dst ≡ false
unfolding coercible_to
nested_pointer base dst deep = refuses_nested base (coercible_to base) (unqual dst) deep

-- A pointer of one level to data is converted to a pointer of one level when the two point to the
-- same type, when one of them points to void, or when this one points to a class that is converted to
-- what the other points to; and otherwise not.
pub data_pointers :
    (base pointee : Ty)
    → nesting_lvl base ≡ 1
    → nesting_lvl pointee ≡ 1
    → is_function base ≡ false
    → coercible_to (pointer_type base) (pointer_type pointee) ≡ (
        if same_type base pointee || is_void pointee || is_void base
        then true
        else is_class base && coercible_to base pointee)
unfolding coercible_to unqual nesting_lvl
data_pointers base pointee h k is_data =
    single_to_single base pointee (omega (arith, h)) (omega (arith, k)) is_data

same_type_iff : (a b : Ty) → (same_type a b ≡ true) ↔ (a ≡ b)
same_type_iff a b = ground arith

class_eq : {a b : ClassType} → class_type a ≡ class_type b → a ≡ b
class_eq h = cc

-- A pointer to a class is converted to a pointer to another exactly when the classes are the same or
-- the first inherits from the second.
pub class_pointers :
    (a b : ClassType)
    → (coercible_to (pointer_type (class_type a)) (pointer_type (class_type b)) ≡ true)
      ↔ ((a ≡ b) ⊎ Inherits a b)
unfolding nesting_lvl pointers_in is_function is_void is_class kind coercible_to class_coercible
    unqual
class_pointers a b = (onward, back)
  where
    rule : coercible_to (pointer_type (class_type a)) (pointer_type (class_type b)) ≡ (
        if same_type (class_type a) (class_type b) || false || false then true else climbs_to a b)
    rule = single_to_single (class_type a) (class_type b) refl refl refl

    onward :
        coercible_to (pointer_type (class_type a)) (pointer_type (class_type b)) ≡ true
        → (a ≡ b) ⊎ Inherits a b
    onward h = elim (Bool-cases (same_type (class_type a) (class_type b))) [
      | inl same ↦ inl (class_eq ((same_type_iff (class_type a) (class_type b)).0 same))
      | inr differ ↦ inr ((climbs_iff a b).0 (ground (arith, rule, h, differ)))
    ]

    back :
        (a ≡ b) ⊎ Inherits a b
        → coercible_to (pointer_type (class_type a)) (pointer_type (class_type b)) ≡ true
    back (inl e) =
        ground (arith, rule, (same_type_iff (class_type a) (class_type b)).1 (ap class_type e))
    back (inr i) = ground (arith, rule, (climbs_iff a b).1 i)
