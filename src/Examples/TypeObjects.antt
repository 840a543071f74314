-- ===== src/Examples/TypeObjects.antt =====
-- The theorems about type objects at concrete inputs.
use enlightenedc.Prelude.{
  ℕ, ◌≡◌, ◌↔◌, ◌⊎◌, refl, arith, true, false, some, List, [], ◌∷◌, not, ◌||◌, ◌&&◌, if◌then◌else◌,
  ltb, get_elem?,
}
use enlightenedc.Prelude.Int.{pos, negsuc}
use enlightenedc.Token.Kinds.{PrimType}
use enlightenedc.Symbols.Name.{Name, name_eq}
use enlightenedc.Primitive.{pr_is_integer}
use enlightenedc.Types.{
  Ty, ClassType, base_class, derived_class, primitive_type, class_type, pointer_type, array_type,
  const_type, atomic_type, volatile_type, unqual, is_const, is_qualified,
}
use enlightenedc.Types.Qualified.{get_const, get_atomic, get_volatile}
use enlightenedc.Types.Qualified.Canonical.{wrap}
use enlightenedc.Types.Qualified.Order.{
  Qualifier, qualify_all, qualify_all_canonical, wraps_canonical,
}
use enlightenedc.Types.Coercion.{coercible_to, castable_to}
use enlightenedc.Types.Coercion.Classes.{Inherits, is_ancestor_of, classes_convert}
use enlightenedc.Types.Coercion.Qualifiers.{coercible_to-wrap}
use enlightenedc.Types.Coercion.Pointers.{class_pointers}
use enlightenedc.Types.Enum.{
  EnumType, EnumTypeMember, EnumResult, find_member, last_value, finish, int_max, value_overflow,
}
use enlightenedc.Types.Enum
use enlightenedc.Types.Enum.Finish.{finish_lem, fits}
use enlightenedc.Types.Enum.Numbering.{add_all, numbered, add_all-numbered}
use enlightenedc.Types.Interning.{
  TypeContext, Node, base_node, find_interned, intern, get_pointer, get_array, get_const_unordered,
  get_atomic_unordered, get_volatile_unordered,
}
use enlightenedc.Types.Interning.Unique.{WellFormed, Denotes}
use enlightenedc.Types.Interning.Refines.{Makes, interns, interning_refines}

abbrev int : Ty
int = primitive_type PrimType.i32

-- Const over volatile over I32, with const asked for again.
qualify_example :
    qualify_all 4 (Qualifier.const ∷ Qualifier.volatile ∷ []) int ≡ wrap true false true int
unfolding is_qualified
qualify_example =
    qualify_all_canonical 4 int (Qualifier.const ∷ Qualifier.volatile ∷ []) (omega arith) refl
      (refl, (refl, tt))

wraps_example :
    (get_const 4 (wrap true true false int) ≡ wrap true false false int)
    × (get_atomic 4 (wrap true true false int) ≡ wrap true true false int)
    × (get_volatile 4 (wrap true true false int) ≡ wrap true true true int)
unfolding is_qualified
wraps_example = wraps_canonical int 4 true true false refl (omega arith)

abbrev animal : ClassType
animal = base_class 0

abbrev dog : ClassType
dog = derived_class 1 animal

convert_example :
    ((coercible_to (class_type dog) (class_type animal) ≡ true) ↔ Inherits dog animal)
    × ((is_ancestor_of animal dog ≡ true) ↔ Inherits dog animal)
    × ((castable_to 64 (class_type dog) (class_type animal) ≡ true)
        ↔ (Inherits dog animal ⊎ Inherits animal dog))
convert_example = classes_convert 64 dog animal

const_kept_example :
    coercible_to (wrap true false true int) int
    ≡ ((not true || is_const int) && coercible_to int (unqual int))
unfolding is_qualified
const_kept_example = coercible_to-wrap int int true false true refl

class_pointers_example :
    (coercible_to (pointer_type (class_type dog)) (pointer_type (class_type animal)) ≡ true)
    ↔ ((dog ≡ animal) ⊎ Inherits dog animal)
class_pointers_example = class_pointers dog animal

-- An enumeration over U8 whose enumerators are -5 and 3.
abbrev mixed : EnumType
mixed = record {
  enumerators =
      record { name = 97 ∷ []; value = negsuc 4 } ∷ record { name = 98 ∷ []; value = pos 3 } ∷ [];
  underlying = PrimType.u8;
  def_in_progress = true;
  complete = false;
}

finish_example : finish mixed ≡ (
    if ltb 255 2
    then EnumResult.refused Enum.count_overflow
    else if fits 255 mixed.enumerators
    then EnumResult.done (record mixed { def_in_progress = false; complete = true })
    else EnumResult.refused value_overflow)
unfolding int_max pr_is_integer
finish_example = finish_lem mixed 255 refl refl refl

abbrev empty : EnumType
empty = record {
  enumerators = [];
  underlying = PrimType.i32;
  def_in_progress = true;
  complete = false;
}

abbrev names : List Name
names = (97 ∷ []) ∷ (98 ∷ []) ∷ []

numbered_example :
    add_all empty names ≡ EnumResult.done (record empty { enumerators = numbered 0 names })
unfolding find_member name_eq last_value
numbered_example =
    add_all-numbered empty names 0 (refl, (refl, tt)) ((refl, tt), (tt, tt)) refl (omega arith)

-- The context with the object of I32 alone.
abbrev nothing : TypeContext
nothing = record { objects = []; interned = [] }

abbrev with_int : TypeContext
with_int = (intern nothing (base_node int)).1

nothing_found :
    (a : ℕ) (node : Node) → find_interned [] node ≡ some a → get_elem? nothing.objects a ≡ some node
unfolding find_interned
nothing_found a node h = cc

nothing-WellFormed : WellFormed nothing
nothing-WellFormed = (λ a node h. cc, nothing_found)

with_int-WellFormed : WellFormed with_int
with_int-WellFormed = (interns nothing (base_node int) nothing-WellFormed).0

int_there : Denotes with_int 0 int
unfolding intern
int_there = refl

interning_example :
    Makes with_int (get_pointer with_int 0) (pointer_type int)
    × Makes with_int (get_array with_int 0 (some 8)) (array_type int (some 8))
    × Makes with_int (get_const_unordered with_int 0) (const_type int)
    × Makes with_int (get_atomic_unordered with_int 0) (atomic_type int)
    × Makes with_int (get_volatile_unordered with_int 0) (volatile_type int)
interning_example = interning_refines with_int 0 int (some 8) with_int-WellFormed int_there
