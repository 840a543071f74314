-- ===== src/Types/Coercion/Qualifiers.antt =====
-- lib/semantics/types.cpp, `coercible_to`: what the qualifiers of the two types do to a conversion.
use enlightenedc.Prelude.{◌≡◌, refl, Bool, false, ◌||◌, ◌&&◌, not, arith, none, some}
use enlightenedc.Types.{
  Ty, void_type, primitive_type, class_type, union_type, enum_type, pointer_type, array_type,
  function_type, const_type, atomic_type, volatile_type, is_qualified, unqual, is_const,
  unqual_idem,
}
use enlightenedc.Types.Qualified.Canonical.{wrap}
use enlightenedc.Types.Coercion.{coercible_to}

-- An unqualified source reads its destination through the qualifiers.
bare_source :
    (t dst : Ty) → is_qualified t ≡ false → coercible_to t dst ≡ coercible_to t (unqual dst)
unfolding is_qualified coercible_to
bare_source void_type dst h = refl
bare_source (primitive_type p) dst h = rw (unqual_idem dst)
bare_source (class_type c) dst h = rw (unqual_idem dst)
bare_source (union_type id none) dst h = refl
bare_source (union_type id (some rep)) dst h = rw (unqual_idem dst)
bare_source (enum_type id u) dst h = rw (unqual_idem dst)
bare_source (pointer_type base) dst h = rw (unqual_idem dst)
bare_source (array_type base size) dst h = rw (unqual_idem dst)
bare_source (function_type r ps v l) dst h = rw (unqual_idem dst)
bare_source (const_type base) dst h = cc
bare_source (atomic_type base) dst h = cc
bare_source (volatile_type base) dst h = cc

-- Conversion of a type in canonical order looks at the two types without their qualifiers; besides,
-- it refuses a const source for a destination that is not const. Atomic and volatile change nothing.
pub coercible_to-wrap :
    (b dst : Ty) (c a v : Bool)
    → is_qualified b ≡ false
    → coercible_to (wrap c a v b) dst ≡ ((not c || is_const dst) && coercible_to b (unqual dst))
unfolding coercible_to wrap
coercible_to-wrap b dst c a v bare = ground (arith, bare_source b dst bare)
