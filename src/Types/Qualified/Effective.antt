-- ===== src/Types/Qualified/Effective.antt =====
-- include/semantics/types.hpp and lib/semantics/types.cpp: `effective_type`, the type by which a value
-- is handled in memory.
use enlightenedc.Prelude.{◌≡◌, refl, ap, Bool, false, none, some, arith}
use enlightenedc.Types.{
  Ty, union_type, pointer_type, array_type, const_type, atomic_type, volatile_type, is_qualified,
  unqual,
}
use enlightenedc.Types.Qualified.{Flags, all_qualflags, requalify, bare_effective, effective_type}
use enlightenedc.Types.Qualified.Canonical.{
  wrap, canonical, const_if, atomic_if, volatile_if, flags-wrap, unqual-wrap,
}

pub requalify-canonical :
    (f : Flags) (b : Ty) → is_qualified b ≡ false → requalify f b ≡ canonical f b
unfolding requalify canonical
requalify-canonical f b bare = rw (
  const_if b bare 3 f.const,
  atomic_if b bare 2 f.const f.atomic,
  volatile_if b bare 1 f.const f.atomic f.volatile,
)

bare_effective-bare : (t : Ty) → is_qualified (bare_effective t) ≡ false
unfolding is_qualified bare_effective
bare_effective-bare (const_type t) = bare_effective-bare t
bare_effective-bare (atomic_type t) = bare_effective-bare t
bare_effective-bare (volatile_type t) = bare_effective-bare t
bare_effective-bare (union_type id none) = refl
bare_effective-bare (union_type id (some rep)) = refl
bare_effective-bare t = refl

bare_effective-wrap : (c a v : Bool) (b : Ty) → bare_effective (wrap c a v b) ≡ bare_effective b
unfolding wrap bare_effective
bare_effective-wrap c a v b = ground arith

-- The base of an effective pointer or array is an effective type.
effective_base :
    (f : Flags) (b : Ty)
    → is_qualified b ≡ false
    → bare_effective b ≡ b
    → requalify (all_qualflags (requalify f b)) (bare_effective (requalify f b)) ≡ requalify f b
unfolding canonical
effective_base f b bare fixed = rw (
  requalify-canonical f b bare,
  flags-wrap b bare f.const f.atomic f.volatile,
  bare_effective-wrap f.const f.atomic f.volatile b,
  fixed,
  requalify-canonical f b bare,
)

bare_effective_idem : (t : Ty) → bare_effective (bare_effective t) ≡ bare_effective t
unfolding bare_effective
bare_effective_idem (const_type t) = bare_effective_idem t
bare_effective_idem (atomic_type t) = bare_effective_idem t
bare_effective_idem (volatile_type t) = bare_effective_idem t
bare_effective_idem (pointer_type base) = ap pointer_type (
    effective_base (all_qualflags base) (bare_effective base) (bare_effective-bare base)
      (bare_effective_idem base))
bare_effective_idem (array_type base size) =
    ap (λ b. array_type b size)
      (effective_base (all_qualflags base) (bare_effective base) (bare_effective-bare base)
        (bare_effective_idem base))
bare_effective_idem (union_type id none) = refl
bare_effective_idem (union_type id (some rep)) = refl
bare_effective_idem t = refl

-- What is read back from a type that was wrapped again.
flags-requalify : (f : Flags) (b : Ty) → is_qualified b ≡ false → all_qualflags (requalify f b) ≡ f
unfolding canonical
flags-requalify f b bare =
    rw (requalify-canonical f b bare) (flags-wrap b bare f.const f.atomic f.volatile)

unqual-requalify : (f : Flags) (b : Ty) → is_qualified b ≡ false → unqual (requalify f b) ≡ b
unfolding canonical
unqual-requalify f b bare =
    rw (requalify-canonical f b bare) (unqual-wrap b bare f.const f.atomic f.volatile)

-- The effective type of a type is its own effective type, and has the qualifiers of the type, over a
-- type without any, in the canonical order.
pub effective_type_idem :
    (t : Ty)
    → (effective_type (effective_type t) ≡ effective_type t)
      × (all_qualflags (effective_type t) ≡ all_qualflags t)
      × (effective_type t ≡ canonical (all_qualflags t) (unqual (effective_type t)))
unfolding effective_type
effective_type_idem t =
    let bare = bare_effective-bare t in
    (
      effective_base (all_qualflags t) (bare_effective t) bare (bare_effective_idem t),
      flags-requalify (all_qualflags t) (bare_effective t) bare,
      rw (unqual-requalify (all_qualflags t) (bare_effective t) bare)
          (requalify-canonical (all_qualflags t) (bare_effective t) bare),
    )
