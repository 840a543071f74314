-- ===== src/Types.antt =====
-- include/semantics/types.hpp and lib/semantics/types.cpp: the type objects. The context interns
-- every type, so that a pointer to a type stands for its structure: a `Ty` is that structure, and
-- `==` on pointers is equality of structures. A user type is its number, with the fields that the
-- predicates here read (a class has its parent, a union its representative, an enum its underlying
-- type). Member lists are in Types/Record, the interning maps in Types/Interning.
pub mod Qualified
pub mod Kinds
pub mod Coercion
pub mod Enum
pub mod Record
pub mod Interning
use enlightenedc.Prelude.{ℕ, ◌≡◌, refl, Bool, true, false, Option, none, some}
use enlightenedc.Token.Kinds.{PrimType, PrimType-discrete}
use enlightenedc.Symbols.Scope.{LangLinkage, no_lang, c_lang}
use native.Mathlib.Decide.{ℕ_discrete}

pub data ClassType : Type 0 where
  base_class : ℕ → ClassType
  derived_class : ℕ → ClassType → ClassType

mutual
  pub data Ty : Type 0 where
    void_type : Ty
    primitive_type : PrimType → Ty
    class_type : ClassType → Ty
    union_type : ℕ → Option PrimType → Ty
    enum_type : ℕ → PrimType → Ty
    pointer_type : Ty → Ty
    array_type : Ty → Option ℕ → Ty
    function_type : Ty → Params → Bool → LangLinkage → Ty
    const_type : Ty → Ty
    atomic_type : Ty → Ty
    volatile_type : Ty → Ty

  pub data Params : Type 0 where
    end : Params
    param : Ty → Params → Params

pub Linkage-discrete : Discrete LangLinkage
Linkage-discrete = hlevel

pub Class-discrete : Discrete ClassType
Class-discrete = hlevel ℕ_discrete

pub Ty-discrete : Discrete Ty
Ty-discrete = hlevel (ℕ_discrete, Class-discrete, PrimType-discrete, Linkage-discrete)

-- The dynamic class of the object, and not its `kind`: a qualified type is none of the others.
unfoldable pub is_qualified : Ty → Bool
is_qualified (const_type t) = true
is_qualified (atomic_type t) = true
is_qualified (volatile_type t) = true
is_qualified t = false

unfoldable pub unqual : Ty → Ty
unqual (const_type t) = unqual t
unqual (atomic_type t) = unqual t
unqual (volatile_type t) = unqual t
unqual t = t

unfoldable pub is_const : Ty → Bool
is_const (const_type t) = true
is_const (atomic_type t) = is_const t
is_const (volatile_type t) = is_const t
is_const t = false

unfoldable pub is_atomic : Ty → Bool
is_atomic (atomic_type t) = true
is_atomic (const_type t) = is_atomic t
is_atomic (volatile_type t) = is_atomic t
is_atomic t = false

unfoldable pub is_volatile : Ty → Bool
is_volatile (volatile_type t) = true
is_volatile (const_type t) = is_volatile t
is_volatile (atomic_type t) = is_volatile t
is_volatile t = false

-- The cast to a qualifier's class finds the outermost wrapper of that class; null is `none`.
unfoldable pub as_const : Ty → Option Ty
as_const (const_type t) = some (const_type t)
as_const (atomic_type t) = as_const t
as_const (volatile_type t) = as_const t
as_const t = none

unfoldable pub as_atomic : Ty → Option Ty
as_atomic (atomic_type t) = some (atomic_type t)
as_atomic (const_type t) = as_atomic t
as_atomic (volatile_type t) = as_atomic t
as_atomic t = none

unfoldable pub as_volatile : Ty → Option Ty
as_volatile (volatile_type t) = some (volatile_type t)
as_volatile (const_type t) = as_volatile t
as_volatile (atomic_type t) = as_volatile t
as_volatile t = none

pub is_qualified-unqual : (t : Ty) → is_qualified (unqual t) ≡ false
unfolding is_qualified unqual
is_qualified-unqual (const_type t) = is_qualified-unqual t
is_qualified-unqual (atomic_type t) = is_qualified-unqual t
is_qualified-unqual (volatile_type t) = is_qualified-unqual t
is_qualified-unqual t = refl

pub unqual_bare : (t : Ty) → is_qualified t ≡ false → unqual t ≡ t
unfolding is_qualified unqual
unqual_bare (const_type t) h = cc
unqual_bare (atomic_type t) h = cc
unqual_bare (volatile_type t) h = cc
unqual_bare t h = refl

pub unqual_idem : (t : Ty) → unqual (unqual t) ≡ unqual t
unqual_idem t = unqual_bare (unqual t) (is_qualified-unqual t)

pub Params-discrete : Discrete Params
Params-discrete =
    hlevel (ℕ_discrete, Class-discrete, PrimType-discrete, Linkage-discrete, Ty-discrete)
