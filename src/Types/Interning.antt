-- ===== src/Types/Interning.antt =====
-- The interning maps of `TypeContext` (include/semantics/types.hpp, lib/semantics/types.cpp). An object
-- is its number in the list of all objects, and a pointer to it is that number. The maps of pointers,
-- arrays and wrappers are one association list, whose key says which map it belongs to. A type that
-- is not made from another one (`base_node`, from the constructor and the maps by name) stands for
-- itself. The reference counts that let an unsized array go again are left out, as is the table of
-- type ids.
pub mod Unique
pub mod Refines
use enlightenedc.Prelude.{
  ℕ, Bool, true, false, Option, none, some, List, [], ◌∷◌, ◌++◌, length, match_option,
}
use mathlib.Core.Logic.{ite}
use native.Mathlib.Decide.{ℕ_discrete}
use enlightenedc.Types.{Ty, Ty-discrete}

pub data Node : Type 0 where
  base_node : Ty → Node
  pointer_node const_node atomic_node volatile_node : ℕ → Node
  array_node : ℕ → Option ℕ → Node

pub Node-discrete : Discrete Node
Node-discrete = hlevel (ℕ_discrete, Ty-discrete)

pub record TypeContext : Type 0 where
  pub objects : List Node
  pub interned : List (Node × ℕ)

unfoldable pub find_interned : List (Node × ℕ) → Node → Option ℕ
find_interned [] node = none
find_interned ((key, object) ∷ m) node =
    ite (Node-discrete key node) (some object) (find_interned m node)

-- Look the key up, and make the object where it is missing.
unfoldable pub intern : TypeContext → Node → ℕ × TypeContext
unfolding find_interned
intern ctx node =
    match_option (find_interned ctx.interned node)
      (
        length ctx.objects,
        record {
          objects = ctx.objects ++ node ∷ [];
          interned = (node, length ctx.objects) ∷ ctx.interned;
        },
      )
      (λ object. (object, ctx))

unfoldable pub get_pointer : TypeContext → ℕ → ℕ × TypeContext
unfolding intern
get_pointer ctx base = intern ctx (pointer_node base)

unfoldable pub get_array : TypeContext → ℕ → Option ℕ → ℕ × TypeContext
unfolding intern
get_array ctx base size = intern ctx (array_node base size)

unfoldable pub get_const_unordered : TypeContext → ℕ → ℕ × TypeContext
unfolding intern
get_const_unordered ctx base = intern ctx (const_node base)

unfoldable pub get_atomic_unordered : TypeContext → ℕ → ℕ × TypeContext
unfolding intern
get_atomic_unordered ctx base = intern ctx (atomic_node base)

unfoldable pub get_volatile_unordered : TypeContext → ℕ → ℕ × TypeContext
unfolding intern
get_volatile_unordered ctx base = intern ctx (volatile_node base)
