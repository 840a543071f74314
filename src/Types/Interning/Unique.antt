-- ===== src/Types/Interning/Unique.antt =====
-- `TypeContext` keeps one object for each type, so that comparing pointers compares types.
use enlightenedc.Prelude.{ℕ, ◌≡◌, ◌↔◌, refl, ap, sym, subst, ◌∙◌, some, some_eq, get_elem?}
use enlightenedc.Types.{
  Ty, void_type, primitive_type, class_type, union_type, enum_type, pointer_type, array_type,
  function_type, const_type, atomic_type, volatile_type,
}
use enlightenedc.Types.Interning.{
  Node, base_node, pointer_node, const_node, atomic_node, volatile_node, array_node, TypeContext,
  find_interned,
}

abbrev Holds : TypeContext → ℕ → Node → Type 0
Holds ctx a node = get_elem? ctx.objects a ≡ some node

-- Every object is the one that its key is mapped to.
abbrev pub OnePerKey : TypeContext → Type 0
OnePerKey ctx =
    (a : ℕ) (node : Node)
    → get_elem? ctx.objects a ≡ some node
    → find_interned ctx.interned node ≡ some a

-- And every key is mapped to an object that is made from it.
abbrev pub MapsToObjects : TypeContext → Type 0
MapsToObjects ctx =
    (a : ℕ) (node : Node)
    → find_interned ctx.interned node ≡ some a
    → get_elem? ctx.objects a ≡ some node

-- The type that an object is.
abbrev pub Denotes : TypeContext → ℕ → Ty → Type 0
Denotes ctx a (pointer_type t) = (b : ℕ) × Holds ctx a (pointer_node b) × Denotes ctx b t
Denotes ctx a (array_type t size) = (b : ℕ) × Holds ctx a (array_node b size) × Denotes ctx b t
Denotes ctx a (const_type t) = (b : ℕ) × Holds ctx a (const_node b) × Denotes ctx b t
Denotes ctx a (atomic_type t) = (b : ℕ) × Holds ctx a (atomic_node b) × Denotes ctx b t
Denotes ctx a (volatile_type t) = (b : ℕ) × Holds ctx a (volatile_node b) × Denotes ctx b t
Denotes ctx a t = Holds ctx a (base_node t)

abbrev pub WellFormed : TypeContext → Type 0
WellFormed ctx = OnePerKey ctx × MapsToObjects ctx

module _ (ctx : TypeContext) (one : OnePerKey ctx) where
  same_object :
      {node node' : Node} {a b : ℕ} → Holds ctx a node → Holds ctx b node' → node ≡ node' → a ≡ b
  same_object {node} {node'} {a} {b} h k e =
      some_eq (sym (one a node h) ∙ ap (λ n. find_interned ctx.interned n) e ∙ one b node' k)

  object_unique : (t : Ty) {a b : ℕ} → Denotes ctx a t → Denotes ctx b t → a ≡ b
  object_unique (pointer_type t) (x, h, d) (y, k, e) =
      same_object h k (ap pointer_node (object_unique t d e))
  object_unique (array_type t size) (x, h, d) (y, k, e) =
      same_object h k (ap (λ n. array_node n size) (object_unique t d e))
  object_unique (const_type t) (x, h, d) (y, k, e) =
      same_object h k (ap const_node (object_unique t d e))
  object_unique (atomic_type t) (x, h, d) (y, k, e) =
      same_object h k (ap atomic_node (object_unique t d e))
  object_unique (volatile_type t) (x, h, d) (y, k, e) =
      same_object h k (ap volatile_node (object_unique t d e))
  object_unique t h k = same_object h k refl

base_only :
    (ctx : TypeContext) (a : ℕ) (s t : Ty) → Holds ctx a (base_node s) → Denotes ctx a t → s ≡ t
base_only ctx a s (pointer_type t) h (x, k, e) = cc
base_only ctx a s (array_type t size) h (x, k, e) = cc
base_only ctx a s (const_type t) h (x, k, e) = cc
base_only ctx a s (atomic_type t) h (x, k, e) = cc
base_only ctx a s (volatile_type t) h (x, k, e) = cc
base_only ctx a s t h k = cc

type_unique : (ctx : TypeContext) (a : ℕ) (s t : Ty) → Denotes ctx a s → Denotes ctx a t → s ≡ t
type_unique ctx a void_type t d e = base_only ctx a void_type t d e
type_unique ctx a (primitive_type p) t d e = base_only ctx a (primitive_type p) t d e
type_unique ctx a (class_type c) t d e = base_only ctx a (class_type c) t d e
type_unique ctx a (union_type id rep) t d e = base_only ctx a (union_type id rep) t d e
type_unique ctx a (enum_type id u) t d e = base_only ctx a (enum_type id u) t d e
type_unique ctx a (function_type r ps v l) t d e = base_only ctx a (function_type r ps v l) t d e
type_unique ctx a (pointer_type s) (pointer_type t) (x, h, d) (y, k, e) =
    let same : x ≡ y = cc in
    ap pointer_type (type_unique ctx y s t (subst (λ z. Denotes ctx z s) same d) e)
type_unique ctx a (const_type s) (const_type t) (x, h, d) (y, k, e) =
    let same : x ≡ y = cc in
    ap const_type (type_unique ctx y s t (subst (λ z. Denotes ctx z s) same d) e)
type_unique ctx a (atomic_type s) (atomic_type t) (x, h, d) (y, k, e) =
    let same : x ≡ y = cc in
    ap atomic_type (type_unique ctx y s t (subst (λ z. Denotes ctx z s) same d) e)
type_unique ctx a (volatile_type s) (volatile_type t) (x, h, d) (y, k, e) =
    let same : x ≡ y = cc in
    ap volatile_type (type_unique ctx y s t (subst (λ z. Denotes ctx z s) same d) e)
type_unique ctx a (array_type s m) (array_type t n) (x, h, d) (y, k, e) =
    let same : x ≡ y = cc in
    let size : m ≡ n = cc in
    ap (λ u. array_type u m) (type_unique ctx y s t (subst (λ z. Denotes ctx z s) same d) e)
    ∙ ap (λ z. array_type t z) size
type_unique ctx a s t d e = cc

-- In a well-formed context two pointers are equal exactly when their types are.
pub pointers_are_types :
    (ctx : TypeContext) (a b : ℕ) (s t : Ty)
    → WellFormed ctx
    → Denotes ctx a s
    → Denotes ctx b t
    → (a ≡ b) ↔ (s ≡ t)
pointers_are_types ctx a b s t (one, maps) d e = (
  λ same. type_unique ctx b s t (subst (λ z. Denotes ctx z s) same d) e,
  λ same. object_unique ctx one t (subst (λ u. Denotes ctx a u) same d) e,
)
