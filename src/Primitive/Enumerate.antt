-- ===== src/Primitive/Enumerate.antt =====
-- Checks over all primitive types by evaluation, for laws in two or three types.
use enlightenedc.Prelude.{◌≡◌, Bool, true, ◌&&◌, arith, ◌==◌}
use enlightenedc.Token.Kinds.{PrimType}
use enlightenedc.Token.Underlying.{underlying, prim_type_token}

-- Whether two primitive types are the same enumerator.
unfoldable pub pr_eq : PrimType → PrimType → Bool
unfolding underlying prim_type_token
pr_eq a b = underlying (prim_type_token a) == underlying (prim_type_token b)

unfoldable pub all_types : (PrimType → Bool) → Bool
all_types p =
    p PrimType.bool
    && p PrimType.u8
    && p PrimType.u16
    && p PrimType.u32
    && p PrimType.u64
    && p PrimType.i8
    && p PrimType.i16
    && p PrimType.i32
    && p PrimType.i64
    && p PrimType.f32
    && p PrimType.f64

pub pr_eq_sound : (a b : PrimType) → pr_eq a b ≡ true → a ≡ b
unfolding pr_eq
pr_eq_sound a b h = ground arith

pub all_types_sound : (p : PrimType → Bool) → all_types p ≡ true → (a : PrimType) → p a ≡ true
unfolding all_types
all_types_sound p h PrimType.bool = ground arith
all_types_sound p h _ = ground arith

-- Two operations on pairs of types that agree by evaluation agree.
pub agree_on_types :
    (f g : PrimType → PrimType → PrimType)
    → all_types (λ a. all_types (λ b. pr_eq (f a b) (g a b))) ≡ true
    → (a b : PrimType) → f a b ≡ g a b
agree_on_types f g h a b = pr_eq_sound _ _ (
    all_types_sound (λ b. pr_eq (f a b) (g a b))
      (all_types_sound (λ a. all_types (λ b. pr_eq (f a b) (g a b))) h a) b)

pub holds_on_types :
    (p : PrimType → PrimType → Bool)
    → all_types (λ a. all_types (λ b. p a b)) ≡ true
    → (a b : PrimType) → p a b ≡ true
holds_on_types p h a b = all_types_sound (p a) (all_types_sound (λ a. all_types (p a)) h a) b
