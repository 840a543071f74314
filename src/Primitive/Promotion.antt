-- ===== src/Primitive/Promotion.antt =====
-- The laws of the promotions in include/semantics/primitives.hpp.
use Prim.Native.Nat.{max}
use enlightenedc.Prelude.{ℕ, ◌≡◌, refl, true, ◌&&◌, ◌||◌, ◌==◌, ==_iff, bool_eq, bool_eq_sound}
use enlightenedc.Token.Kinds.{PrimType}
use enlightenedc.Primitive.{
  PrimTypeRank, rank_value, pr_rank, pr_is_float, pr_is_signed, pr_promote, pr_single_promote,
}
use enlightenedc.Primitive.Enumerate.{
  pr_eq, all_types, all_types_sound, agree_on_types, holds_on_types,
}

promote_comm_table :
    all_types (λ a. all_types (λ b. pr_eq (pr_promote a b) (pr_promote b a))) ≡ true
unfolding pr_promote all_types pr_eq
promote_comm_table = refl

-- The promotion of two types does not depend on their order.
pub promote_comm : (a b : PrimType) → pr_promote a b ≡ pr_promote b a
promote_comm = agree_on_types pr_promote (λ a b. pr_promote b a) promote_comm_table

promote_assoc_table :
    all_types (λ a.
      all_types
        λ b. all_types λ c. pr_eq (pr_promote (pr_promote a b) c) (pr_promote a (pr_promote b c)))
    ≡ true
unfolding pr_promote all_types pr_eq
promote_assoc_table = refl

-- The promotion of three types does not depend on their grouping.
pub promote_assoc :
    (a b c : PrimType) → pr_promote (pr_promote a b) c ≡ pr_promote a (pr_promote b c)
promote_assoc a =
    agree_on_types (λ b c. pr_promote (pr_promote a b) c) (λ b c. pr_promote a (pr_promote b c))
      (all_types_sound _ promote_assoc_table a)

abbrev promoted_rank : PrimType → PrimType → ℕ
promoted_rank a b =
    max (rank_value PrimTypeRank.int32) (max (rank_value (pr_rank a)) (rank_value (pr_rank b)))

promote_rank_table :
    all_types (λ a. all_types λ b. rank_value (pr_rank (pr_promote a b)) == promoted_rank a b)
    ≡ true
unfolding pr_promote all_types
promote_rank_table = refl

-- The rank of a promoted type is the higher of the two ranks and at least that of a 4-byte integer.
pub rank-promote :
    (a b : PrimType)
    → rank_value (pr_rank (pr_promote a b))
      ≡ max (rank_value PrimTypeRank.int32) (max (rank_value (pr_rank a)) (rank_value (pr_rank b)))
rank-promote a b = (==_iff _ _).0 (holds_on_types _ promote_rank_table a b)

promote_sign_table :
    all_types (λ a. all_types λ b.
      bool_eq
        (pr_is_signed (pr_promote a b))
        (pr_is_float (pr_promote a b) || (pr_is_signed a && pr_is_signed b)))
    ≡ true
unfolding pr_promote pr_is_float all_types
promote_sign_table = refl

-- A promoted type is signed exactly when it is a floating type or both operands are signed, so that
-- between integers the unsigned one wins.
pub is_signed-promote :
    (a b : PrimType)
    → pr_is_signed (pr_promote a b)
      ≡ (pr_is_float (pr_promote a b) || (pr_is_signed a && pr_is_signed b))
is_signed-promote a b = bool_eq_sound _ _ (holds_on_types _ promote_sign_table a b)

-- The promotion of a type by itself is the promotion of the pair of it with itself.
pub single_promote-promote : (a : PrimType) → pr_single_promote a ≡ pr_promote a a
unfolding pr_single_promote pr_promote
single_promote-promote PrimType.bool = refl
single_promote-promote _ = refl
