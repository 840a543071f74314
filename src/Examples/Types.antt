-- ===== src/Examples/Types.antt =====
-- Promotions, checks of operators and token families at concrete inputs.
use enlightenedc.Token.Predicate.{yields_bool, token_range}
use enlightenedc.Token.Classification.{contains, contains-token_range}
use enlightenedc.Token.Underlying.{underlying, binary_op_token}
use enlightenedc.Primitive.{pr_check_binary_op, rank_value, pr_is_bool, pr_rank, PrimTypeRank}
use enlightenedc.Primitive.Checking.{is_shift, check_binary_op_sound}
use enlightenedc.Prelude.{◌≡◌, refl, true, ◌⊎◌, ◌≤◌, arith}
use enlightenedc.Token.Kinds.{PrimType, BinaryOp, TokenKind}
use enlightenedc.Token.Family
use enlightenedc.Token.Family.{is_tok}

check_sound_example :
    (pr_is_bool PrimType.i32 ≡ yields_bool (binary_op_token BinaryOp.lshift))
    × (rank_value PrimTypeRank.int32 ≤ rank_value (pr_rank PrimType.i32))
    × ((is_shift BinaryOp.lshift ≡ true) ⊎ (PrimType.i32 ≡ PrimType.u64))
    × ((yields_bool (binary_op_token BinaryOp.lshift) ≡ true) ⊎ (PrimType.i32 ≡ PrimType.i32))
unfolding pr_check_binary_op
check_sound_example =
    check_binary_op_sound BinaryOp.lshift PrimType.i8 PrimType.u64
      (record { lhs_type = PrimType.i32; rhs_type = PrimType.u64; expr_type = PrimType.i32 }) refl

range_example :
    contains (underlying TokenKind.lt) (token_range Family.relational_op)
    ≡ is_tok Family.relational_op TokenKind.lt
unfolding underlying
range_example = contains-token_range Family.relational_op TokenKind.lt (ground arith)
