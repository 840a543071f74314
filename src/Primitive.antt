-- ===== src/Primitive.antt =====
-- include/semantics/primitives.hpp: the algebra of primitive types. A rank is the number of its
-- enumerator; an unreachable `default` of a switch over all enumerators has no clause.
pub mod Enumerate
pub mod Promotion
pub mod Checking
use enlightenedc.Prelude.{ℕ, ◌*◌, Bool, ◌&&◌, ◌||◌, Option, none, some, leb, ltb, if◌then◌else◌}
use enlightenedc.Token.Kinds.{PrimType, BinaryOp, UnaryOp, AssignOp}
use enlightenedc.Token.Underlying.{underlying, prim_type_token, unary_op_token}
use enlightenedc.Token.Family
use enlightenedc.Token.Family.{is_tok}

pub data PrimTypeRank : Type 0 where
  bool int8 int16 int32 int64 flt32 flt64 : PrimTypeRank

unfoldable pub rank_value : PrimTypeRank → ℕ
rank_value PrimTypeRank.bool = 1
rank_value PrimTypeRank.int8 = 2
rank_value PrimTypeRank.int16 = 3
rank_value PrimTypeRank.int32 = 4
rank_value PrimTypeRank.int64 = 5
rank_value PrimTypeRank.flt32 = 6
rank_value PrimTypeRank.flt64 = 7

unfoldable pub unaryop_is_const_foldable : UnaryOp → Bool
unfolding underlying is_tok unary_op_token
unaryop_is_const_foldable op = is_tok Family.pure_unary_op (unary_op_token op)

unfoldable pub pr_rank : PrimType → PrimTypeRank
pr_rank PrimType.bool = PrimTypeRank.bool
pr_rank PrimType.u8 = PrimTypeRank.int8
pr_rank PrimType.i8 = PrimTypeRank.int8
pr_rank PrimType.u16 = PrimTypeRank.int16
pr_rank PrimType.i16 = PrimTypeRank.int16
pr_rank PrimType.u32 = PrimTypeRank.int32
pr_rank PrimType.i32 = PrimTypeRank.int32
pr_rank PrimType.u64 = PrimTypeRank.int64
pr_rank PrimType.i64 = PrimTypeRank.int64
pr_rank PrimType.f32 = PrimTypeRank.flt32
pr_rank PrimType.f64 = PrimTypeRank.flt64

unfoldable pub pr_is_integer : PrimType → Bool
unfolding underlying is_tok prim_type_token
pr_is_integer pr = is_tok Family.integer (prim_type_token pr)

unfoldable pub pr_is_float : PrimType → Bool
unfolding underlying is_tok prim_type_token
pr_is_float pr = is_tok Family.floating (prim_type_token pr)

unfoldable pub pr_is_bool : PrimType → Bool
unfolding underlying is_tok prim_type_token
pr_is_bool pr = is_tok Family.boolean (prim_type_token pr)

unfoldable pub pr_is_signed : PrimType → Bool
unfolding underlying is_tok prim_type_token
pr_is_signed pr = is_tok Family.signed (prim_type_token pr)

-- In bytes.
unfoldable pub pr_size : PrimType → ℕ
pr_size PrimType.bool = 1
pr_size PrimType.u8 = 1
pr_size PrimType.i8 = 1
pr_size PrimType.u16 = 2
pr_size PrimType.i16 = 2
pr_size PrimType.u32 = 4
pr_size PrimType.i32 = 4
pr_size PrimType.f32 = 4
pr_size PrimType.u64 = 8
pr_size PrimType.i64 = 8
pr_size PrimType.f64 = 8

unfoldable pub pr_size_in_bits : PrimType → ℕ
unfolding pr_size
pr_size_in_bits pr = pr_size pr * 8

unfoldable pub pr_from_rank : PrimTypeRank → Bool → PrimType
pr_from_rank PrimTypeRank.bool s = PrimType.bool
pr_from_rank PrimTypeRank.int8 s = if s then PrimType.i8 else PrimType.u8
pr_from_rank PrimTypeRank.int16 s = if s then PrimType.i16 else PrimType.u16
pr_from_rank PrimTypeRank.int32 s = if s then PrimType.i32 else PrimType.u32
pr_from_rank PrimTypeRank.int64 s = if s then PrimType.i64 else PrimType.u64
pr_from_rank PrimTypeRank.flt32 s = PrimType.f32
pr_from_rank PrimTypeRank.flt64 s = PrimType.f64

unfoldable pub pr_unsigned : PrimType → PrimType
pr_unsigned PrimType.bool = PrimType.bool
pr_unsigned PrimType.u8 = PrimType.u8
pr_unsigned PrimType.i8 = PrimType.u8
pr_unsigned PrimType.u16 = PrimType.u16
pr_unsigned PrimType.i16 = PrimType.u16
pr_unsigned PrimType.u32 = PrimType.u32
pr_unsigned PrimType.i32 = PrimType.u32
pr_unsigned PrimType.u64 = PrimType.u64
pr_unsigned PrimType.i64 = PrimType.u64
pr_unsigned PrimType.f32 = PrimType.f32
pr_unsigned PrimType.f64 = PrimType.f64

-- What `pr_promote` makes of the operand of the higher rank.
floored : PrimType → Bool → PrimType
unfolding rank_value pr_rank pr_from_rank pr_unsigned
floored pr use_signed =
    if leb (rank_value PrimTypeRank.int32) (rank_value (pr_rank pr))
    then (if use_signed then pr else pr_unsigned pr)
    else pr_from_rank PrimTypeRank.int32 use_signed

unfoldable pub pr_promote : PrimType → PrimType → PrimType
unfolding floored pr_is_signed
pr_promote lhs rhs =
    let use_signed = pr_is_signed lhs && pr_is_signed rhs in
    if leb (rank_value (pr_rank rhs)) (rank_value (pr_rank lhs))
    then floored lhs use_signed
    else floored rhs use_signed

unfoldable pub pr_single_promote : PrimType → PrimType
unfolding rank_value pr_rank pr_from_rank pr_is_signed
pr_single_promote pr =
    if ltb (rank_value (pr_rank pr)) (rank_value PrimTypeRank.int32)
    then pr_from_rank PrimTypeRank.int32 (pr_is_signed pr)
    else pr

pub record PrimExprTypes : Type 0 where
  pub lhs_type : PrimType
  pub rhs_type : PrimType
  pub expr_type : PrimType

pr_is_num : PrimType → Bool
unfolding pr_is_integer pr_is_float
pr_is_num pr = pr_is_integer pr || pr_is_float pr

-- The two branches of each case: the pair that both promoted operands make, and no types.
types_if : Bool → PrimType → PrimType → PrimType → Option PrimExprTypes
types_if test lhs rhs expr =
    if test then some (record { lhs_type = lhs; rhs_type = rhs; expr_type = expr }) else none

shift_types : PrimType → PrimType → Option PrimExprTypes
unfolding types_if pr_single_promote pr_is_integer
shift_types lhs rhs =
    let lhs' = pr_single_promote lhs in
    types_if (pr_is_integer lhs' && pr_is_integer rhs) lhs' rhs lhs'

arith_types : PrimType → PrimType → Option PrimExprTypes
unfolding types_if pr_promote pr_is_num
arith_types lhs rhs =
    let promoted = pr_promote lhs rhs in
    types_if (pr_is_num promoted && pr_is_num promoted) promoted promoted promoted

integral_types : PrimType → PrimType → Option PrimExprTypes
unfolding types_if pr_promote pr_is_integer
integral_types lhs rhs =
    let promoted = pr_promote lhs rhs in
    types_if (pr_is_integer promoted && pr_is_integer promoted) promoted promoted promoted

equality_types : PrimType → PrimType → Option PrimExprTypes
unfolding types_if pr_promote pr_is_num pr_is_bool
equality_types lhs rhs =
    let promoted = pr_promote lhs rhs in
    let test = pr_is_num promoted || pr_is_bool promoted in
    types_if (test && test) promoted promoted PrimType.bool

ordering_types : PrimType → PrimType → Option PrimExprTypes
unfolding types_if pr_promote pr_is_num
ordering_types lhs rhs =
    let promoted = pr_promote lhs rhs in
    types_if (pr_is_num promoted && pr_is_num promoted) promoted promoted PrimType.bool

default_types : PrimType → PrimType → Option PrimExprTypes
unfolding pr_promote
default_types lhs rhs =
    let promoted = pr_promote lhs rhs in
    some (record { lhs_type = promoted; rhs_type = promoted; expr_type = promoted })

unfoldable pub pr_check_binary_op : BinaryOp → PrimType → PrimType → Option PrimExprTypes
unfolding shift_types arith_types integral_types equality_types ordering_types default_types
pr_check_binary_op BinaryOp.lshift lhs rhs = shift_types lhs rhs
pr_check_binary_op BinaryOp.rshift lhs rhs = shift_types lhs rhs
pr_check_binary_op BinaryOp.plus lhs rhs = arith_types lhs rhs
pr_check_binary_op BinaryOp.minus lhs rhs = arith_types lhs rhs
pr_check_binary_op BinaryOp.mul lhs rhs = arith_types lhs rhs
pr_check_binary_op BinaryOp.div lhs rhs = arith_types lhs rhs
pr_check_binary_op BinaryOp.and lhs rhs = integral_types lhs rhs
pr_check_binary_op BinaryOp.or lhs rhs = integral_types lhs rhs
pr_check_binary_op BinaryOp.xor lhs rhs = integral_types lhs rhs
pr_check_binary_op BinaryOp.modulo lhs rhs = integral_types lhs rhs
pr_check_binary_op BinaryOp.eq lhs rhs = equality_types lhs rhs
pr_check_binary_op BinaryOp.ne lhs rhs = equality_types lhs rhs
pr_check_binary_op BinaryOp.andand lhs rhs = ordering_types lhs rhs
pr_check_binary_op BinaryOp.oror lhs rhs = ordering_types lhs rhs
pr_check_binary_op BinaryOp.lt lhs rhs = ordering_types lhs rhs
pr_check_binary_op BinaryOp.gt lhs rhs = ordering_types lhs rhs
pr_check_binary_op BinaryOp.le lhs rhs = ordering_types lhs rhs
pr_check_binary_op BinaryOp.ge lhs rhs = ordering_types lhs rhs
pr_check_binary_op BinaryOp.bincomma lhs rhs = default_types lhs rhs

unfoldable pub pr_assignop_to_binop : AssignOp → Option BinaryOp
pr_assignop_to_binop AssignOp.assign = none
pr_assignop_to_binop AssignOp.muleq = some BinaryOp.mul
pr_assignop_to_binop AssignOp.diveq = some BinaryOp.div
pr_assignop_to_binop AssignOp.modeq = some BinaryOp.modulo
pr_assignop_to_binop AssignOp.pluseq = some BinaryOp.plus
pr_assignop_to_binop AssignOp.minuseq = some BinaryOp.minus
pr_assignop_to_binop AssignOp.lshifteq = some BinaryOp.lshift
pr_assignop_to_binop AssignOp.rshifteq = some BinaryOp.rshift
pr_assignop_to_binop AssignOp.andeq = some BinaryOp.and
pr_assignop_to_binop AssignOp.xoreq = some BinaryOp.xor
pr_assignop_to_binop AssignOp.oreq = some BinaryOp.or
