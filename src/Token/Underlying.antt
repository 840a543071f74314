-- ===== src/Token/Underlying.antt =====
-- include/tokens.hpp: the position of each enumerator in the namespace of `TokenKind`. `START` is 0
-- and the first operator 1.
use Prim.Native.Nat.{ℕ}
use enlightenedc.Token.Kinds.{
  TokenKind, BinaryOp, UnaryOp, AssignOp, PostfixOp, RelationalOp, PrimType,
}

-- `std::to_underlying` of a `TokenKind`.
unfoldable pub underlying : TokenKind → ℕ
underlying TokenKind.oror = 1
underlying TokenKind.andand = 2
underlying TokenKind.eq = 3
underlying TokenKind.ne = 4
underlying TokenKind.lt = 5
underlying TokenKind.gt = 6
underlying TokenKind.le = 7
underlying TokenKind.ge = 8
underlying TokenKind.plus = 9
underlying TokenKind.minus = 10
underlying TokenKind.mul = 11
underlying TokenKind.div = 12
underlying TokenKind.modulo = 13
underlying TokenKind.xor = 14
underlying TokenKind.or = 15
underlying TokenKind.and = 16
underlying TokenKind.lshift = 17
underlying TokenKind.rshift = 18
underlying TokenKind.bincomma = 19
underlying TokenKind.inc = 20
underlying TokenKind.dec = 21
underlying TokenKind.ref = 22
underlying TokenKind.deref = 23
underlying TokenKind.pos = 24
underlying TokenKind.neg = 25
underlying TokenKind.tilde = 26
underlying TokenKind.not = 27
underlying TokenKind.assign = 28
underlying TokenKind.pluseq = 29
underlying TokenKind.minuseq = 30
underlying TokenKind.muleq = 31
underlying TokenKind.diveq = 32
underlying TokenKind.modeq = 33
underlying TokenKind.xoreq = 34
underlying TokenKind.oreq = 35
underlying TokenKind.andeq = 36
underlying TokenKind.lshifteq = 37
underlying TokenKind.rshifteq = 38
underlying TokenKind.postinc = 39
underlying TokenKind.postdec = 40
underlying TokenKind.bool = 41
underlying TokenKind.u8 = 42
underlying TokenKind.u16 = 43
underlying TokenKind.u32 = 44
underlying TokenKind.u64 = 45
underlying TokenKind.i8 = 46
underlying TokenKind.i16 = 47
underlying TokenKind.i32 = 48
underlying TokenKind.i64 = 49
underlying TokenKind.f32 = 50
underlying TokenKind.f64 = 51
underlying TokenKind.ptr = 52

-- `token` on each enumeration: the same enumerator of `TokenKind`.
unfoldable pub binary_op_token : BinaryOp → TokenKind
binary_op_token BinaryOp.oror = TokenKind.oror
binary_op_token BinaryOp.andand = TokenKind.andand
binary_op_token BinaryOp.eq = TokenKind.eq
binary_op_token BinaryOp.ne = TokenKind.ne
binary_op_token BinaryOp.lt = TokenKind.lt
binary_op_token BinaryOp.gt = TokenKind.gt
binary_op_token BinaryOp.le = TokenKind.le
binary_op_token BinaryOp.ge = TokenKind.ge
binary_op_token BinaryOp.plus = TokenKind.plus
binary_op_token BinaryOp.minus = TokenKind.minus
binary_op_token BinaryOp.mul = TokenKind.mul
binary_op_token BinaryOp.div = TokenKind.div
binary_op_token BinaryOp.modulo = TokenKind.modulo
binary_op_token BinaryOp.xor = TokenKind.xor
binary_op_token BinaryOp.or = TokenKind.or
binary_op_token BinaryOp.and = TokenKind.and
binary_op_token BinaryOp.lshift = TokenKind.lshift
binary_op_token BinaryOp.rshift = TokenKind.rshift
binary_op_token BinaryOp.bincomma = TokenKind.bincomma

unfoldable pub unary_op_token : UnaryOp → TokenKind
unary_op_token UnaryOp.inc = TokenKind.inc
unary_op_token UnaryOp.dec = TokenKind.dec
unary_op_token UnaryOp.ref = TokenKind.ref
unary_op_token UnaryOp.deref = TokenKind.deref
unary_op_token UnaryOp.pos = TokenKind.pos
unary_op_token UnaryOp.neg = TokenKind.neg
unary_op_token UnaryOp.tilde = TokenKind.tilde
unary_op_token UnaryOp.not = TokenKind.not

unfoldable pub assign_op_token : AssignOp → TokenKind
assign_op_token AssignOp.assign = TokenKind.assign
assign_op_token AssignOp.pluseq = TokenKind.pluseq
assign_op_token AssignOp.minuseq = TokenKind.minuseq
assign_op_token AssignOp.muleq = TokenKind.muleq
assign_op_token AssignOp.diveq = TokenKind.diveq
assign_op_token AssignOp.modeq = TokenKind.modeq
assign_op_token AssignOp.xoreq = TokenKind.xoreq
assign_op_token AssignOp.oreq = TokenKind.oreq
assign_op_token AssignOp.andeq = TokenKind.andeq
assign_op_token AssignOp.lshifteq = TokenKind.lshifteq
assign_op_token AssignOp.rshifteq = TokenKind.rshifteq

unfoldable pub postfix_op_token : PostfixOp → TokenKind
postfix_op_token PostfixOp.postinc = TokenKind.postinc
postfix_op_token PostfixOp.postdec = TokenKind.postdec

unfoldable pub relational_op_token : RelationalOp → TokenKind
relational_op_token RelationalOp.eq = TokenKind.eq
relational_op_token RelationalOp.ne = TokenKind.ne
relational_op_token RelationalOp.lt = TokenKind.lt
relational_op_token RelationalOp.gt = TokenKind.gt
relational_op_token RelationalOp.le = TokenKind.le
relational_op_token RelationalOp.ge = TokenKind.ge

unfoldable pub prim_type_token : PrimType → TokenKind
prim_type_token PrimType.bool = TokenKind.bool
prim_type_token PrimType.u8 = TokenKind.u8
prim_type_token PrimType.u16 = TokenKind.u16
prim_type_token PrimType.u32 = TokenKind.u32
prim_type_token PrimType.u64 = TokenKind.u64
prim_type_token PrimType.i8 = TokenKind.i8
prim_type_token PrimType.i16 = TokenKind.i16
prim_type_token PrimType.i32 = TokenKind.i32
prim_type_token PrimType.i64 = TokenKind.i64
prim_type_token PrimType.f32 = TokenKind.f32
prim_type_token PrimType.f64 = TokenKind.f64
