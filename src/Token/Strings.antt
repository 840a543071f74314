-- ===== src/Token/Strings.antt =====
-- lib/tokens.cpp: the spelling of operators and primitive types in messages and dumps.
use Prim.Native.String.{String}
use enlightenedc.Token.Kinds.{BinaryOp, UnaryOp, AssignOp, PostfixOp, PrimType}

unfoldable pub binop_to_string : BinaryOp → String
binop_to_string BinaryOp.plus = "+"
binop_to_string BinaryOp.minus = "-"
binop_to_string BinaryOp.mul = "*"
binop_to_string BinaryOp.div = "/"
binop_to_string BinaryOp.modulo = "%"
binop_to_string BinaryOp.eq = "=="
binop_to_string BinaryOp.ne = "!="
binop_to_string BinaryOp.le = "<="
binop_to_string BinaryOp.ge = ">="
binop_to_string BinaryOp.lt = "<"
binop_to_string BinaryOp.gt = ">"
binop_to_string BinaryOp.andand = "&&"
binop_to_string BinaryOp.oror = "||"
binop_to_string BinaryOp.and = "&"
binop_to_string BinaryOp.or = "|"
binop_to_string BinaryOp.xor = "^"
binop_to_string BinaryOp.lshift = "<<"
binop_to_string BinaryOp.rshift = ">>"
binop_to_string BinaryOp.bincomma = ","

unfoldable pub unop_to_string : UnaryOp → String
unop_to_string UnaryOp.inc = "++"
unop_to_string UnaryOp.dec = "--"
unop_to_string UnaryOp.ref = "&"
unop_to_string UnaryOp.deref = "*"
unop_to_string UnaryOp.pos = "+"
unop_to_string UnaryOp.neg = "-"
unop_to_string UnaryOp.tilde = "~"
unop_to_string UnaryOp.not = "!"

unfoldable pub assignop_to_string : AssignOp → String
assignop_to_string AssignOp.assign = "="
assignop_to_string AssignOp.pluseq = "+="
assignop_to_string AssignOp.minuseq = "-="
assignop_to_string AssignOp.muleq = "*="
assignop_to_string AssignOp.diveq = "/="
assignop_to_string AssignOp.modeq = "%="
assignop_to_string AssignOp.lshifteq = "<<="
assignop_to_string AssignOp.rshifteq = ">>="
assignop_to_string AssignOp.andeq = "&="
assignop_to_string AssignOp.oreq = "|="
assignop_to_string AssignOp.xoreq = "^="

unfoldable pub postfixop_to_string : PostfixOp → String
postfixop_to_string PostfixOp.postinc = "++"
postfixop_to_string PostfixOp.postdec = "--"

unfoldable pub primitive_to_string : PrimType → String
primitive_to_string PrimType.u8 = "u8"
primitive_to_string PrimType.u16 = "u16"
primitive_to_string PrimType.u32 = "u32"
primitive_to_string PrimType.u64 = "u64"
primitive_to_string PrimType.i8 = "i8"
primitive_to_string PrimType.i16 = "i16"
primitive_to_string PrimType.i32 = "i32"
primitive_to_string PrimType.i64 = "i64"
primitive_to_string PrimType.f32 = "f32"
primitive_to_string PrimType.f64 = "f64"
primitive_to_string PrimType.bool = "bool"
