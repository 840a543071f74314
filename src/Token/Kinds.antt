-- ===== src/Token/Kinds.antt =====
-- include/tokens.hpp: `TokenKind`, and the scoped enumerations of operators and primitive types that
-- the compiler passes around. The enumerators keep their names in lower case (`MOD` is `modulo`,
-- since `mod` is a word of the language here).

pub data TokenKind : Type 0 where
  oror andand eq ne lt gt le ge plus minus mul div modulo xor or and lshift : TokenKind
  rshift bincomma inc dec ref deref pos neg tilde not assign pluseq minuseq : TokenKind
  muleq diveq modeq xoreq oreq andeq lshifteq rshifteq postinc postdec bool u8 : TokenKind
  u16 u32 u64 i8 i16 i32 i64 f32 f64 ptr : TokenKind

pub data BinaryOp : Type 0 where
  oror andand eq ne lt gt le ge plus minus mul div modulo xor or and lshift : BinaryOp
  rshift bincomma : BinaryOp

pub data UnaryOp : Type 0 where
  inc dec ref deref pos neg tilde not : UnaryOp

pub data AssignOp : Type 0 where
  assign pluseq minuseq muleq diveq modeq xoreq oreq andeq lshifteq rshifteq : AssignOp

pub data PostfixOp : Type 0 where
  postinc postdec : PostfixOp

pub data RelationalOp : Type 0 where
  eq ne lt gt le ge : RelationalOp

pub data PrimType : Type 0 where
  bool u8 u16 u32 u64 i8 i16 i32 i64 f32 f64 : PrimType

pub TokenKind-discrete : Discrete TokenKind
TokenKind-discrete = hlevel

pub PrimType-discrete : Discrete PrimType
PrimType-discrete = hlevel
