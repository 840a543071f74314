-- ===== src/Token/Family.antt =====
-- include/tokens.hpp: the subtoken families, each a run of `TokenKind` values from `START` to `BACK`,
-- and the functions that test for, narrow to and index into a family.
use enlightenedc.Prelude.{
  ℕ, ◌+◌, ◌-◌, Bool, ◌&&◌, ◌||◌, Option, none, some, ltb, leb, if◌then◌else◌,
}
use enlightenedc.Token.Kinds.{TokenKind}
use enlightenedc.Token.Underlying.{underlying}

-- `END` is `BACK + 1` and `COUNT` is `END - START` in every family.
pub record SubToken : Type 0 where
  pub start : TokenKind
  pub back : TokenKind

abbrev pub operator : SubToken
operator = record { start = TokenKind.oror; back = TokenKind.postdec }

abbrev pub binary_op : SubToken
binary_op = record { start = TokenKind.oror; back = TokenKind.bincomma }

abbrev pub logical_op : SubToken
logical_op = record { start = TokenKind.oror; back = TokenKind.andand }

abbrev pub relational_op : SubToken
relational_op = record { start = TokenKind.eq; back = TokenKind.ge }

abbrev pub arith_bin_op : SubToken
arith_bin_op = record { start = TokenKind.plus; back = TokenKind.modulo }

abbrev pub add_bin_op : SubToken
add_bin_op = record { start = TokenKind.plus; back = TokenKind.minus }

abbrev pub mult_bin_op : SubToken
mult_bin_op = record { start = TokenKind.mul; back = TokenKind.div }

abbrev pub bitwise_bin_op : SubToken
bitwise_bin_op = record { start = TokenKind.xor; back = TokenKind.rshift }

abbrev pub unary_op : SubToken
unary_op = record { start = TokenKind.inc; back = TokenKind.not }

abbrev pub add_unary_op : SubToken
add_unary_op = record { start = TokenKind.inc; back = TokenKind.dec }

abbrev pub impure_unary_op : SubToken
impure_unary_op = record { start = TokenKind.inc; back = TokenKind.deref }

abbrev pub pure_unary_op : SubToken
pure_unary_op = record { start = TokenKind.pos; back = TokenKind.not }

abbrev pub assign_op : SubToken
assign_op = record { start = TokenKind.assign; back = TokenKind.rshifteq }

abbrev pub comp_assign_op : SubToken
comp_assign_op = record { start = TokenKind.pluseq; back = TokenKind.rshifteq }

abbrev pub arith_assign_op : SubToken
arith_assign_op = record { start = TokenKind.pluseq; back = TokenKind.modeq }

abbrev pub add_assign_op : SubToken
add_assign_op = record { start = TokenKind.pluseq; back = TokenKind.minuseq }

abbrev pub mult_assign_op : SubToken
mult_assign_op = record { start = TokenKind.muleq; back = TokenKind.diveq }

abbrev pub bitwise_assign_op : SubToken
bitwise_assign_op = record { start = TokenKind.xoreq; back = TokenKind.rshifteq }

abbrev pub postfix_op : SubToken
postfix_op = record { start = TokenKind.postinc; back = TokenKind.postdec }

abbrev pub type_kind : SubToken
type_kind = record { start = TokenKind.bool; back = TokenKind.ptr }

abbrev pub prim_type : SubToken
prim_type = record { start = TokenKind.bool; back = TokenKind.f64 }

abbrev pub integer : SubToken
integer = record { start = TokenKind.u8; back = TokenKind.i64 }

abbrev pub unsigned : SubToken
unsigned = record { start = TokenKind.bool; back = TokenKind.u64 }

abbrev pub unsigned_int : SubToken
unsigned_int = record { start = TokenKind.u8; back = TokenKind.u64 }

abbrev pub signed : SubToken
signed = record { start = TokenKind.i8; back = TokenKind.f64 }

abbrev pub signed_int : SubToken
signed_int = record { start = TokenKind.i8; back = TokenKind.i64 }

abbrev pub floating : SubToken
floating = record { start = TokenKind.f32; back = TokenKind.f64 }

abbrev pub boolean : SubToken
boolean = record { start = TokenKind.bool; back = TokenKind.bool }

abbrev pub ptr_type : SubToken
ptr_type = record { start = TokenKind.ptr; back = TokenKind.ptr }

-- `E::END`, one past the last member.
unfoldable pub end : SubToken → ℕ
end e = underlying e.back + 1

unfoldable pub is_tok : SubToken → TokenKind → Bool
is_tok e t = leb (underlying t) (underlying e.back) && leb (underlying e.start) (underlying t)

-- `tokidx`: the member as an index into an array with an entry for each member.
unfoldable pub tokidx : SubToken → TokenKind → ℕ
tokidx e t = underlying t - underlying e.start

unfoldable pub narrow : SubToken → TokenKind → Option TokenKind
unfolding end
narrow e t =
    if ltb (underlying t) (underlying e.start) || leb (end e) (underlying t) then none else some t

-- The concept `SubTokenOf`: every bound of `e` lies within `f`.
unfoldable pub sub_token_of : SubToken → SubToken → Bool
sub_token_of e f =
    leb (underlying f.start) (underlying e.start) && leb (underlying e.back) (underlying f.back)
