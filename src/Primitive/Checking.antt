-- ===== src/Primitive/Checking.antt =====
-- What the checks of binary and assignment operators in include/semantics/primitives.hpp promise.
use Prim.Native.String.{String}
use Prim.Native.String
use enlightenedc.Prelude.{
  ◌≤◌, ◌≡◌, refl, ap, Bool, true, false, not, ◌&&◌, ◌||◌, Option, none, some, arith, leb, bool_eq,
  bool_eq_sound, if◌then◌else◌, ◌⊎◌, inl, inr,
}
use enlightenedc.Token.Kinds.{PrimType, BinaryOp, AssignOp}
use enlightenedc.Token.Underlying.{binary_op_token}
use enlightenedc.Token.Predicate.{yields_bool}
use enlightenedc.Token.Strings.{binop_to_string, assignop_to_string}
use enlightenedc.Primitive.{
  PrimTypeRank, PrimExprTypes, rank_value, pr_rank, pr_is_integer, pr_is_float, pr_is_bool,
  pr_check_binary_op, pr_assignop_to_binop,
}
use enlightenedc.Primitive.Enumerate.{pr_eq, pr_eq_sound, all_types, holds_on_types}

abbrev pub is_shift : BinaryOp → Bool
is_shift BinaryOp.lshift = true
is_shift BinaryOp.rshift = true
is_shift _ = false

-- The operators on bits and the remainder, which have no floating version.
abbrev pub takes_integers : BinaryOp → Bool
takes_integers BinaryOp.modulo = true
takes_integers BinaryOp.and = true
takes_integers BinaryOp.or = true
takes_integers BinaryOp.xor = true
takes_integers _ = false

abbrev pub is_some {ℓ} : {A : Type ℓ} → Option A → Bool
is_some none = false
is_some (some _) = true

-- Whether the types accepted for `op` are as promised below.
abbrev sound_types : BinaryOp → Option PrimExprTypes → Bool
sound_types op none = true
sound_types op (some r) =
    bool_eq (pr_is_bool r.expr_type) (yields_bool (binary_op_token op))
    && leb (rank_value PrimTypeRank.int32) (rank_value (pr_rank r.lhs_type))
    && (is_shift op || pr_eq r.lhs_type r.rhs_type)
    && (yields_bool (binary_op_token op) || pr_eq r.lhs_type r.expr_type)

sound_types_table :
    (op : BinaryOp)
    → all_types (λ a. all_types λ b. sound_types op (pr_check_binary_op op a b)) ≡ true
unfolding pr_check_binary_op all_types pr_eq yields_bool binary_op_token
sound_types_table BinaryOp.oror = refl
sound_types_table _ = refl

-- The types that `pr_check_binary_op` accepts: the result is a boolean exactly for the operators
-- that yield one, the left operand is promoted to at least 4 bytes, both operands have one type
-- unless the operator is a shift, and a result that is no boolean has the left operand's type.
pub check_binary_op_sound :
    (op : BinaryOp) (a b : PrimType) (r : PrimExprTypes)
    → pr_check_binary_op op a b ≡ some r
    → (pr_is_bool r.expr_type ≡ yields_bool (binary_op_token op))
      × (rank_value PrimTypeRank.int32 ≤ rank_value (pr_rank r.lhs_type))
      × ((is_shift op ≡ true) ⊎ (r.lhs_type ≡ r.rhs_type))
      × ((yields_bool (binary_op_token op) ≡ true) ⊎ (r.lhs_type ≡ r.expr_type))
check_binary_op_sound op a b r h = ground (
  arith,
  ap (sound_types op) h,
  holds_on_types (λ a b. sound_types op (pr_check_binary_op op a b)) (sound_types_table op) a b,
  bool_eq_sound (pr_is_bool r.expr_type) (yields_bool (binary_op_token op)),
  pr_eq_sound r.lhs_type r.rhs_type,
  pr_eq_sound r.lhs_type r.expr_type,
)

applicable_table :
    (op : BinaryOp)
    → all_types (λ a. all_types λ b. bool_eq (is_some (pr_check_binary_op op a b)) (
        if is_shift op
        then not (pr_is_float a) && pr_is_integer b
        else not (takes_integers op && (pr_is_float a || pr_is_float b))))
      ≡ true
unfolding pr_check_binary_op all_types pr_is_float pr_is_integer
applicable_table BinaryOp.oror = refl
applicable_table _ = refl

-- Exactly when an operator applies to a pair of types: a shift wants a left operand that is not
-- floating and an integer count, the operators on bits and the remainder want no floating operand,
-- and the others always apply.
pub check_binary_op_applicable :
    (op : BinaryOp) (a b : PrimType)
    → is_some (pr_check_binary_op op a b) ≡ (
        if is_shift op
        then not (pr_is_float a) && pr_is_integer b
        else not (takes_integers op && (pr_is_float a || pr_is_float b)))
check_binary_op_applicable op a b = bool_eq_sound _ _ (holds_on_types _ (applicable_table op) a b)

-- A compound assignment operator is spelled as its binary operator with `=` behind it, and only the
-- plain assignment has no binary operator.
pub assignop_to_binop_spelling :
    (op : AssignOp)
    → (pr_assignop_to_binop op ≡ none) × (op ≡ AssignOp.assign)
      ⊎ ((b : BinaryOp) × (pr_assignop_to_binop op ≡ some b)
          × (assignop_to_string op ≡ String.◌++◌ (binop_to_string b) "="))
unfolding pr_assignop_to_binop assignop_to_string binop_to_string
assignop_to_binop_spelling AssignOp.assign = inl (refl, refl)
assignop_to_binop_spelling AssignOp.pluseq = inr (_, refl, refl)
assignop_to_binop_spelling _ = inr (_, refl, refl)
