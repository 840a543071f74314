-- ===== src/Token/Predicate.antt =====
-- include/tokens.hpp: what an operator does (`is_…`) and what it yields (`yields_…`), the complement
-- of a comparison, and the walk over a family (`TokenRange`).
use enlightenedc.Prelude.{ℕ, zero, suc, ◌-◌, ◌+◌, Bool, not, ◌&&◌, ◌||◌, List, [], ◌∷◌, ◌==◌}
use enlightenedc.Token.Kinds.{TokenKind, RelationalOp}
use enlightenedc.Token.Underlying.{underlying}
use enlightenedc.Token.Family
use enlightenedc.Token.Family.{SubToken, is_tok}

-- `token(op) == TokenKind::K`.
same : TokenKind → TokenKind → Bool
unfolding underlying
same s t = underlying s == underlying t

unfoldable pub is_bitwise : TokenKind → Bool
unfolding underlying is_tok same
is_bitwise t =
    is_tok Family.bitwise_bin_op t || is_tok Family.bitwise_assign_op t || same t TokenKind.tilde

unfoldable pub is_memory : TokenKind → Bool
unfolding same
is_memory t = same t TokenKind.ref || same t TokenKind.deref

unfoldable pub is_arith_bin : TokenKind → Bool
unfolding underlying is_tok
is_arith_bin t = is_tok Family.arith_bin_op t || is_tok Family.arith_assign_op t

unfoldable pub is_arith_unary : TokenKind → Bool
unfolding underlying is_tok same
is_arith_unary t =
    same t TokenKind.inc
    || same t TokenKind.dec
    || same t TokenKind.pos
    || same t TokenKind.neg
    || is_tok Family.postfix_op t

unfoldable pub is_arith : TokenKind → Bool
unfolding is_arith_bin is_arith_unary
is_arith t = is_arith_bin t || is_arith_unary t

unfoldable pub is_additive : TokenKind → Bool
unfolding underlying is_tok same
is_additive t =
    is_tok Family.add_bin_op t
    || is_tok Family.add_assign_op t
    || is_tok Family.add_unary_op t
    || is_tok Family.postfix_op t
    || same t TokenKind.pos
    || same t TokenKind.neg

unfoldable pub is_multiplicative : TokenKind → Bool
unfolding underlying is_tok
is_multiplicative t = is_tok Family.mult_bin_op t || is_tok Family.mult_assign_op t

unfoldable pub is_modulo : TokenKind → Bool
unfolding same
is_modulo t = same t TokenKind.modulo || same t TokenKind.modeq

unfoldable pub is_impure : TokenKind → Bool
unfolding underlying is_tok
is_impure t =
    is_tok Family.assign_op t || is_tok Family.impure_unary_op t || is_tok Family.postfix_op t

unfoldable pub is_pure : TokenKind → Bool
unfolding underlying is_tok
is_pure t = is_tok Family.binary_op t || is_tok Family.pure_unary_op t

unfoldable pub yields_bool : TokenKind → Bool
unfolding underlying is_tok same
yields_bool t = is_tok Family.relational_op t || is_tok Family.logical_op t || same t TokenKind.not

unfoldable pub yields_num : TokenKind → Bool
unfolding is_arith is_bitwise
yields_num t = is_arith t || is_bitwise t

unfoldable pub yields_ptr : TokenKind → Bool
unfolding same
yields_ptr t = same t TokenKind.ref

unfoldable pub yields_dep : TokenKind → Bool
unfolding yields_num yields_bool yields_ptr
yields_dep t = not (yields_num t) && not (yields_bool t) && not (yields_ptr t)

-- The comparison that holds exactly when `op` does not.
unfoldable pub relcomp : RelationalOp → RelationalOp
relcomp RelationalOp.eq = RelationalOp.ne
relcomp RelationalOp.ne = RelationalOp.eq
relcomp RelationalOp.lt = RelationalOp.ge
relcomp RelationalOp.gt = RelationalOp.le
relcomp RelationalOp.le = RelationalOp.gt
relcomp RelationalOp.ge = RelationalOp.lt

-- The iterator of a `TokenRange` after `n` values are left to visit: `++idx` until it is `END`.
unfoldable pub walk : ℕ → ℕ → List ℕ
walk zero idx = []
walk (suc n) idx = idx ∷ walk n (idx + 1)

-- The underlying values that a `for` over `TokenRange<E>` visits.
unfoldable pub token_range : SubToken → List ℕ
unfolding walk Family.end
token_range e = walk (Family.end e - underlying e.start) (underlying e.start)
