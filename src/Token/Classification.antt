-- ===== src/Token/Classification.antt =====
-- What the classification of operators in include/tokens.hpp guarantees.
use enlightenedc.Prelude.{
  ℕ, zero, suc, ◌+◌, ◌-◌, ◌≤◌, ◌≡◌, refl, Bool, true, false, xor, ◌&&◌, ◌||◌, none, some, List, [],
  ◌∷◌, arith, ltb, leb, ◌==◌, if◌then◌else◌,
}
use enlightenedc.Token.Kinds.{TokenKind}
use enlightenedc.Token.Underlying.{underlying}
use enlightenedc.Token.Family
use enlightenedc.Token.Family.{SubToken, is_tok, narrow, sub_token_of}
use enlightenedc.Token.Predicate.{
  is_arith, is_additive, is_multiplicative, is_modulo, is_pure, is_impure, yields_bool, yields_num,
  yields_ptr, yields_dep, walk, token_range,
}

-- 1 for a property that holds.
abbrev pub bit : Bool → ℕ
bit true = 1
bit false = 0

-- `narrow` gives back the token exactly when it belongs to the family, and nothing otherwise.
pub narrow-is_tok :
    (e : SubToken) (t : TokenKind) → narrow e t ≡ (if is_tok e t then some t else none)
unfolding Family.narrow Family.is_tok Family.end
narrow-is_tok e t = ground arith

-- A member of a family is a member of every family that has the first as a subtoken family.
pub is_tok-sub_token_of :
    (e f : SubToken) (t : TokenKind)
    → sub_token_of e f ≡ true
    → is_tok e t ≡ true
    → is_tok f t ≡ true
unfolding Family.is_tok Family.sub_token_of
is_tok-sub_token_of e f t h k = ground arith

-- Every operator is pure or impure and no operator is both; no other token is either.
pub pure_xor_impure : (t : TokenKind) → xor (is_pure t) (is_impure t) ≡ is_tok Family.operator t
unfolding is_pure is_impure xor Family.is_tok underlying
pure_xor_impure TokenKind.oror = refl
pure_xor_impure _ = refl

-- Every token yields a number, a boolean, a pointer or a type that depends on its operands, and
-- exactly one of these four.
pub yields_partition :
    (t : TokenKind)
    → bit (yields_num t) + bit (yields_bool t) + bit (yields_ptr t) + bit (yields_dep t) ≡ 1
unfolding yields_dep
yields_partition TokenKind.oror = refl
yields_partition _ = refl

-- The arithmetic operators are the additive, the multiplicative and the modulo ones, and no operator
-- is of two of these classes.
pub arith_partition :
    (t : TokenKind)
    → bit (is_additive t) + bit (is_multiplicative t) + bit (is_modulo t) ≡ bit (is_arith t)
unfolding is_additive is_multiplicative is_modulo is_arith
arith_partition TokenKind.oror = refl
arith_partition _ = refl

-- Whether a list of numbers has `n`.
abbrev pub contains : ℕ → List ℕ → Bool
contains n [] = false
contains n (x ∷ xs) = (x == n) || contains n xs

contains-walk : (n v idx : ℕ) → contains v (walk n idx) ≡ (leb idx v && ltb v (idx + n))
unfolding walk
contains-walk zero v idx = ground arith
contains-walk (suc n) v idx = ground (arith, contains-walk n v (idx + 1))

-- The walk over a family, whose bounds are in order, visits the values of its members and no others.
pub contains-token_range :
    (e : SubToken) (t : TokenKind)
    → underlying e.start ≤ underlying e.back
    → contains (underlying t) (token_range e) ≡ is_tok e t
unfolding token_range Family.end Family.is_tok
contains-token_range e t h = ground (
  arith,
  contains-walk (underlying e.back + 1 - underlying e.start) (underlying t) (underlying e.start),
)
