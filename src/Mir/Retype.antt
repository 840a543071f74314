-- ===== src/Mir/Retype.antt =====
-- lib/semantics/mir/passes/constfold.cpp: folding keeps the types of the validator.
use enlightenedc.Prelude.{◌≡◌}
use enlightenedc.Outcome.{Outcome, ok}
use enlightenedc.Float.{Floats}
use enlightenedc.Value.{Value}
use enlightenedc.Mir.{Expr, EffType}
use enlightenedc.Mir.Fold.{eval_and_expr, accept}
use enlightenedc.Mir.Typed.{Typed}

module _ ⦃F : Floats⦄ where
  -- What a step of folding makes of an expression, if anything, has type `t`.
  abbrev Gives : EffType → Outcome (Expr F) → Type 0
  Gives t m = (e' : Expr F) → m ≡ ok e' → Typed t e'

  -- The two ways to fold an operand keep its type.
  abbrev Retyped : EffType → Expr F → Type 0
  Retyped t e = Gives t (eval_and_expr e) × Gives t (accept e)
