-- ===== src/Examples/Initialisers.antt =====
-- The theorems about constant initialisers at concrete inputs. Expressions and constants are numbers.
use enlightenedc.Prelude.{ℕ, ◌≡◌, refl, arith, Option, some, [], ◌∷◌}
use enlightenedc.Outcome.{Outcome, ok}
use enlightenedc.Token.Kinds.{PrimType}
use enlightenedc.Types.{primitive_type}
use enlightenedc.Types.Record.{MemberType, other_member, array_member}
use enlightenedc.ConstInit.{
  expr_init, list_init, index_init, Inits, no_inits, init, ConstInit, constant_init, zero_init,
  aggregate_init, Elements, no_elements, set_then, build, array_elements,
}
use enlightenedc.ConstInit.Slots.{untouched, touch, nulls, write, zero_array}
use enlightenedc.ConstInit.Filled.{AllSet, count}
use enlightenedc.ConstInit.Aggregates.{slots_of, aggregate_type, build-AllSet}
use enlightenedc.ConstInit.Positional.{exprs, build_positional}

abbrev u8 : MemberType
u8 = other_member (primitive_type PrimType.u8)

abbrev literal : MemberType → ℕ → Outcome (Option (ConstInit ℕ))
literal ty n = ok (some (constant_init n))

-- U8 a[3] = {7, [2] = 9};
abbrev sparse : Inits ℕ
sparse = init (expr_init 7) (init (index_init 2 (expr_init 9)) no_inits)

abbrev three : MemberType
three = array_member u8 (some 3)

abbrev built : ConstInit ℕ
built =
    aggregate_init three (
      set_then (constant_init 7) (set_then (zero_init u8) (set_then (constant_init 9) no_elements)))

sparse-built : build literal three (list_init sparse) ≡ ok (some built)
unfolding array_elements untouched touch nulls write zero_array
sparse-built = refl

aggregate_example :
    (es : Elements ℕ) × (built ≡ aggregate_init (aggregate_type three) es)
    × AllSet es
    × (count es ≡ slots_of three)
aggregate_example = build-AllSet literal three sparse built sparse-built

positional_example :
    (slots : Elements ℕ) × (build literal three (list_init (exprs (7 ∷ 8 ∷ [])))
      ≡ ok (some (aggregate_init three slots)))
    × AllSet slots
    × (count slots ≡ 3)
positional_example =
    build_positional literal u8 3 (7 ∷ 8 ∷ []) (λ e. (constant_init e, refl)) (omega arith)
