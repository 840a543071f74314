-- ===== src/ConstInit/Positional.antt =====
-- lib/lowering/lir/constinit.cpp, `try_build_constinit_agg_arr`: lists without designators.
use enlightenedc.Prelude.{
  ℕ, zero, suc, ◌+◌, ◌<◌, ◌≤◌, ◌≡◌, refl, ap, ◌∙◌, Bool, true, Option, some, arith, List, [], ◌∷◌,
  length,
}
use enlightenedc.Outcome.{Outcome, ok}
use enlightenedc.Types.Record.{MemberType, array_member}
use enlightenedc.ConstInit.Slots.{
  expr_init, list_init, Inits, no_inits, init, ConstInit, aggregate_init, Elements, no_elements,
  null_then, set_then, touch, untouched, nulls, write, zero_array,
}
use enlightenedc.ConstInit.{build, array_elements}
use enlightenedc.ConstInit.Filled.{count, Covered-start, AllSet, AllSet-zero_array}
use enlightenedc.ConstInit.Aggregates.{array-Keeps}

-- The list of these expressions.
abbrev pub exprs : {E : Type 0} → List E → Inits E
exprs [] = no_inits
exprs (e ∷ es) = init (expr_init e) (exprs es)

touch_ok :
    (ts : List Bool) (i : ℕ)
    → i < length ts
    → (ts' : List Bool) × (touch ts i ≡ ok ts') × (length ts' ≡ length ts)
unfolding touch
touch_ok [] i h = elim h [ ]
touch_ok (t ∷ ts) zero h = (true ∷ ts, refl, refl)
touch_ok (t ∷ ts) (suc i) h =
    let (ts', e, n) = touch_ok ts i (omega (arith, h)) in (t ∷ ts', rw e, ap suc n)

module _ {K : Type 0} where
  write_ok :
      (es : Elements K) (i : ℕ) (c : ConstInit K)
      → i < count es
      → (es' : Elements K) × (write es i c ≡ ok es') × (count es' ≡ count es)
  unfolding write
  write_ok no_elements i c h = elim h [ ]
  write_ok (null_then es) zero c h = (set_then c es, refl, refl)
  write_ok (set_then d es) zero c h = (set_then c es, refl, refl)
  write_ok (null_then es) (suc i) c h =
      let (es', e, n) = write_ok es i c (omega (arith, h)) in (null_then es', rw e, ap suc n)
  write_ok (set_then d es) (suc i) c h =
      let (es', e, n) = write_ok es i c (omega (arith, h)) in (set_then d es', rw e, ap suc n)

length-untouched : (n : ℕ) → length (untouched n) ≡ n
unfolding untouched
length-untouched zero = refl
length-untouched (suc n) = ap suc (length-untouched n)

module _ {E K : Type 0} (build_expr : MemberType → E → Outcome (Option (ConstInit K)))
    (base : MemberType)
    (constants : (e : E) → (c : ConstInit K) × (build_expr base e ≡ ok (some c))) where
  -- The loop gets through a list that fits into the slots that are left.
  elements_ok :
      (es : List E) (next : ℕ) (ts : List Bool) (fs : Elements K)
      → next + length es ≤ length ts
      → next + length es ≤ count fs
      → (slots : List Bool × Elements K) × (array_elements build_expr base (exprs es) next ts fs
          ≡ ok (some slots))
  unfolding array_elements
  elements_ok [] next ts fs h k = ((ts, fs), refl)
  elements_ok (e ∷ es) next ts fs h k =
      let (c, built) = constants e in
      let (ts', marked, n) = touch_ok ts next (omega (arith, h)) in
      let (fs', written, m) = write_ok fs next c (omega (arith, k)) in
      let (slots, ends) =
        elements_ok es (suc next) ts' fs' (omega (arith, h, n)) (omega (arith, k, m)) in
      (slots, rw (built, marked, written) ends)

-- A list of at most as many expressions as the array has elements, each of which is a constant, is
-- built to a constant, which has all its elements.
pub build_positional :
    {E K : Type 0} (build_expr : MemberType → E → Outcome (Option (ConstInit K)))
    (base : MemberType) (n : ℕ) (es : List E)
    → ((e : E) → (c : ConstInit K) × (build_expr base e ≡ ok (some c)))
    → length es ≤ n
    → (slots : Elements K) × (build build_expr (array_member base (some n)) (list_init (exprs es))
        ≡ ok (some (aggregate_init (array_member base (some n)) slots)))
      × AllSet slots
      × (count slots ≡ n)
unfolding array_elements
build_positional {E} {K} build_expr base n es constants fits =
    let (start, size) = Covered-start K n in
    let ((ts, fs), ends) =
      elements_ok build_expr base constants es 0 (untouched n) (nulls n)
        (omega (arith, fits, length-untouched n)) (omega (arith, fits, size)) in
    let (w, m) =
      array-Keeps build_expr base (exprs es) 0 (untouched n) (nulls n) start ts fs ends in
    let (all, z) = AllSet-zero_array base ts fs w in
    (zero_array base ts fs, rw ends refl, all, z ∙ m ∙ size)
