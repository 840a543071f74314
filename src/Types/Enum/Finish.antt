-- ===== src/Types/Enum/Finish.antt =====
-- lib/semantics/types.cpp, `EnumType::finish`: which enumerations are accepted.
use enlightenedc.Prelude.{
  ℕ, ◌≡◌, refl, ◌∙◌, Bool, true, false, ◌||◌, ◌&&◌, not, arith, some, List, [], ◌∷◌, length, ltb,
  if◌then◌else◌,
}
use enlightenedc.Prelude.Int.{ℤ, pos, ltb_ℤ}
use enlightenedc.Primitive.{pr_is_integer}
use enlightenedc.Types.Enum.{
  EnumTypeMember, EnumType, refused, done, count_overflow, value_overflow, int_max, max_value,
  value_fits, finish,
}

-- Some enumerator lies above a bound; all enumerators are negative.
pub any_above : ℕ → List EnumTypeMember → Bool
any_above max [] = false
any_above max (m ∷ ms) = ltb_ℤ (pos max) m.value || any_above max ms

pub all_negative : List EnumTypeMember → Bool
all_negative [] = true
all_negative (m ∷ ms) = ltb_ℤ m.value (pos 0) && all_negative ms

max_value-above :
    (max : ℕ) (largest : ℤ) (ms : List EnumTypeMember)
    → ltb_ℤ (pos max) (max_value largest ms) ≡ (ltb_ℤ (pos max) largest || any_above max ms)
unfolding max_value any_above
max_value-above max largest [] = ground arith
max_value-above max largest (m ∷ ms) =
    max_value-above max (if ltb_ℤ largest m.value then m.value else largest) ms
    ∙ larger max largest m.value (any_above max ms)
  where
    larger :
        (max : ℕ) (a b : ℤ) (rest : Bool)
        → (ltb_ℤ (pos max) (if ltb_ℤ a b then b else a) || rest)
          ≡ (ltb_ℤ (pos max) a || (ltb_ℤ (pos max) b || rest))
    larger max a b rest = ground arith

max_value-negative :
    (largest : ℤ) (ms : List EnumTypeMember)
    → ltb_ℤ (max_value largest ms) (pos 0) ≡ (ltb_ℤ largest (pos 0) && all_negative ms)
unfolding max_value all_negative
max_value-negative largest [] = ground arith
max_value-negative largest (m ∷ ms) =
    max_value-negative (if ltb_ℤ largest m.value then m.value else largest) ms
    ∙ larger largest m.value (all_negative ms)
  where
    larger :
        (a b : ℤ) (rest : Bool)
        → (ltb_ℤ (if ltb_ℤ a b then b else a) (pos 0) && rest)
          ≡ (ltb_ℤ a (pos 0) && (ltb_ℤ b (pos 0) && rest))
    larger a b rest = ground arith

-- The test of the largest value, as tests of all the values.
pub fits : ℕ → List EnumTypeMember → Bool
fits max [] = true
fits max (m ∷ ms) = not (any_above max (m ∷ ms)) && not (all_negative (m ∷ ms))

value_fits-fits : (max : ℕ) (ms : List EnumTypeMember) → value_fits max ms ≡ fits max ms
unfolding value_fits fits any_above all_negative
value_fits-fits max [] = refl
value_fits-fits max (m ∷ ms) =
    rw (max_value-above max m.value ms, max_value-negative m.value ms)
      (swapped (ltb_ℤ m.value (pos 0) && all_negative ms)
        (ltb_ℤ (pos max) m.value || any_above max ms))
  where
    swapped : (p q : Bool) → not (p || q) ≡ (not q && not p)
    swapped p q = ground arith

-- The end of an enumeration over an integer type. It is refused for its count where it has more
-- enumerators than the largest value of the type, and else for its values where one of them lies above
-- that value, or where there are enumerators and all are negative. All others are accepted, and
-- complete: neither the smallest value of the type nor a negative enumerator is looked at.
pub finish_lem :
    (e : EnumType) (max : ℕ)
    → e.def_in_progress ≡ true
    → pr_is_integer e.underlying ≡ true
    → int_max e.underlying ≡ some max
    → finish e ≡ (
        if ltb max (length e.enumerators)
        then refused count_overflow
        else if fits max e.enumerators
        then done (record e { def_in_progress = false; complete = true })
        else refused value_overflow)
unfolding finish
finish_lem e max going is_int m =
    rw (going, is_int, m, value_fits-fits max e.enumerators) (turned (fits max e.enumerators))
  where
    turned :
        (b : Bool)
        → (if ltb max (length e.enumerators)
            then refused count_overflow
            else if not b
            then refused value_overflow
            else done (record e { def_in_progress = false; complete = true }))
          ≡ (if ltb max (length e.enumerators)
              then refused count_overflow
              else if b
              then done (record e { def_in_progress = false; complete = true })
              else refused value_overflow)
    turned b = ground arith
