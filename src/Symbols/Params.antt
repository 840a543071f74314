-- ===== src/Symbols/Params.antt =====
-- lib/semantics/symbols.cpp: the parameters of a `FuncSymbol`, as the values of their variables; a
-- parameter with a value is a default one. `==` of values is a parameter. A parameter is a variable of
-- its own here: what `set_value` does to other holders of a shared `VarSymbol *` is left out.
use enlightenedc.Prelude.{
  ℕ, zero, suc, ◌+◌, ◌-◌, Bool, true, false, not, Option, none, some, List, [], ◌∷◌, ◌++◌, ltb,
  length, if◌then◌else◌, match_option,
}
use enlightenedc.Outcome.{Outcome, ok, fail, internal_error, undefined_behaviour}

module _ {V : Type 0} where
  unfoldable pub has_value : Option V → Bool
  has_value none = false
  has_value (some v) = true

  -- `parameters.empty() || !parameters.back()->has_value()`
  unfoldable pub open_back : List (Option V) → Bool
  unfolding has_value
  open_back [] = true
  open_back (p ∷ []) = not (has_value p)
  open_back (p ∷ (q ∷ ps)) = open_back (q ∷ ps)

  unfoldable pub add_parameter : List (Option V) → Option V → Outcome (List (Option V))
  unfolding open_back
  add_parameter ps p = if open_back ps then ok (ps ++ (p ∷ [])) else fail internal_error

  unfoldable pub add_default_param :
      (V → V → Bool) → List (Option V) → Option V → V → Outcome (List (Option V))
  add_default_param equal ps p v =
      match_option p (ok (ps ++ (some v ∷ [])))
        (λ w. if equal w v then ok (ps ++ (some w ∷ [])) else fail internal_error)

  unfoldable pub num_default_params : List (Option V) → ℕ
  unfolding has_value
  num_default_params [] = 0
  num_default_params (p ∷ ps) = (if has_value p then 1 else 0) + num_default_params ps

  unfoldable pub num_non_default_params : List (Option V) → ℕ
  unfolding num_default_params
  num_non_default_params ps = length ps - num_default_params ps

  unfoldable pub all_default : List (Option V) → Bool
  unfolding has_value
  all_default [] = true
  all_default (p ∷ ps) = elim (has_value p) [ true ↦ all_default ps | false ↦ false ]

  -- `std::ranges::is_partitioned`: those without a value come first.
  unfoldable pub params_well_ordered : List (Option V) → Bool
  unfolding has_value all_default
  params_well_ordered [] = true
  params_well_ordered (p ∷ ps) = elim (has_value p) [
    | true ↦ all_default ps
    | false ↦ params_well_ordered ps
  ]

  -- `parameters.data() + n` up to the end, for an `n` that is not beyond it.
  unfoldable pub drop : ℕ → List (Option V) → List (Option V)
  drop zero ps = ps
  drop (suc n) [] = []
  drop (suc n) (p ∷ ps) = drop n ps

  unfoldable pub default_params : List (Option V) → Outcome (List (Option V))
  unfolding params_well_ordered drop num_non_default_params
  default_params ps =
      if params_well_ordered ps
      then ok (drop (num_non_default_params ps) ps)
      else fail internal_error

  unfoldable pub default_params_after : List (Option V) → ℕ → Outcome (List (Option V))
  unfolding params_well_ordered drop num_non_default_params default_params
  default_params_after ps idx =
      if params_well_ordered ps
      then (if ltb idx (num_non_default_params ps)
          then default_params ps
          else (if ltb (length ps) idx then fail undefined_behaviour else ok (drop idx ps)))
      else fail internal_error
