-- ===== src/Symbols/Defaults.antt =====
-- The order of the parameters of a function: default ones come last.
use enlightenedc.Prelude.{
  ℕ, zero, suc, ◌≤◌, ◌≡◌, refl, ap, Bool, true, false, Option, none, some, List, [], ◌∷◌, ◌++◌,
  length, arith, Bool-cases, inl, inr, ◌⊎◌, subst, sym, ◌∙◌,
}
use enlightenedc.Outcome.{ok, fail, internal_error, ok_eq}
use enlightenedc.Symbols.Params.{
  has_value, open_back, add_parameter, add_default_param, num_default_params,
  num_non_default_params, all_default, params_well_ordered, drop, default_params,
}

module _ {V : Type 0} where
  all_default-append :
      (ps : List (Option V)) (v : V)
      → all_default ps ≡ true
      → all_default (ps ++ (some v ∷ [])) ≡ true
  unfolding all_default has_value
  all_default-append [] v h = refl
  all_default-append (none ∷ ps) v h = cc
  all_default-append (some w ∷ ps) v h = all_default-append ps v h

  well_ordered_default :
      (ps : List (Option V)) (v : V)
      → params_well_ordered ps ≡ true
      → params_well_ordered (ps ++ (some v ∷ [])) ≡ true
  unfolding params_well_ordered all_default has_value
  well_ordered_default [] v h = refl
  well_ordered_default (none ∷ ps) v h = well_ordered_default ps v h
  well_ordered_default (some w ∷ ps) v h = all_default-append ps v h

  open_back_defaults :
      (p : Option V) (ps : List (Option V))
      → all_default (p ∷ ps) ≡ true
      → open_back (p ∷ ps) ≡ false
  unfolding all_default open_back has_value
  open_back_defaults none [] h = cc
  open_back_defaults (some v) [] h = refl
  open_back_defaults none (q ∷ ps) h = cc
  open_back_defaults (some v) (q ∷ ps) h = open_back_defaults q ps h

  well_ordered_open :
      (ps : List (Option V)) (p : Option V)
      → params_well_ordered ps ≡ true
      → open_back ps ≡ true
      → params_well_ordered (ps ++ (p ∷ [])) ≡ true
  unfolding params_well_ordered all_default open_back has_value
  well_ordered_open [] none h o = refl
  well_ordered_open [] (some v) h o = refl
  well_ordered_open (none ∷ []) none h o = refl
  well_ordered_open (none ∷ []) (some v) h o = refl
  well_ordered_open (none ∷ (q ∷ ps)) p h o = well_ordered_open (q ∷ ps) p h o
  well_ordered_open (some w ∷ []) p h o = cc
  well_ordered_open (some w ∷ (q ∷ ps)) p h o = let bad = open_back_defaults q ps h in cc

  add_parameter_open :
      (ps : List (Option V)) (p : Option V)
      → open_back ps ≡ true
      → add_parameter ps p ≡ ok (ps ++ (p ∷ []))
  unfolding add_parameter
  add_parameter_open ps p o = rw o refl

  add_parameter_closed :
      (ps : List (Option V)) (p : Option V)
      → open_back ps ≡ false
      → add_parameter ps p ≡ fail internal_error
  unfolding add_parameter
  add_parameter_closed ps p o = rw o refl

  default_added :
      (equal : V → V → Bool) (ps qs : List (Option V)) (o : Option V) (v : V)
      → add_default_param equal ps o v ≡ ok qs
      → (w : V) × (ps ++ (some w ∷ []) ≡ qs)
  unfolding add_default_param
  default_added equal ps qs none v e = (v, ok_eq e)
  default_added equal ps qs (some w) v e = elim (Bool-cases (equal w v)) [
    | inl f ↦ (w, ok_eq (rw f at e))
    | inr f ↦ let bad = rw f at e in cc
  ]

  -- A parameter that is added, as one without or with a default, leaves the list ordered: those
  -- without a default value first.
  pub params_well_ordered-add :
      (equal : V → V → Bool) (ps qs : List (Option V)) (p : Option V) (v : V)
      → params_well_ordered ps ≡ true
      → (add_parameter ps p ≡ ok qs → params_well_ordered qs ≡ true)
        × (add_default_param equal ps p v ≡ ok qs → params_well_ordered qs ≡ true)
  params_well_ordered-add equal ps qs p v h =
      (λ e. added (Bool-cases (open_back ps)) e, λ e. defaulted p e)
    where
      added :
          (open_back ps ≡ true) ⊎ (open_back ps ≡ false)
          → add_parameter ps p ≡ ok qs
          → params_well_ordered qs ≡ true
      added (inl o) e =
          subst (λ l. params_well_ordered l ≡ true) (ok_eq (sym (add_parameter_open ps p o) ∙ e))
            (well_ordered_open ps p h o)
      added (inr o) e = let bad = sym (add_parameter_closed ps p o) ∙ e in cc

      defaulted :
          (o : Option V) → add_default_param equal ps o v ≡ ok qs → params_well_ordered qs ≡ true
      defaulted o e =
          let (w, f) = default_added equal ps qs o v e in
          subst (λ l. params_well_ordered l ≡ true) f (well_ordered_default ps w h)

  num_default_bound : (ps : List (Option V)) → num_default_params ps ≤ length ps
  unfolding num_default_params has_value
  num_default_bound [] = omega arith
  num_default_bound (none ∷ ps) = omega (arith, num_default_bound ps)
  num_default_bound (some v ∷ ps) = omega (arith, num_default_bound ps)

  num_default-all_default :
      (ps : List (Option V)) → all_default ps ≡ true → num_default_params ps ≡ length ps
  unfolding num_default_params all_default has_value
  num_default-all_default [] h = refl
  num_default-all_default (none ∷ ps) h = cc
  num_default-all_default (some v ∷ ps) h = omega (arith, num_default-all_default ps h)

  num_non_none :
      (ps : List (Option V)) → num_non_default_params (none ∷ ps) ≡ suc (num_non_default_params ps)
  unfolding num_non_default_params num_default_params has_value
  num_non_none ps = omega (arith, num_default_bound ps)

  num_non_some :
      (v : V) (ps : List (Option V))
      → all_default ps ≡ true
      → num_non_default_params (some v ∷ ps) ≡ 0
  unfolding num_non_default_params num_default_params has_value
  num_non_some v ps h = omega (arith, num_default-all_default ps h)

  drop_nothing : (n : ℕ) → ◌≡◌ {A = List (Option V)} (drop n []) []
  unfolding drop
  drop_nothing zero = refl
  drop_nothing (suc n) = refl

  -- An ordered list is cut where `num_non_default_params` says.
  split_ordered :
      (ps : List (Option V))
      → params_well_ordered ps ≡ true
      → (front back : List (Option V)) × (ps ≡ front ++ back)
        × (num_default_params front ≡ 0)
        × (all_default back ≡ true)
        × (drop (num_non_default_params ps) ps ≡ back)
  unfolding params_well_ordered has_value drop num_default_params all_default
  split_ordered [] h = ([], [], refl, refl, refl, drop_nothing (num_non_default_params []))
  split_ordered (none ∷ ps) h =
      let (front, back, e, z, a, d) = split_ordered ps h in
      (none ∷ front, back, ap (λ l. none ∷ l) e, omega (arith, z), a, rw (num_non_none ps) d)
  split_ordered (some v ∷ ps) h = ([], some v ∷ ps, refl, refl, h, rw (num_non_some v ps h) refl)

  -- On an ordered list `default_params` ends and yields the parameters with a default value: what
  -- stands before them has none.
  pub default_params-all_default :
      (ps : List (Option V))
      → params_well_ordered ps ≡ true
      → (front back : List (Option V)) × (default_params ps ≡ ok back)
        × (ps ≡ front ++ back)
        × (num_default_params front ≡ 0)
        × (all_default back ≡ true)
  unfolding default_params
  default_params-all_default ps h =
      let (front, back, e, z, a, d) = split_ordered ps h in (front, back, rw (h, d) refl, e, z, a)
