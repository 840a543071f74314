-- ===== src/ConstInit/Filled.antt =====
-- lib/lowering/lir/constinit.cpp: an aggregate constant has all its elements.
use enlightenedc.Prelude.{
  ℕ, zero, suc, ◌≡◌, refl, ap, subst, Bool, true, false, Option, none, some, List, [], ◌∷◌,
  match_option,
}
use enlightenedc.Outcome.{Outcome, ok, fail, >>=-eq-ok, ok_eq, internal_error}
use enlightenedc.Types.Record.{RecordType, MemberType}
use enlightenedc.Types.Record.Indices.{find_at}
use enlightenedc.ConstInit.Slots.{
  ConstInit, Elements, no_elements, null_then, set_then, touch, untouched, nulls, write, zero_array,
  zero_class,
}

-- What an assertion, and what an element that is a constant, says of a run that ends well.
pub required :
    {A B : Type 0} (o : Option A) (f : A → Outcome B) {b : B}
    → match_option o (fail internal_error) f ≡ ok b
    → (a : A) × (o ≡ some a) × (f a ≡ ok b)
required none f h = cc
required (some a) f h = (a, refl, h)

pub constant :
    {A B : Type 0} (o : Option A) (f : A → Outcome (Option B)) {b : B}
    → match_option o (ok none) f ≡ ok (some b)
    → (a : A) × (o ≡ some a) × (f a ≡ ok (some b))
constant none f h = cc
constant (some a) f h = (a, refl, h)

module _ {K : Type 0} where
  abbrev pub count : Elements K → ℕ
  count no_elements = 0
  count (null_then es) = suc (count es)
  count (set_then c es) = suc (count es)

  abbrev pub AllSet : Elements K → Type 0
  AllSet no_elements = Unit
  AllSet (null_then es) = ⊥
  AllSet (set_then c es) = AllSet es

  -- One slot for each mark, and an element in each slot that is marked.
  abbrev pub Covered : List Bool → Elements K → Type 0
  Covered [] no_elements = Unit
  Covered [] (null_then es) = ⊥
  Covered [] (set_then c es) = ⊥
  Covered (t ∷ ts) no_elements = ⊥
  Covered (t ∷ ts) (null_then es) = (t ≡ false) × Covered ts es
  Covered (t ∷ ts) (set_then c es) = Covered ts es

  -- What storing an element in a slot and marking it does.
  pub Covered-store :
      (ts : List Bool) (es : Elements K) (i : ℕ) (c : ConstInit K) {ts' : List Bool}
      {es' : Elements K}
      → Covered ts es
      → touch ts i ≡ ok ts'
      → write es i c ≡ ok es'
      → Covered ts' es' × (count es' ≡ count es)
  unfolding touch write
  Covered-store [] no_elements i c w h k = cc
  Covered-store [] (null_then es) i c w h k = absurd w
  Covered-store [] (set_then d es) i c w h k = absurd w
  Covered-store (t ∷ ts) no_elements i c w h k = absurd w
  Covered-store (t ∷ ts) (null_then es) zero c {ts'} {es'} w h k =
      let a : true ∷ ts ≡ ts' = ok_eq h in
      let b : set_then c es ≡ es' = ok_eq k in
      subst (λ x. Covered ts' x × (count x ≡ suc (count es))) b
        (subst (λ x. Covered x (set_then c es)) a w.1, refl)
  Covered-store (t ∷ ts) (set_then d es) zero c {ts'} {es'} w h k =
      let a : true ∷ ts ≡ ts' = ok_eq h in
      let b : set_then c es ≡ es' = ok_eq k in
      subst (λ x. Covered ts' x × (count x ≡ suc (count es))) b
        (subst (λ x. Covered x (set_then c es)) a w, refl)
  Covered-store (t ∷ ts) (null_then es) (suc i) c {ts'} {es'} w h k =
      let (us, hu, hu') = >>=-eq-ok (touch ts i) _ h in
      let (fs, kf, kf') = >>=-eq-ok (write es i c) _ k in
      let (cov, n) = Covered-store ts es i c w.1 hu kf in
      let a : t ∷ us ≡ ts' = ok_eq hu' in
      let b : null_then fs ≡ es' = ok_eq kf' in
      subst (λ x. Covered ts' x × (count x ≡ suc (count es))) b
        (subst (λ x. Covered x (null_then fs)) a (w.0, cov), ap suc n)
  Covered-store (t ∷ ts) (set_then d es) (suc i) c {ts'} {es'} w h k =
      let (us, hu, hu') = >>=-eq-ok (touch ts i) _ h in
      let (fs, kf, kf') = >>=-eq-ok (write es i c) _ k in
      let (cov, n) = Covered-store ts es i c w hu kf in
      let a : t ∷ us ≡ ts' = ok_eq hu' in
      let b : set_then d fs ≡ es' = ok_eq kf' in
      subst (λ x. Covered ts' x × (count x ≡ suc (count es))) b
        (subst (λ x. Covered x (set_then d fs)) a cov, ap suc n)

  -- What the pass over the slots that were not marked leaves.
  pub AllSet-zero_array :
      (base : MemberType) (ts : List Bool) (es : Elements K)
      → Covered ts es
      → AllSet (zero_array base ts es) × (count (zero_array base ts es) ≡ count es)
  unfolding zero_array
  AllSet-zero_array base [] no_elements w = (tt, refl)
  AllSet-zero_array base [] (null_then es) w = absurd w
  AllSet-zero_array base [] (set_then c es) w = absurd w
  AllSet-zero_array base (t ∷ ts) no_elements w = absurd w
  AllSet-zero_array base (true ∷ ts) (null_then es) w = let bad = w.0 in cc
  AllSet-zero_array base (true ∷ ts) (set_then c es) w =
      let (all, n) = AllSet-zero_array base ts es w in (all, ap suc n)
  AllSet-zero_array base (false ∷ ts) (null_then es) w =
      let (all, n) = AllSet-zero_array base ts es w.1 in (all, ap suc n)
  AllSet-zero_array base (false ∷ ts) (set_then c es) w =
      let (all, n) = AllSet-zero_array base ts es w in (all, ap suc n)

pub Covered-start :
    (K : Type 0) (n : ℕ) → Covered (untouched n) (nulls {K = K} n) × (count (nulls {K = K} n) ≡ n)
unfolding untouched nulls
Covered-start K zero = (tt, refl)
Covered-start K (suc n) = let (w, c) = Covered-start K n in ((refl, w), ap suc c)

module _ {K : Type 0} where
  -- The same pass over the members of a class.
  pub AllSet-zero_class :
      (cls : RecordType) (i : ℕ) (ts : List Bool) (es : Elements K) {es' : Elements K}
      → Covered ts es
      → zero_class cls i ts es ≡ ok es'
      → AllSet es' × (count es' ≡ count es)
  unfolding zero_class
  AllSet-zero_class cls i [] no_elements w h =
      subst (λ x. AllSet x × (count x ≡ 0)) (ok_eq h) (tt, refl)
  AllSet-zero_class cls i [] (null_then es) w h = absurd w
  AllSet-zero_class cls i [] (set_then c es) w h = absurd w
  AllSet-zero_class cls i (t ∷ ts) no_elements w h = absurd w
  AllSet-zero_class cls i (true ∷ ts) (null_then es) w h = let bad = w.0 in cc
  AllSet-zero_class cls i (true ∷ ts) (set_then c es) w h =
      let (rest, hr, k) = >>=-eq-ok (zero_class cls (suc i) ts es) _ h in
      let (all, n) = AllSet-zero_class cls (suc i) ts es w hr in
      subst (λ x. AllSet x × (count x ≡ suc (count es))) (ok_eq k) (all, ap suc n)
  AllSet-zero_class cls i (false ∷ ts) (null_then es) w h =
      let (m, hm, k) = >>=-eq-ok (find_at cls i) _ h in
      let (x, hx, l) = required m _ k in
      let (rest, hr, e) = >>=-eq-ok (zero_class cls (suc i) ts es) _ l in
      let (all, n) = AllSet-zero_class cls (suc i) ts es w.1 hr in
      subst (λ x. AllSet x × (count x ≡ suc (count es))) (ok_eq e) (all, ap suc n)
  AllSet-zero_class cls i (false ∷ ts) (set_then c es) w h =
      let (m, hm, k) = >>=-eq-ok (find_at cls i) _ h in
      let (x, hx, l) = required m _ k in
      let (rest, hr, e) = >>=-eq-ok (zero_class cls (suc i) ts es) _ l in
      let (all, n) = AllSet-zero_class cls (suc i) ts es w hr in
      subst (λ x. AllSet x × (count x ≡ suc (count es))) (ok_eq e) (all, ap suc n)
