-- ===== src/ConstInit/Aggregates.antt =====
-- lib/lowering/lir/constinit.cpp, `try_build_constinit_agg_arr` and `try_build_constinit_agg_cls`: the
-- loops over the initialisers, and what is built from them.
use enlightenedc.Prelude.{
  ℕ, suc, ◌≡◌, refl, ap, subst, sym, ◌∙◌, Bool, false, Option, none, some, some_eq, List,
}
use enlightenedc.Outcome.{Outcome, ok, >>=-eq-ok, ok_eq}
use enlightenedc.Types.Record.{
  RecordType, class_record, union_record, enum_member, other_member, MemberType, array_member,
  record_member, num_members, index,
}
use enlightenedc.ConstInit.Slots.{
  expr_init, list_init, index_init, member_init, Inits, no_inits, init, ConstInit, aggregate_init,
  Elements, touch, untouched, nulls, write, zero_array, zero_class,
}
use enlightenedc.ConstInit.{
  build, array_elements, class_elements, put, store, Slotted, first_index, follow, member_type,
}
use enlightenedc.ConstInit.Filled.{
  Covered, Covered-start, Covered-store, AllSet, AllSet-zero_array, AllSet-zero_class, count,
  constant,
}

module _ {E K : Type 0} (build_expr : MemberType → E → Outcome (Option (ConstInit K))) where
  -- A loop that ends well keeps the vectors together.
  abbrev pub Keeps : List Bool → Elements K → Slotted build_expr → Type 0
  Keeps ts es loop =
      (ts' : List Bool) (es' : Elements K)
      → loop ≡ ok (some (ts', es'))
      → Covered ts' es' × (count es' ≡ count es)

  keep_put :
      (i : ℕ) (ts ts' : List Bool) (es : Elements K) (made : Option (ConstInit K))
      (rest : List Bool → Elements K → Slotted build_expr)
      → Covered ts es
      → touch ts i ≡ ok ts'
      → ((us : List Bool) (fs : Elements K) → Covered us fs → Keeps us fs (rest us fs))
      → Keeps ts es (put build_expr i ts' es made rest)
  keep_put i ts ts' es made rest w marked keep us fs h =
      let (c, hc, k) = constant made _ h in
      let (es', hw, l) = >>=-eq-ok (write es i c) _ k in
      let (w', n) = Covered-store ts es i c w marked hw in
      let (w'', m) = keep ts' es' w' us fs l in (w'', m ∙ n)

  keep_store :
      (i : ℕ) (ts : List Bool) (es : Elements K) (made : Option (ConstInit K))
      (rest : List Bool → Elements K → Slotted build_expr)
      → Covered ts es
      → ((us : List Bool) (fs : Elements K) → Covered us fs → Keeps us fs (rest us fs))
      → Keeps ts es (store build_expr i ts es made rest)
  keep_store i ts es made rest w keep us fs h =
      let (ts', marked, k) = >>=-eq-ok (touch ts i) _ h in
      keep_put i ts ts' es made rest w marked keep us fs k

  ended : (ts : List Bool) (es : Elements K) → Covered ts es → Keeps ts es (ok (some (ts, es)))
  ended ts es w us fs h =
      let a : ts ≡ us = cc in
      let b : es ≡ fs = cc in
      subst (λ x. Covered us x × (count x ≡ count es)) b (subst (λ x. Covered x es) a w, refl)

  pub array-Keeps :
      (base : MemberType) (is : Inits E) (next : ℕ) (ts : List Bool) (es : Elements K)
      → Covered ts es
      → Keeps ts es (array_elements build_expr base is next ts es)
  unfolding array_elements
  array-Keeps base no_inits next ts es w us fs h = ended ts es w us fs h
  array-Keeps base (init (expr_init e) is) next ts es w us fs h =
      let (made, hm, k) = >>=-eq-ok (build_expr base e) _ h in
      keep_store next ts es made _ w (λ us fs w. array-Keeps base is (suc next) us fs w) us fs k
  array-Keeps base (init (list_init js) is) next ts es w us fs h =
      let (made, hm, k) = >>=-eq-ok (build build_expr base (list_init js)) _ h in
      keep_store next ts es made _ w (λ us fs w. array-Keeps base is (suc next) us fs w) us fs k
  array-Keeps base (init (index_init i x) is) next ts es w us fs h =
      let (ts', marked, k) = >>=-eq-ok (touch ts i) _ h in
      let (made, hm, l) = >>=-eq-ok (build build_expr base x) _ k in
      keep_put i ts ts' es made _ w marked (λ us fs w. array-Keeps base is (suc i) us fs w) us fs l
  array-Keeps base (init (member_init name x) is) next ts es w us fs h = cc

  class-Keeps :
      (cls : RecordType) (is : Inits E) (next : ℕ) (ts : List Bool) (es : Elements K)
      → Covered ts es
      → Keeps ts es (class_elements build_expr cls is next ts es)
  unfolding array_elements
  class-Keeps cls no_inits next ts es w us fs h = ended ts es w us fs h
  class-Keeps cls (init (expr_init e) is) next ts es w us fs h =
      let (ty, ht, g) = >>=-eq-ok (member_type cls next) _ h in
      let (made, hm, k) = >>=-eq-ok (build_expr ty e) _ g in
      keep_store next ts es made _ w (λ us fs w. class-Keeps cls is (suc next) us fs w) us fs k
  class-Keeps cls (init (list_init js) is) next ts es w us fs h =
      let (ty, ht, g) = >>=-eq-ok (member_type cls next) _ h in
      let (made, hm, k) = >>=-eq-ok (build build_expr ty (list_init js)) _ g in
      keep_store next ts es made _ w (λ us fs w. class-Keeps cls is (suc next) us fs w) us fs k
  class-Keeps cls (init (member_init name x) is) next ts es w us fs h =
      let (target, ht, g) = >>=-eq-ok (first_index (index cls name)) _ h in
      let (outer, ho, g1) = >>=-eq-ok (member_type cls target) _ g in
      let (ts', marked, g2) = >>=-eq-ok (touch ts target) _ g1 in
      let (ty, hf, g3) = >>=-eq-ok (follow cls (index cls name)) _ g2 in
      let (made, hm, l) = >>=-eq-ok (build build_expr ty x) _ g3 in
      keep_put target ts ts' es made _ w marked (λ us fs w. class-Keeps cls is next us fs w) us fs l
  class-Keeps cls (init (index_init i x) is) next ts es w us fs h = cc

-- The number of elements that an aggregate of a type has.
abbrev pub slots_of : MemberType → ℕ
slots_of (record_member q r) = num_members r
slots_of (array_member base (some n)) = n
slots_of ty = 0

-- The type of an aggregate for a type: a class without its qualifiers, or the array itself.
abbrev pub aggregate_type : MemberType → MemberType
aggregate_type (record_member q r) = record_member false r
aggregate_type ty = ty

module _ {E K : Type 0} (build_expr : MemberType → E → Outcome (Option (ConstInit K))) where
  -- What is built for an initialiser list of a class or of a sized array, where every element turns out
  -- to be a constant, is an aggregate of the array or of the class without its qualifiers, with as many
  -- elements as the array has or as the class has members, its parents' included, and no element is
  -- missing.
  pub build-AllSet :
      (ty : MemberType) (is : Inits E) (made : ConstInit K)
      → build build_expr ty (list_init is) ≡ ok (some made)
      → (es : Elements K) × (made ≡ aggregate_init (aggregate_type ty) es)
        × AllSet es
        × (count es ≡ slots_of ty)
  unfolding array_elements
  build-AllSet (array_member base (some n)) is made h =
      let (start, size) = Covered-start K n in
      let (slots, hl, k) =
        >>=-eq-ok (array_elements build_expr base is 0 (untouched n) (nulls n)) _ h in
      let ((ts, es), hs, l) = constant slots _ k in
      let (w, m) =
        array-Keeps build_expr base is 0 (untouched n) (nulls n) start ts es (hl ∙ ap ok hs) in
      let (all, z) = AllSet-zero_array base ts es w in
      (zero_array base ts es, sym (some_eq (ok_eq l)), all, z ∙ m ∙ size)
  build-AllSet (record_member q (class_record id complete ms p)) is made h =
      let cls : RecordType = class_record id complete ms p in
      let n : ℕ = num_members cls in
      let (start, size) = Covered-start K n in
      let (slots, hl, k) =
        >>=-eq-ok (class_elements build_expr cls is 0 (untouched n) (nulls n)) _ h in
      let ((ts, es), hs, l) = constant slots _ k in
      let (w, m) =
        class-Keeps build_expr cls is 0 (untouched n) (nulls n) start ts es (hl ∙ ap ok hs) in
      let (all-made, hz, l') = >>=-eq-ok (zero_class cls 0 ts es) _ l in
      let (all, z) = AllSet-zero_class cls 0 ts es w hz in
      (all-made, sym (some_eq (ok_eq l')), all, z ∙ m ∙ size)
  build-AllSet (record_member q (union_record id complete ms)) is made h = cc
  build-AllSet (array_member base none) is made h = cc
  build-AllSet (enum_member complete) is made h = cc
  build-AllSet (other_member t) is made h = cc
