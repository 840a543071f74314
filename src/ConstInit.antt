-- ===== src/ConstInit.antt =====
-- lib/lowering/lir/constinit.cpp: constant initialisers of classes and arrays. A member's type is that
-- of Types/Record. What becomes of a single expression (`try_build_constinit_expr`, which needs the
-- expression's node and may put off a copy) is an argument, as are the expressions and constants.
-- The path that is kept for such a copy is left out. An element that is not set yet is a null pointer.
pub mod Slots
pub mod Filled
pub mod Aggregates
pub mod Positional
pub use Slots.{
  Init, expr_init, list_init, index_init, member_init, Inits, no_inits, init, ConstInit,
  constant_init, zero_init, aggregate_init, Elements, no_elements, null_then, set_then,
}
use enlightenedc.Prelude.{
  ℕ, suc, Bool, true, false, Option, none, some, List, [], ◌∷◌, match_option,
}
use enlightenedc.Outcome.{Outcome, ok, fail, ◌>>=◌, internal_error}
use enlightenedc.Symbols.Name.{Name}
use enlightenedc.Types.Record.{
  RecordType, class_record, union_record, MemberType, record_member, enum_member, array_member,
  other_member, TypeMember, num_members, index,
}
use enlightenedc.Types.Record.Indices.{find_at}
use enlightenedc.Types.Record.Paths.{as_record}
use enlightenedc.ConstInit.Slots.{touch, write, untouched, nulls, zero_array, zero_class}

-- `cls->find(i)` with the assertion that there is one.
unfoldable pub member_type : RecordType → ℕ → Outcome MemberType
member_type r i = find_at r i >>= λ m. match_option m (fail internal_error) (λ m. ok m.ty)

-- The last member along a path of indices.
unfoldable pub follow : RecordType → List ℕ → Outcome MemberType
unfolding member_type
follow r [] = fail internal_error
follow r (i ∷ []) = member_type r i
follow r (i ∷ j ∷ path) = member_type r i >>= λ ty.
    match_option (as_record ty) (fail internal_error) (λ inner. follow inner (j ∷ path))

unfoldable pub first_index : List ℕ → Outcome ℕ
first_index [] = fail internal_error
first_index (i ∷ path) = ok i

module _ {E K : Type 0} (build_expr : MemberType → E → Outcome (Option (ConstInit K))) where
  abbrev pub Slotted : Type 0
  Slotted = Outcome (Option (List Bool × Elements K))

  -- `None` where an element is no constant; an aggregate otherwise.
  abbrev pub aggregate :
      MemberType
      → Slotted
      → (List Bool → Elements K → Outcome (Elements K))
      → Outcome (Option (ConstInit K))
  aggregate ty loop zero_fill = loop >>= λ filled.
      match_option filled (ok none)
        (λ (touched, slots). zero_fill touched slots >>= λ all. ok (some (aggregate_init ty all)))

  -- Store an element, if there is one, and go on; mark its slot before that.
  abbrev pub put :
      ℕ
      → List Bool
      → Elements K
      → Option (ConstInit K)
      → (List Bool → Elements K → Slotted)
      → Slotted
  put i touched slots made rest =
      match_option made (ok none) (λ c. write slots i c >>= λ slots'. rest touched slots')

  abbrev pub store :
      ℕ
      → List Bool
      → Elements K
      → Option (ConstInit K)
      → (List Bool → Elements K → Slotted)
      → Slotted
  store i touched slots made rest = touch touched i >>= λ touched'. put i touched' slots made rest

  -- A class aggregate has the type `type->as_class()`, which is without the qualifiers of `type`.
  unfoldable mutual
    pub build : MemberType → Init E → Outcome (Option (ConstInit K))
    build ty (expr_init e) = build_expr ty e
    build (record_member q (class_record id complete ms p)) (list_init is) =
        let cls = class_record id complete ms p in
        aggregate (record_member false cls)
          (class_elements cls is 0 (untouched (num_members cls)) (nulls (num_members cls)))
          (λ touched slots. zero_class cls 0 touched slots)
    build (array_member base (some n)) (list_init is) =
        aggregate (array_member base (some n)) (array_elements base is 0 (untouched n) (nulls n))
          (λ touched slots. ok (zero_array base touched slots))
    build ty i = fail internal_error

    pub array_elements : MemberType → Inits E → ℕ → List Bool → Elements K → Slotted
    array_elements base no_inits next touched slots = ok (some (touched, slots))
    array_elements base (init (expr_init e) is) next touched slots = build_expr base e >>= λ made.
        store next touched slots made (λ t es. array_elements base is (suc next) t es)
    array_elements base (init (list_init js) is) next touched slots =
        build base (list_init js) >>= λ made.
        store next touched slots made (λ t es. array_elements base is (suc next) t es)
    array_elements base (init (index_init i x) is) next touched slots =
        touch touched i >>= λ touched'. build base x >>= λ made.
        put i touched' slots made (λ t es. array_elements base is (suc i) t es)
    array_elements base (init (member_init name x) is) next touched slots = fail internal_error

    pub class_elements : RecordType → Inits E → ℕ → List Bool → Elements K → Slotted
    class_elements cls no_inits next touched slots = ok (some (touched, slots))
    class_elements cls (init (expr_init e) is) next touched slots = member_type cls next >>= λ ty.
        build_expr ty e >>= λ made.
        store next touched slots made (λ t es. class_elements cls is (suc next) t es)
    class_elements cls (init (list_init js) is) next touched slots = member_type cls next >>= λ ty.
        build ty (list_init js) >>= λ made.
        store next touched slots made (λ t es. class_elements cls is (suc next) t es)
    class_elements cls (init (member_init name x) is) next touched slots =
        first_index (index cls name) >>= λ target. member_type cls target >>= λ outer.
        touch touched target >>= λ touched'. follow cls (index cls name) >>= λ ty.
        build ty x >>= λ made.
        put target touched' slots made (λ t es. class_elements cls is next t es)
    class_elements cls (init (index_init i x) is) next touched slots = fail internal_error
