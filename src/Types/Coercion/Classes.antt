-- ===== src/Types/Coercion/Classes.antt =====
-- lib/semantics/types.cpp, `ClassType`: the ancestor tests and the conversions between classes.
use enlightenedc.Prelude.{
  ℕ, suc, ◌<◌, ◌≡◌, ◌↔◌, ◌⊎◌, refl, subst, Bool, true, false, ◌||◌, arith, if◌then◌else◌, List, [],
  ◌∷◌, Bool-cases, inl, inr,
}
use enlightenedc.Types.{ClassType, base_class, derived_class, class_type, unqual}
use enlightenedc.Types.Coercion.{
  same_class, climbs_to, class_coercible, class_castable, coercible_to, castable_to,
}

-- `this->is_parent_of(cls)`.
unfoldable pub is_parent_of : ClassType → ClassType → Bool
is_parent_of this (base_class id) = false
is_parent_of this (derived_class id parent) = same_class parent this

unfoldable pub is_ancestor_of : ClassType → ClassType → Bool
unfolding is_parent_of
is_ancestor_of this (base_class id) = false
is_ancestor_of this (derived_class id parent) =
    if is_parent_of this (derived_class id parent) then true else is_ancestor_of this parent

unfoldable pub ancestor_chain : ClassType → List ClassType
ancestor_chain (base_class id) = base_class id ∷ []
ancestor_chain (derived_class id parent) = derived_class id parent ∷ ancestor_chain parent

-- `Inherits c a`: the class `c` has `a` somewhere above it.
pub data Inherits : ClassType → ClassType → Type 0 where
  direct : {id : ℕ} {p : ClassType} → Inherits (derived_class id p) p
  above : {id : ℕ} {p a : ClassType} → Inherits p a → Inherits (derived_class id p) a

pub same_class_iff : (a b : ClassType) → (same_class a b ≡ true) ↔ (a ≡ b)
same_class_iff a b = ground arith

climbs_sound : (c a : ClassType) → climbs_to c a ≡ true → Inherits c a
unfolding climbs_to
climbs_sound (base_class id) a h = cc
climbs_sound (derived_class id p) a h = elim (Bool-cases (same_class p a)) [
  | inl same ↦ subst (λ x. Inherits (derived_class id p) x) ((same_class_iff p a).0 same) direct
  | inr differ ↦ above (climbs_sound p a (rw differ at h))
]

climbs_complete : {c a : ClassType} → Inherits c a → climbs_to c a ≡ true
unfolding climbs_to
climbs_complete (direct {id} {p}) = rw ((same_class_iff p p).1 refl)
climbs_complete (above {id} {p} {a} i) = ground (arith, climbs_complete i)

pub climbs_iff : (c a : ClassType) → (climbs_to c a ≡ true) ↔ Inherits c a
climbs_iff c a = (climbs_sound c a, climbs_complete)

Inherits-trans : {a b c : ClassType} → Inherits a b → Inherits b c → Inherits a c
Inherits-trans direct j = above j
Inherits-trans (above i) j = above (Inherits-trans i j)

height : ClassType → ℕ
height (base_class id) = 0
height (derived_class id p) = suc (height p)

Inherits-height : {c a : ClassType} → Inherits c a → height a < height c
unfolding height
Inherits-height direct = omega arith
Inherits-height (above i) = omega (arith, Inherits-height i)

is_ancestor_of-climbs : (a c : ClassType) → is_ancestor_of a c ≡ climbs_to c a
unfolding is_ancestor_of climbs_to
is_ancestor_of-climbs a (base_class id) = refl
is_ancestor_of-climbs a (derived_class id p) = rw (is_ancestor_of-climbs a p)

-- Whether a class is converted to another one: without a cast exactly when it inherits from it, which
-- is what `is_ancestor_of` answers; by a cast exactly when one of the two inherits from the other.
pub classes_convert :
    (bits : ℕ) (a b : ClassType)
    → ((coercible_to (class_type a) (class_type b) ≡ true) ↔ Inherits a b)
      × ((is_ancestor_of b a ≡ true) ↔ Inherits a b)
      × ((castable_to bits (class_type a) (class_type b) ≡ true) ↔ (Inherits a b ⊎ Inherits b a))
unfolding coercible_to castable_to class_coercible class_castable unqual
classes_convert bits a b =
    (climbs_iff a b, rw (is_ancestor_of-climbs b a) (climbs_iff a b), (to_either, from_either))
  where
    to_either : climbs_to a b || climbs_to b a ≡ true → Inherits a b ⊎ Inherits b a
    to_either h = elim (Bool-cases (climbs_to a b)) [
      | inl up ↦ inl (climbs_sound a b up)
      | inr no_up ↦ inr (climbs_sound b a (rw no_up at h))
    ]

    from_either : Inherits a b ⊎ Inherits b a → climbs_to a b || climbs_to b a ≡ true
    from_either (inl i) = ground (arith, climbs_complete i)
    from_either (inr i) = ground (arith, climbs_complete i)

-- Conversions without a cast compose, and none leads back: a class is never converted to one that is
-- converted to it, itself included.
pub classes_order :
    (a b c : ClassType)
    → coercible_to (class_type a) (class_type b) ≡ true
    → coercible_to (class_type b) (class_type c) ≡ true
    → (coercible_to (class_type a) (class_type c) ≡ true)
      × (coercible_to (class_type b) (class_type a) ≡ false)
unfolding coercible_to class_coercible unqual
classes_order a b c h k =
    (climbs_complete (Inherits-trans (climbs_sound a b h) (climbs_sound b c k)), no_way_back)
  where
    no_way_back : climbs_to b a ≡ false
    no_way_back = elim (Bool-cases (climbs_to b a)) [
      | inl up ↦ absurd (
          omega
            (arith, Inherits-height (climbs_sound b a up), Inherits-height (climbs_sound a b h)))
      | inr fine ↦ fine
    ]

-- The chain of a class lists the class and then exactly the classes that it inherits from.
listed_in : ClassType → List ClassType → Bool
listed_in a [] = false
listed_in a (c ∷ cs) = same_class c a || listed_in a cs

-- As a test, it is the test for the class itself or for what the loop finds above it.
listed-ancestor_chain :
    (a c : ClassType) → listed_in a (ancestor_chain c) ≡ (same_class c a || climbs_to c a)
unfolding ancestor_chain listed_in climbs_to
listed-ancestor_chain a (base_class id) = ground arith
listed-ancestor_chain a (derived_class id p) = ground (arith, listed-ancestor_chain a p)
