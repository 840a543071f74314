-- ===== src/Symbols/Name.antt =====
-- include/ds/stringmap.hpp as the symbol table uses it: a map from names, which are byte strings,
-- to the symbols that a scope owns.
use enlightenedc.Prelude.{
  ℕ, Bool, true, false, ◌≡◌, refl, ap, Option, none, some, List, [], ◌∷◌, ◌==◌, if◌then◌else◌,
  Bool-cases, inl, inr, arith, ◌∙◌, sym, subst, some_eq, ◌⊎◌,
}

abbrev pub Name : Type 0
Name = List ℕ

unfoldable pub name_eq : Name → Name → Bool
name_eq [] [] = true
name_eq [] (b ∷ n) = false
name_eq (a ∷ m) [] = false
name_eq (a ∷ m) (b ∷ n) = elim (a == b) [ true ↦ name_eq m n | false ↦ false ]

pub name_eq_self : (m : Name) → name_eq m m ≡ true
unfolding name_eq
name_eq_self [] = refl
name_eq_self (a ∷ m) = ground (arith, name_eq_self m)

pub name_eq_sound : (m n : Name) → name_eq m n ≡ true → m ≡ n
unfolding name_eq
name_eq_sound [] [] h = refl
name_eq_sound [] (b ∷ n) h = cc
name_eq_sound (a ∷ m) [] h = cc
name_eq_sound (a ∷ m) (b ∷ n) h = ground (arith, name_eq_sound m n)

-- A `StringMap`: at most the first entry of a name counts.
abbrev pub StringMap {ℓ} : Type ℓ → Type ℓ
StringMap A = List (Name × A)

module _ {ℓ} {A : Type ℓ} where
  unfoldable pub find : StringMap A → Name → Option A
  find [] name = none
  find ((key, a) ∷ m) name = if name_eq key name then some a else find m name

  unfoldable pub contains : StringMap A → Name → Bool
  contains [] name = false
  contains ((key, a) ∷ m) name = if name_eq key name then true else contains m name

  unfoldable pub erase : StringMap A → Name → StringMap A
  erase [] name = []
  erase ((key, a) ∷ m) name =
      let rest = erase m name in if name_eq key name then rest else (key, a) ∷ rest

  unfoldable pub insert_or_assign : StringMap A → Name → A → StringMap A
  unfolding erase
  insert_or_assign m name a = (name, a) ∷ erase m name

  pub contains-find :
      (m : StringMap A) (name : Name) → contains m name ≡ true → (a : A) × (find m name ≡ some a)
  unfolding contains find
  contains-find [] name h = cc
  contains-find ((key, a) ∷ m) name h = elim (Bool-cases (name_eq key name)) [
    | inl e ↦ (a, rw e refl)
    | inr e ↦ let (b, p) = contains-find m name (ground (arith, e)) in (b, ground (arith, e, p))
  ]

  pub find-missing : (m : StringMap A) (name : Name) → contains m name ≡ false → find m name ≡ none
  unfolding contains find
  find-missing [] name h = refl
  find-missing ((key, a) ∷ m) name h = ground (arith, find-missing m name)

  find-erase_self : (m : StringMap A) (name : Name) → find (erase m name) name ≡ none
  unfolding erase find
  find-erase_self [] name = refl
  find-erase_self ((key, a) ∷ m) name = ground (arith, find-erase_self m name)

  find-erase_ne :
      (m : StringMap A) (name other : Name)
      → name_eq name other ≡ false
      → find (erase m name) other ≡ find m other
  unfolding erase find
  find-erase_ne [] name other h = refl
  find-erase_ne ((key, a) ∷ m) name other h = elim (Bool-cases (name_eq key name)) [
    | inl e ↦ ground (
      arith,
      e,
      find-erase_ne m name other h,
      ap (λ (k : Name). name_eq k other) (name_eq_sound key name e),
      h,
    )
    | inr e ↦ ground (arith, e, find-erase_ne m name other h)
  ]

  pub find-insert :
      (m : StringMap A) (name other : Name) (a : A)
      → find (insert_or_assign m name a) other
        ≡ (if name_eq name other then some a else find m other)
  unfolding insert_or_assign find
  find-insert m name other a = ground (arith, find-erase_ne m name other)

  pub contains-insert :
      (m : StringMap A) (name : Name) (a : A) → contains (insert_or_assign m name a) name ≡ true
  unfolding insert_or_assign contains
  contains-insert m name a = rw (name_eq_self name) refl

  pub contains-missing :
      (m : StringMap A) (name : Name) → find m name ≡ none → contains m name ≡ false
  unfolding contains find
  contains-missing [] name h = refl
  contains-missing ((key, a) ∷ m) name h = ground (arith, contains-missing m name)

  pub contains-found :
      (m : StringMap A) (name : Name) {a : A} → find m name ≡ some a → contains m name ≡ true
  unfolding contains find
  contains-found [] name h = cc
  contains-found ((key, b) ∷ m) name {a} h = ground (arith, contains-found m name {a = a})

  find-erase_same :
      (m : StringMap A) (name other : Name) → name ≡ other → find (erase m name) other ≡ none
  find-erase_same m name other e =
      subst (λ n. find (erase m name) n ≡ none) e (find-erase_self m name)

  -- What a map holds after an insertion is new or was there.
  pub find-insert-cases :
      (m : StringMap A) (name other : Name) (a b : A)
      → find (insert_or_assign m name a) other ≡ some b
      → (a ≡ b) ⊎ (find m other ≡ some b)
  find-insert-cases m name other a b h = elim (Bool-cases (name_eq name other)) [
    | inl e ↦ inl (some_eq (sym (find-insert m name other a ∙ rw e refl) ∙ h))
    | inr e ↦ inr (sym (find-insert m name other a ∙ rw e refl) ∙ h)
  ]

  pub find-erase-cases :
      (m : StringMap A) (name other : Name) (b : A)
      → find (erase m name) other ≡ some b
      → find m other ≡ some b
  unfolding erase find
  find-erase-cases [] name other b h = cc
  find-erase-cases ((key, a) ∷ m) name other b h = elim (Bool-cases (name_eq key name)) [
    | inl e ↦ elim (Bool-cases (name_eq key other)) [
      | inl f ↦ ground (
        arith,
        e,
        f,
        h,
        find-erase_same m name other (sym (name_eq_sound key name e) ∙ name_eq_sound key other f),
      )
      | inr f ↦ ground (arith, e, f, h, find-erase-cases m name other b)
    ]
    | inr e ↦ ground (arith, e, h, find-erase-cases m name other b)
  ]
