-- ===== src/Types/Enum/Numbering.antt =====
-- lib/semantics/types.cpp, `EnumType::add_enumerator`: the values of enumerators without one.
use enlightenedc.Prelude.{
  ℕ, suc, ◌+◌, ◌^◌, ◌≤◌, ◌<◌, ◌≡◌, refl, true, false, arith, some, none, List, [], ◌∷◌, ◌++◌,
  length, match_option, Option-cases, inl, inr,
}
use mathlib.Core.List.{append-nil, append_assoc}
use enlightenedc.Prelude.Int.{pos, ◌+ℤ◌, ltb_ℤ}
use enlightenedc.Symbols.Name.{Name, name_eq}
use enlightenedc.Types.Enum.{
  EnumTypeMember, EnumType, EnumResult, refused, done, find_member, find, last_value,
  add_enumerator, add_enumerator_value, int64_max,
}

-- An enumeration body without values, from the first enumerator to the last.
unfoldable pub add_all : EnumType → List Name → EnumResult EnumType
add_all e [] = done e
add_all e (n ∷ ns) = elim (add_enumerator e n) [
  | refused why ↦ refused why
  | done (value, next) ↦ add_all next ns
]

unfoldable pub numbered : ℕ → List Name → List EnumTypeMember
numbered k [] = []
numbered k (n ∷ ns) = record { name = n; value = pos k } ∷ numbered (suc k) ns

abbrev pub Missing : List EnumTypeMember → List Name → Type 0
Missing ms [] = Unit
Missing ms (n ∷ ns) = (find_member ms n ≡ none) × Missing ms ns

abbrev pub Differs : Name → List Name → Type 0
Differs n [] = Unit
Differs n (m ∷ ms) = (name_eq m n ≡ false) × Differs n ms

abbrev pub DistinctNames : List Name → Type 0
DistinctNames [] = Unit
DistinctNames (n ∷ ns) = Differs n ns × DistinctNames ns

find_member-snoc :
    (ms : List EnumTypeMember) (m : EnumTypeMember) (n : Name)
    → find_member ms n ≡ none
    → name_eq n m.name ≡ false
    → find_member (ms ++ m ∷ []) n ≡ none
unfolding find_member
find_member-snoc [] m n h k = rw k
find_member-snoc (x ∷ ms) m n h k = ground (arith, find_member-snoc ms m n)

last_value-snoc :
    (ms : List EnumTypeMember) (m : EnumTypeMember) → last_value (ms ++ m ∷ []) ≡ some m.value
unfolding last_value
last_value-snoc [] m = refl
last_value-snoc (x ∷ []) m = refl
last_value-snoc (x ∷ y ∷ ms) m = last_value-snoc (y ∷ ms) m

Missing-snoc :
    (ms : List EnumTypeMember) (m : EnumTypeMember) (ns : List Name)
    → Missing ms ns
    → Differs m.name ns
    → Missing (ms ++ m ∷ []) ns
Missing-snoc ms m [] h d = tt
Missing-snoc ms m (n ∷ ns) h d = (find_member-snoc ms m n h.0 d.0, Missing-snoc ms m ns h.1 d.1)

-- The value of the next enumerator.
abbrev pub Follows : List EnumTypeMember → ℕ → Type 0
Follows ms k = match_option (last_value ms) (k ≡ 0) (λ v. (j : ℕ) × (v ≡ pos j) × (k ≡ suc j))

Follows-snoc :
    (ms : List EnumTypeMember) (n : Name) (k : ℕ)
    → Follows (ms ++ record { name = n; value = pos k } ∷ []) (suc k)
Follows-snoc ms n k = rw (last_value-snoc ms (record { name = n; value = pos k })) (k, refl, refl)

counts_up : (j : ℕ) → pos j +ℤ pos 1 ≡ pos (suc j)
unfolding ◌+ℤ◌
counts_up j = ground arith

below_max : (j : ℕ) → suc j < 2 ^ 63 → ltb_ℤ (pos j) int64_max ≡ true
below_max j h = ground arith

add_next :
    (e : EnumType) (n : Name) (k : ℕ)
    → find_member e.enumerators n ≡ none
    → Follows e.enumerators k
    → k < 2 ^ 63
    → add_enumerator e n
      ≡ done (
        pos k,
        record e { enumerators = e.enumerators ++ record { name = n; value = pos k } ∷ [] },
      )
unfolding add_enumerator add_enumerator_value find
add_next e n k new next small = elim (Option-cases (last_value e.enumerators)) [
  | inl first ↦ let z : k ≡ 0 = rw first at next in rw (new, first, z)
  | inr (v, last) ↦
      let (j, is_j, k_next) : (j : ℕ) × (v ≡ pos j) × (k ≡ suc j) = rw last at next in
      rw (new, last, is_j, k_next, below_max j (omega (arith, small, k_next)), counts_up j)
]

-- Names without values, all different and none of them used before, are added one after another with
-- the values that follow the last one, or from 0 on where the enumeration is empty, up to 2^63 - 1.
pub add_all-numbered :
    (e : EnumType) (ns : List Name) (k : ℕ)
    → Missing e.enumerators ns
    → DistinctNames ns
    → Follows e.enumerators k
    → k + length ns ≤ 2 ^ 63
    → add_all e ns ≡ done (record e { enumerators = e.enumerators ++ numbered k ns })
unfolding add_all numbered
add_all-numbered e [] k new distinct next room = rw append-nil
add_all-numbered e (n ∷ ns) k new distinct next room =
    let m : EnumTypeMember = record { name = n; value = pos k } in
    let e' : EnumType = record e { enumerators = e.enumerators ++ m ∷ [] } in
    rw (add_next e n k new.0 next (omega (arith, room)), add_all)
      (rw (
        add_all-numbered e' ns (suc k) (Missing-snoc e.enumerators m ns new.1 distinct.0) distinct.1
            (Follows-snoc e.enumerators n k) (omega (arith, room)),
        append_assoc,
      ))
