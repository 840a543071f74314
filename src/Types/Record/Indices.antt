-- ===== src/Types/Record/Indices.antt =====
-- lib/semantics/types.cpp: members by their index. `ClassType::num_members` counts the parents'
-- members too and `RecordType::find` tests its index against that, so that an index past the end of a
-- derived class can read past the end of its own member vector.
use enlightenedc.Prelude.{
  ℕ, zero, suc, ◌+◌, ◌-◌, ◌<◌, ◌≤◌, ◌≡◌, refl, ◌∙◌, Bool, false, Option, none, some, arith, ltb,
  leb, match_option, if◌then◌else◌, ◌⊎◌, inl, inr, lt→ltb,
}
use enlightenedc.Outcome.{Outcome, ok, fail, undefined_behaviour}
use enlightenedc.Types.Record.{
  RecordType, class_record, union_record, Parent, no_parent, parent, Members, end, member,
  TypeMember, members_of, size_of, nth, num_local_members, num_members, num_above, member_offset,
  offset_above,
}

-- `RecordType::find(size_t)`, with the count of the object's own class.
unfoldable pub find_local : ℕ → Members → ℕ → Outcome (Option TypeMember)
unfolding nth
find_local count ms idx =
    if leb count idx
    then ok none
    else match_option (nth ms idx) (fail undefined_behaviour) (λ m. ok (some m))

unfoldable mutual
  pub find_at : RecordType → ℕ → Outcome (Option TypeMember)
  find_at (class_record id complete ms p) idx =
      find_beyond (num_members (class_record id complete ms p)) ms p idx
  find_at (union_record id complete ms) idx = find_local (size_of ms) ms idx

  pub find_beyond : ℕ → Members → Parent → ℕ → Outcome (Option TypeMember)
  find_beyond count ms no_parent idx = find_local count ms idx
  find_beyond count ms (parent r) idx =
      let above = find_at r idx in
      if ltb idx (offset_above (parent r))
      then above
      else find_local count ms (idx - offset_above (parent r))

-- `ClassType::find_relative`.
unfoldable pub find_relative : RecordType → ℕ → Outcome (Option TypeMember)
unfolding find_local num_members members_of
find_relative r idx = find_local (num_members r) (members_of r) idx

-- Every member's index is its place, counted from the start of the inheritance chain.
abbrev pub Places : ℕ → Members → Type 0
Places k end = Unit
Places k (member name ty idx ms) = (idx ≡ k) × Places (suc k) ms

abbrev mutual
  pub WellIndexed : RecordType → Type 0
  WellIndexed (class_record id complete ms p) = Places (offset_above p) ms × WellIndexedAbove p
  WellIndexed (union_record id complete ms) = Places 0 ms

  pub WellIndexedAbove : Parent → Type 0
  WellIndexedAbove no_parent = Unit
  WellIndexedAbove (parent r) = WellIndexed r

pub above-eq : (p : Parent) → num_above p ≡ offset_above p
unfolding num_above offset_above num_local_members size_of members_of
above-eq no_parent = refl
above-eq (parent (class_record id complete ms p)) = omega (arith, above-eq p)
above-eq (parent (union_record id complete ms)) = omega arith

nth-Places :
    (k : ℕ) (ms : Members) (i : ℕ)
    → Places k ms
    → i < size_of ms
    → (m : TypeMember) × (nth ms i ≡ some m) × (m.idx ≡ k + i)
unfolding nth size_of
nth-Places k end i w h = elim h [ ]
nth-Places k (member name ty idx ms) zero w h =
    (record { name = name; ty = ty; idx = idx }, refl, omega (arith, w.0))
nth-Places k (member name ty idx ms) (suc i) w h =
    let (m, found, at) = nth-Places (suc k) ms i w.1 (omega (arith, h)) in
    (m, found, omega (arith, at))

nth-past : (ms : Members) (i : ℕ) → size_of ms ≤ i → nth ms i ≡ none
unfolding nth size_of
nth-past end i h = refl
nth-past (member name ty idx ms) zero h = absurd (omega (arith, h))
nth-past (member name ty idx ms) (suc i) h = nth-past ms i (omega (arith, h))

ltb_not : (a b : ℕ) → b ≤ a → ltb a b ≡ false
ltb_not a b h = ground arith

lt_or_le : (a b : ℕ) → (a < b) ⊎ (b ≤ a)
lt_or_le a b = omega arith

module _ (count : ℕ) (ms : Members) (i : ℕ) where
  local_found :
      (k : ℕ)
      → Places k ms
      → i < size_of ms
      → size_of ms ≤ count
      → (m : TypeMember) × (find_local count ms i ≡ ok (some m)) × (m.idx ≡ k + i)
  unfolding find_local
  local_found k w h le =
      let (m, found, at) = nth-Places k ms i w h in
      (m, rw (not_past (omega (arith, h, le)), found), at)
    where
      not_past : i < count → leb count i ≡ false
      not_past h = ground arith

  local_undefined : size_of ms ≤ i → i < count → find_local count ms i ≡ fail undefined_behaviour
  unfolding find_local
  local_undefined h lt = ground (arith, nth-past ms i h)

  local_missing : count ≤ i → find_local count ms i ≡ ok none
  unfolding find_local
  local_missing h = ground arith

module _ (id : ℕ) (complete : Bool) (ms : Members) (r : RecordType) (i : ℕ) where
  abbrev pub derived : RecordType
  derived = class_record id complete ms (parent r)

  -- The two ways of the call on a class with a parent.
  pub at_parent : i < offset_above (parent r) → find_at derived i ≡ find_at r i
  unfolding find_at
  at_parent h = rw (lt→ltb i (offset_above (parent r)) h)

  pub at_own :
      offset_above (parent r) ≤ i
      → find_at derived i ≡ find_local (num_members derived) ms (i - offset_above (parent r))
  unfolding find_at
  at_own h = rw (ltb_not i (offset_above (parent r)) h)

pub offset-root : offset_above no_parent ≡ 0
unfolding offset_above
offset-root = refl

pub at_union :
    (id : ℕ) (complete : Bool) (ms : Members) (i : ℕ)
    → find_at (union_record id complete ms) i ≡ find_local (size_of ms) ms i
unfolding find_at
at_union id complete ms i = refl

pub at_root :
    (id : ℕ) (complete : Bool) (ms : Members) (i : ℕ)
    → find_at (class_record id complete ms no_parent) i
      ≡ find_local (num_members (class_record id complete ms no_parent)) ms i
unfolding find_at
at_root id complete ms i = refl

pub above_members : (r : RecordType) → num_members r ≡ offset_above (parent r)
unfolding num_above
above_members r = above-eq (parent r)

-- In a record whose members are indexed by place, an index of the record, counted along
-- the chain of parents, finds the member with that index.
pub find_at-found :
    (r : RecordType) (i : ℕ)
    → WellIndexed r
    → i < num_members r
    → (m : TypeMember) × (find_at r i ≡ ok (some m)) × (m.idx ≡ i)
unfolding num_members
find_at-found (union_record id complete ms) i w h =
    let (m, found, at) = local_found (size_of ms) ms i 0 w h (omega arith) in
    (m, at_union id complete ms i ∙ found, omega (arith, at))
find_at-found (class_record id complete ms no_parent) i w h =
    let (m, found, at) =
      local_found (num_members (class_record id complete ms no_parent)) ms i
        (offset_above no_parent) w.0 (omega (arith, h)) (omega arith) in
    (m, at_root id complete ms i ∙ found, omega (arith, at, offset-root))
find_at-found (class_record id complete ms (parent r)) i w h =
    elim (lt_or_le i (offset_above (parent r))) [
      | inl inside ↦
          let (m, found, at) = find_at-found r i w.1 (omega (arith, inside, above_members r)) in
          (m, at_parent id complete ms r i inside ∙ found, at)
      | inr outside ↦
          let (m, found, at) =
            local_found (num_members (class_record id complete ms (parent r))) ms
              (i - offset_above (parent r)) (offset_above (parent r)) w.0
              (omega (arith, h, outside, above_members r)) (omega arith) in
          (m, at_own id complete ms r i outside ∙ found, omega (arith, at, outside))
    ]

local_past :
    (count off : ℕ) (ms : Members) (i : ℕ)
    → off + size_of ms ≤ i
    → find_local count ms (i - off)
      ≡ (if ltb i (count + off) then fail undefined_behaviour else ok none)
local_past count off ms i h = elim (lt_or_le i (count + off)) [
  | inl inside ↦
      rw (lt→ltb i (count + off) inside)
        (local_undefined count ms (i - off) (omega (arith, h)) (omega (arith, inside, h)))
  | inr past ↦
      rw (ltb_not i (count + off) past) (local_missing count ms (i - off) (omega (arith, past)))
]

root_past :
    (count : ℕ) (ms : Members) (i : ℕ)
    → count ≤ i
    → find_local count ms i ≡ (if ltb i (count + 0) then fail undefined_behaviour else ok none)
root_past count ms i h = rw (ltb_not i (count + 0) (omega (arith, h))) (local_missing count ms i h)

-- An index past the members finds none, but only from the number of members and the offset of the
-- class together on: below that, the call reads past the end of the vector.
pub find_at-past :
    (r : RecordType) (i : ℕ)
    → num_members r ≤ i
    → find_at r i
      ≡ (if ltb i (num_members r + member_offset r) then fail undefined_behaviour else ok none)
unfolding num_members member_offset
find_at-past (union_record id complete ms) i h =
    at_union id complete ms i ∙ root_past (size_of ms) ms i h
find_at-past (class_record id complete ms no_parent) i h =
    at_root id complete ms i
    ∙ root_past (num_members (class_record id complete ms no_parent)) ms i h
find_at-past (class_record id complete ms (parent r)) i h =
    let past : offset_above (parent r) + size_of ms ≤ i = omega (arith, h, above_members r) in
    at_own id complete ms r i (omega (arith, past))
    ∙ local_past (num_members (class_record id complete ms (parent r))) (offset_above (parent r)) ms
        i past
