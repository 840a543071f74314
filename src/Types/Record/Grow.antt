-- ===== src/Types/Record/Grow.antt =====
-- lib/semantics/types.cpp: what `add_member` and `add_parent` do to the indices and the names.
use enlightenedc.Prelude.{
  ℕ, suc, ◌+◌, ◌≡◌, refl, subst, Option, none, some, arith, Option-cases, Bool-cases, inl, inr,
  match_option, Bool,
}
use enlightenedc.Symbols.Name.{Name}
use enlightenedc.Types.Record.{
  RecordType, class_record, union_record, Parent, no_parent, parent, Members, MemberType, size_of,
  id_of, num_members, offset_above, find, find_in,
}
use enlightenedc.Types.Record.Indices.{Places, WellIndexed, above-eq, offset-root}
use enlightenedc.Types.Record.Add.{
  MemberError, recursive_type, name_collision, is_record, done, refused, validate_new_member,
  add_member, shift_members, add_parent, Places-push_back, Places-shift, size-push_back,
  find_in-push_back,
}

-- What a check that passed says.
passed :
    (check : Option MemberError) (r : RecordType) {r' : RecordType}
    → match_option check (done r) (λ why. refused why) ≡ done r'
    → (check ≡ none) × (r ≡ r')
passed none r h = (refl, cc)
passed (some why) r h = let bad : refused why ≡ done r = cc in cc

-- A record keeps every index in its place when it gets a member.
pub WellIndexed-add_member :
    (r : RecordType) (name : Option Name) (ty : MemberType) {r' : RecordType}
    → WellIndexed r
    → add_member r name ty ≡ done r'
    → WellIndexed r'
unfolding add_member
WellIndexed-add_member (class_record id complete ms p) name ty w h =
    let grown = (passed (validate_new_member (class_record id complete ms p) ty name) _ h).1 in
    subst WellIndexed grown (
      Places-push_back (offset_above p) ms name ty (size_of ms + offset_above p) w.0 (omega arith),
      w.1,
    )
WellIndexed-add_member (union_record id complete ms) name ty w h =
    let grown = (passed (validate_new_member (union_record id complete ms) ty name) _ h).1 in
    subst WellIndexed grown (Places-push_back 0 ms name ty (size_of ms) w (omega arith))

-- A class without a parent keeps every index in its place when it gets one.
pub WellIndexed-add_parent :
    (r above : RecordType) {r' : RecordType}
    → WellIndexed r
    → WellIndexed above
    → add_parent r above ≡ done r'
    → WellIndexed r'
unfolding add_parent
WellIndexed-add_parent (class_record id complete ms no_parent) above {r'} w v h =
    let grown : class_record id complete (shift_members (offset_above (parent above)) ms)
          (parent above)
        ≡ r' =
      cc in
    let zero_offset : offset_above no_parent + offset_above (parent above)
        ≡ offset_above (parent above) =
      omega (arith, offset-root) in
    subst WellIndexed grown (
      subst (λ k. Places k (shift_members (offset_above (parent above)) ms)) zero_offset
          (Places-shift (offset_above no_parent) (offset_above (parent above)) ms w.0),
      v,
    )
WellIndexed-add_parent (class_record id complete ms (parent r)) above w v h = cc
WellIndexed-add_parent (union_record id complete ms) above w v h = cc

-- A name that passed the checks was not there.
fresh_name :
    (r : RecordType) (name : Name) (ty : MemberType)
    → validate_new_member r ty (some name) ≡ none
    → find r name ≡ none
unfolding validate_new_member
fresh_name r name ty h = elim (Option-cases (find r name)) [
  | inl missing ↦ missing
  | inr (m, found) ↦ elim (Bool-cases (is_record (id_of r) ty)) [
    | inl itself ↦ let bad : some recursive_type ≡ none = rw itself at h in cc
    | inr other ↦ let bad : some name_collision ≡ none = rw (other, found) at h in cc
  ]
]

own_fresh :
    (id : ℕ) (complete : Bool) (ms : Members) (p : Parent) (name : Name)
    → find (class_record id complete ms p) name ≡ none
    → find_in ms name ≡ none
unfolding find
own_fresh id complete ms p name h = elim (Option-cases (find_in ms name)) [
  | inl missing ↦ missing
  | inr (m, found) ↦ let bad : some m ≡ none = rw found at h in cc
]

-- A member that is added under a name is found under that name, with the number of the members before
-- it as its index.
pub find-add_member :
    (r : RecordType) (name : Name) (ty : MemberType) {r' : RecordType}
    → add_member r (some name) ty ≡ done r'
    → (find r' name ≡ some (record { name = some name; ty = ty; idx = num_members r }))
      × (num_members r' ≡ suc (num_members r))
unfolding add_member find num_members
find-add_member (class_record id complete ms p) name ty h =
    let old : RecordType = class_record id complete ms p in
    let idx : ℕ = size_of ms + offset_above p in
    let (valid, grown) = passed (validate_new_member old ty (some name)) _ h in
    let in_place : idx ≡ num_members old = omega (arith, above-eq p) in
    let missing = own_fresh id complete ms p name (fresh_name old name ty valid) in
    subst
      (λ r.
        (find r name ≡ some (record { name = some name; ty = ty; idx = num_members old }))
        × (num_members r ≡ suc (num_members old)))
      grown
      (
        rw (← in_place) (rw (find_in-push_back ms name ty idx missing) refl),
        omega (arith, size-push_back ms (some name) ty idx),
      )
find-add_member (union_record id complete ms) name ty h =
    let old : RecordType = union_record id complete ms in
    let (valid, grown) = passed (validate_new_member old ty (some name)) _ h in
    subst
      (λ r.
        (find r name ≡ some (record { name = some name; ty = ty; idx = num_members old }))
        × (num_members r ≡ suc (num_members old)))
      grown
      (
        find_in-push_back ms name ty (size_of ms) (fresh_name old name ty valid),
        size-push_back ms (some name) ty (size_of ms),
      )
