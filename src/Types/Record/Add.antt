-- ===== src/Types/Record/Add.antt =====
-- lib/semantics/types.cpp: the checks on a new member, `add_member` and `add_parent`.
use enlightenedc.Prelude.{
  ℕ, suc, ◌+◌, ◌≡◌, refl, ap, subst, Bool, false, ◌||◌, ◌&&◌, ◌==◌, not, Option, none, some, arith,
  Option-cases, Bool-cases, inl, inr, match_option, if◌then◌else◌,
}
use enlightenedc.Symbols.Name.{Name, name_eq, name_eq_self}
use enlightenedc.Types.Kinds.{is_void, is_complete}
use enlightenedc.Types.Record.{
  RecordType, class_record, union_record, no_parent, parent, Members, end, member, MemberType,
  record_member, enum_member, array_member, other_member, size_of, id_of, complete_of, offset_above,
  find, find_in,
}
use enlightenedc.Types.Record.Indices.{Places}

pub data MemberError : Type 0 where
  recursive_type name_collision incomplete_type invalid_void unsized_array : MemberError
  assertion undefined : MemberError

pub data MemberResult {ℓ} (A : Type ℓ) : Type ℓ where
  refused : MemberError → MemberResult A
  done : A → MemberResult A

-- The pointer to the record itself is the one without a qualifier.
unfoldable pub is_record : ℕ → MemberType → Bool
unfolding id_of
is_record id (record_member qualified r) = not qualified && (id_of r == id)
is_record id t = false

unfoldable pub array_of_record : ℕ → MemberType → Bool
unfolding is_record
array_of_record id (array_member base size) = is_record id base
array_of_record id t = false

unfoldable mutual
  unfolding is_record array_of_record

  pub directly_contains : RecordType → ℕ → Bool
  directly_contains (class_record id complete ms p) target = contained_in ms target
  directly_contains (union_record id complete ms) target = contained_in ms target

  pub contained_in : Members → ℕ → Bool
  contained_in end target = false
  contained_in (member name ty idx ms) target =
      is_record target ty || (type_contains ty target || contained_in ms target)

  pub type_contains : MemberType → ℕ → Bool
  type_contains (record_member qualified r) target = directly_contains r target
  type_contains (enum_member complete) target = false
  type_contains (array_member base size) target = is_record target base
  type_contains (other_member t) target = false

unfoldable pub member_complete : MemberType → Bool
unfolding complete_of is_complete
member_complete (record_member qualified r) = complete_of r
member_complete (enum_member complete) = complete
member_complete (array_member base none) = false
member_complete (array_member base (some n)) = member_complete base
member_complete (other_member t) = is_complete (λ _. false) t

-- The checks that depend on the kind of the member's type; `none` where nothing is thrown.
unfoldable pub validate_kind : ℕ → MemberType → Option Name → Option MemberError
unfolding complete_of directly_contains is_record is_void
validate_kind id (record_member qualified r) name =
    if not (complete_of r)
    then some incomplete_type
    else if directly_contains r id
    then match_option name (some undefined) (λ _. some recursive_type)
    else none
validate_kind id (enum_member complete) name = if not complete then some incomplete_type else none
validate_kind id (array_member base size) name =
    if is_record id base
    then match_option name (some undefined) (λ _. some recursive_type)
    else match_option size (some unsized_array) (λ _. none)
validate_kind id (other_member t) name = if is_void t then some invalid_void else none

unfoldable pub validate_new_member : RecordType → MemberType → Option Name → Option MemberError
unfolding is_record find validate_kind member_complete id_of
validate_new_member r ty name =
    let rest =
      match_option (validate_kind (id_of r) ty name)
        (if member_complete ty then none else some incomplete_type) (λ why. some why) in
    if is_record (id_of r) ty
    then match_option name (some undefined) (λ _. some recursive_type)
    else match_option name rest (λ n. match_option (find r n) rest (λ _. some name_collision))

unfoldable pub push_back : Members → Option Name → MemberType → ℕ → Members
push_back end name ty idx = member name ty idx end
push_back (member n t i ms) name ty idx = member n t i (push_back ms name ty idx)

-- `ClassType::add_member` adds the offset to the index that `RecordType::add_member` has set.
unfoldable pub add_member : RecordType → Option Name → MemberType → MemberResult RecordType
add_member (class_record id complete ms p) name ty =
    match_option (validate_new_member (class_record id complete ms p) ty name)
      (done (class_record id complete (push_back ms name ty (size_of ms + offset_above p)) p))
      (λ why. refused why)
add_member (union_record id complete ms) name ty =
    match_option (validate_new_member (union_record id complete ms) ty name)
      (done (union_record id complete (push_back ms name ty (size_of ms)))) (λ why. refused why)

unfoldable pub shift_members : ℕ → Members → Members
shift_members offset end = end
shift_members offset (member name ty idx ms) =
    member name ty (idx + offset) (shift_members offset ms)

-- The parent is a complete class.
unfoldable pub add_parent : RecordType → RecordType → MemberResult RecordType
add_parent (class_record id complete ms no_parent) above =
    done (class_record id complete (shift_members (offset_above (parent above)) ms) (parent above))
add_parent (class_record id complete ms (parent r)) above = refused assertion
add_parent (union_record id complete ms) above = refused assertion

pub Places-push_back :
    (k : ℕ) (ms : Members) (name : Option Name) (ty : MemberType) (idx : ℕ)
    → Places k ms
    → idx ≡ k + size_of ms
    → Places k (push_back ms name ty idx)
unfolding push_back size_of
Places-push_back k end name ty idx w e = (omega (arith, e), tt)
Places-push_back k (member n t i ms) name ty idx w e =
    (w.0, Places-push_back (suc k) ms name ty idx w.1 (omega (arith, e)))

pub Places-shift :
    (k offset : ℕ) (ms : Members) → Places k ms → Places (k + offset) (shift_members offset ms)
unfolding shift_members
Places-shift k offset end w = tt
Places-shift k offset (member n t i ms) w =
    let e : suc k + offset ≡ suc (k + offset) = omega arith in
    (
      omega (arith, w.0),
      subst (λ j. Places j (shift_members offset ms)) e (Places-shift (suc k) offset ms w.1),
    )

pub size-push_back :
    (ms : Members) (name : Option Name) (ty : MemberType) (idx : ℕ)
    → size_of (push_back ms name ty idx) ≡ suc (size_of ms)
unfolding push_back size_of
size-push_back end name ty idx = refl
size-push_back (member n t i ms) name ty idx = ap suc (size-push_back ms name ty idx)

pub find_in-push_back :
    (ms : Members) (name : Name) (ty : MemberType) (idx : ℕ)
    → find_in ms name ≡ none
    → find_in (push_back ms (some name) ty idx) name
      ≡ some (record { name = some name; ty = ty; idx = idx })
unfolding find_in push_back
find_in-push_back end name ty idx h = rw (name_eq_self name)
find_in-push_back (member (some n) t i ms) name ty idx h = elim (Bool-cases (name_eq n name)) [
  | inl same ↦
      let bad : some (record { name = some n; ty = t; idx = i }) ≡ none = rw same at h in cc
  | inr other ↦ rw (other, find_in-push_back ms name ty idx (rw other at h))
]
find_in-push_back (member none (record_member q r) i ms) name ty idx h =
    elim (Option-cases (find r name)) [
      | inl missing ↦ rw (missing, find_in-push_back ms name ty idx (rw missing at h))
      | inr (m, found) ↦ let bad : some m ≡ none = rw found at h in cc
    ]
find_in-push_back (member none (enum_member c) i ms) name ty idx h =
    find_in-push_back ms name ty idx h
find_in-push_back (member none (array_member b s) i ms) name ty idx h =
    find_in-push_back ms name ty idx h
find_in-push_back (member none (other_member t) i ms) name ty idx h =
    find_in-push_back ms name ty idx h
