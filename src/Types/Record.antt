-- ===== src/Types/Record.antt =====
-- `RecordType` and `ClassType` of include/semantics/types.hpp and lib/semantics/types.cpp: the member
-- lists of classes and unions. A record is its number, its flag `complete`, its members and, for a
-- class, its parent, which is complete and so fixed before the class gets it. A member's type shows
-- what these operations read: a record by its contents (with a flag for a qualified one, whose
-- pointer is another), an enumeration by its flag, an array by its base and size.
pub mod Add
pub mod Grow
pub mod Indices
pub mod Paths
use enlightenedc.Prelude.{
  ℕ, zero, suc, ◌+◌, ◌-◌, Bool, true, false, ◌||◌, ◌&&◌, ◌==◌, not, Option, none, some, List, [],
  ◌∷◌, ltb, match_option, if◌then◌else◌,
}
use enlightenedc.Symbols.Name.{Name, name_eq}
use enlightenedc.Types.{Ty}
use enlightenedc.Types.Kinds.{is_void, is_complete}

mutual
  pub data RecordType : Type 0 where
    class_record : ℕ → Bool → Members → Parent → RecordType
    union_record : ℕ → Bool → Members → RecordType

  pub data Parent : Type 0 where
    no_parent : Parent
    parent : RecordType → Parent

  pub data Members : Type 0 where
    end : Members
    member : Option Name → MemberType → ℕ → Members → Members

  pub data MemberType : Type 0 where
    record_member : Bool → RecordType → MemberType
    enum_member : Bool → MemberType
    array_member : MemberType → Option ℕ → MemberType
    other_member : Ty → MemberType

-- `RecordType::TypeMember`.
pub record TypeMember : Type 0 where
  pub name : Option Name
  pub ty : MemberType
  pub idx : ℕ

unfoldable pub members_of : RecordType → Members
members_of (class_record id complete ms p) = ms
members_of (union_record id complete ms) = ms

unfoldable pub id_of : RecordType → ℕ
id_of (class_record id complete ms p) = id
id_of (union_record id complete ms) = id

unfoldable pub complete_of : RecordType → Bool
complete_of (class_record id complete ms p) = complete
complete_of (union_record id complete ms) = complete

unfoldable pub size_of : Members → ℕ
size_of end = 0
size_of (member name ty idx ms) = suc (size_of ms)

-- `members[i].get()`, where there is such a member.
unfoldable pub nth : Members → ℕ → Option TypeMember
nth end i = none
nth (member name ty idx ms) zero = some (record { name = name; ty = ty; idx = idx })
nth (member name ty idx ms) (suc i) = nth ms i

unfoldable pub num_local_members : RecordType → ℕ
unfolding size_of members_of
num_local_members r = size_of (members_of r)

unfoldable mutual
  unfolding size_of num_local_members

  pub num_members : RecordType → ℕ
  num_members (class_record id complete ms p) = num_above p + size_of ms
  num_members (union_record id complete ms) = size_of ms

  pub num_above : Parent → ℕ
  num_above no_parent = 0
  num_above (parent r) = num_members r

unfoldable mutual
  unfolding num_local_members

  pub member_offset : RecordType → ℕ
  member_offset (class_record id complete ms p) = offset_above p
  member_offset (union_record id complete ms) = 0

  pub offset_above : Parent → ℕ
  offset_above no_parent = 0
  offset_above (parent r) = member_offset r + num_local_members r

-- By name, also in anonymous members and in the parents; and only among the named members.
unfoldable mutual
  unfolding name_eq

  pub find : RecordType → Name → Option TypeMember
  find (class_record id complete ms p) name =
      match_option (find_in ms name) (find_above p name) (λ m. some m)
  find (union_record id complete ms) name = find_in ms name

  pub find_above : Parent → Name → Option TypeMember
  find_above no_parent name = none
  find_above (parent r) name = find r name

  pub find_in : Members → Name → Option TypeMember
  find_in end name = none
  find_in (member (some n) ty idx ms) name =
      if name_eq n name
      then some (record { name = some n; ty = ty; idx = idx })
      else find_in ms name
  find_in (member none (record_member qualified r) idx ms) name =
      match_option (find r name) (find_in ms name) (λ m. some m)
  find_in (member none (enum_member complete) idx ms) name = find_in ms name
  find_in (member none (array_member base size) idx ms) name = find_in ms name
  find_in (member none (other_member t) idx ms) name = find_in ms name

unfoldable pub named_in : Members → Name → Option TypeMember
unfolding name_eq
named_in end name = none
named_in (member (some n) ty idx ms) name =
    if name_eq n name then some (record { name = some n; ty = ty; idx = idx }) else named_in ms name
named_in (member none ty idx ms) name = named_in ms name

unfoldable mutual
  unfolding named_in

  pub find_imm : RecordType → Name → Option TypeMember
  find_imm (class_record id complete ms p) name =
      match_option (named_in ms name) (find_imm_above p name) (λ m. some m)
  find_imm (union_record id complete ms) name = named_in ms name

  pub find_imm_above : Parent → Name → Option TypeMember
  find_imm_above no_parent name = none
  find_imm_above (parent r) name = find_imm r name

unfoldable pub or_above : List ℕ → List ℕ → List ℕ
or_above [] above = above
or_above (i ∷ path) above = i ∷ path

-- The path of `index`; an empty path says that there is no member.
unfoldable mutual
  unfolding find find_in find_imm or_above

  pub index : RecordType → Name → List ℕ
  index (class_record id complete ms p) name =
      or_above
        (match_option (find (class_record id complete ms p) name) [] (λ _.
          match_option (find_imm (class_record id complete ms p) name) (index_anon ms name)
            (λ m. m.idx ∷ [])))
        (index_above p name)
  index (union_record id complete ms) name =
      match_option (find (union_record id complete ms) name) [] (λ _.
        match_option (find_imm (union_record id complete ms) name) (index_anon ms name)
          (λ m. m.idx ∷ []))

  pub index_above : Parent → Name → List ℕ
  index_above no_parent name = []
  index_above (parent r) name = index r name

  pub index_anon : Members → Name → List ℕ
  index_anon end name = []
  index_anon (member (some n) ty idx ms) name = index_anon ms name
  index_anon (member none (record_member qualified r) idx ms) name =
      match_option (find r name) (index_anon ms name) (λ _. index r name)
  index_anon (member none (enum_member complete) idx ms) name = index_anon ms name
  index_anon (member none (array_member base size) idx ms) name = index_anon ms name
  index_anon (member none (other_member t) idx ms) name = index_anon ms name
