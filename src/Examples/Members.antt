-- ===== src/Examples/Members.antt =====
-- The theorems about the members of records at concrete inputs.
use enlightenedc.Prelude.{
  ◌≡◌, refl, arith, true, false, none, some, [], ◌∷◌, if◌then◌else◌, map, ◌+◌, ltb,
}
use enlightenedc.Outcome.{ok, fail, undefined_behaviour}
use enlightenedc.Token.Kinds.{PrimType}
use enlightenedc.Symbols.Name.{Name, name_eq}
use enlightenedc.Types.{primitive_type}
use enlightenedc.Types.Kinds.{is_complete}
use enlightenedc.Types.Record
use enlightenedc.Types.Record.{
  RecordType, class_record, union_record, no_parent, parent, Members, member, MemberType,
  other_member, record_member, TypeMember, size_of, num_members, member_offset, offset_above, find,
  index,
}
use enlightenedc.Types.Record.Indices.{WellIndexed, find_at, find_at-found, find_at-past}
use enlightenedc.Types.Record.Add.{MemberResult, add_member, push_back, validate_new_member}
use enlightenedc.Types.Record.Grow.{WellIndexed-add_member}
use enlightenedc.Types.Record.Paths.{by_index, find_by_path, find_by_path-index}

abbrev u8 : MemberType
u8 = other_member (primitive_type PrimType.u8)

abbrev x : Name
x = 120 ∷ []

abbrev y : Name
y = 121 ∷ []

abbrev z : Name
z = 122 ∷ []

-- class Base { U8 x; U8 y; }; class Derived : Base { U8 z; };
abbrev base : RecordType
base = class_record 0 true (member (some x) u8 0 (member (some y) u8 1 Members.end)) no_parent

abbrev derived_record : RecordType
derived_record = class_record 1 false (member (some z) u8 2 Members.end) (parent base)

derived-WellIndexed : WellIndexed derived_record
unfolding offset_above
derived-WellIndexed = (((refl, tt)), ((refl, (refl, tt)), tt))

found_example : (m : TypeMember) × (find_at derived_record 1 ≡ ok (some m)) × (m.idx ≡ 1)
unfolding num_members
found_example = find_at-found derived_record 1 derived-WellIndexed (omega arith)

-- One past the last member is already undefined.
past_example : find_at derived_record 3 ≡ (
    if ltb 3 (num_members derived_record + member_offset derived_record)
    then fail undefined_behaviour
    else ok none)
unfolding num_members
past_example = find_at-past derived_record 3 (omega arith)

abbrev w : Name
w = 119 ∷ []

abbrev grown : RecordType
grown = class_record 1 false (member (some z) u8 2 (member (some w) u8 3 Members.end)) (parent base)

accepted : add_member derived_record (some w) u8 ≡ MemberResult.done grown
unfolding add_member validate_new_member push_back size_of offset_above is_complete find name_eq
accepted = refl

add_member_example : WellIndexed grown
add_member_example = WellIndexed-add_member derived_record (some w) u8 derived-WellIndexed accepted

path_example :
    find_by_path derived_record (map by_index (index derived_record y))
    ≡ ok (some (record { name = some y; ty = u8; idx = 1 }))
unfolding find Record.find_imm name_eq
path_example =
    find_by_path-index derived_record y (record { name = some y; ty = u8; idx = 1 })
      (record { name = some y; ty = u8; idx = 1 }) derived-WellIndexed refl refl

-- class { U8 x; union { U8 y; U8 z; }; }, with an anonymous union.
abbrev inner : RecordType
inner = union_record 2 true (member (some y) u8 0 (member (some z) u8 1 Members.end))

-- The anonymous union is the second member here.
abbrev outer : RecordType
outer =
    class_record 3 true
      (member (some x) u8 0 (member none (record_member false inner) 1 Members.end)) no_parent
