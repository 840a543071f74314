-- ===== src/Types/Record/Paths.antt =====
-- lib/semantics/types.cpp: accessor paths. `index` turns a name into a path of indices, which
-- `find_by_path` follows.
use enlightenedc.Prelude.{
  ℕ, suc, ◌+◌, ◌-◌, ◌<◌, ◌≡◌, ap, some_eq, ◌∙◌, Bool, leb, Option, none, some, arith, List, [], ◌∷◌,
  map, match_option, Option-cases, Bool-cases, inl, inr, false,
}
use enlightenedc.Outcome.{Outcome, ok, ◌>>=◌}
use enlightenedc.Symbols.Name.{Name, name_eq}
use enlightenedc.Types.Record.{
  RecordType, class_record, union_record, Parent, no_parent, parent, Members, end, member,
  MemberType, record_member, enum_member, array_member, other_member, TypeMember, size_of, nth,
  num_members, offset_above, find, named_in, find_imm, index,
}
use enlightenedc.Types.Record.Indices.{
  Places, WellIndexed, find_at, find_local, at_union, at_root, at_parent, at_own, above_members,
  offset-root,
}

pub data Accessor : Type 0 where
  by_member : Name → Accessor
  by_index : ℕ → Accessor

unfoldable pub find_accessor : RecordType → Accessor → Outcome (Option TypeMember)
find_accessor r (by_member name) = ok (find r name)
find_accessor r (by_index idx) = find_at r idx

-- The record that a member's type is, if it is one.
unfoldable pub as_record : MemberType → Option RecordType
as_record (record_member qualified r) = some r
as_record (enum_member complete) = none
as_record (array_member base size) = none
as_record (other_member t) = none

unfoldable pub find_by_path : RecordType → List Accessor → Outcome (Option TypeMember)
unfolding find_accessor as_record
find_by_path r [] = ok none
find_by_path r (acc ∷ []) = find_accessor r acc
find_by_path r (acc ∷ next ∷ path) = find_accessor r acc >>= λ found.
    match_option found (ok none)
      (λ m. match_option (as_record m.ty) (ok none) (λ inner. find_by_path inner (next ∷ path)))

-- The indices of the members along a path, or none where the path breaks off.
unfoldable pub indices_along : RecordType → List Accessor → Outcome (Option (List ℕ))
unfolding find_accessor as_record
indices_along r [] = ok (some [])
indices_along r (acc ∷ []) =
    find_accessor r acc >>= λ found. ok (match_option found none (λ m. some (m.idx ∷ [])))
indices_along r (acc ∷ next ∷ path) = find_accessor r acc >>= λ found.
    match_option found (ok none) (λ m. match_option (as_record m.ty) (ok none) (λ inner.
      indices_along inner (next ∷ path) >>= λ rest.
      ok (match_option rest none (λ is. some (m.idx ∷ is)))))

unfoldable pub indexify : RecordType → List Accessor → Outcome (List ℕ)
unfolding indices_along
indexify r path = indices_along r path >>= λ found. ok (match_option found [] (λ is. is))

named-place :
    (k : ℕ) (ms : Members) (name : Name) {m : TypeMember}
    → Places k ms
    → named_in ms name ≡ some m
    → (i : ℕ) × (nth ms i ≡ some m) × (m.idx ≡ k + i) × (i < size_of ms)
unfolding named_in nth size_of
named-place k end name w h = cc
named-place k (member none ty idx ms) name w h =
    let (i, at, place, lt) = named-place (suc k) ms name w.1 h in
    (suc i, at, omega (arith, place), omega (arith, lt))
named-place k (member (some n) ty idx ms) name {m} w h = elim (Bool-cases (name_eq n name)) [
  | inl same ↦
      let e : some (record { name = some n; ty = ty; idx = idx }) ≡ some m = rw same at h in
      (0, e, omega (arith, ap (λ (x : TypeMember). x.idx) (some_eq e), w.0), omega arith)
  | inr other ↦
      let (i, at, place, lt) = named-place (suc k) ms name w.1 (rw other at h) in
      (suc i, at, omega (arith, place), omega (arith, lt))
]

local_known :
    (count : ℕ) (ms : Members) (i j : ℕ) {m : TypeMember}
    → nth ms i ≡ some m
    → i < count
    → j ≡ i
    → find_local count ms j ≡ ok (some m)
unfolding find_local
local_known count ms i j at lt e = rw (e, not_past lt, at)
  where
    not_past : i < count → leb count i ≡ false
    not_past h = ground arith

-- A member that is found without looking into anonymous members is at its index.
abbrev AtIndex : RecordType → TypeMember → Type 0
AtIndex r m = (find_at r m.idx ≡ ok (some m)) × (m.idx < num_members r)

own-AtIndex :
    (id : ℕ) (complete : Bool) (ms : Members) (p : Parent) (name : Name) (m : TypeMember)
    → Places (offset_above p) ms
    → named_in ms name ≡ some m
    → AtIndex (class_record id complete ms p) m
unfolding num_members
own-AtIndex id complete ms no_parent name m w h =
    let (i, at, place, lt) = named-place (offset_above no_parent) ms name w h in
    (
      at_root id complete ms m.idx
          ∙ local_known (num_members (class_record id complete ms no_parent)) ms i m.idx at
              (omega (arith, lt)) (omega (arith, place, offset-root)),
      omega (arith, place, lt, offset-root),
    )
own-AtIndex id complete ms (parent r) name m w h =
    let (i, at, place, lt) = named-place (offset_above (parent r)) ms name w h in
    (
      at_own id complete ms r m.idx (omega (arith, place))
          ∙ local_known (num_members (class_record id complete ms (parent r))) ms i
              (m.idx - offset_above (parent r)) at (omega (arith, lt)) (omega (arith, place)),
      omega (arith, place, lt, above_members r),
    )

imm-AtIndex :
    (r : RecordType) (name : Name) (m : TypeMember)
    → WellIndexed r
    → find_imm r name ≡ some m
    → AtIndex r m
unfolding find_imm num_members
imm-AtIndex (union_record id complete ms) name m w h =
    let (i, at, place, lt) = named-place 0 ms name w h in
    (
      at_union id complete ms m.idx
          ∙ local_known (size_of ms) ms i m.idx at lt (omega (arith, place)),
      omega (arith, place, lt),
    )
imm-AtIndex (class_record id complete ms no_parent) name m w h =
    elim (Option-cases (named_in ms name)) [
      | inr (m', own) ↦
          let same : some m' ≡ some m = rw own at h in
          own-AtIndex id complete ms no_parent name m w.0 (own ∙ same)
      | inl missing ↦ let bad : none ≡ some m = rw missing at h in cc
    ]
imm-AtIndex (class_record id complete ms (parent r)) name m w h =
    elim (Option-cases (named_in ms name)) [
      | inr (m', own) ↦
          let same : some m' ≡ some m = rw own at h in
          own-AtIndex id complete ms (parent r) name m w.0 (own ∙ same)
      | inl above ↦
          let (found, lt) = imm-AtIndex r name m w.1 (rw above at h) in
          (
            at_parent id complete ms r m.idx (omega (arith, lt, above_members r)) ∙ found,
            omega (arith, lt),
          )
    ]

found_path :
    (r : RecordType) (name : Name) {m m' : TypeMember}
    → find r name ≡ some m'
    → find_imm r name ≡ some m
    → index r name ≡ m.idx ∷ []
unfolding index
found_path (class_record id complete ms p) name h k = rw (h, k)
found_path (union_record id complete ms) name h k = rw (h, k)

-- The path of a member that the record or one of its parents has under a name of its own leads back to
-- the member.
pub find_by_path-index :
    (r : RecordType) (name : Name) (m m' : TypeMember)
    → WellIndexed r
    → find r name ≡ some m'
    → find_imm r name ≡ some m
    → find_by_path r (map by_index (index r name)) ≡ ok (some m)
unfolding find_by_path
find_by_path-index r name m m' w h k = rw (found_path r name h k) ((imm-AtIndex r name m w k).0)

-- The members that a record has itself.
abbrev pub own_members : RecordType → Members
own_members (class_record id complete ms p) = ms
own_members (union_record id complete ms) = ms

-- The record of the first anonymous member in which a name is found.
unfoldable pub anonymous_with : Members → Name → Option RecordType
anonymous_with end name = none
anonymous_with (member (some n) ty idx ms) name = anonymous_with ms name
anonymous_with (member none (record_member qualified r) idx ms) name =
    match_option (find r name) (anonymous_with ms name) (λ _. some r)
anonymous_with (member none (enum_member complete) idx ms) name = anonymous_with ms name
anonymous_with (member none (array_member base size) idx ms) name = anonymous_with ms name
anonymous_with (member none (other_member t) idx ms) name = anonymous_with ms name
