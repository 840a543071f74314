-- ===== src/Types/Qualified/Canonical.antt =====
-- lib/semantics/types.cpp: the order of the qualifiers, const, then atomic, then volatile outermost.
use enlightenedc.Prelude.{
  ℕ, suc, ◌≡◌, refl, Bool, true, false, arith, if◌then◌else◌, Bool-cases, inl, inr,
}
use enlightenedc.Types.{
  Ty, const_type, atomic_type, volatile_type, is_qualified, unqual, is_const, is_atomic,
  is_volatile, unqual_bare,
}
use enlightenedc.Types.Qualified.{
  Flags, no_flags, flags_or, qualflag, collect, all_qualflags, get_const, get_atomic, get_volatile,
  const_call, atomic_call, volatile_call, get_const_unordered, get_atomic_unordered,
  get_volatile_unordered,
}

unfoldable pub wrap : Bool → Bool → Bool → Ty → Ty
wrap c a v b =
    let inner = if c then const_type b else b in
    let middle = if a then atomic_type inner else inner in
    if v then volatile_type middle else middle

-- The one representation of a type with these qualifiers.
unfoldable pub canonical : Flags → Ty → Ty
unfolding wrap
canonical f b = wrap f.const f.atomic f.volatile b

-- A bare type: nothing to strip, and no flags.
bare_collect : (f : Flags) (b : Ty) → is_qualified b ≡ false → collect f b ≡ f
unfolding is_qualified collect
bare_collect f (const_type t) h = cc
bare_collect f (atomic_type t) h = cc
bare_collect f (volatile_type t) h = cc
bare_collect f t h = refl

pub bare_flags : (b : Ty) → is_qualified b ≡ false → all_qualflags b ≡ no_flags
unfolding all_qualflags
bare_flags b bare = bare_collect no_flags b bare

pub bare_const : (b : Ty) → is_qualified b ≡ false → is_const b ≡ false
unfolding is_qualified is_const
bare_const (const_type t) h = cc
bare_const (atomic_type t) h = cc
bare_const (volatile_type t) h = cc
bare_const t h = refl

pub bare_atomic : (b : Ty) → is_qualified b ≡ false → is_atomic b ≡ false
unfolding is_qualified is_atomic
bare_atomic (const_type t) h = cc
bare_atomic (atomic_type t) h = cc
bare_atomic (volatile_type t) h = cc
bare_atomic t h = refl

pub bare_volatile : (b : Ty) → is_qualified b ≡ false → is_volatile b ≡ false
unfolding is_qualified is_volatile
bare_volatile (const_type t) h = cc
bare_volatile (atomic_type t) h = cc
bare_volatile (volatile_type t) h = cc
bare_volatile t h = refl

-- What the calls read before they wrap.
read_flags : (t : Ty) → (if is_qualified t then all_qualflags t else no_flags) ≡ all_qualflags t
read_flags t = elim (Bool-cases (is_qualified t)) [
  | inl q ↦ rw q
  | inr bare ↦ rw (bare, bare_flags t bare)
]

read_base : (t : Ty) → (if is_qualified t then unqual t else t) ≡ unqual t
read_base t = elim (Bool-cases (is_qualified t)) [
  | inl q ↦ rw q
  | inr bare ↦ rw (bare, unqual_bare t bare)
]

-- A call that finds its qualifier missing, in terms of the flags and the bare type.
module _ (n : ℕ) (t : Ty) where
  pub const_lem :
      is_const t ≡ false
      → get_const (suc n) t ≡ (
          let cnst = const_type (unqual t) in
          let then_atomic = if (all_qualflags t).atomic then get_atomic n cnst else cnst in
          if (all_qualflags t).volatile then get_volatile n then_atomic else then_atomic)
  unfolding get_const const_call get_const_unordered
  const_lem h = rw (h, read_flags t, read_base t)

  pub atomic_lem :
      is_atomic t ≡ false
      → get_atomic (suc n) t ≡ (
          let atomic =
            atomic_type (if (all_qualflags t).const then get_const n (unqual t) else unqual t) in
          if (all_qualflags t).volatile then get_volatile n atomic else atomic)
  unfolding get_const atomic_call get_atomic_unordered
  atomic_lem h = rw (h, read_flags t, read_base t)

  pub volatile_lem :
      is_volatile t ≡ false
      → get_volatile (suc n) t ≡ (
          let then_const = if (all_qualflags t).const then get_const n (unqual t) else unqual t in
          volatile_type (if (all_qualflags t).atomic then get_atomic n then_const else then_const))
  unfolding get_const volatile_call get_volatile_unordered
  volatile_lem h = rw (h, read_flags t, read_base t)

abbrev flags_of : Bool → Bool → Bool → Flags
flags_of c a v = record { const = c; atomic = a; volatile = v }

module _ (b : Ty) (bare : is_qualified b ≡ false) where
  pub unqual-wrap : (c a v : Bool) → unqual (wrap c a v b) ≡ b
  unfolding wrap unqual
  unqual-wrap c a v = ground (arith, unqual_bare b bare)

  pub flags-wrap : (c a v : Bool) → all_qualflags (wrap c a v b) ≡ flags_of c a v
  unfolding wrap all_qualflags collect flags_or qualflag
  flags-wrap c a v = ground (arith, bare_collect (flags_of c a v) b bare)

  pub const-wrap : (n : ℕ) → get_const (suc n) b ≡ wrap true false false b
  unfolding wrap
  const-wrap n = rw (const_lem n b (bare_const b bare), bare_flags b bare, unqual_bare b bare)

  pub atomic-unset : (c : Bool) → is_atomic (wrap c false false b) ≡ false
  unfolding wrap is_atomic
  atomic-unset c = ground (arith, bare_atomic b bare)

  pub volatile-unset : (c a : Bool) → is_volatile (wrap c a false b) ≡ false
  unfolding wrap is_volatile
  volatile-unset c a = ground (arith, bare_volatile b bare)

  -- The calls that a flag asks for, from the inside out.
  pub const_if : (n : ℕ) (c : Bool) → (if c then get_const (suc n) b else b) ≡ wrap c false false b
  unfolding wrap
  const_if n false = refl
  const_if n true = const-wrap n

  atomic-wrap :
      (n : ℕ) (c : Bool) → get_atomic (suc (suc n)) (wrap c false false b) ≡ wrap c true false b
  unfolding wrap
  atomic-wrap n c = rw (
    atomic_lem (suc n) (wrap c false false b) (atomic-unset c),
    flags-wrap c false false,
    unqual-wrap c false false,
    const_if n c,
  )

  pub atomic_if :
      (n : ℕ) (c a : Bool)
      → (if a then get_atomic (suc (suc n)) (wrap c false false b) else wrap c false false b)
        ≡ wrap c a false b
  atomic_if n c false = refl
  atomic_if n c true = atomic-wrap n c

  pub volatile-wrap :
      (n : ℕ) (c a : Bool) → get_volatile (suc (suc (suc n))) (wrap c a false b) ≡ wrap c a true b
  unfolding wrap
  volatile-wrap n c a = rw (
    volatile_lem (suc (suc n)) (wrap c a false b) (volatile-unset c a),
    flags-wrap c a false,
    unqual-wrap c a false,
    const_if (suc n) c,
    atomic_if n c a,
  )

  pub volatile_if :
      (n : ℕ) (c a v : Bool)
      → (if v then get_volatile (suc (suc (suc n))) (wrap c a false b) else wrap c a false b)
        ≡ wrap c a v b
  volatile_if n c a false = refl
  volatile_if n c a true = volatile-wrap n c a
