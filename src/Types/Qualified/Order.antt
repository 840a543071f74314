-- ===== src/Types/Qualified/Order.antt =====
-- lib/semantics/types.cpp, `TypeContext::get_const`, `get_atomic` and `get_volatile`: what they
-- return for a type in canonical order, and for a sequence of qualifiers in any order.
use enlightenedc.Prelude.{
  ℕ, suc, ◌-◌, ◌≤◌, ◌≡◌, refl, subst, Bool, true, false, ◌||◌, ◌&&◌, not, arith, List, [], ◌∷◌,
}
use enlightenedc.Types.{
  Ty, is_qualified, is_const, is_atomic, is_volatile, as_const, as_atomic, as_volatile,
}
use enlightenedc.Types.Qualified.{
  get_const, get_atomic, get_volatile, const_call, atomic_call, volatile_call, call_depth,
}
use enlightenedc.Types.Qualified.Canonical.{
  wrap, const_lem, atomic_lem, const_if, atomic_if, volatile_if, flags-wrap, unqual-wrap,
  volatile-wrap, bare_const, bare_atomic,
}

module _ (b : Ty) (bare : is_qualified b ≡ false) where
  -- A qualifier that is there already is found under those outside it, which are left behind.
  const-held : (n : ℕ) (a v : Bool) → get_const (suc n) (wrap true a v b) ≡ wrap true false false b
  unfolding get_const const_call wrap is_const as_const
  const-held n a v = ground arith

  atomic-held : (n : ℕ) (c v : Bool) → get_atomic (suc n) (wrap c true v b) ≡ wrap c true false b
  unfolding get_const atomic_call wrap is_atomic as_atomic
  atomic-held n c v = ground arith

  volatile-held : (n : ℕ) (c a : Bool) → get_volatile (suc n) (wrap c a true b) ≡ wrap c a true b
  unfolding get_const volatile_call wrap is_volatile as_volatile
  volatile-held n c a = ground arith

  const-unset : (a v : Bool) → is_const (wrap false a v b) ≡ false
  unfolding wrap is_const
  const-unset a v = ground (arith, bare_const b bare)

  atomic-missing : (c v : Bool) → is_atomic (wrap c false v b) ≡ false
  unfolding wrap is_atomic
  atomic-missing c v = ground (arith, bare_atomic b bare)

  const-added :
      (n : ℕ) (a v : Bool)
      → get_const (suc (suc (suc (suc n)))) (wrap false a v b) ≡ wrap true a v b
  unfolding wrap
  const-added n a v = rw (
    const_lem (suc (suc (suc n))) (wrap false a v b) (const-unset a v),
    flags-wrap b bare false a v,
    unqual-wrap b bare false a v,
    atomic_if b bare (suc n) true a,
    volatile_if b bare n true a v,
  )

  atomic-added :
      (n : ℕ) (c v : Bool)
      → get_atomic (suc (suc (suc (suc n)))) (wrap c false v b) ≡ wrap c true v b
  unfolding wrap
  atomic-added n c v = rw (
    atomic_lem (suc (suc (suc n))) (wrap c false v b) (atomic-missing c v),
    flags-wrap b bare c false v,
    unqual-wrap b bare c false v,
    const_if b bare (suc (suc n)) c,
    volatile_if b bare n c true v,
  )

  volatile-added :
      (n : ℕ) (c a : Bool)
      → get_volatile (suc (suc (suc (suc n)))) (wrap c a false b) ≡ wrap c a true b
  volatile-added n c a = volatile-wrap b bare (suc n) c a

  abbrev Wraps : ℕ → Bool → Bool → Bool → Type 0
  Wraps n c a v =
      (get_const n (wrap c a v b) ≡ wrap true (not c && a) (not c && v) b)
      × (get_atomic n (wrap c a v b) ≡ wrap c true (not a && v) b)
      × (get_volatile n (wrap c a v b) ≡ wrap c a true b)

  Wraps-deep : (n : ℕ) (c a v : Bool) → Wraps (suc (suc (suc (suc n)))) c a v
  Wraps-deep n c a v = (of_const c, of_atomic a, of_volatile v)
    where
      of_const :
          (c : Bool)
          → get_const (suc (suc (suc (suc n)))) (wrap c a v b)
            ≡ wrap true (not c && a) (not c && v) b
      of_const true = const-held (suc (suc (suc n))) a v
      of_const false = const-added n a v

      of_atomic :
          (a : Bool)
          → get_atomic (suc (suc (suc (suc n)))) (wrap c a v b) ≡ wrap c true (not a && v) b
      of_atomic true = atomic-held (suc (suc (suc n))) c v
      of_atomic false = atomic-added n c v

      of_volatile :
          (v : Bool) → get_volatile (suc (suc (suc (suc n)))) (wrap c a v b) ≡ wrap c a true b
      of_volatile true = volatile-held (suc (suc (suc n))) c a
      of_volatile false = volatile-added n c a

-- What the three calls return for a type whose wrappers are in the order const, atomic, volatile: the
-- qualifier is added in its place, and the call of four levels or more finishes. Where the type has
-- the qualifier already, const drops atomic and volatile, and atomic drops volatile.
pub wraps_canonical :
    (b : Ty) (n : ℕ) (c a v : Bool)
    → is_qualified b ≡ false
    → call_depth ≤ n
    → (get_const n (wrap c a v b) ≡ wrap true (not c && a) (not c && v) b)
      × (get_atomic n (wrap c a v b) ≡ wrap c true (not a && v) b)
      × (get_volatile n (wrap c a v b) ≡ wrap c a true b)
wraps_canonical b n c a v bare deep =
    subst (λ m. Wraps b bare m c a v) (deeper n deep) (Wraps-deep b bare (n - 4) c a v)
  where
    deeper : (n : ℕ) → 4 ≤ n → suc (suc (suc (suc (n - 4)))) ≡ n
    deeper n h = omega arith

pub data Qualifier : Type 0 where
  const atomic volatile : Qualifier

abbrev pub same_qualifier : Qualifier → Qualifier → Bool
same_qualifier Qualifier.const Qualifier.const = true
same_qualifier Qualifier.atomic Qualifier.atomic = true
same_qualifier Qualifier.volatile Qualifier.volatile = true
same_qualifier p q = false

abbrev pub listed : Qualifier → List Qualifier → Bool
listed q [] = false
listed q (p ∷ ps) = same_qualifier q p || listed q ps

abbrev pub Distinct : List Qualifier → Type 0
Distinct [] = Unit
Distinct (q ∷ qs) = (listed q qs ≡ false) × Distinct qs

abbrev pub get_qualified : ℕ → Qualifier → Ty → Ty
get_qualified n Qualifier.const t = get_const n t
get_qualified n Qualifier.atomic t = get_atomic n t
get_qualified n Qualifier.volatile t = get_volatile n t

-- The last qualifier of the list is the first one applied.
abbrev pub qualify_all : ℕ → List Qualifier → Ty → Ty
qualify_all n [] t = t
qualify_all n (q ∷ qs) t = get_qualified n q (qualify_all n qs t)

-- Distinct qualifiers that are put on an unqualified type one after another give, whatever their
-- order, the one wrapper with const innermost and volatile outermost. Four levels of calls are
-- enough.
pub qualify_all_canonical :
    (n : ℕ) (b : Ty) (qs : List Qualifier)
    → call_depth ≤ n
    → is_qualified b ≡ false
    → Distinct qs
    → qualify_all n qs b
      ≡ wrap
          (listed Qualifier.const qs)
          (listed Qualifier.atomic qs)
          (listed Qualifier.volatile qs)
          b
unfolding wrap
qualify_all_canonical n b [] deep bare d = refl
qualify_all_canonical n b (Qualifier.const ∷ qs) deep bare d =
    rw (qualify_all_canonical n b qs deep bare d.1, d.0)
      ((wraps_canonical b n false (listed Qualifier.atomic qs) (listed Qualifier.volatile qs) bare
        deep).0)
qualify_all_canonical n b (Qualifier.atomic ∷ qs) deep bare d =
    rw (qualify_all_canonical n b qs deep bare d.1, d.0)
      ((wraps_canonical b n (listed Qualifier.const qs) false (listed Qualifier.volatile qs) bare
        deep).1)
qualify_all_canonical n b (Qualifier.volatile ∷ qs) deep bare d =
    rw (qualify_all_canonical n b qs deep bare d.1, d.0)
      ((wraps_canonical b n (listed Qualifier.const qs) (listed Qualifier.atomic qs) false bare
        deep).2)
