-- ===== src/ConstInit/Slots.antt =====
-- lib/lowering/lir/constinit.cpp, include/semantics/mir/mir.hpp (`InitializerMIR`) and
-- include/lowering/lir/lir.hpp: initialisers, constants, and the vectors that a loop fills.
use enlightenedc.Prelude.{ℕ, zero, suc, Bool, true, false, List, [], ◌∷◌, match_option}
use enlightenedc.Outcome.{Outcome, ok, fail, ◌>>=◌, undefined_behaviour, internal_error}
use enlightenedc.Symbols.Name.{Name}
use enlightenedc.Types.Record.{RecordType, MemberType}
use enlightenedc.Types.Record.Indices.{find_at}

mutual
  pub data Init (E : Type 0) : Type 0 where
    expr_init : E → Init E
    list_init : Inits E → Init E
    index_init : ℕ → Init E → Init E
    member_init : Name → Init E → Init E

  pub data Inits (E : Type 0) : Type 0 where
    no_inits : Inits E
    init : Init E → Inits E → Inits E

mutual
  pub data ConstInit (K : Type 0) : Type 0 where
    constant_init : K → ConstInit K
    zero_init : MemberType → ConstInit K
    aggregate_init : MemberType → Elements K → ConstInit K

  pub data Elements (K : Type 0) : Type 0 where
    no_elements : Elements K
    null_then : Elements K → Elements K
    set_then : ConstInit K → Elements K → Elements K

-- `Vec<bool> touched(n, false)` and `touched[i] = true`.
unfoldable pub untouched : ℕ → List Bool
untouched zero = []
untouched (suc n) = false ∷ untouched n

unfoldable pub touch : List Bool → ℕ → Outcome (List Bool)
touch [] i = fail undefined_behaviour
touch (t ∷ ts) zero = ok (true ∷ ts)
touch (t ∷ ts) (suc i) = touch ts i >>= λ ts'. ok (t ∷ ts')

module _ {K : Type 0} where
  -- `elements.resize(n)` and `elements[i] = c`.
  unfoldable pub nulls : ℕ → Elements K
  nulls zero = no_elements
  nulls (suc n) = null_then (nulls n)

  unfoldable pub write : Elements K → ℕ → ConstInit K → Outcome (Elements K)
  write no_elements i c = fail undefined_behaviour
  write (null_then es) zero c = ok (set_then c es)
  write (set_then d es) zero c = ok (set_then c es)
  write (null_then es) (suc i) c = write es i c >>= λ es'. ok (null_then es')
  write (set_then d es) (suc i) c = write es i c >>= λ es'. ok (set_then d es')

  -- The loop that fills what was not touched with zeros of the base type.
  unfoldable pub zero_array : MemberType → List Bool → Elements K → Elements K
  zero_array base [] es = es
  zero_array base (t ∷ ts) no_elements = no_elements
  zero_array base (true ∷ ts) (null_then es) = null_then (zero_array base ts es)
  zero_array base (true ∷ ts) (set_then c es) = set_then c (zero_array base ts es)
  zero_array base (false ∷ ts) (null_then es) = set_then (zero_init base) (zero_array base ts es)
  zero_array base (false ∷ ts) (set_then c es) = set_then (zero_init base) (zero_array base ts es)

  -- The same for a class, from a member on: each zero has the type of its member.
  unfoldable pub zero_class : RecordType → ℕ → List Bool → Elements K → Outcome (Elements K)
  zero_class cls i [] es = ok es
  zero_class cls i (t ∷ ts) no_elements = ok no_elements
  zero_class cls i (true ∷ ts) (null_then es) =
      zero_class cls (suc i) ts es >>= λ rest. ok (null_then rest)
  zero_class cls i (true ∷ ts) (set_then c es) =
      zero_class cls (suc i) ts es >>= λ rest. ok (set_then c rest)
  zero_class cls i (false ∷ ts) (null_then es) = find_at cls i >>= λ m.
      match_option m (fail internal_error)
        (λ m. zero_class cls (suc i) ts es >>= λ rest. ok (set_then (zero_init m.ty) rest))
  zero_class cls i (false ∷ ts) (set_then c es) = find_at cls i >>= λ m.
      match_option m (fail internal_error)
        (λ m. zero_class cls (suc i) ts es >>= λ rest. ok (set_then (zero_init m.ty) rest))
