-- ===== src/Cfg/Unvisited.antt =====
-- Counting blocks: how often a list has one, and how many are not visited.
use enlightenedc.Prelude.{
  ℕ, zero, suc, ◌+◌, ◌≤◌, ◌<◌, ◌≡◌, ◌≢◌, refl, sym, ap, ◌∙◌, Bool, true, false, List, [], ◌∷◌, ◌++◌,
  ◌==◌, Bool-cases, ℕ-cases, inl, inr, arith, not, ==_same, ==_ne, ◌⊎◌,
}
use enlightenedc.Cfg.Walker.{contains}

-- 1 or 0.
abbrev pub unit_of : Bool → ℕ
unit_of true = 1
unit_of false = 0

unfoldable pub count : ℕ → List ℕ → ℕ
count x [] = 0
count x (y ∷ ys) = unit_of (y == x) + count x ys

pub count-append : (x : ℕ) (xs ys : List ℕ) → count x (xs ++ ys) ≡ count x xs + count x ys
unfolding count
count-append x [] ys = omega arith
count-append x (y ∷ xs) ys = omega (arith, count-append x xs ys)

-- How many blocks below `n` a list lacks.
unfoldable pub unvisited : ℕ → List ℕ → ℕ
unvisited zero visited = 0
unvisited (suc n) visited = unit_of (not (contains visited n)) + unvisited n visited

pub contains_cons_other :
    (visited : List ℕ) (blk x : ℕ) → blk ≢ x → contains (blk ∷ visited) x ≡ contains visited x
unfolding contains
contains_cons_other visited blk x n = ground (arith, n)

pub contains_cons_self : (visited : List ℕ) (blk : ℕ) → contains (blk ∷ visited) blk ≡ true
unfolding contains
contains_cons_self visited blk = ground arith

pub contains_cons :
    (visited : List ℕ) (blk x : ℕ) → contains visited x ≡ true → contains (blk ∷ visited) x ≡ true
unfolding contains
contains_cons visited blk x h = ground (arith, h)

unvisited_above :
    (n : ℕ) (visited : List ℕ) (blk : ℕ)
    → n ≤ blk
    → unvisited n (blk ∷ visited) ≡ unvisited n visited
unfolding unvisited
unvisited_above zero visited blk h = refl
unvisited_above (suc n) visited blk h = omega (
  arith,
  unvisited_above n visited blk (omega (arith, h)),
  ap (λ b. unit_of (not b)) (contains_cons_other visited blk n (λ e. omega (arith, e, h))),
)

-- A block below `n` that is visited for the first time.
pub unvisited_cons :
    (n : ℕ) (visited : List ℕ) (blk : ℕ)
    → blk < n
    → contains visited blk ≡ false
    → suc (unvisited n (blk ∷ visited)) ≡ unvisited n visited
unfolding unvisited
unvisited_cons zero visited blk h e = elim h [ ]
unvisited_cons (suc n) visited blk h e = elim (ℕ-cases blk n) [
  | inl z ↦ omega (
    arith,
    unvisited_above n visited blk (omega (arith, z)),
    ap (λ b. unit_of (not b))
        (ap (λ k. contains (blk ∷ visited) k) (sym z) ∙ contains_cons_self visited blk),
    ap (λ b. unit_of (not b)) (ap (λ k. contains visited k) (sym z) ∙ e),
  )
  | inr z ↦ omega (
    arith,
    unvisited_cons n visited blk (omega (arith, z, h)) e,
    ap (λ b. unit_of (not b)) (contains_cons_other visited blk n z),
  )
]

pub unvisited_mono :
    (n : ℕ) (xs ys : List ℕ)
    → ((x : ℕ) → contains xs x ≡ true → contains ys x ≡ true)
    → unvisited n ys ≤ unvisited n xs
unfolding unvisited
unvisited_mono zero xs ys h = omega arith
unvisited_mono (suc n) xs ys h = elim (Bool-cases (contains xs n)) [
  | inl e ↦ omega (
    arith,
    unvisited_mono n xs ys h,
    ap (λ b. unit_of (not b)) e,
    ap (λ b. unit_of (not b)) (h n e),
  )
  | inr e ↦ elim (Bool-cases (contains ys n)) [
    | inl f ↦
        omega (
          arith,
          unvisited_mono n xs ys h,
          ap (λ b. unit_of (not b)) e,
          ap (λ b. unit_of (not b)) f,
        )
    | inr f ↦
        omega (
          arith,
          unvisited_mono n xs ys h,
          ap (λ b. unit_of (not b)) e,
          ap (λ b. unit_of (not b)) f,
        )
  ]
]

pub unvisited_empty : (n : ℕ) → unvisited n [] ≡ n
unfolding unvisited contains
unvisited_empty zero = refl
unvisited_empty (suc n) = omega (arith, unvisited_empty n)

pub contains_cons_cases :
    (ys : List ℕ) (y x : ℕ) → contains (y ∷ ys) x ≡ true → (y ≡ x) ⊎ (contains ys x ≡ true)
unfolding contains
contains_cons_cases ys y x h = elim (ℕ-cases y x) [
  | inl e ↦ inl e
  | inr n ↦ inr (sym (contains_cons_other ys y x n) ∙ h)
]

-- A block that is entered counts once more.
pub unit_of_cons :
    (visited : List ℕ) (blk x : ℕ)
    → contains visited blk ≡ false
    → unit_of (contains (blk ∷ visited) x) ≡ unit_of (blk == x) + unit_of (contains visited x)
unit_of_cons visited blk x h = elim (ℕ-cases blk x) [
  | inl e ↦ omega (
    arith,
    ap unit_of (ap (λ k. contains (blk ∷ visited) k) (sym e) ∙ contains_cons_self visited blk),
    ap unit_of (ap (λ k. contains visited k) (sym e) ∙ h),
    ap unit_of (==_same blk x e),
  )
  | inr n ↦
      omega (arith, ap unit_of (contains_cons_other visited blk x n), ap unit_of (==_ne blk x n))
]
