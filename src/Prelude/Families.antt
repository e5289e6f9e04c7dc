-- ===== src/Prelude/Families.antt =====
-- Families of processes or slots, numbered from 0: a change of one member, and sums over the first `n`.
use Prim.Native.Nat.{ℕ, zero, suc, ◌+◌, ◌≤◌, ◌<◌}
use mathlib.Core.Path.{◌≡◌, refl, sym, subst}
use mathlib.Core.Logic.{ite, ◌⊎◌, inl, inr}
use native.Mathlib.Decide.{dec_lt, ℕ_discrete}
use native.Mathlib.Omega.{arith}

-- The family with `a` as its member `i`.
abbrev pub set_at {ℓ} : {A : Type ℓ} → ℕ → A → (ℕ → A) → ℕ → A
set_at i a f j = ite (ℕ_discrete j i) a (f j)

module _ {ℓ} {A : Type ℓ} (weight : A → ℕ) where
  unfoldable pub sum : ℕ → (ℕ → A) → ℕ
  sum zero f = 0
  sum (suc n) f = weight (f n) + sum n f

  -- A member from `n` on does not count.
  sum-set_at_beyond : (n i : ℕ) (a : A) (f : ℕ → A) → n ≤ i → sum n (set_at i a f) ≡ sum n f
  unfolding sum
  sum-set_at_beyond zero i a f le = refl
  sum-set_at_beyond (suc n) i a f le = ground (arith, sum-set_at_beyond n i a f)

  -- A change of one member of weight `w` changes the sum by as much.
  pub sum-set_at :
      (n i : ℕ) (a : A) (f : ℕ → A)
      → i < n
      → sum n (set_at i a f) + weight (f i) ≡ sum n f + weight a
  unfolding sum
  sum-set_at zero i a f lt = absurd (omega arith)
  sum-set_at (suc n) i a f lt = elim (dec_lt i n) [
    | yes earlier ↦ ground (arith, sum-set_at n i a f earlier)
    | no here ↦ ground (arith, sum-set_at_beyond n i a f)
  ]

  pub sum-none : (n : ℕ) (f : ℕ → A) → ((i : ℕ) → i < n → weight (f i) ≡ 0) → sum n f ≡ 0
  unfolding sum
  sum-none zero f h = refl
  sum-none (suc n) f h = omega (arith, sum-none n f (λ i lt. h i (omega arith)), h n (omega arith))

  pub sum-each : (n : ℕ) (f : ℕ → A) → ((i : ℕ) → i < n → weight (f i) ≡ 1) → sum n f ≡ n
  unfolding sum
  sum-each zero f h = refl
  sum-each (suc n) f h = omega (arith, sum-each n f (λ i lt. h i (omega arith)), h n (omega arith))

  pub weight-le-sum : (n i : ℕ) (f : ℕ → A) → i < n → weight (f i) ≤ sum n f
  unfolding sum
  weight-le-sum zero i f lt = absurd (omega arith)
  weight-le-sum (suc n) i f lt = elim (dec_lt i n) [
    | yes earlier ↦ omega (arith, weight-le-sum n i f earlier)
    | no here ↦ ground arith
  ]

  -- Two members count twice.
  pub two-le-sum : (n i j : ℕ) (f : ℕ → A) → i < j → j < n → weight (f i) + weight (f j) ≤ sum n f
  unfolding sum
  two-le-sum zero i j f lt le = absurd (omega arith)
  two-le-sum (suc n) i j f lt le = elim (dec_lt j n) [
    | yes earlier ↦ omega (arith, two-le-sum n i j f lt earlier)
    | no here ↦ ground (arith, weight-le-sum n i f)
  ]

  module _ (small : (a : A) → weight a ≤ 1) where
    pub sum-le : (n : ℕ) (f : ℕ → A) → sum n f ≤ n
    unfolding sum
    sum-le zero f = omega arith
    sum-le (suc n) f = omega (arith, sum-le n f, small (f n))

    -- A member without weight leaves room.
    pub sum-lt : (n i : ℕ) (f : ℕ → A) → i < n → weight (f i) ≡ 0 → sum n f < n
    unfolding sum
    sum-lt zero i f lt e = absurd (omega arith)
    sum-lt (suc n) i f lt e = elim (dec_lt i n) [
      | yes earlier ↦ omega (arith, sum-lt n i f earlier e, small (f n))
      | no here ↦ ground (arith, sum-le n f)
    ]

pub sum_mono {ℓ} :
    {A : Type ℓ} (w v : A → ℕ) → ((a : A) → w a ≤ v a) → (n : ℕ) (f : ℕ → A) → sum w n f ≤ sum v n f
unfolding sum
sum_mono w v h zero f = omega arith
sum_mono w v h (suc n) f = omega (arith, sum_mono w v h n f, h (f n))

-- Two different members do not both count in a sum that is at most 1.
pub one_member {ℓ} :
    {A : Type ℓ} (weight : A → ℕ) (n i j : ℕ) (f : ℕ → A)
    → sum weight n f ≤ 1
    → i < n
    → j < n
    → weight (f i) ≡ 1
    → weight (f j) ≡ 1
    → i ≡ j
one_member weight n i j f le lt_i lt_j wi wj = elim (dec_lt i j) [
  | yes lt ↦ absurd (omega (arith, two-le-sum weight n i j f lt lt_j))
  | no ge ↦ elim (dec_lt j i) [
    | yes lt ↦ absurd (omega (arith, two-le-sum weight n j i f lt lt_i))
    | no le' ↦ omega arith
  ]
]

-- Some member has `B`, or all have `C`.
pub some_or_all {ℓ ℓ' ℓ''} :
    {A : Type ℓ} {B : A → Type ℓ'} {C : A → Type ℓ''} (try : (a : A) → B a ⊎ C a) (n : ℕ)
    (f : ℕ → A)
    → ((i : ℕ) × (i < n) × B (f i)) ⊎ ((i : ℕ) → i < n → C (f i))
some_or_all try zero f = inr (λ i lt. absurd (omega arith))
some_or_all {C = C} try (suc n) f = elim (try (f n)) [
  | inl b ↦ inl (n, omega arith, b)
  | inr c ↦ elim (some_or_all try n f) [
    | inl (i, lt, b) ↦ inl (i, omega arith, b)
    | inr earlier ↦ inr (λ i lt. elim (ℕ_discrete i n) [
      | yes here ↦ subst (λ j. C (f j)) (sym here) c
      | no before ↦ earlier i (omega arith)
    ])
  ]
]
