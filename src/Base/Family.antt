-- ===== src/Base/Family.antt =====
-- Arrays as functions of the index, written at one place.
use Prim.Native.Nat.{ℕ, zero, suc, ◌+◌, ◌≤◌, ◌<◌}
use mathlib.Core.Path.{◌≡◌, refl, sym, subst, fun_ext}
use mathlib.Core.Logic.{◌≢◌, inl, inr}
use mathlib.Core.Bool.{false}
use native.Mathlib.Omega.{arith}
use rabia_sandbox.Base.Tests.{◌==◌, ==_iff, Bool-cases, if◌then◌else◌, ltb}

module _ {ℓ} {A : Type ℓ} where
  abbrev pub update : (ℕ → A) → ℕ → A → ℕ → A
  update f i a j = if j == i then a else f j

  pub update_self : (f : ℕ → A) (i : ℕ) → update f i (f i) ≡ f
  update_self f i = fun_ext (λ j. ground arith)

  pub update_twice : (f : ℕ → A) (i : ℕ) (a b : A) → update (update f i a) i b ≡ update f i b
  update_twice f i a b = fun_ext (λ j. ground arith)

  -- Taking a value out and putting it back.
  pub update_back : (f : ℕ → A) (i : ℕ) (a b : A) → f i ≡ b → update (update f i a) i b ≡ f
  update_back f i a b e = fun_ext (λ j. ground arith)

  pub update_at : (f : ℕ → A) (i : ℕ) (a : A) → f i ≡ a → update f i a ≡ f
  update_at f i a e = fun_ext (λ j. ground arith)

  pub update_swap :
      (f : ℕ → A) (i j : ℕ) (a b : A)
      → i ≢ j
      → update (update f i a) j b ≡ update (update f j b) i a
  update_swap f i j a b ne = fun_ext (λ x. ground arith)

  pub update_hit : (f : ℕ → A) (i j : ℕ) (a : A) → j ≡ i → update f i a j ≡ a
  update_hit f i j a e = ground arith

  pub update_miss : (f : ℕ → A) (i j : ℕ) (a : A) → (j == i) ≡ false → update f i a j ≡ f j
  update_miss f i j a e = rw e

  -- A property of every place survives a write that has it.
  pub update_all {κ} :
      (P : ℕ → A → Type κ) (f : ℕ → A) (i : ℕ) (a : A)
      → ((j : ℕ) → P j (f j))
      → P i a
      → (j : ℕ) → P j (update f i a j)
  update_all P f i a h here j = elim (Bool-cases (j == i)) [
    | inl same ↦
        let e = (==_iff j i).0 same in
        subst (P j) (sym (update_hit f i j a e)) (subst (λ (m : ℕ). P m a) (sym e) here)
    | inr other ↦ subst (P j) (sym (update_miss f i j a other)) (h j)
  ]

-- The weights of the places below a bound, added up.
pub weigh {ℓ} : {A : Type ℓ} → (A → ℕ) → (ℕ → A) → ℕ → ℕ
weigh w f zero = 0
weigh w f (suc bound) = w (f bound) + weigh w f bound

-- A write below the bound trades the old weight for the new one, and one above it does nothing.
pub weigh-update {ℓ} :
    {A : Type ℓ} (w : A → ℕ) (f : ℕ → A) (i : ℕ) (a : A) (bound : ℕ)
    → weigh w (update f i a) bound + (if ltb i bound then w (f i) else 0)
      ≡ weigh w f bound + (if ltb i bound then w a else 0)
unfolding weigh
weigh-update w f i a zero = ground arith
weigh-update w f i a (suc bound) = ground (arith, weigh-update w f i a bound)

pub weigh-none {ℓ} :
    {A : Type ℓ} (w : A → ℕ) (a : A) (bound : ℕ) → w a ≡ 0 → weigh w (λ i. a) bound ≡ 0
unfolding weigh
weigh-none w a zero light = refl
weigh-none w a (suc bound) light = omega (arith, light, weigh-none w a bound light)

-- No place weighs more than all of them.
pub weigh-place {ℓ} :
    {A : Type ℓ} (w : A → ℕ) (f : ℕ → A) (i bound : ℕ) → i < bound → w (f i) ≤ weigh w f bound
unfolding weigh
weigh-place w f i zero below = absurd (omega arith)
weigh-place w f i (suc bound) below = ground (arith, weigh-place w f i bound)

-- Where the sum is positive, some place is.
pub weigh-some {ℓ} :
    {A : Type ℓ} (w : A → ℕ) (f : ℕ → A) (bound : ℕ)
    → 1 ≤ weigh w f bound
    → (i : ℕ) × (i < bound) × (1 ≤ w (f i))
unfolding weigh
weigh-some w f zero pos = absurd (omega arith)
weigh-some w f (suc bound) pos = elim (Bool-cases (ltb 0 (w (f bound)))) [
  | inl here ↦ (bound, omega arith, ground arith)
  | inr below ↦ let (i, lt, p) = weigh-some w f bound (ground arith) in (i, omega arith, p)
]

-- Where the sum is at most 1, no two places are positive.
pub weigh-one {ℓ} :
    {A : Type ℓ} (w : A → ℕ) (f : ℕ → A) (i j bound : ℕ)
    → weigh w f bound ≤ 1
    → i < bound
    → j < bound
    → 1 ≤ w (f i)
    → 1 ≤ w (f j)
    → i ≡ j
unfolding weigh
weigh-one w f i j zero most below_i below_j at_i at_j = absurd (omega arith)
weigh-one w f i j (suc bound) most below_i below_j at_i at_j =
    ground (arith, weigh-one w f i j bound, weigh-place w f i bound, weigh-place w f j bound)
