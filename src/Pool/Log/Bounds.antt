-- ===== src/Pool/Log/Bounds.antt =====
-- UpperLog2 rounds up.
use native.Mathlib.Nat.{pow-suc}
use rabia_sandbox.Base.{
  ℕ, zero, suc, ◌+◌, ◌*◌, ◌/◌, ◌^◌, ◌≤◌, ◌<◌, ◌≡◌, arith, ◌==◌, inl, inr, ap, Bool-cases,
}
use rabia_sandbox.Pool.Log.{log_table, lower_log2, upper_log2}

pow_add : (k l : ℕ) → 2 ^ (k + l) ≡ 2 ^ k * 2 ^ l
pow_add zero l = ground arith
pow_add (suc k) l =
    let tail = pow_add k l in
    let step : 2 ^ suc (k + l) ≡ 2 ^ (k + l) * 2 = pow-suc 2 (k + l) in
    let head : 2 ^ suc k * 2 ^ l ≡ 2 ^ k * 2 * 2 ^ l = ap (λ (t : ℕ). t * 2 ^ l) (pow-suc 2 k) in
    ground arith

log_table_lem : (n : ℕ) → 1 ≤ n → n < 256 → (2 ^ log_table n ≤ n) × (n < 2 * 2 ^ log_table n)
unfolding log_table
log_table_lem n pos lt = ground arith

scaled_8 :
    (x t : ℕ)
    → (2 ^ t ≤ x / 2 ^ 8) × (x / 2 ^ 8 < 2 * 2 ^ t)
    → (2 ^ (8 + t) ≤ x) × (x < 2 * 2 ^ (8 + t))
scaled_8 x t h = omega (arith, pow_add 8 t)

scaled_16 :
    (x t : ℕ)
    → (2 ^ t ≤ x / 2 ^ 16) × (x / 2 ^ 16 < 2 * 2 ^ t)
    → (2 ^ (16 + t) ≤ x) × (x < 2 * 2 ^ (16 + t))
scaled_16 x t h = omega (arith, pow_add 16 t)

scaled_24 :
    (x t : ℕ)
    → (2 ^ t ≤ x / 2 ^ 16 / 2 ^ 8) × (x / 2 ^ 16 / 2 ^ 8 < 2 * 2 ^ t)
    → (2 ^ (24 + t) ≤ x) × (x < 2 * 2 ^ (24 + t))
scaled_24 x t h = omega (arith, pow_add 24 t)

lower_log2_lem : (x : ℕ) → 1 ≤ x → x < 2 ^ 32 → (2 ^ lower_log2 x ≤ x) × (x < 2 * 2 ^ lower_log2 x)
unfolding lower_log2
lower_log2_lem x pos lt = elim (Bool-cases (x / 2 ^ 16 == 0)) [
  | inl low ↦ elim (Bool-cases (x / 2 ^ 8 == 0)) [
    | inl byte ↦ rw (low, byte) (log_table_lem x pos (ground arith))
    | inr word ↦
        rw (low, word) (scaled_8 x _ (log_table_lem (x / 2 ^ 8) (ground arith) (ground arith)))
  ]
  | inr high ↦ elim (Bool-cases (x / 2 ^ 16 / 2 ^ 8 == 0)) [
    | inl byte ↦
        rw (high, byte) (scaled_16 x _ (log_table_lem (x / 2 ^ 16) (ground arith) (ground arith)))
    | inr word ↦
        rw (high, word)
          (scaled_24 x _ (log_table_lem (x / 2 ^ 16 / 2 ^ 8) (ground arith) (ground arith)))
  ]
]

-- For a size from 1 up to 2 ^ 32 the result is the exponent of the least power of two that holds it.
pub upper_log2_lem :
    (x : ℕ) → 1 ≤ x → x < 2 ^ 32 → (x ≤ 2 ^ upper_log2 x) × (2 ^ upper_log2 x < 2 * x)
unfolding upper_log2
upper_log2_lem x pos lt =
    let (low, high) = lower_log2_lem x pos lt in
    let scale = pow_add (lower_log2 x) 1 in ground arith
