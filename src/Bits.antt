-- ===== src/Bits.antt =====
-- `&`, `|`, `>>` and `<<` on the fields of a machine word, as arithmetic at every width.
mod Digits
use Digits.{bit_and_digit, bit_or_digit, bit_and-zero, bit_or-zero}
use native.Mathlib.Nat.{pow-suc, one-le-pow}
use rabia_sandbox.Base.{
  ℕ, zero, suc, ◌+◌, ◌-◌, ◌*◌, ◌/◌, ◌%◌, ◌^◌, ◌≤◌, ◌<◌, bit_and, bit_or, ◌≡◌, refl, ap, arith,
}

double_shift : (q k : ℕ) → q * 2 ^ suc k ≡ 2 * (q * 2 ^ k)
double_shift q k = omega (arith, ap (λ (t : ℕ). q * t) (pow-suc 2 k))

-- A field above bit k and a value below it do not overlap: `|` adds them.
pub bit_or-field : (k hi lo : ℕ) → lo < 2 ^ k → bit_or (hi * 2 ^ k) lo ≡ hi * 2 ^ k + lo
bit_or-field zero hi lo h = ground (arith, bit_or-zero hi)
bit_or-field (suc k) hi lo h = ground (
  arith,
  double_shift hi k,
  bit_or_digit (hi * 2 ^ suc k) lo,
  bit_or-field k hi (lo / 2) (omega (arith, pow-suc 2 k)),
)

low_part : (k hi lo : ℕ) → lo < 2 ^ k → bit_and (hi * 2 ^ k + lo) (2 ^ k - 1) ≡ lo
low_part zero hi lo h = rw bit_and-zero (omega arith)
low_part (suc k) hi lo h = ground (
  arith,
  double_shift hi k,
  pow-suc 2 k,
  one-le-pow k 2,
  bit_and_digit (hi * 2 ^ suc k + lo) (2 ^ suc k - 1),
  low_part k hi (lo / 2) (omega (arith, pow-suc 2 k)),
)

-- The mask of the k lowest bits keeps the remainder.
pub bit_and-low : (k a : ℕ) → bit_and a (2 ^ k - 1) ≡ a % 2 ^ k
bit_and-low k a = ground (arith, one-le-pow k 2, low_part k (a / 2 ^ k) (a % 2 ^ k))

-- A mask without the k lowest bits clears them.
pub bit_and-high :
    (k m hi lo : ℕ) → lo < 2 ^ k → bit_and (hi * 2 ^ k + lo) (m * 2 ^ k) ≡ bit_and hi m * 2 ^ k
bit_and-high zero m hi lo h = ground arith
bit_and-high (suc k) m hi lo h = ground (
  arith,
  double_shift hi k,
  double_shift m k,
  double_shift (bit_and hi m) k,
  bit_and_digit (hi * 2 ^ suc k + lo) (m * 2 ^ suc k),
  bit_and-high k m hi (lo / 2) (omega (arith, pow-suc 2 k)),
)
