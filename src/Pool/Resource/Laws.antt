-- ===== src/Pool/Resource/Laws.antt =====
-- The allocator with the one alignment that `rdma_allocator` uses.
use rabia_sandbox.Base.{
  ℕ, ◌+◌, ◌-◌, ◌*◌, ◌/◌, ◌%◌, ◌^◌, ◌≤◌, ◌<◌, List, [], ◌∷◌, some, ltb, if◌then◌else◌, update,
  bit_and, bit_xor, ◌≡◌, ◌≢◌, ◌⊎◌, inl, inr, refl, ap, arith, Bool-cases, lt→ltb,
}
use native.Mathlib.Nat.{pow-le-pow_right}
use rabia_sandbox.Pool.Log.{upper_log2}
use rabia_sandbox.Pool.Log.Bounds.{upper_log2_lem}
use rabia_sandbox.Bits.{bit_and-high, bit_and-low}
use rabia_sandbox.Pool.Resource.{
  Resource, slab_class, slab_index, zero_range, take_slab, bump, allocate_slab, do_allocate,
  allocate, num_slab_classes,
}

-- Rounding an address down to 64 bytes.
aligned_lem : (x : ℕ) → x < 2 ^ 64 → bit_and x (bit_xor (2 ^ 64 - 1) (64 - 1)) ≡ x / 64 * 64
aligned_lem x lt = omega (
  arith,
  ap (λ (t : ℕ). bit_and t ((2 ^ 58 - 1) * 2 ^ 6))
      (let e : x ≡ x / 2 ^ 6 * 2 ^ 6 + x % 2 ^ 6 = omega arith in e),
  bit_and-high 6 (2 ^ 58 - 1) (x / 2 ^ 6) (x % 2 ^ 6) (omega arith),
  bit_and-low 58 (x / 2 ^ 6),
)

-- Every freed slab of a class has the alignment 64.
abbrev pub All64 : List (ℕ × ℕ) → Type 0
All64 [] = Unit
All64 (f ∷ fs) = (f.0 ≡ 64) × All64 fs

-- What the allocator keeps: a class is marked exactly if it has freed slabs, and the head is an address.
pub record IsResource (r : Resource) : Type 0 where
  pub aligned : (i : ℕ) → All64 (r.freelists i)
  pub marked :
      (i : ℕ)
      → ((r.alignments i ≡ 0) × (r.freelists i ≡ []))
        ⊎ ((r.alignments i ≡ 64) × (r.freelists i ≢ []))
  pub head_word : r.head < 2 ^ 64
  pub low : 2 ^ 21 ≤ r.raw
  pub room : r.raw ≤ r.head

-- A cut from the top, for a size that a class has.
pub bump_lem :
    (r : Resource) (bytes : ℕ)
    → IsResource r
    → bytes ≤ 2 ^ 20
    → let down = r.head / 64 * 64 - bytes in
      bump r bytes 64 ≡ (if ltb down r.raw then (0, r) else (down, record r { head = down }))
unfolding bump
bump_lem r bytes ok few =
    let cut : (bit_and r.head (bit_xor (2 ^ 64 - 1) (64 - 1)) + 2 ^ 64 - bytes) % 2 ^ 64
        ≡ r.head / 64 * 64 - bytes =
      let mask = aligned_lem r.head ok.head_word in
      let raw = ok.low in let room = ok.room in omega arith in
    rw cut refl

-- The sizes up to 2 ^ 20 have a slab class.
pub slab_index-lt : (bytes : ℕ) → 1 ≤ bytes → bytes ≤ 2 ^ 20 → slab_index bytes < num_slab_classes
unfolding slab_index slab_class
slab_index-lt bytes pos few =
    let bounds = upper_log2_lem bytes pos (omega arith) in
    elim (Bool-cases (ltb (upper_log2 bytes) 21)) [
      | inl small ↦ ground arith
      | inr large ↦
          let big : 2 ^ 21 ≤ 2 ^ upper_log2 bytes =
            pow-le-pow_right (omega arith) {i = 21} (ground arith) in
          absurd (omega arith)
    ]

-- The size that do_allocate goes on with.
abbrev pub slab_size : ℕ → ℕ → ℕ
slab_size size n = if ltb (size * n) 64 then 64 else size * n

pub allocate_lem :
    (r : Resource) (size n : ℕ)
    → size * n ≤ 2 ^ 20
    → allocate r size n ≡ allocate_slab r (slab_size size n) 64
unfolding allocate do_allocate
allocate_lem r size n few =
    let whole : size * n % 2 ^ 64 ≡ size * n = omega arith in
    ap (λ (t : ℕ). do_allocate r t 64) whole

-- What the first freed slab of a class is used for, or a cut from the top.
pub slab_lem :
    (r : Resource) (b : ℕ)
    → slab_index b < num_slab_classes
    → r.alignments (slab_index b) ≡ 0
    → allocate_slab r b 64 ≡ some (bump r b 64)
unfolding allocate_slab
slab_lem r b few none_marked = ground arith

pub slab_again :
    (r : Resource) (b : ℕ) (f : ℕ × ℕ) (fs : List (ℕ × ℕ))
    → slab_index b < num_slab_classes
    → r.alignments (slab_index b) ≡ 64
    → r.freelists (slab_index b) ≡ f ∷ fs
    → f.0 ≡ 64
    → allocate_slab r b 64
      ≡ some (
        f.1,
        record r {
          freelists = update r.freelists (slab_index b) fs;
          alignments = elim fs [
            | [] ↦ update r.alignments (slab_index b) 0
            | g ∷ gs ↦ r.alignments
          ];
          memory = zero_range f.1 (2 ^ slab_class b) r.memory;
        },
      )
unfolding allocate_slab take_slab
slab_again r b f [] few at list al = ground (arith, lt→ltb (slab_index b) num_slab_classes few)
slab_again r b f (g ∷ gs) few at list al =
    ground (arith, lt→ltb (slab_index b) num_slab_classes few)
