-- ===== src/Pool/Resource/Reuse.antt =====
-- Slabs that are freed and used again: which class they go to, and what becomes zero.
use rabia_sandbox.Base.{
  ℕ, ◌+◌, ◌-◌, ◌*◌, ◌/◌, ◌^◌, ◌≤◌, ◌<◌, [], ◌∷◌, some, false, ltb, ◌≡◌, inl, inr, refl, ap, arith,
  ◌∙◌, Bool-cases,
}
use native.Mathlib.Nat.{pow-le-pow_right}
use rabia_sandbox.Pool.Log.{log_table, lower_log2, upper_log2}
use rabia_sandbox.Pool.Log.Bounds.{upper_log2_lem}
use rabia_sandbox.Pool.Resource.{
  Resource, slab_class, slab_index, zero_range, allocate, allocate_slab, do_deallocate, deallocate,
}
use rabia_sandbox.Pool.Resource.Laws.{
  IsResource, bump_lem, slab_index-lt, slab_size, allocate_lem, slab_lem, slab_again,
}
use rabia_sandbox.Pool.Resource.Methods.{deallocate_lem}

small-slab_index : (b : ℕ) → 1 ≤ b → b ≤ 32 → slab_index b ≤ 2
unfolding slab_index slab_class
small-slab_index b pos few =
    let bounds = upper_log2_lem b pos (omega arith) in
    elim (Bool-cases (ltb (upper_log2 b) 6)) [
      | inl small ↦ ground arith
      | inr large ↦
          let big : 2 ^ 6 ≤ 2 ^ upper_log2 b =
            pow-le-pow_right (omega arith) {i = 6} (ground arith) in
          absurd (omega arith)
    ]

line_index : slab_index 64 ≡ 3
unfolding slab_index slab_class upper_log2 lower_log2 log_table
line_index = refl

-- Sizes from 1 to 32 bytes are allocated from the class of 64 bytes but freed to the class of their own
-- size: a slab so freed is not among those that the next `allocate` of the size can use again.
pub deallocate_leaks :
    (r : Resource) (p size n : ℕ)
    → 1 ≤ size * n
    → size * n ≤ 32
    → (deallocate r p size n).freelists (slab_index (slab_size size n))
      ≡ r.freelists (slab_index (slab_size size n))
deallocate_leaks r p size n pos few = rw (deallocate_lem r p size n (omega arith)) (
    let line : slab_size size n ≡ 64 = ground arith in
    let small = small-slab_index (size * n) pos few in
    unfold do_deallocate in rw (line, line_index) (ground arith))

reused :
    (r : Resource) (p size n : ℕ)
    → 64 ≤ size * n
    → size * n ≤ 2 ^ 20
    → r.alignments (slab_index (size * n)) ≡ 0
    → r.freelists (slab_index (size * n)) ≡ []
    → (r' : Resource) × (allocate (deallocate r p size n) size n ≡ some (p, r'))
      × (r'.memory ≡ zero_range p (2 ^ slab_class (size * n)) r.memory)
reused r p size n least few unmarked vacant =
    let b = size * n in
    let d = do_deallocate r p b 64 in
    let same : slab_size size n ≡ b = ground arith in
    let index = slab_index-lt b (omega arith) few in
    let mark : d.alignments (slab_index b) ≡ 64 =
      unfold do_deallocate in ground (arith, unmarked) in
    let list : d.freelists (slab_index b) ≡ (64, p) ∷ [] =
      unfold do_deallocate in ground (arith, vacant) in
    let again = slab_again d b (64, p) [] index mark list refl in
    (
      _,
      ap (λ (x : Resource). allocate x size n) (deallocate_lem r p size n few)
          ∙ allocate_lem d size n few
          ∙ ap (λ (x : ℕ). allocate_slab d x 64) same
          ∙ again,
      unfold do_deallocate in refl,
    )

-- A slab cut from the top for `b` bytes, fewer than its class has, and freed and allocated again is the
-- same slab, but more than its `b` bytes are then set to zero: also the byte at `p + b`, the
-- first above it.
pub reuse_overwrites :
    (r : Resource) (size n : ℕ)
    → IsResource r
    → 64 ≤ size * n
    → size * n ≤ 2 ^ 20
    → size * n < 2 ^ slab_class (size * n)
    → r.freelists (slab_index (size * n)) ≡ []
    → r.raw + size * n ≤ r.head / 64 * 64
    → (p : ℕ) × (r₁ : Resource) × (r₂ : Resource) × (allocate r size n ≡ some (p, r₁))
      × (p + size * n ≡ r.head / 64 * 64)
      × (allocate (deallocate r₁ p size n) size n ≡ some (p, r₂))
      × (r₂.memory (p + size * n) ≡ 0)
reuse_overwrites r size n ok least few less vacant space =
    let b = size * n in
    let i = slab_index b in
    let same : slab_size size n ≡ b = ground arith in
    let index = slab_index-lt b (omega arith) few in
    let p = r.head / 64 * 64 - b in
    let r₁ : Resource = record r { head = p } in
    let unmarked : r.alignments i ≡ 0 = elim (ok.marked i) [
      | inl z ↦ z.0
      | inr o ↦ absurd (o.1 vacant)
    ] in
    let again = reused r₁ p size n least few unmarked vacant in
    let not_full : ltb p r.raw ≡ false = ground arith in
    (
      p,
      r₁,
      again.0,
      allocate_lem r size n few
          ∙ ap (λ (x : ℕ). allocate_slab r x 64) same
          ∙ slab_lem r b index unmarked
          ∙ ap some (bump_lem r b ok few ∙ rw not_full refl),
      omega arith,
      again.1,
      ap (λ (f : ℕ → ℕ). f (p + b)) again.2 ∙ unfold zero_range in ground arith,
    )
