-- ===== src/Pool/Resource.antt =====
-- `rdma_memory_resource` and `rdma_allocator`: slabs cut from the top of one region, and lists of freed
-- slabs for each size class, which are used again. One thread runs, so the exchange of `head_` succeeds
-- at the first try. An address is a 64-bit word.
pub mod Laws
pub mod Methods
pub mod Reuse
mod Tests
use rabia_sandbox.Base.{
  ℕ, suc, ◌+◌, ◌-◌, ◌*◌, ◌%◌, ◌^◌, List, [], ◌∷◌, ◌++◌, Option, none, some, Bool, true, false, ltb,
  leb, ◌==◌, if◌then◌else◌, update, bit_and, bit_or, bit_xor,
}
use rabia_sandbox.Pool.Log.{upper_log2}

abbrev pub min_slab_class : ℕ
min_slab_class = 3

abbrev pub max_slab_class : ℕ
max_slab_class = 20

abbrev pub num_slab_classes : ℕ
num_slab_classes = max_slab_class - min_slab_class + 1

abbrev pub max_alignment : ℕ
max_alignment = 2 ^ 8

-- `raw` is where the region starts. A freed slab is its alignment and its address. `memory` is what the
-- bytes hold.
pub record Resource : Type 0 where
  pub raw : ℕ
  pub head : ℕ
  pub alignments : ℕ → ℕ
  pub freelists : ℕ → List (ℕ × ℕ)
  pub memory : ℕ → ℕ

-- The slab class of a size, a byte, and its index.
unfoldable pub slab_class : ℕ → ℕ
slab_class bytes =
    let c = upper_log2 bytes % 2 ^ 8 in if ltb min_slab_class c then c else min_slab_class

unfoldable pub slab_index : ℕ → ℕ
slab_index bytes = slab_class bytes - min_slab_class

-- std::memset(ptr, 0, size)
unfoldable pub zero_range : ℕ → ℕ → (ℕ → ℕ) → ℕ → ℕ
zero_range p size memory i =
    if leb p i then (if ltb i (p + size) then 0 else memory i) else memory i

-- The loop over a free list: the first slab with the alignment, the list without it, and whether the
-- erased slab was the last of the list.
unfoldable pub take_slab : ℕ → List (ℕ × ℕ) → Option (ℕ × List (ℕ × ℕ) × Bool)
take_slab a [] = none
take_slab a (f ∷ fs) =
    let rest = take_slab a fs in
    if leb a f.0
    then some (f.1, fs, elim fs [ [] ↦ true | g ∷ gs ↦ false ])
    else elim rest [ none ↦ none | some (p, left, last) ↦ some (p, f ∷ left, last) ]

-- The part of do_allocate below the free lists. Null is 0.
unfoldable pub bump : Resource → ℕ → ℕ → ℕ × Resource
bump r bytes a =
    let down = (bit_and r.head (bit_xor (2 ^ 64 - 1) (a - 1)) + 2 ^ 64 - bytes) % 2 ^ 64 in
    if ltb down r.raw then (0, r) else (down, record r { head = down })

-- do_allocate, with a size of at least the alignment.
unfoldable pub allocate_slab : Resource → ℕ → ℕ → Option (ℕ × Resource)
allocate_slab r bytes a =
    let i = slab_index bytes in
    let fresh = bump r bytes a in
    if ltb i num_slab_classes
    then (if leb a max_alignment
        then (if bit_and (r.alignments i) a == 0
            then some fresh
            else elim (take_slab a (r.freelists i)) [
              | none ↦ some fresh
              | some (p, left, last) ↦ some (
                p,
                record r {
                  freelists = update r.freelists i left;
                  alignments =
                      if last
                      then update r.alignments i (bit_and (r.alignments i) (bit_xor (2 ^ 64 - 1) a))
                      else r.alignments;
                  memory = zero_range p (2 ^ slab_class bytes) r.memory;
                },
              )
            ])
        else none)
    else none

-- do_allocate. `none` is a failed ROME_ASSERT, which ends the program.
unfoldable pub do_allocate : Resource → ℕ → ℕ → Option (ℕ × Resource)
do_allocate r bytes a = allocate_slab r (if ltb bytes a then a else bytes) a

-- `alignments_` has a byte for each class.
unfoldable pub do_deallocate : Resource → ℕ → ℕ → ℕ → Resource
do_deallocate r p bytes a =
    let i = slab_index bytes in
    record r {
      alignments = update r.alignments i (bit_or (r.alignments i) a % 2 ^ 8);
      freelists = update r.freelists i (r.freelists i ++ (a, p) ∷ []);
    }

-- `rdma_allocator<T>`, for a size of T and a number of them.
unfoldable pub allocate : Resource → ℕ → ℕ → Option (ℕ × Resource)
allocate r size n = do_allocate r (size * n % 2 ^ 64) 64

unfoldable pub deallocate : Resource → ℕ → ℕ → ℕ → Resource
deallocate r p size n = do_deallocate r p (size * n % 2 ^ 64) 64
