-- ===== src/Pool/Regions.antt =====
-- RdmaMemory of oldAPIHelpMark/rdma/memory_pool.h: one stretch of bytes and the regions of it that are
-- registered with the card. An `int` is its 32-bit word in two's complement, and a sum of two wraps around.
-- The results of the calls of the system and of ibverbs are arguments; `none` is an abort.
pub mod Laws
mod Tests
use rabia_sandbox.Base.{
  ℕ, zero, suc, ◌+◌, ◌-◌, ◌*◌, ◌/◌, ◌%◌, ◌^◌, List, [], ◌∷◌, Option, none, some, Bool, true, false,
  ltb, leb, ◌==◌, ◌||◌, if◌then◌else◌, ◌>>=◌,
}
use rabia_sandbox.Status.{
  Status, ok, failed_precondition, already_exists, internal_error, not_found, unavailable, aborted,
  resource_exhausted, stream_terminated,
}

-- An ibv_mr.
pub record Region : Type 0 where
  pub base : ℕ
  pub length : ℕ

-- `allocated` are the bytes from `raw` on.
pub record RdmaMemory : Type 0 where
  pub capacity : ℕ
  pub raw : ℕ
  pub allocated : ℕ
  pub memory_regions : List (ℕ × Region)

-- kDefaultId
abbrev pub default_id : ℕ
default_id = 0

-- std::unordered_map::find
unfoldable pub find_region : ℕ → List (ℕ × Region) → Option Region
find_region id [] = none
find_region id (r ∷ rs) = let rest = find_region id rs in if r.0 == id then some r.1 else rest

abbrev pub is_negative : ℕ → Bool
is_negative x = leb (2 ^ 31) x

-- An `int` as a uint64_t.
abbrev pub to_uint64 : ℕ → ℕ
to_uint64 x = if is_negative x then x + (2 ^ 64 - 2 ^ 32) else x

-- ValidateRegion
unfoldable pub validate_region : RdmaMemory → ℕ → ℕ → Bool
validate_region m offset length =
    if is_negative offset || is_negative length
    then false
    else (if ltb m.capacity (to_uint64 ((offset + length) % 2 ^ 32)) then false else true)

-- RegisterMemoryRegion. `registered` tells whether ibv_reg_mr succeeds.
unfoldable pub register_memory_region : RdmaMemory → ℕ → ℕ → ℕ → Bool → Status × RdmaMemory
register_memory_region m id offset length registered =
    let region : Region = record { base = m.raw + offset; length = length } in
    if validate_region m offset length
    then elim (find_region id m.memory_regions) [
      | some r ↦ (already_exists, m)
      | none ↦
          if registered
          then (ok, record m { memory_regions = (id, region) ∷ m.memory_regions })
          else (internal_error, m)
    ]
    else (failed_precondition, m)

-- GetMemoryRegion
unfoldable pub get_memory_region : RdmaMemory → ℕ → Status × Option Region
get_memory_region m id = elim (find_region id m.memory_regions) [
  | none ↦ (not_found, none)
  | some r ↦ (ok, some r)
]

-- What GetNumHugepages gives.
pub data Hugepages : Type 0 where
  no_path unreadable : Hugepages
  pages : ℕ → Hugepages

abbrev pub use_hugepages : Hugepages → Bool
use_hugepages no_path = false
use_hugepages unreadable = false
use_hugepages (pages n) = ltb 0 n

-- OK_OR_FAIL
unfoldable pub or_fail : Status × RdmaMemory → Option RdmaMemory
or_fail r = elim r.0 [
  | ok ↦ some r.1
  | internal_error ↦ none
  | unavailable ↦ none
  | not_found ↦ none
  | aborted ↦ none
  | resource_exhausted ↦ none
  | failed_precondition ↦ none
  | stream_terminated ↦ none
  | already_exists ↦ none
]

-- RdmaMemory(capacity, path, pd). `allocation` is the address that aligned_alloc or mmap gives, or `none`
-- where it fails, which an assertion turns into an abort. The capacity is handed to RegisterMemoryRegion as
-- an `int`.
unfoldable pub rdma_memory : ℕ → Hugepages → Option ℕ → Bool → Option RdmaMemory
unfolding register_memory_region or_fail
rdma_memory capacity found allocation registered = allocation >>= λ raw.
    let empty : RdmaMemory = record {
      capacity = capacity;
      raw = raw;
      allocated = if use_hugepages found then capacity else (capacity / 2 ^ 6 + 1) * 2 ^ 6;
      memory_regions = [];
    } in
    or_fail (register_memory_region empty default_id 0 (capacity % 2 ^ 32) registered)
