-- ===== src/Pool/Regions/Laws.antt =====
-- Where the regions of a memory lie.
use rabia_sandbox.Base.{
  ℕ, ◌+◌, ◌*◌, ◌/◌, ◌%◌, ◌^◌, ◌≤◌, ◌<◌, [], ◌∷◌, none, some, Bool, true, false, ltb, ◌==◌,
  if◌then◌else◌, ◌≡◌, ◌≢◌, ◌⊎◌, inl, inr, refl, ap, ◌∙◌, arith, Bool-cases, Option-cases,
}
use rabia_sandbox.Status.{ok, failed_precondition, already_exists, internal_error}
use rabia_sandbox.Pool.Regions.{
  Region, RdmaMemory, Hugepages, default_id, find_region, validate_region, register_memory_region,
  rdma_memory, or_fail, use_hugepages,
}

-- Every region lies in the memory.
pub record IsMemory (m : RdmaMemory) : Type 0 where
  pub word : m.capacity < 2 ^ 63
  pub room : m.capacity ≤ m.allocated
  pub inside :
      (id : ℕ) (r : Region)
      → find_region id m.memory_regions ≡ some r
      → (m.raw ≤ r.base) × (r.base + r.length ≤ m.raw + m.capacity)

-- The numbers are not negative, and the stretch ends in the memory.
abbrev pub Fits : RdmaMemory → ℕ → ℕ → Type 0
Fits m offset length =
    (offset < 2 ^ 31)
    × (length < 2 ^ 31)
    × (offset + length < 2 ^ 31)
    × (offset + length ≤ m.capacity)

validate-Fits :
    (m : RdmaMemory) (offset length : ℕ)
    → m.capacity < 2 ^ 63
    → validate_region m offset length ≡ true
    → Fits m offset length
unfolding validate_region
validate-Fits m offset length word e =
    (ground (arith, e), ground (arith, e), ground (arith, e), ground (arith, e))

Fits-validate :
    (m : RdmaMemory) (offset length : ℕ)
    → Fits m offset length
    → validate_region m offset length ≡ true
unfolding validate_region
Fits-validate m offset length (low, short, sum, fits) = ground arith

with_region-IsMemory :
    (m : RdmaMemory) (id offset length : ℕ)
    → IsMemory m
    → Fits m offset length
    → IsMemory (record m {
      memory_regions = (id, record { base = m.raw + offset; length = length }) ∷ m.memory_regions;
    })
unfolding find_region
with_region-IsMemory m id offset length good (low, short, sum, fits) = record {
  word = good.word;
  room = good.room;
  inside = λ j r e. elim (Bool-cases (id == j)) [
    | inl new ↦
        let at : r ≡ record { base = m.raw + offset; length = length } = ground (arith, e, new) in
        rw at (omega arith, omega arith)
    | inr old ↦ good.inside j r (ground (arith, e, old))
  ];
}

-- RegisterMemoryRegion keeps every region in the memory. It returns Ok where the two numbers are not
-- negative and their sum is an `int` that is at most the capacity, the name is not there yet and the card
-- registers the region: the region is then found under its name, and every other one as before. Otherwise
-- the memory is as it was, and the status is FailedPrecondition where the numbers are not so,
-- AlreadyExists where they are and the name is there, and InternalError where only the card refuses.
pub register_memory_region-IsMemory :
    (m : RdmaMemory) (id offset length : ℕ) (registered : Bool)
    → IsMemory m
    → let (s, m') = register_memory_region m id offset length registered in
      IsMemory m'
      × (((s ≡ ok)
            × Fits m offset length
            × (find_region id m.memory_regions ≡ none)
            × (registered ≡ true)
            × (find_region id m'.memory_regions
                ≡ some (record { base = m.raw + offset; length = length }))
            × ((j : ℕ) → j ≢ id → find_region j m'.memory_regions ≡ find_region j m.memory_regions))
          ⊎ ((m' ≡ m)
              × (((s ≡ failed_precondition) × (¬ Fits m offset length))
                  ⊎ (((s ≡ already_exists)
                        × Fits m offset length
                        × (r : Region) × (find_region id m.memory_regions ≡ some r))
                      ⊎ ((s ≡ internal_error)
                          × Fits m offset length
                          × (find_region id m.memory_regions ≡ none)
                          × (registered ≡ false))))))
unfolding register_memory_region find_region
register_memory_region-IsMemory m id offset length registered good =
    elim (Bool-cases (validate_region m offset length)) [
      | inr bad ↦
          let unfit : ¬ Fits m offset length =
            λ f. let fine = Fits-validate m offset length f in cc in
          rw bad (good, inr (refl, inl (refl, unfit)))
      | inl fine ↦ elim (Option-cases (find_region id m.memory_regions)) [
        | inr (r, there) ↦
            let fits = validate-Fits m offset length good.word fine in
            rw (fine, there) (good, inr (refl, inr (inl (refl, fits, r, refl))))
        | inl absent ↦ elim (Bool-cases registered) [
          | inr refused ↦
              let fits = validate-Fits m offset length good.word fine in
              rw (fine, absent, refused) (good, inr (refl, inr (inr (refl, fits, refl, refl))))
          | inl done ↦
              let fits = validate-Fits m offset length good.word fine in
              rw (fine, absent, done)
                (
                  with_region-IsMemory m id offset length good fits,
                  inl (refl, fits, refl, refl, ground arith, λ j ne. ground arith),
                )
        ]
      ]
    ]

-- The memory before its default region is registered.
abbrev unregistered : ℕ → ℕ → Hugepages → RdmaMemory
unregistered capacity raw found = record {
  capacity = capacity;
  raw = raw;
  allocated = if use_hugepages found then capacity else (capacity / 2 ^ 6 + 1) * 2 ^ 6;
  memory_regions = [];
}

abbrev registered_whole : ℕ → ℕ → Hugepages → RdmaMemory
registered_whole capacity raw found = record (unregistered capacity raw found) {
  memory_regions = (default_id, record { base = raw + 0; length = capacity % 2 ^ 32 }) ∷ [];
}

made :
    (capacity raw : ℕ) (found : Hugepages)
    → validate_region (unregistered capacity raw found) 0 (capacity % 2 ^ 32) ≡ true
    → rdma_memory capacity found (some raw) true ≡ some (registered_whole capacity raw found)
unfolding rdma_memory register_memory_region find_region
made capacity raw found fine =
    let m = unregistered capacity raw found in
    let step : register_memory_region m default_id 0 (capacity % 2 ^ 32) true
        ≡ (ok, registered_whole capacity raw found) =
      rw (register_memory_region, fine) refl in
    ap or_fail step ∙ unfold or_fail in refl

refused :
    (capacity raw : ℕ) (found : Hugepages)
    → validate_region (unregistered capacity raw found) 0 (capacity % 2 ^ 32) ≡ false
    → rdma_memory capacity found (some raw) true ≡ none
unfolding rdma_memory register_memory_region find_region
refused capacity raw found bad =
    let m = unregistered capacity raw found in
    let step : register_memory_region m default_id 0 (capacity % 2 ^ 32) true
        ≡ (failed_precondition, m) =
      rw (register_memory_region, bad) refl in
    ap or_fail step ∙ unfold or_fail in refl

default_lem :
    (capacity raw : ℕ) (found : Hugepages)
    → find_region default_id (registered_whole capacity raw found).memory_regions
      ≡ some (record { base = raw; length = capacity % 2 ^ 32 })
unfolding find_region
default_lem capacity raw found = ground arith

unregistered-IsMemory :
    (capacity raw : ℕ) (found : Hugepages)
    → capacity < 2 ^ 63
    → IsMemory (unregistered capacity raw found)
unfolding find_region
unregistered-IsMemory capacity raw found word = record {
  word = word;
  room = elim (Bool-cases (use_hugepages found)) [
    | inl huge ↦ rw huge (omega arith)
    | inr small ↦ rw small (omega arith)
  ];
  inside = λ id r e. cc;
}

-- Where the memory can be allocated, the card registers regions and the capacity is below 2 ^ 63: with a
-- capacity below 2 ^ 31 a new memory has all of itself as its
-- default region, and its bytes reach as far, with huge pages and without. Otherwise the capacity is not
-- an `int`: the program is aborted, or only the capacity modulo 2 ^ 32 is registered, which is less.
pub rdma_memory-IsMemory :
    (capacity raw : ℕ) (found : Hugepages)
    → capacity < 2 ^ 63
    → ((capacity < 2 ^ 31)
        × (m : RdmaMemory) × (rdma_memory capacity found (some raw) true ≡ some m)
        × IsMemory m
        × (find_region default_id m.memory_regions
            ≡ some (record { base = raw; length = capacity })))
      ⊎ ((2 ^ 31 ≤ capacity)
          × ((rdma_memory capacity found (some raw) true ≡ none)
              ⊎ ((m : RdmaMemory) × (rdma_memory capacity found (some raw) true ≡ some m)
                  × (find_region default_id m.memory_regions
                      ≡ some (record { base = raw; length = capacity % 2 ^ 32 }))
                  × (capacity % 2 ^ 32 < capacity))))
unfolding rdma_memory register_memory_region find_region
rdma_memory-IsMemory capacity raw found word =
    let m = unregistered capacity raw found in
    elim (Bool-cases (ltb capacity (2 ^ 31))) [
      | inl small ↦
          let short : capacity % 2 ^ 32 ≡ capacity = ground arith in
          let fits : Fits m 0 (capacity % 2 ^ 32) =
            (omega arith, ground arith, ground arith, omega (arith, short)) in
          inl (
            ground arith,
            registered_whole capacity raw found,
            made capacity raw found (Fits-validate m 0 (capacity % 2 ^ 32) fits),
            with_region-IsMemory m default_id 0 (capacity % 2 ^ 32)
                (unregistered-IsMemory capacity raw found word) fits,
            default_lem capacity raw found
                ∙ ap (λ (n : ℕ). some (record { base = raw; length = n })) short,
          )
      | inr large ↦ inr (
        ground arith,
        elim (Bool-cases (validate_region m 0 (capacity % 2 ^ 32))) [
          | inr bad ↦ inl (refused capacity raw found bad)
          | inl fine ↦
              let (_, _, sum, _) = validate-Fits m 0 (capacity % 2 ^ 32) word fine in
              inr (
                registered_whole capacity raw found,
                made capacity raw found fine,
                default_lem capacity raw found,
                ground arith,
              )
        ],
      )
    ]
