-- ===== src/Pool/Regions/Tests.antt =====
-- A memory of 4096 bytes with its default region, and one that is too large for an `int`.
use rabia_sandbox.Base.{
  ℕ, ◌+◌, ◌%◌, ◌^◌, ◌≤◌, ◌<◌, none, some, true, false, ◌≡◌, ◌≢◌, ◌⊎◌, refl, arith, [],
}
use rabia_sandbox.Status.{Status, ok, failed_precondition, already_exists, internal_error}
use rabia_sandbox.Pool.Regions.{
  Region, RdmaMemory, no_path, default_id, find_region, register_memory_region, validate_region,
  rdma_memory, or_fail,
}
use rabia_sandbox.Pool.Regions.Laws.{
  IsMemory, Fits, register_memory_region-IsMemory, rdma_memory-IsMemory,
}

abbrev bare : RdmaMemory
bare = record { capacity = 4096; raw = 64; allocated = 4160; memory_regions = [] }

bare-IsMemory : IsMemory bare
unfolding find_region
bare-IsMemory = record { word = omega arith; room = omega arith; inside = λ id r e. cc }

abbrev outcome : Status × RdmaMemory
outcome = register_memory_region bare 1 512 1024 true

register_memory_region-IsMemory_example :
    IsMemory outcome.1
    × (((outcome.0 ≡ ok)
          × Fits bare 512 1024
          × (find_region 1 bare.memory_regions ≡ none)
          × (true ≡ true)
          × (find_region 1 outcome.1.memory_regions
              ≡ some (record { base = 64 + 512; length = 1024 }))
          × ((j : ℕ)
              → j ≢ 1
              → find_region j outcome.1.memory_regions ≡ find_region j bare.memory_regions))
        ⊎ ((outcome.1 ≡ bare)
            × (((outcome.0 ≡ failed_precondition) × (¬ Fits bare 512 1024))
                ⊎ (((outcome.0 ≡ already_exists)
                      × Fits bare 512 1024
                      × (r : Region) × (find_region 1 bare.memory_regions ≡ some r))
                    ⊎ ((outcome.0 ≡ internal_error)
                        × Fits bare 512 1024
                        × (find_region 1 bare.memory_regions ≡ none)
                        × (true ≡ false))))))
register_memory_region-IsMemory_example =
    register_memory_region-IsMemory bare 1 512 1024 true bare-IsMemory

rdma_memory-IsMemory_example :
    ((4096 < 2 ^ 31)
      × (m : RdmaMemory) × (rdma_memory 4096 no_path (some 64) true ≡ some m)
      × IsMemory m
      × (find_region default_id m.memory_regions ≡ some (record { base = 64; length = 4096 })))
    ⊎ ((2 ^ 31 ≤ 4096)
        × ((rdma_memory 4096 no_path (some 64) true ≡ none)
            ⊎ ((m : RdmaMemory) × (rdma_memory 4096 no_path (some 64) true ≡ some m)
                × (find_region default_id m.memory_regions
                    ≡ some (record { base = 64; length = 4096 % 2 ^ 32 }))
                × (4096 % 2 ^ 32 < 4096))))
rdma_memory-IsMemory_example = rdma_memory-IsMemory 4096 64 no_path (omega arith)

-- Memory of 2 GiB.
too_large : rdma_memory (2 ^ 31) no_path (some 64) true ≡ none
unfolding rdma_memory register_memory_region or_fail validate_region
too_large = refl

-- Memory that cannot be had.
no_memory : rdma_memory 4096 no_path none true ≡ none
unfolding rdma_memory
no_memory = refl
