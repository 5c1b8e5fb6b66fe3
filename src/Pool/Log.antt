-- ===== src/Pool/Log.antt =====
-- UpperLog2 of `rdma_memory_resource`, a logarithm rounded up, from a table for one byte.
pub mod Bounds
use rabia_sandbox.Base.{ℕ, ◌+◌, ◌/◌, ◌%◌, ◌^◌, ◌-◌, ltb, ◌==◌, if◌then◌else◌}

-- kLogTable. The entry 0 is -1, here as a `size_t`.
unfoldable pub log_table : ℕ → ℕ
log_table n =
    if n == 0
    then 2 ^ 64 - 1
    else (if ltb n 2
        then 0
        else (if ltb n 4
            then 1
            else (if ltb n 8
                then 2
                else (if ltb n 16
                    then 3
                    else (if ltb n 32
                        then 4
                        else (if ltb n 64 then 5 else (if ltb n 128 then 6 else 7)))))))

-- The first part of UpperLog2: `r` before it is rounded.
unfoldable pub lower_log2 : ℕ → ℕ
lower_log2 x =
    if x / 2 ^ 16 == 0
    then (if x / 2 ^ 8 == 0 then log_table x else 8 + log_table (x / 2 ^ 8))
    else (if x / 2 ^ 16 / 2 ^ 8 == 0
        then 16 + log_table (x / 2 ^ 16)
        else 24 + log_table (x / 2 ^ 16 / 2 ^ 8))

unfoldable pub upper_log2 : ℕ → ℕ
upper_log2 x = if ltb (2 ^ lower_log2 x) x then lower_log2 x + 1 else lower_log2 x
