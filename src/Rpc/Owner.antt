-- ===== src/Rpc/Owner.antt =====
-- The machine that owns a key.
use native.Mathlib.Nat.{mul-le-mul_left, le_of_mul-le-mul_right, div-mul-le_self}
use rabia_sandbox.Base.{ℕ, ◌+◌, ◌-◌, ◌*◌, ◌/◌, ◌^◌, ◌≤◌, ◌<◌, some, ◌≡◌, arith, ◌==◌, if◌then◌else◌}
use rabia_sandbox.Rpc.{Keyspace, to_id}

-- Every key of the range has an owner, which is one of the machines.
pub to_id-lt :
    (s : Keyspace) (k : ℕ)
    → 1 ≤ s.count
    → 1 ≤ s.keyspace_len
    → s.count * s.keyspace_len < 2 ^ 31
    → s.keyspace_lb ≤ k
    → k ≤ s.keyspace_lb + s.keyspace_len
    → (i : ℕ) × (to_id s k ≡ some i) × (i < s.count)
unfolding to_id
to_id-lt s k some_count some_len int low high =
    let offset = k - s.keyspace_lb in
    let product : s.count * offset ≤ s.count * s.keyspace_len =
      mul-le-mul_left s.count (omega arith) in
    let id = s.count * offset / s.keyspace_len in
    let bound : id ≤ s.count =
      le_of_mul-le-mul_right {k = s.keyspace_len}
        (omega (arith, div-mul-le_self (s.count * offset) s.keyspace_len)) (omega arith) in
    (if id == s.count then id - 1 else id, ground arith, ground arith)
