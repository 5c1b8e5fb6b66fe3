-- ===== src/Iht/Mix.antt =====
-- The finalizer that both `level_hash` functions apply to the hash of a key, on 64-bit words.
use rabia_sandbox.Base.{ℕ, ◌*◌, ◌/◌, ◌%◌, ◌^◌, bit_xor}
use rabia_sandbox.Iht.Key.{Key}

-- `prehash ^= (prehash >> 33)`
unfoldable pub fold_high : ℕ → ℕ
fold_high h = bit_xor h (h / 2 ^ 33)

-- The five lines from `prehash = to_num(key) ^ level` on, before the remainder.
unfoldable pub prehash {ℓ} : {K : Type ℓ} ⦃key : Key K⦄ → K → ℕ → ℕ
unfolding fold_high
prehash ⦃key⦄ k level =
    let h₀ = fold_high (bit_xor (key.hash k % 2 ^ 64) level) in
    let h₁ = fold_high (h₀ * 0xff51afd7ed558ccd % 2 ^ 64) in
    fold_high (h₁ * 0xc4ceb9fe1a85ec53 % 2 ^ 64)
