-- ===== src/Iht/Key.antt =====
-- The template parameter K: `==` on keys, and `std::hash<K>`, which the C++ library gives.
use rabia_sandbox.Base.{ℕ, Bool, true, ◌≡◌, ◌↔◌}

pub record Key {ℓ} (K : Type ℓ) : Type ℓ where
  pub equal : K → K → Bool
  pub equal_iff : (a b : K) → (equal a b ≡ true) ↔ (a ≡ b)
  pub hash : K → ℕ
