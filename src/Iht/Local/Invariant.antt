-- ===== src/Iht/Local/Invariant.antt =====
-- iht_carumap as a map, and what holds of it between two calls.
use rabia_sandbox.Base.{ℕ, ◌+◌, ◌*◌, ◌≤◌, Option, none, length, ◌≡◌, refl, ◌⊎◌, inl, inr}
use rabia_sandbox.Iht.Key.{Key}
use rabia_sandbox.Iht.Elist.Laws.{lookup, IsUnique}
use rabia_sandbox.Iht.Local.{
  LockState, e_locked, e_unlocked, p_unlocked, Node, null, elist, plist, level_hash,
}

module _ {κ} {K : Type 0} {V : Type κ} ⦃key : Key K⦄ where
  -- The value of a key, read down the buckets that its hashes choose.
  unfoldable pub view : Node K V → K → ℕ → ℕ → Option V
  view null k depth count = none
  view (elist e) k depth count = lookup k e
  view (plist bases locks) k depth count =
      view (bases (level_hash k (depth + 1) count)) k (depth + 1) (count * 2)

  -- The lock tells the type of what the bucket points to, no bucket is locked, and an EList has each
  -- key once and room for its pairs.
  unfoldable pub IsBucket : ℕ → LockState → Node K V → Type 0
  IsBucket size e_unlocked null = Unit
  IsBucket size e_unlocked (elist e) = IsUnique e × (length e ≤ size)
  IsBucket size p_unlocked (plist bases locks) = (i : ℕ) → IsBucket size (locks i) (bases i)
  IsBucket size _ _ = ⊥

  -- A whole table: the root is a PList.
  abbrev pub IsTable : ℕ → Node K V → Type 0
  IsTable size t = IsBucket size p_unlocked t

  -- A bucket is free, or leads to a PList.
  pub IsBucket-cases :
      (size : ℕ) (l : LockState) (n : Node K V)
      → IsBucket size l n
      → (l ≡ e_unlocked) ⊎ ((l ≡ p_unlocked) × IsTable size n)
  unfolding IsBucket
  IsBucket-cases size e_unlocked n h = inl refl
  IsBucket-cases size p_unlocked n h = inr (refl, h)
  IsBucket-cases size e_locked n h = absurd h
