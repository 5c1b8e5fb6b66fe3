-- ===== src/Iht/Remote/Store.antt =====
-- The memory that `RdmaIHT` works on, and the calls of `rdma_capability` that it makes
-- (oldAPIHelpMark/rdma/rdma.h, memory_pool.h), as one client sees them. A pointer names an object, and
-- objects of the two kinds have pointers of one kind; null is 0. Allocation gives a new pointer.
use rabia_sandbox.Base.{ℕ, ◌+◌, Option, none, some, ◌==◌, if◌then◌else◌, update, ◌>>=◌}
use rabia_sandbox.Iht.Elist.{EList}

abbrev pub e_locked : ℕ
e_locked = 1

abbrev pub e_unlocked : ℕ
e_unlocked = 2

abbrev pub p_unlocked : ℕ
p_unlocked = 3

-- plist_pair_t
pub record Bucket : Type 0 where
  pub base : ℕ
  pub lock : ℕ

pub record Memory {ℓ κ} (K : Type ℓ) (V : Type κ) : Type (ℓ ⊔ κ) where
  pub plists : ℕ → Option (ℕ → Bucket)
  pub elists : ℕ → Option (EList K V)
  pub fresh : ℕ

module _ {ℓ κ} {K : Type ℓ} {V : Type κ} where
  abbrev pub read_plist : Memory K V → ℕ → Option (ℕ → Bucket)
  read_plist m p = m.plists p

  abbrev pub read_elist : Memory K V → ℕ → Option (EList K V)
  read_elist m q = m.elists q

  -- A store through a local pointer, or `Write` to a remote one.
  abbrev pub write_elist : Memory K V → ℕ → EList K V → Memory K V
  write_elist m q e = record m { elists = update m.elists q (some e) }

  abbrev pub write_bucket : Memory K V → ℕ → ℕ → (Bucket → Bucket) → Option (Memory K V)
  write_bucket m p b f = m.plists p >>= λ t.
      some (record m { plists = update m.plists p (some (update t b (f (t b)))) })

  -- unlock
  unfoldable pub write_lock : Memory K V → ℕ → ℕ → ℕ → Option (Memory K V)
  write_lock m p b l = write_bucket m p b (λ s. record s { lock = l })

  -- change_bucket_pointer
  unfoldable pub write_base : Memory K V → ℕ → ℕ → ℕ → Option (Memory K V)
  write_base m p b q = write_bucket m p b (λ s. record s { base = q })

  -- CompareAndSwap on the lock of a bucket: the old value, and the memory afterwards.
  abbrev pub compare_and_swap : Memory K V → ℕ → ℕ → ℕ → ℕ → Option (ℕ × Memory K V)
  compare_and_swap m p b expected swap = m.plists p >>= λ t.
      if (t b).lock == expected
      then (write_lock m p b swap >>= λ m'. some ((t b).lock, m'))
      else some ((t b).lock, m)

  -- Allocate<PList>, with what InitPList makes of it.
  abbrev pub allocate_plist : Memory K V → (ℕ → Bucket) → ℕ × Memory K V
  allocate_plist m t =
      (m.fresh, record m { plists = update m.plists m.fresh (some t); fresh = m.fresh + 1 })

  abbrev pub allocate_elist : Memory K V → EList K V → ℕ × Memory K V
  allocate_elist m e =
      (m.fresh, record m { elists = update m.elists m.fresh (some e); fresh = m.fresh + 1 })

  -- Deallocate<EList>: nothing can be read there any more.
  abbrev pub deallocate_elist : Memory K V → ℕ → Memory K V
  deallocate_elist m q = record m { elists = update m.elists q none }
