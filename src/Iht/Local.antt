-- ===== src/Iht/Local.antt =====
-- oldAPIHelpMark/iht/iht_local.h: `iht_carumap`, the table of one machine, run by one thread.
-- A pointer to an object is modelled by the object: every bucket owns what it points to. A method
-- returns the table it leaves behind. `none` is a run that never returns (a lock that nobody will
-- release) or a cast of a pointer to the wrong type.
pub mod Invariant
pub mod Methods
pub mod Insert
pub mod Rehash
mod Tests
use rabia_sandbox.Base.{
  ℕ, zero, suc, ◌+◌, ◌*◌, ◌%◌, List, [], ◌∷◌, Option, none, some, Bool, true, false, length, ltb,
  if◌then◌else◌, update, ◌>>=◌,
}
use rabia_sandbox.Iht.Key.{Key}
use rabia_sandbox.Iht.Mix.{prehash}
use rabia_sandbox.Iht.Elist.{EList, elist_insert, edge_swap, search_key}

pub data LockState : Type 0 where
  e_locked e_unlocked p_unlocked : LockState

-- What a bucket points to. A PList is its array of pointers and its array of locks.
pub data Node {ℓ κ} (K : Type ℓ) (V : Type κ) : Type (ℓ ⊔ κ) where
  null : Node K V
  elist : EList K V → Node K V
  plist : (ℕ → Node K V) → (ℕ → LockState) → Node K V

-- The spin loop, where no other thread runs: the result and the lock afterwards.
unfoldable pub acquire : LockState → Option (Bool × LockState)
acquire e_locked = none
acquire e_unlocked = some (true, e_locked)
acquire p_unlocked = some (false, p_unlocked)

unfoldable pub level_hash {ℓ} : {K : Type ℓ} ⦃key : Key K⦄ → K → ℕ → ℕ → ℕ
unfolding prehash
level_hash k level count = prehash k level % count

-- How the part of `insert` under the lock ends: finished, with the bucket and the result, or at a full
-- list, which is to be rehashed.
pub data Attempt {ℓ κ} (K : Type ℓ) (V : Type κ) : Type (ℓ ⊔ κ) where
  done : Node K V → Option V → Attempt K V
  full : EList K V → Attempt K V

module _ {ℓ κ} {K : Type ℓ} {V : Type κ} where
  -- PList::make
  unfoldable pub make : Node K V
  make = plist (λ i. null) (λ i. e_unlocked)

  -- The body of the loop of `rehash`, on the bucket that the key hashes to.
  unfoldable pub place : K → V → Node K V → Node K V
  unfolding elist_insert
  place k v null = elist (elist_insert k v [])
  place k v (elist e) = elist (elist_insert k v e)
  place k v (plist bases locks) = plist bases locks

module _ {ℓ κ} {K : Type ℓ} {V : Type κ} ⦃key : Key K⦄ where
  unfoldable pub rehash_loop : EList K V → ℕ → ℕ → (ℕ → Node K V) → ℕ → Node K V
  unfolding place level_hash
  rehash_loop [] pcount pdepth bases = bases
  rehash_loop (p ∷ source) pcount pdepth bases =
      let b = level_hash p.0 (pdepth + 1) pcount in
      rehash_loop source pcount pdepth (update bases b (place p.0 p.1 (bases b)))

  -- rehash: the hash takes `pcount`, the number of buckets of the parent.
  unfoldable pub rehash : EList K V → ℕ → ℕ → Node K V
  unfolding rehash_loop
  rehash source pcount pdepth =
      plist (rehash_loop source pcount pdepth (λ i. null)) (λ i. e_unlocked)

  -- The part of `get` under the lock.
  unfoldable pub get_bucket : K → Node K V → Option (Option V)
  unfolding search_key
  get_bucket k null = some none
  get_bucket k (elist e) = elim (search_key k e) [ none ↦ some none | some (i, v) ↦ some (some v) ]
  get_bucket k (plist bases locks) = none

  unfoldable pub get : Node K V → K → ℕ → ℕ → Option (Node K V × Option V)
  unfolding acquire level_hash get_bucket
  get null k depth count = none
  get (elist e) k depth count = none
  get (plist bases locks) k depth count =
      let b = level_hash k (depth + 1) count in
      let below = get (bases b) k (depth + 1) (count * 2) in
      elim (acquire (locks b)) [
        | none ↦ none
        | some (false, lock) ↦
            below >>= λ r. some (plist (update bases b r.0) (update locks b lock), r.1)
        | some (true, lock) ↦ get_bucket k (bases b) >>= λ found.
            some (plist bases (update (update locks b lock) b e_unlocked), found)
      ]

  -- The part of `remove` under the lock.
  unfoldable pub remove_bucket : K → Node K V → Option (Node K V × Option V)
  unfolding search_key edge_swap
  remove_bucket k null = some (null, none)
  remove_bucket k (elist e) = elim (search_key k e) [
    | none ↦ some (elist e, none)
    | some (i, v) ↦ some (elist (edge_swap e i), some v)
  ]
  remove_bucket k (plist bases locks) = none

  unfoldable pub remove : Node K V → K → ℕ → ℕ → Option (Node K V × Option V)
  unfolding acquire level_hash remove_bucket
  remove null k depth count = none
  remove (elist e) k depth count = none
  remove (plist bases locks) k depth count =
      let b = level_hash k (depth + 1) count in
      let below = remove (bases b) k (depth + 1) (count * 2) in
      elim (acquire (locks b)) [
        | none ↦ none
        | some (false, lock) ↦
            below >>= λ r. some (plist (update bases b r.0) (update locks b lock), r.1)
        | some (true, lock) ↦ remove_bucket k (bases b) >>= λ r.
            some (plist (update bases b r.0) (update (update locks b lock) b e_unlocked), r.1)
      ]

  -- The part of `insert` under the lock, for lists of `size` pairs.
  unfoldable pub insert_bucket : ℕ → K → V → Node K V → Option (Attempt K V)
  unfolding search_key elist_insert
  insert_bucket size k v null = some (done (elist (elist_insert k v [])) none)
  insert_bucket size k v (elist e) = elim (search_key k e) [
    | some (i, old) ↦ some (done (elist e) (some old))
    | none ↦ some (if ltb (length e) size then done (elist (elist_insert k v e)) none else full e)
  ]
  insert_bucket size k v (plist bases locks) = none

  -- The loop of `insert`, a unit of fuel for each round.
  unfoldable pub insert : ℕ → ℕ → Node K V → K → V → ℕ → ℕ → Option (Node K V × Option V)
  unfolding acquire level_hash insert_bucket rehash
  insert zero size t k v depth count = none
  insert (suc fuel) size null k v depth count = none
  insert (suc fuel) size (elist e) k v depth count = none
  insert (suc fuel) size (plist bases locks) k v depth count =
      let b = level_hash k (depth + 1) count in
      let below = insert fuel size (bases b) k v (depth + 1) (count * 2) in
      let again = λ (e : EList K V) (lock : LockState).
        insert fuel size
          (plist (update bases b (rehash e count depth))
            (update (update locks b lock) b p_unlocked))
          k v depth count in
      elim (acquire (locks b)) [
        | none ↦ none
        | some (false, lock) ↦
            below >>= λ r. some (plist (update bases b r.0) (update locks b lock), r.1)
        | some (true, lock) ↦ insert_bucket size k v (bases b) >>= λ a. elim a [
          | done n r ↦
              some (plist (update bases b n) (update (update locks b lock) b e_unlocked), r)
          | full e ↦ again e lock
        ]
      ]
