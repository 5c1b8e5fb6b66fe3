-- ===== src/Iht/Remote.antt =====
-- oldAPIHelpMark/iht/iht_ds.h: `RdmaIHT`, the table in remotely accessible memory.
-- One client runs alone, with the cache off (`CacheDepth::None`). A PList is read
-- into a copy, `curr`, and written through the memory, as the code does.
pub mod Store
pub mod Reads
pub mod Steps
pub mod Finish
pub mod Writes
pub mod Removal
pub mod Methods
pub mod Grow
pub mod Insert
pub mod Rehash
pub mod Tree
pub mod Calcify
pub mod Replant
pub mod Total
pub mod Init
pub mod Cache
pub mod Race
pub mod Locks
mod Tests
use rabia_sandbox.Base.{
  ℕ, zero, suc, ◌+◌, ◌-◌, ◌*◌, ◌/◌, ◌%◌, List, [], ◌∷◌, Option, none, some, Bool, true, false,
  length, get_elem?, ltb, ◌==◌, if◌then◌else◌, update, ◌>>=◌,
}
use rabia_sandbox.Iht.Key.{Key}
use rabia_sandbox.Iht.Mix.{prehash}
use rabia_sandbox.Iht.Elist.{EList, elist_insert, edge_swap, search_key}
use Store.{
  Bucket, Memory, e_locked, e_unlocked, p_unlocked, read_plist, read_elist, write_elist, write_lock,
  write_base, allocate_plist, allocate_elist, deallocate_elist, compare_and_swap,
}

-- The remainder is by `count - 1`: the last bucket of a PList is not used.
unfoldable pub level_hash {ℓ} : {K : Type ℓ} ⦃key : Key K⦄ → K → ℕ → ℕ → ℕ
unfolding prehash
level_hash k level count = prehash k level % (count - 1)

-- The variables of `descent_context`. `e` is the list behind `bucket_base`, if that is not null.
pub record Context {ℓ κ} (K : Type ℓ) (V : Type κ) : Type (ℓ ⊔ κ) where
  pub e : Option (EList K V)
  pub bucket_base : ℕ
  pub depth : ℕ
  pub count : ℕ
  pub bucket : ℕ
  pub parent_ptr : ℕ
  pub curr : ℕ → Bucket

-- What an `apply` leaves: the memory, the context, whether it is finished, and its result.
pub record Outcome {ℓ κ} (K : Type ℓ) (V : Type κ) : Type (ℓ ⊔ κ) where
  pub memory : Memory K V
  pub context : Context K V
  pub finished : Bool
  pub result : Option V

module _ {ℓ κ} {K : Type ℓ} {V : Type κ} where
  -- The spin loop on the lock of a bucket, a unit of fuel for each compare-and-swap.
  unfoldable pub acquire : ℕ → Memory K V → ℕ → ℕ → Option (Bool × Memory K V)
  acquire zero m p b = none
  acquire (suc fuel) m p b = compare_and_swap m p b e_unlocked e_locked >>= λ r.
      let again = acquire fuel r.1 p b in
      if r.0 == p_unlocked
      then some (false, r.1)
      else (if r.0 == e_unlocked then some (true, r.1) else again)

  -- The list behind a pointer: nothing for null, otherwise what is read there.
  unfoldable pub fetch_elist : Memory K V → ℕ → Option (Option (EList K V))
  fetch_elist m q = if q == 0 then some none else (read_elist m q >>= λ e. some (some e))

module _ {ℓ κ} {K : Type ℓ} {V : Type κ} ⦃key : Key K⦄ where
  -- do_with from the loop on, a unit of fuel for each round.
  unfoldable pub descend :
      ℕ
      → K
      → (Context K V → Memory K V → Option (Outcome K V))
      → Memory K V
      → Context K V
      → Option (Memory K V × Option V)
  unfolding level_hash
  descend zero k apply m c = none
  descend (suc fuel) k apply m c =
      let b = level_hash k c.depth c.count in
      let slot = c.curr b in
      let down = λ (red : ℕ → Bucket). descend fuel k apply m (record c {
        bucket = b;
        curr = red;
        parent_ptr = slot.base;
        depth = c.depth + 1;
        count = c.count * 2;
      }) in
      let refetch = λ (m' : Memory K V) (red : ℕ → Bucket).
        descend fuel k apply m' (record c { bucket = b; curr = red }) in
      let again = λ (m' : Memory K V) (c' : Context K V). descend fuel k apply m' c' in
      if slot.lock == p_unlocked
      then (read_plist m slot.base >>= down)
      else (acquire fuel m c.parent_ptr b >>= λ l.
          if l.0
          then (fetch_elist l.1 slot.base >>= λ e.
              apply (record c { e = e; bucket_base = slot.base; bucket = b }) l.1 >>= λ o.
              if o.finished
              then (write_lock o.memory c.parent_ptr b e_unlocked >>= λ m'. some (m', o.result))
              else (write_lock o.memory c.parent_ptr b p_unlocked >>= λ m'. again m' o.context))
          else (read_plist l.1 c.parent_ptr >>= refetch l.1))

  -- do_with, for a table at `root` with `size` buckets in its first PList.
  unfoldable pub do_with :
      ℕ
      → ℕ
      → ℕ
      → K
      → (Context K V → Memory K V → Option (Outcome K V))
      → Memory K V
      → Option (Memory K V × Option V)
  unfolding descend
  do_with fuel root size k apply m = read_plist m root >>= λ red. descend fuel k apply m (record {
    e = none;
    bucket_base = 0;
    depth = 1;
    count = size;
    bucket = 0;
    parent_ptr = root;
    curr = red;
  })

  -- The loop of `rehash` over the pairs of the full list.
  unfoldable pub rehash_loop : EList K V → ℕ → ℕ → ℕ → Memory K V → Option (Memory K V)
  unfolding level_hash elist_insert
  rehash_loop [] pcount pdepth new_p m = some m
  rehash_loop (p ∷ source) pcount pdepth new_p m =
      let b = level_hash p.0 (pdepth + 1) pcount in
      let rest = rehash_loop source pcount pdepth new_p in
      read_plist m new_p >>= λ t.
      (if (t b).base == 0
        then (let (q, m₁) = allocate_elist m [] in
            write_base m₁ new_p b q >>= λ m₂. write_lock m₂ new_p b e_unlocked)
        else some m)
      >>= λ m₃. read_plist m₃ new_p >>= λ t'. read_elist m₃ (t' b).base >>= λ dest.
          rest (write_elist m₃ (t' b).base (elist_insert p.0 p.1 dest))

  -- rehash: the new PList and the memory with it. A list of another machine is copied, and the copy is
  -- what is deallocated in the end.
  unfoldable pub rehash :
      (ℕ → Bool) → Memory K V → (ℕ → Bucket) → ℕ → ℕ → ℕ → Option (ℕ × Memory K V)
  unfolding rehash_loop
  rehash is_local m parent pcount pdepth pidx =
      let (new_p, m₁) = allocate_plist m (λ i. record { base = 0; lock = e_unlocked }) in
      read_elist m₁ (parent pidx).base >>= λ source.
      rehash_loop source (pcount * 2) pdepth new_p m₁ >>= λ m₂.
      some
        (new_p, if is_local (parent pidx).base then deallocate_elist m₂ (parent pidx).base else m₂)

  -- The function that `contains` hands to `do_with`.
  unfoldable pub contains_apply : K → Context K V → Memory K V → Option (Outcome K V)
  unfolding search_key
  contains_apply k c m = some (record {
    memory = m;
    context = c;
    finished = true;
    result = elim c.e [
      | none ↦ none
      | some e ↦ elim (search_key k e) [ none ↦ none | some (i, v) ↦ some v ]
    ];
  })

  -- The loop of `remove` from slot `i` on, a unit of fuel for each round. It goes on after a match, with
  -- the list as it is then.
  unfoldable pub remove_loop :
      ℕ → ℕ → K → ℕ → Memory K V → EList K V → Option V → Memory K V × Option V
  unfolding edge_swap
  remove_loop zero i k base m e r = (m, r)
  remove_loop (suc fuel) i k base m e r =
      let hit = λ (v : V).
        remove_loop fuel (i + 1) k base (write_elist m base (edge_swap e i)) (edge_swap e i)
          (some v) in
      let miss = remove_loop fuel (i + 1) k base m e r in
      elim (get_elem? e i) [
        | none ↦ (m, r)
        | some p ↦ elim (key.equal p.0 k) [ true ↦ hit p.1 | false ↦ miss ]
      ]

  -- The function that `remove` hands to `do_with`. The loop has at most as many rounds as the list has
  -- pairs.
  unfoldable pub remove_apply : K → Context K V → Memory K V → Option (Outcome K V)
  unfolding remove_loop
  remove_apply k c m = elim c.e [
    | none ↦ some (record { memory = m; context = c; finished = true; result = none })
    | some e ↦
        let (m', r) = remove_loop (length e) 0 k c.bucket_base m e none in
        some (record { memory = m'; context = c; finished = true; result = r })
  ]

  -- The function that `insert` hands to `do_with`, for lists of `size` pairs.
  unfoldable pub insert_apply :
      (ℕ → Bool) → ℕ → K → V → Context K V → Memory K V → Option (Outcome K V)
  unfolding search_key elist_insert rehash
  insert_apply is_local size k v c m = elim c.e [
    | none ↦
        let (q, m₁) = allocate_elist m (elist_insert k v []) in
        write_base m₁ c.parent_ptr c.bucket q >>= λ m₂.
        some (record { memory = m₂; context = c; finished = true; result = none })
    | some e ↦ elim (search_key k e) [
      | some (i, old) ↦
          some (record { memory = m; context = c; finished = true; result = some old })
      | none ↦
          if ltb (length e) size
          then some (record {
            memory = write_elist m c.bucket_base (elist_insert k v e);
            context = c;
            finished = true;
            result = none;
          })
          else (rehash is_local m c.curr c.count c.depth c.bucket >>= λ r.
              write_base r.1 c.parent_ptr c.bucket r.0 >>= λ m₂. some (record {
                memory = m₂;
                context = record c {
                  curr = update c.curr c.bucket (record { base = r.0; lock = p_unlocked });
                };
                finished = false;
                result = none;
              }))
    ]
  ]

  unfoldable pub contains : ℕ → ℕ → ℕ → K → Memory K V → Option (Memory K V × Option V)
  unfolding do_with contains_apply
  contains fuel root size k m = do_with fuel root size k (contains_apply k) m

  unfoldable pub remove : ℕ → ℕ → ℕ → K → Memory K V → Option (Memory K V × Option V)
  unfolding do_with remove_apply
  remove fuel root size k m = do_with fuel root size k (remove_apply k) m

  unfoldable pub insert :
      (ℕ → Bool) → ℕ → ℕ → ℕ → ℕ → K → V → Memory K V → Option (Memory K V × Option V)
  unfolding do_with insert_apply
  insert is_local fuel root size esize k v m =
      do_with fuel root size k (insert_apply is_local esize k v) m
