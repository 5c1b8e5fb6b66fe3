-- ===== src/Verbs/Atomic.antt =====
-- CompareAndSwap and AtomicSwap, of a thread that is registered, on a pointer to a machine that is
-- connected, where the card is used by nobody else.
use rabia_sandbox.Base.{
  ℕ, suc, ◌+◌, some, true, ◌≡◌, refl, ap, arith, ◌∙◌, ◌==◌, ==_iff, update, update_twice,
  if◌then◌else◌, inl, inr, Bool-cases,
}
use rabia_sandbox.RemotePtr.{id, address}
use rabia_sandbox.Pool.Resource.{Resource, allocate, deallocate}
use rabia_sandbox.Verbs.{
  Device, ConnInfo, MemoryPool, at, atomic_request, compare_and_swap_ptr, atomic_swap, swap_loop,
}
use rabia_sandbox.Verbs.Card.{IsAtomic, trip}

-- The words of the other machines with the one behind a pointer replaced.
abbrev pub stored : (ℕ → ℕ → ℕ) → ℕ → ℕ → ℕ → ℕ → ℕ
stored cell ptr v machine a =
    if machine == id ptr then (if a == address ptr then v else cell machine a) else cell machine a

-- The pool after an operation that allocates one word and gives it back.
abbrev pub settled : MemoryPool → ℕ → Resource → ℕ → MemoryPool
settled m i resource prev = record m {
  counters = update m.counters i 0;
  resource = deallocate resource prev 8 8;
}

module _ {W : Type 0} ⦃card : Device W⦄ where
  -- With enough fuel `CompareAndSwap` returns the word that it found, and the word of the pointer is
  -- `swap` if that was the expected one and what it was otherwise. No other word of another machine
  -- changes. The slab that it allocates is freed again, and the counter of the thread is 0.
  pub compare_and_swap_ptr-cells :
      (cell : W → ℕ → ℕ → ℕ) (mid ptr expected swap i prev : ℕ) (info : ConnInfo)
      (resource : Resource) (m : MemoryPool) (w : W)
      → IsAtomic cell
      → at (id ptr) m.conn_info ≡ some info
      → at mid m.thread_ids ≡ some i
      → allocate m.resource 8 1 ≡ some (prev, resource)
      → let old = cell w (id ptr) (address ptr) in
        (w' : W) × (need : ℕ) × ((more : ℕ)
          → compare_and_swap_ptr (need + more) mid ptr expected swap m w
            ≡ some (old, settled m i resource prev, w'))
        × ((machine a : ℕ)
            → cell w' machine a
              ≡ stored (cell w) ptr (if old == expected then swap else old) machine a)
  unfolding compare_and_swap_ptr
  compare_and_swap_ptr-cells cell mid ptr expected swap i prev info resource m w ok conn thread
        slab =
      let r = atomic_request ptr info m.local_key i prev expected swap in
      let t = trip cell i r (record m { resource = resource }) w ok refl refl refl in
      (
        t.after,
        t.need,
        (λ more. rw (conn, thread, slab) (rw (t.runs (t.need + more) (omega arith), t.found) refl)),
        λ machine a.
            t.cells machine a ∙ ground (arith, ==_iff machine (id ptr), ==_iff a (address ptr)),
      )

  -- With enough fuel, and room for two rounds, `AtomicSwap` returns the word that it found, and the word
  -- of the pointer is `swap`, whether the hint was right or not. No other word of another machine
  -- changes. The slab that it allocates is freed again, and the counter of the thread is 0.
  pub atomic_swap-cells :
      (cell : W → ℕ → ℕ → ℕ) (mid ptr swap hint i prev rounds : ℕ) (info : ConnInfo)
      (resource : Resource) (m : MemoryPool) (w : W)
      → IsAtomic cell
      → at (id ptr) m.conn_info ≡ some info
      → at mid m.thread_ids ≡ some i
      → allocate m.resource 8 1 ≡ some (prev, resource)
      → let old = cell w (id ptr) (address ptr) in
        (w' : W) × (need : ℕ) × ((more : ℕ)
          → atomic_swap (suc (suc rounds)) (need + more) mid ptr swap hint m w
            ≡ some (old, settled m i resource prev, w'))
        × ((machine a : ℕ) → cell w' machine a ≡ stored (cell w) ptr swap machine a)
  unfolding atomic_swap swap_loop
  atomic_swap-cells cell mid ptr swap hint i prev rounds info resource m w ok conn thread slab =
      let old = cell w (id ptr) (address ptr) in
      let m₁ = record m { resource = resource } in
      let t =
        trip cell i (atomic_request ptr info m.local_key i prev hint swap) m₁ w ok refl refl refl in
      let m₂ = record m₁ { counters = update m.counters i 0 } in
      let t₂ =
        trip cell i (atomic_request ptr info m.local_key i prev old swap) m₂ t.after ok refl refl
          refl in
      let same : (old == old) ≡ true = ground arith in
      elim (Bool-cases (old == hint)) [
        | inl right ↦ (
          t.after,
          t.need,
          (λ more.
              rw (conn, thread, slab)
                (rw (t.runs (t.need + more) (omega arith), t.found, right) (rw t.found refl))),
          λ machine a.
              t.cells machine a
              ∙ ground (arith, ==_iff machine (id ptr), ==_iff a (address ptr), right),
        )
        | inr wrong ↦
            let found₂ : card.load t₂.after prev ≡ old =
              t₂.found ∙ ground (arith, t.cells (id ptr) (address ptr), wrong) in
            (
              t₂.after,
              t.need + t₂.need,
              (λ more.
                  rw (conn, thread, slab)
                    (rw (t.runs (t.need + t₂.need + more) (omega arith), t.found, wrong)
                      (rw (t₂.runs (t.need + t₂.need + more) (omega arith), found₂, same)
                        (rw found₂ (
                          ap
                            (λ (x : ℕ → ℕ). some (
                              old,
                              record m { counters = x; resource = deallocate resource prev 8 8 },
                              t₂.after,
                            ))
                            (update_twice m.counters i 0 0)))))),
              λ machine a.
                  t₂.cells machine a
                  ∙ ground (
                    arith,
                    ==_iff machine (id ptr),
                    ==_iff a (address ptr),
                    wrong,
                    t.cells machine a,
                    t.cells (id ptr) (address ptr),
                  ),
            )
      ]
