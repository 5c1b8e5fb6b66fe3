-- ===== src/Verbs/Tests.antt =====
-- A card that carries out one request at a time, a pool with one thread and one peer, and a run of two
-- threads on one queue.
use rabia_sandbox.Base.{
  ℕ, ◌+◌, ◌*◌, ◌^◌, ◌≤◌, ◌<◌, List, [], ◌∷◌, Option, some, none, ◌≡◌, ◌≢◌, ◌⊎◌, inl, refl, arith,
  ◌==◌, if◌then◌else◌, update,
}
use rabia_sandbox.RemotePtr.{id, address}
use rabia_sandbox.Pool.Resource.{allocate, allocate_slab, bump, do_allocate, slab_class, slab_index}
use rabia_sandbox.Pool.Log.{log_table, lower_log2, upper_log2}
use rabia_sandbox.Verbs.{
  Device, Request, MemoryPool, Completion, nothing, success, at, chunks, compare_and_swap_ptr,
  atomic_swap,
}
use rabia_sandbox.Verbs.Card.{IsAtomic, swapped}
use rabia_sandbox.Verbs.Atomic.{compare_and_swap_ptr-cells, atomic_swap-cells, settled, stored}
use rabia_sandbox.Verbs.Chunks.{Covers, chunks-Covers}
use rabia_sandbox.Verbs.Polling.{
  System, Reach, start, later, pick, armed, arm, post, test, poll, polled, polling, waiting,
  take_off_safe, waiting_progress, init, asked,
}

record Wires : Type 0 where
  cells : ℕ → ℕ → ℕ
  words : ℕ → ℕ
  done : Option ℕ

abbrev carried_out : List Request → Wires → Option Wires
carried_out [] w = some w
carried_out (r ∷ rs) w = some (record {
  cells = swapped w.cells r;
  words = update w.words r.local (w.cells r.machine r.remote_addr);
  done = some r.wr_id;
})

abbrev taken : Option ℕ → Completion
taken none = nothing
taken (some i) = success i

instance Wires-Device : Device Wires
Wires-Device = record {
  post = carried_out;
  poll = λ machine w. (taken w.done, record w { done = none });
  load = λ w a. w.words a;
  store = λ w a vs. w;
}

abbrev after : Wires → Request → Wires
after w r = record {
  cells = swapped w.cells r;
  words = update w.words r.local (w.cells r.machine r.remote_addr);
  done = some r.wr_id;
}

cells-IsAtomic : IsAtomic (λ (w : Wires). w.cells)
unfolding Wires-Device
cells-IsAtomic = record {
  atomic = λ w r kind signal. (
    after w r,
    record (after w r) { done = none },
    0,
    refl,
    refl,
    ground arith,
    λ machine a. refl,
  );
}

abbrev pool : MemoryPool
pool = record {
  self_id = 1;
  local_key = 5;
  id_gen = 1;
  thread_ids = (77, 0) ∷ [];
  counters = λ i. 0;
  conn_info = (2, record { rkey = 8; lkey = 5 }) ∷ [];
  resource = record {
    raw = 2 ^ 21;
    head = 2 ^ 21 + 4096;
    alignments = λ i. 0;
    freelists = λ i. [];
    memory = λ i. 7;
  };
}

abbrev wires : Wires
wires = record { cells = λ machine a. 30; words = λ a. 0; done = none }

abbrev there : ℕ
there = 2 * 2 ^ 48 + 640

slab :
    allocate pool.resource 8 1 ≡ some (2 ^ 21 + 4032, record pool.resource { head = 2 ^ 21 + 4032 })
unfolding allocate do_allocate allocate_slab bump slab_index slab_class upper_log2 lower_log2
    log_table
slab = refl

connected : at (id there) pool.conn_info ≡ some (record { rkey = 8; lkey = 5 })
unfolding id at
connected = refl

registered : at 77 pool.thread_ids ≡ some 0
unfolding at
registered = refl

compare_and_swap_ptr-cells_example :
    (w' : Wires) × (need : ℕ) × ((more : ℕ)
      → compare_and_swap_ptr (need + more) 77 there 30 4 pool wires
        ≡ some (
          30,
          settled pool 0 (record pool.resource { head = 2 ^ 21 + 4032 }) (2 ^ 21 + 4032),
          w',
        ))
    × ((machine a : ℕ)
        → w'.cells machine a ≡ stored wires.cells there (if 30 == 30 then 4 else 30) machine a)
compare_and_swap_ptr-cells_example =
    compare_and_swap_ptr-cells (λ (w : Wires). w.cells) 77 there 30 4 0 (2 ^ 21 + 4032)
      (record { rkey = 8; lkey = 5 }) (record pool.resource { head = 2 ^ 21 + 4032 }) pool wires
      cells-IsAtomic connected registered slab

atomic_swap-cells_example :
    (w' : Wires) × (need : ℕ) × ((more : ℕ)
      → atomic_swap 2 (need + more) 77 there 4 0 pool wires
        ≡ some (
          30,
          settled pool 0 (record pool.resource { head = 2 ^ 21 + 4032 }) (2 ^ 21 + 4032),
          w',
        ))
    × ((machine a : ℕ) → w'.cells machine a ≡ stored wires.cells there 4 machine a)
atomic_swap-cells_example =
    atomic_swap-cells (λ (w : Wires). w.cells) 77 there 4 0 0 (2 ^ 21 + 4032) 0
      (record { rkey = 8; lkey = 5 }) (record pool.resource { head = 2 ^ 21 + 4032 }) pool wires
      cells-IsAtomic connected registered slab

address-there : address there ≡ 640
unfolding address
address-there = refl

chunks-Covers_example :
    Covers 100
      (address there)
      8
      (chunks there (record { rkey = 8; lkey = 5 }) 5 0 100 8 100 64)
      (8 + 100)
chunks-Covers_example =
    chunks-Covers there (record { rkey = 8; lkey = 5 }) 5 0 100 8 100 64 (omega arith) (omega arith)
      (omega arith) (omega arith) (omega (arith, address-there))

-- Both threads post, and thread 0 polls the completion of thread 1.
abbrev crossed : System
crossed = record {
  counters = update (update (λ (x : ℕ). 0) 0 1) 1 1;
  in_flight = update (update (update (λ (x : ℕ). 0) 0 1) 1 1) 1 0;
  pc =
      update
        (update
          (update (update (update (update init.pc 0 (armed 1)) 0 (waiting 1)) 1 (armed 1)) 1
            (waiting 1))
          0 (polling 1))
        0 (polled 1 1);
}

crossed-Reach : Reach 2 crossed
crossed-Reach =
    later
      (later
        (later
          (later
            (later (later start (pick 0 (omega arith) (arm 1 (omega arith))))
              (pick 0 (omega arith) post))
            (pick 1 (omega arith) (arm 1 (omega arith))))
          (pick 1 (omega arith) post))
        (pick 0 (omega arith) (test (ground arith))))
      (pick 0 (omega arith) (poll 1 (ground arith)))

take_off_safe_example : 1 ≤ crossed.counters 1
take_off_safe_example = take_off_safe 2 crossed 0 1 1 crossed-Reach (omega arith) refl

waiting_progress_example :
    ((asked (crossed.pc 1) ≡ 1)
      × (((crossed.counters 1 ≡ 0)
            × (crossed.in_flight 1 ≡ 0)
            × ((j l : ℕ) → j < 2 → crossed.pc j ≢ polled l 1))
          ⊎ ((crossed.counters 1 ≢ 0)
              × ((1 ≤ crossed.in_flight 1)
                  ⊎ ((j : ℕ) × (l : ℕ) × (j < 2) × (crossed.pc j ≡ polled l 1))))))
    ⊎ ((2 ≤ asked (crossed.pc 1)) × (crossed.counters 1 ≢ 0))
waiting_progress_example = waiting_progress 2 crossed 1 1 crossed-Reach (omega arith) (inl refl)
