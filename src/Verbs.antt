-- ===== src/Verbs.antt =====
-- MemoryPool of oldAPIHelpMark/rdma/memory_pool.h: the table of threads, and one-sided operations on the
-- memory of other machines. One thread runs here; Polling is about several. The network card, with the
-- library calls that reach it, is an argument. `none` is an uncaught exception, a failed assertion, or a
-- loop whose fuel is used up.
pub mod Polling
pub mod Chunks
pub mod Card
pub mod Atomic
pub mod Setup
mod Tests
use rabia_sandbox.Base.{
  ℕ, zero, suc, ◌+◌, ◌-◌, ◌*◌, ◌/◌, ◌%◌, ◌^◌, List, [], ◌∷◌, ◌++◌, Option, none, some, Bool, true,
  false, ltb, ◌==◌, if◌then◌else◌, update, ◌>>=◌,
}
use rabia_sandbox.RemotePtr.{id, address, make, is_null}
use rabia_sandbox.Pool.Resource.{Resource, allocate, deallocate}

abbrev pub thread_max : ℕ
thread_max = 20

-- conn_info_t, as far as it is used: the keys of the two regions.
pub record ConnInfo : Type 0 where
  pub rkey : ℕ
  pub lkey : ℕ

pub data Opcode : Type 0 where
  rdma_read rdma_write atomic_cmp_and_swp : Opcode

-- A work request with its one scatter/gather entry. `machine` is the peer of the connection.
pub record Request : Type 0 where
  pub machine : ℕ
  pub wr_id : ℕ
  pub opcode : Opcode
  pub local : ℕ
  pub length : ℕ
  pub lkey : ℕ
  pub remote_addr : ℕ
  pub rkey : ℕ
  pub signaled : Bool
  pub compare_add : ℕ
  pub swap : ℕ

-- What one ibv_poll_cq gives: nothing (0, or a failure with EAGAIN), another failure or a bad status, or
-- the `wr_id` of a completed request.
pub data Completion : Type 0 where
  nothing failure : Completion
  success : ℕ → Completion

-- The card and the local memory it reads and writes, with a state `W`. `post` gives nothing where
-- ibv_post_send fails. `load` and `store` are on 64-bit words and on objects.
pub record Device (W : Type 0) : Type 0 where
  pub post : List Request → W → Option W
  pub poll : ℕ → W → Completion × W
  pub load : W → ℕ → ℕ
  pub store : W → ℕ → List ℕ → W

pub record MemoryPool : Type 0 where
  pub self_id : ℕ
  pub local_key : ℕ
  pub id_gen : ℕ
  pub thread_ids : List (ℕ × ℕ)
  pub counters : ℕ → ℕ
  pub conn_info : List (ℕ × ConnInfo)
  pub resource : Resource

-- std::unordered_map::at and find, on a list of pairs.
unfoldable pub at : {A : Type 0} → ℕ → List (ℕ × A) → Option A
at k [] = none
at k (p ∷ ps) = let rest = at k ps in if p.0 == k then some p.1 else rest

-- RegisterThread, for the thread `mid`.
unfoldable pub register_thread : MemoryPool → ℕ → Option MemoryPool
register_thread m mid = elim (at mid m.thread_ids) [
  | some i ↦ none
  | none ↦
      if ltb m.id_gen thread_max
      then some (record m {
        thread_ids = (mid, m.id_gen) ∷ m.thread_ids;
        counters = update m.counters m.id_gen 0;
        id_gen = m.id_gen + 1;
      })
      else none
]

-- Allocate<T>: a pointer to memory of this machine.
unfoldable pub allocate_ptr : MemoryPool → ℕ → ℕ → Option (ℕ × MemoryPool)
allocate_ptr m size n =
    allocate m.resource size n >>= λ r. some (make m.self_id r.0, record m { resource = r.1 })

-- Deallocate<T>
unfoldable pub deallocate_ptr : MemoryPool → ℕ → ℕ → ℕ → Option MemoryPool
deallocate_ptr m p size n =
    if id p == m.self_id
    then some (record m { resource = deallocate m.resource (address p) size n })
    else none

-- The request of CompareAndSwap and AtomicSwap.
abbrev pub atomic_request : ℕ → ConnInfo → ℕ → ℕ → ℕ → ℕ → ℕ → Request
atomic_request ptr info key i prev expected swap = record {
  machine = id ptr;
  wr_id = i;
  opcode = atomic_cmp_and_swp;
  local = prev;
  length = 8;
  lkey = key;
  remote_addr = address ptr;
  rkey = info.rkey;
  signaled = true;
  compare_add = expected;
  swap = swap;
}

-- ReadInternal splits what it reads into chunks. Their number is an `int`, as its 32-bit word.
unfoldable pub num_chunks : ℕ → ℕ → ℕ
num_chunks bytes chunk_size =
    (if bytes % chunk_size == 0 then bytes / chunk_size else bytes / chunk_size + 1) % 2 ^ 32

-- The requests from chunk `j` on, `n` of them. Only the last one is signaled. A length is a uint32_t, and
-- an address and an offset are 64-bit words.
unfoldable pub chunks_from : ℕ → ConnInfo → ℕ → ℕ → ℕ → ℕ → ℕ → ℕ → ℕ → ℕ → List Request
chunks_from ptr info key i local offset bytes chunk_size j zero = []
chunks_from ptr info key i local offset bytes chunk_size j (suc n) =
    let chunk_offset = (offset + j * chunk_size) % 2 ^ 64 in
    (record {
      machine = id ptr;
      wr_id = i;
      opcode = rdma_read;
      local = (local + chunk_offset) % 2 ^ 64;
      length =
          (if bytes % chunk_size == 0
            then chunk_size
            else (if n == 0 then bytes % chunk_size else chunk_size))
          % 2 ^ 32;
      lkey = key;
      remote_addr = (address ptr + chunk_offset) % 2 ^ 64;
      rkey = info.rkey;
      signaled = n == 0;
      compare_add = 0;
      swap = 0;
    })
    ∷ chunks_from ptr info key i local offset bytes chunk_size (j + 1) n

-- The requests of ReadInternal. Where the number of chunks is negative its loop is not entered.
unfoldable pub chunks : ℕ → ConnInfo → ℕ → ℕ → ℕ → ℕ → ℕ → ℕ → List Request
unfolding num_chunks chunks_from
chunks ptr info key i local offset bytes chunk_size =
    let n = num_chunks bytes chunk_size in
    chunks_from ptr info key i local offset bytes chunk_size 0 (if ltb n (2 ^ 31) then n else 0)

module _ {W : Type 0} ⦃card : Device W⦄ where
  -- The loop that polls the send queue of a machine until the counter of thread `i` is 0.
  unfoldable pub wait_for : ℕ → ℕ → ℕ → (ℕ → ℕ) → W → Option ((ℕ → ℕ) × W)
  wait_for zero machine i counters w = none
  wait_for (suc fuel) machine i counters w =
      let (c, w') = card.poll machine w in
      let again = wait_for fuel machine i counters w' in
      let taken = λ (v : ℕ). wait_for fuel machine i (update counters v (counters v - 1)) w' in
      if counters i == 0 then some (counters, w) else elim c [
        | nothing ↦ again
        | failure ↦ none
        | success v ↦ if counters v == 0 then none else taken v
      ]

  -- The counter is set to 1, the request posted, and the completion waited for.
  unfoldable pub round_trip : ℕ → ℕ → Request → MemoryPool → W → Option (MemoryPool × W)
  round_trip fuel i r m w = card.post (r ∷ []) w >>= λ w₁.
      wait_for fuel r.machine i (update m.counters i 1) w₁ >>= λ s.
      some (record m { counters = s.0 }, s.1)

  -- CompareAndSwap
  unfoldable pub compare_and_swap_ptr :
      ℕ → ℕ → ℕ → ℕ → ℕ → MemoryPool → W → Option (ℕ × MemoryPool × W)
  compare_and_swap_ptr fuel mid ptr expected swap m w = at (id ptr) m.conn_info >>= λ info.
      at mid m.thread_ids >>= λ i. allocate m.resource 8 1 >>= λ a.
      round_trip fuel i (atomic_request ptr info m.local_key i a.0 expected swap)
        (record m { resource = a.1 }) w
      >>= λ s.
          some (card.load s.1 a.0, record s.0 { resource = deallocate s.0.resource a.0 8 8 }, s.1)

  -- The loop of AtomicSwap: from then on the value that was found is what is expected.
  unfoldable pub swap_loop :
      ℕ → ℕ → ℕ → ConnInfo → ℕ → ℕ → ℕ → ℕ → MemoryPool → W → Option (MemoryPool × W)
  swap_loop zero fuel ptr info i prev hint swap m w = none
  swap_loop (suc rounds) fuel ptr info i prev hint swap m w =
      round_trip fuel i (atomic_request ptr info m.local_key i prev hint swap) m w >>= λ s.
      let again = swap_loop rounds fuel ptr info i prev (card.load s.1 prev) swap s.0 s.1 in
      if card.load s.1 prev == hint then some s else again

  -- AtomicSwap
  unfoldable pub atomic_swap : ℕ → ℕ → ℕ → ℕ → ℕ → ℕ → MemoryPool → W → Option (ℕ × MemoryPool × W)
  atomic_swap rounds fuel mid ptr swap hint m w = at (id ptr) m.conn_info >>= λ info.
      at mid m.thread_ids >>= λ i. allocate m.resource 8 1 >>= λ a.
      swap_loop rounds fuel ptr info i a.0 hint swap (record m { resource = a.1 }) w >>= λ s.
      some (card.load s.1 a.0, record s.0 { resource = deallocate s.0.resource a.0 8 8 }, s.1)

  -- Write, of an object of `size` bytes. The object is put into local memory, at `prealloc` if that is
  -- not null. Without an acknowledgement the counter is left as it is.
  unfoldable pub write_ptr :
      ℕ → ℕ → ℕ → ℕ → List ℕ → ℕ → ℕ → MemoryPool → W → Option (MemoryPool × W)
  write_ptr fuel mid ptr size val prealloc behavior m w =
      let acknowledged = behavior == 0 in
      let own = is_null prealloc in
      at (id ptr) m.conn_info >>= λ info. at mid m.thread_ids >>= λ i.
      (if own then allocate m.resource size 1 else some (address prealloc, m.resource)) >>= λ a.
      (if a.0 == address ptr
        then none
        else (card.post
            ((record {
              machine = id ptr;
              wr_id = i;
              opcode = rdma_write;
              local = a.0;
              length = size;
              lkey = m.local_key;
              remote_addr = address ptr;
              rkey = info.rkey;
              signaled = acknowledged;
              compare_add = 0;
              swap = 0;
            })
              ∷ [])
            (card.store w a.0 val)))
      >>= λ w₁.
          wait_for fuel (id ptr) i (if acknowledged then update m.counters i 1 else m.counters) w₁
          >>= λ s. some (
            record m { counters = s.0; resource = if own then deallocate a.1 a.0 size 1 else a.1 },
            s.1,
          )

  -- ReadInternal
  unfoldable pub read_internal :
      ℕ → ℕ → ℕ → ℕ → ℕ → ℕ → ℕ → MemoryPool → W → Option (MemoryPool × W)
  read_internal fuel mid ptr offset bytes chunk_size prealloc m w =
      let n = num_chunks bytes chunk_size in
      if chunk_size == 0
      then none
      else (at (id ptr) m.conn_info >>= λ info. at mid m.thread_ids >>= λ i.
          card.post (chunks ptr info m.local_key i (address prealloc) offset bytes chunk_size) w
          >>= λ w₁. wait_for fuel (id ptr) i (update m.counters i n) w₁ >>= λ s.
              some (record m { counters = s.0 }, s.1))

  -- ExtendedRead, of `n` objects of `size` bytes. Read is the case of one.
  unfoldable pub extended_read :
      ℕ → ℕ → ℕ → ℕ → ℕ → ℕ → MemoryPool → W → Option (ℕ × MemoryPool × W)
  extended_read fuel mid ptr size n prealloc m w =
      (if is_null prealloc then allocate_ptr m size n else some (prealloc, m)) >>= λ a.
      read_internal fuel mid ptr 0 (size * n) (size * n) a.0 a.1 w >>= λ s. some (a.0, s.0, s.1)

  -- PartialRead
  unfoldable pub partial_read :
      ℕ → ℕ → ℕ → ℕ → ℕ → ℕ → ℕ → MemoryPool → W → Option (ℕ × MemoryPool × W)
  partial_read fuel mid ptr size offset bytes prealloc m w =
      (if is_null prealloc then allocate_ptr m size 1 else some (prealloc, m)) >>= λ a.
      read_internal fuel mid ptr offset bytes size a.0 a.1 w >>= λ s. some (a.0, s.0, s.1)
