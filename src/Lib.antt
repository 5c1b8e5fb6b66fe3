-- ===== src/Lib.antt =====
-- Verification library of the interlocked hash table (IHT) and of the RDMA code under it.
--
-- The program keeps a hash table in memory that several machines reach by remote reads, writes and
-- compare-and-swap. `RdmaIHT` (oldAPIHelpMark/iht/iht_ds.h) is that table: a tree of PLists, arrays
-- of buckets with a pointer and a lock each, whose buckets lead to a PList of twice the size or to an
-- EList, a short array of pairs. Its pointers are `remote_ptr`s (oldAPIHelpMark/rdma/remote_ptr.h),
-- and its objects come from the allocator of oldAPIHelpMark/rdma/memory_pool.h. `iht_carumap`
-- (oldAPIHelpMark/iht/iht_local.h) is the same table in the memory of one machine, and `TwoSidedIHT`
-- (oldAPIHelpMark/iht/rpc.h) spreads keys over machines that have one iht_carumap each and send
-- requests to each other.
--
-- Files, with the code they are about:
-- - Base and its children: numbers, lists, options, functions with an update. Bits: `&` and `|` on
--   the fields of a word.
-- - Iht/Key: what a table needs of its keys, equality and std::hash, taken as an instance argument.
--   Iht/Mix: the finalizer in both `level_hash` functions, on 64-bit words.
-- - Iht/Elist: EList, its insertion, its linear search and the removal by a swap with the last pair,
--   for both tables. Iht/Elist/Laws: the list as a map. Iht/Elist/Parts: its pairs that go to one
--   bucket.
-- - Iht/Local: iht_carumap (make, acquire, level_hash, rehash, get, remove, insert). Invariant has
--   the map and the well-formedness of a table, Methods, Insert and Rehash the theorems.
-- - Iht/Remote: RdmaIHT (level_hash, acquire, do_with, rehash, contains, remove, insert). Store is
--   the memory as the table sees it: a pointer names a PList or an EList, and allocation gives a new
--   pointer. Init: InitPList and InitAsFirst. Steps, Reads, Finish, Writes and Grow are about single
--   rounds and writes, Removal about the loop of remove, and Methods has contains and remove. Tree:
--   the shape of the PLists. Rehash, Calcify, Replant and Replant/Shape: how a full list becomes a
--   PList. Insert and Total: insert. Cache has fetch_cache and try_cache. Race: two inserts that
--   overlap. Locks: the locks of the buckets with any number of clients, as a step relation.
-- - RemotePtr: remote_ptr, a 64-bit word. Laws: its fields and arithmetic.
-- - Pool/Log, Pool/Resource: rdma_memory_resource and rdma_allocator (UpperLog2, do_allocate,
--   do_deallocate, allocate, deallocate). The bytes that are set to zero are part of the state.
-- - Pool/Regions: RdmaMemory of the same file (its constructor, RegisterMemoryRegion,
--   GetMemoryRegion, ValidateRegion), with `int` as 32-bit words.
-- - Rpc: TwoSidedIHT (to_id, the request loop, get, insert, remove). Map: all machines as one map.
-- - Messenger: TwoSidedRdmaMessenger of oldAPIHelpMark/rdma/connection_manager.h (SendMessage,
--   TryDeliverMessage, TryPollMessage, PrepareRecvBuffer). Channel: Connection::RdmaChannel above it.
-- - Verbs: MemoryPool of oldAPIHelpMark/rdma/memory_pool.h (RegisterThread, Allocate, Deallocate,
--   Read, ExtendedRead, PartialRead, Write, AtomicSwap, CompareAndSwap, ReadInternal) over a network
--   card that is an argument. Card: what is relied on of it. Atomic: the atomic operations. Chunks:
--   the requests of ReadInternal. Setup: Init, over Manager, Channel and Pool/Regions, with
--   Setup/Joined for its connections and Setup/Exchange for the keys. Polling: several threads that
--   poll one completion queue, as a step relation.
-- - Manager: ConnectionManager of oldAPIHelpMark/rdma/connection_manager.h (Acquire, Release, Start,
--   OnConnectRequest, OnDisconnect, Connect, ConnectLoopback, GetConnection) with the results of the
--   calls of librdmacm as arguments. Invariant: the table of connections. Requests: what the broker
--   calls. Connecting: Connect. Locked: the lock and the backoff. Handshake: two machines.
-- - Broker: RdmaBroker of oldAPIHelpMark/rdma/broker.h (FindActivePorts, GetAvailableDevices, Init,
--   Create, Stop, HandleConnectionRequests). Devices: the ports it finds. Requests: its event loop
--   with the handlers of Manager. Shutdown: the destructor of ConnectionManager, which stops the
--   broker.
-- - Atree: ATree of oldAPIHelpMark/metrics/atree/atree.h, with the visitor (visitor.h) as an argument
--   whose callbacks set metadata. Search, Growth, Insertion, Visits and Mapping: Insert against a
--   map. Removal: what Remove does at the top of the tree.
-- - Driver: WorkloadDriver and its streams (oldAPIHelpMark/colosseum/workload_driver.h). Streams:
--   what a stream gives. Runs: Run against the list of operations.
-- - Status: the status codes.
-- - Tests in each part: runs on concrete inputs.
--
-- Bounds and fuel. A spin loop and the loop of do_with take fuel, a unit for each round; the theorems
-- give the fuel that is enough: the PLists on the way of the key and two more for RdmaIHT, with two
-- for every list that insert rehashes, the PLists on the way for the insert of iht_carumap. The get
-- and remove of iht_carumap need none. Words are 64-bit numbers with the wrap-around written out; an
-- `int` product in to_id has to fit.
--
-- Not modelled: the contents of lists under several clients (in Iht/Remote each operation runs alone
-- but for Race and Locks, so an unlocked bucket is acquired at the first try), the methods of RdmaIHT
-- with the PList cache (their cache depth is None), populate, print and destroy, which work on random
-- numbers, output or free memory; the attributes of the queue pairs of ConnectionManager; sockets,
-- counters and summaries, and the latencies of the workload driver; logging, generated and vendored
-- code.
pub mod Atree
pub mod Base
pub mod Bits
pub mod Broker
pub mod Channel
pub mod Driver
pub mod Iht
pub mod Manager
pub mod Messenger
pub mod Pool
pub mod RemotePtr
pub mod Rpc
pub mod Status
pub mod Verbs
