-- ===== src/Verbs/Setup.antt =====
-- MemoryPool::Init of oldAPIHelpMark/rdma/memory_pool.h: a machine starts its broker, makes its memory,
-- connects to every peer, sends all of them the key of its memory and waits for theirs. The results of the
-- calls are arguments, and so is what the card does to a messenger while this machine waits. `none` is an
-- abort, or a loop that does not end with the results given.
pub mod Joined
pub mod Exchange
mod Tests
use rabia_sandbox.Base.{
  ℕ, zero, suc, ◌+◌, ◌%◌, ◌^◌, List, [], ◌∷◌, Option, none, some, Bool, true, false, ◌==◌,
  if◌then◌else◌, update, ◌>>=◌,
}
use rabia_sandbox.Status.{Status, ok, unavailable}
use rabia_sandbox.Manager.{Manager, Connection, Calls, start, connect, get_connection}
use rabia_sandbox.Messenger.{Messenger, Completion, Poll}
use rabia_sandbox.Channel.{Proto, is_unavailable, send, deliver}
use rabia_sandbox.Pool.Regions.{RdmaMemory, Hugepages, rdma_memory, find_region, default_id}
use rabia_sandbox.Pool.Resource.{Resource}
use rabia_sandbox.Verbs.{ConnInfo, at}

-- RemoteObjectProto
pub record RemoteObject : Type 0 where
  pub rkey : ℕ
  pub raddr : ℕ

-- The results of the calls in Init: for the memory, what it takes to make an RdmaMemory, what its bytes
-- hold, and the keys of its region. For a peer: the attempts of Connect, ibv_post_send and the completions
-- of Send, what happens to the messenger before Deliver, and its completions.
pub record SetupCalls : Type 0 where
  pub created : Bool
  pub found : Hugepages
  pub allocation : Option ℕ
  pub registered : Bool
  pub contents : ℕ → ℕ
  pub rkey : ℕ
  pub lkey : ℕ
  pub attempts : ℕ → List Calls
  pub posted : ℕ → Bool
  pub polls : ℕ → List Poll
  pub arrive : ℕ → Messenger → Messenger
  pub completions : ℕ → List Completion

-- The manager, the messengers of the endpoints, rdma_memory_ (`resource`) and conn_info_.
pub record Setup : Type 0 where
  pub manager : Manager
  pub resource : Option (RdmaMemory × Resource)
  pub channels : ℕ → Messenger
  pub conn_info : List (ℕ × ConnInfo)

abbrev pub succeeded : Status → Bool
succeeded ok = true
succeeded _ = false

-- Connect, and again as long as it is unavailable. `fuel` is for the lock.
unfoldable pub connect_tries :
    ℕ → Manager → ℕ → List Calls → Option (Status × Option Connection × Manager)
connect_tries fuel m p [] = none
connect_tries fuel m p (a ∷ more) = connect fuel m p a >>= λ r.
    let again = connect_tries fuel r.2 p more in if is_unavailable r.0 then again else some r

-- Init: the loop that connects.
unfoldable pub connect_all : ℕ → Manager → SetupCalls → List ℕ → Option (Status × Manager)
unfolding connect_tries
connect_all fuel m a [] = some (ok, m)
connect_all fuel m a (p ∷ peers) = connect_tries fuel m p (a.attempts p) >>= λ r.
    let rest = connect_all fuel r.2 a peers in if succeeded r.0 then rest else some (r.0, r.2)

-- The allocator on a memory, of which nothing is used yet.
abbrev pub fresh_resource : ℕ → (ℕ → ℕ) → RdmaMemory → Resource
fresh_resource bytes contents m = record {
  raw = m.raw;
  head = (m.raw + bytes) % 2 ^ 64;
  alignments = λ i. 0;
  freelists = λ i. [];
  memory = contents;
}

-- rdma_memory_resource(bytes, pd)
unfoldable pub rdma_memory_resource : ℕ → SetupCalls → Option (RdmaMemory × Resource)
rdma_memory_resource bytes a = rdma_memory bytes a.found a.allocation a.registered >>= λ m.
    some (m, fresh_resource bytes a.contents m)

-- std::unordered_map::emplace: an entry that is there stays.
unfoldable pub emplace_info : ℕ → ConnInfo → List (ℕ × ConnInfo) → List (ℕ × ConnInfo)
emplace_info p info l = elim (at p l) [ some old ↦ l | none ↦ (p, info) ∷ l ]

module _ ⦃proto : Proto RemoteObject⦄ where
  -- Init: the loop that sends.
  unfoldable pub send_all : ℕ → Setup → RemoteObject → SetupCalls → List ℕ → Option (Status × Setup)
  send_all fuel s rm a [] = some (ok, s)
  send_all fuel s rm a (p ∷ peers) = get_connection fuel s.manager p >>= λ g. elim g.1 [
    | none ↦ none
    | some c ↦ send (s.channels c.endpoint) rm (a.posted p) (a.polls p) >>= λ r.
        let s' = record s { manager = g.2; channels = update s.channels c.endpoint r.1 } in
        let rest = send_all fuel s' rm a peers in if succeeded r.0 then rest else some (r.0, s')
  ]

  -- Init: the loop that waits for the keys of the peers.
  unfoldable pub collect_all : ℕ → Setup → SetupCalls → List ℕ → Option (Status × Setup)
  unfolding emplace_info
  collect_all fuel s a [] = some (ok, s)
  collect_all fuel s a (p ∷ peers) = get_connection fuel s.manager p >>= λ g. elim g.1 [
    | none ↦ none
    | some c ↦ deliver (a.arrive p (s.channels c.endpoint)) (a.completions p) >>= λ r.
        let s' = record s { manager = g.2; channels = update s.channels c.endpoint r.2 } in
        let rest = λ (o : RemoteObject).
          collect_all fuel
            (record s' {
              conn_info = emplace_info p (record { rkey = o.rkey; lkey = a.lkey }) s'.conn_info;
            })
            a peers in
        if succeeded r.0 then elim r.1 [ none ↦ none | some o ↦ rest o ] else some (r.0, s')
  ]

  -- Init, once the memory is there: the connections, the keys that are sent and those that come.
  unfoldable pub exchange : ℕ → Setup → RemoteObject → SetupCalls → List ℕ → Option (Status × Setup)
  unfolding connect_all send_all collect_all
  exchange fuel s rm a peers = connect_all fuel s.manager a peers >>= λ c.
      let joined = record s { manager = c.1 } in
      if succeeded c.0
      then (send_all fuel joined rm a peers >>= λ t.
          if succeeded t.0 then collect_all fuel t.1 a peers else some t)
      else some (c.0, joined)

  -- Init, from what Start returns on.
  unfoldable pub after_start :
      ℕ → Setup → ℕ → SetupCalls → List ℕ → Status × Manager → Option (Status × Setup)
  unfolding exchange rdma_memory_resource
  after_start fuel s capacity a peers started =
      let s' = record s { manager = started.1 } in
      if succeeded started.0
      then (rdma_memory_resource (capacity + 8) a >>= λ r.
          find_region default_id r.0.memory_regions >>= λ mr.
          exchange fuel (record s' { resource = some r })
            (record { rkey = a.rkey; raddr = mr.base }) a peers)
      else some (started.0, s')

  -- Init
  unfoldable pub setup : ℕ → Setup → ℕ → SetupCalls → List ℕ → Option (Status × Setup)
  unfolding after_start
  setup fuel s capacity a peers = after_start fuel s capacity a peers (start s.manager a.created)
