-- ===== src/Manager.antt =====
-- ConnectionManager of oldAPIHelpMark/rdma/connection_manager.h: the connections of a machine, one for
-- each peer, under a lock that is a number. An endpoint (rdma_cm_id) is a number, 0 for nullptr. What the
-- calls of librdmacm and ibverbs return is given as arguments. A function here is what one thread does
-- while no other one runs; `none` is an abort, or a loop that does not end.
pub mod Invariant
pub mod Requests
pub mod Connecting
pub mod Locked
pub mod Handshake
mod Tests
use rabia_sandbox.Base.{
  ℕ, zero, suc, ◌+◌, ◌*◌, ◌%◌, ◌^◌, min, List, [], ◌∷◌, Option, none, some, Bool, true, false, ◌&&◌,
  not, ltb, ◌==◌, if◌then◌else◌, update, ◌>>=◌,
}
use rabia_sandbox.Status.{Status, ok, internal_error, unavailable, not_found}

abbrev pub min_backoff_us : ℕ
min_backoff_us = 100

abbrev pub max_backoff_us : ℕ
max_backoff_us = 5000000

pub record Connection : Type 0 where
  pub src_id : ℕ
  pub dst_id : ℕ
  pub endpoint : ℕ

-- `mu` is the id in the lock, or nothing where it is kUnlocked. `destroyed` are the endpoints that
-- rdma_destroy_ep has been called on.
pub record Manager : Type 0 where
  pub accepting : Bool
  pub my_id : ℕ
  pub mu : Option ℕ
  pub requested : ℕ → Bool
  pub established : ℕ → Option Connection
  pub backoff_us : ℕ
  pub loopback_id : ℕ
  pub destroyed : ℕ → Bool

-- ConnectionManager(my_id)
abbrev pub fresh : ℕ → Manager
fresh my_id = record {
  accepting = false;
  my_id = my_id;
  mu = none;
  requested = λ p. false;
  established = λ p. none;
  backoff_us = 0;
  loopback_id = 0;
  destroyed = λ i. false;
}

-- Acquire: it gives up where this machine itself holds the lock, and spins where another id does.
unfoldable pub acquire : ℕ → Manager → ℕ → Option (Bool × Manager)
acquire zero m peer = none
acquire (suc fuel) m peer =
    let again = acquire fuel m peer in
    elim m.mu [
      | none ↦ some (true, record m { mu = some peer })
      | some holder ↦ if holder == m.my_id then some (false, m) else again
    ]

abbrev pub release : Manager → Manager
release m = record m { mu = none }

-- rdma_destroy_ep
abbrev pub destroy_ep : Manager → ℕ → Manager
destroy_ep m i = record m { destroyed = update m.destroyed i true }

abbrev pub is_some : Option Connection → Bool
is_some none = false
is_some (some c) = true

-- std::unordered_map::emplace of a new connection: an entry that is there stays.
unfoldable pub emplace : Manager → ℕ → ℕ → Manager
emplace m peer i = record m {
  established = update m.established peer (elim (m.established peer) [
    | none ↦ some (record { src_id = m.my_id; dst_id = peer; endpoint = i })
    | some c ↦ some c
  ]);
}

-- Start. `created` tells whether the broker is.
unfoldable pub start : Manager → Bool → Status × Manager
start m created =
    if m.accepting
    then (internal_error, m)
    else (if created then ok else internal_error, record m { accepting = true })

-- How a request to connect ends: it is not looked at, rejected or accepted.
pub data Verdict : Type 0 where
  ignored rejected accepted : Verdict

-- The end of OnConnectRequest. `calls` tells whether rdma_accept succeeds.
unfoldable pub admit : Manager → ℕ → ℕ → Bool → Option (Verdict × Manager)
admit m peer i calls = if calls then some (accepted, emplace m peer i) else none

-- OnConnectRequest, with the lock held.
unfoldable pub answer : Manager → ℕ → ℕ → Bool → Option (Verdict × Manager)
answer m peer i calls =
    if is_some (m.established peer)
    then some (rejected, release (destroy_ep m i))
    else (if m.requested peer
        then some (rejected, release (destroy_ep m i))
        else (admit m peer i calls >>= λ v. some (v.0, release v.1)))

-- OnConnectRequest, of the endpoint `i`. `calls` tells whether rdma_create_qp and rdma_accept succeed.
unfoldable pub on_connect_request : ℕ → Manager → ℕ → ℕ → Bool → Option (Verdict × Manager)
on_connect_request fuel m peer i calls =
    if m.accepting
    then (if peer == m.my_id
        then (if m.loopback_id == 0 then none else admit m peer m.loopback_id calls)
        else (acquire fuel m peer >>= λ a.
            if a.0 then answer a.1 peer i calls else some (rejected, destroy_ep a.1 i)))
    else some (ignored, m)

-- OnDisconnect: the connection of the endpoint is taken off the table.
unfoldable pub take_off : Manager → ℕ → ℕ → Manager
take_off m peer i =
    let gone = record m { established = update m.established peer none } in
    elim (m.established peer) [ none ↦ m | some c ↦ if c.endpoint == i then gone else m ]

-- OnDisconnect, of the endpoint `i` whose context has the peer. What Acquire returns is not looked at.
unfoldable pub on_disconnect : ℕ → Manager → ℕ → ℕ → Option Manager
on_disconnect fuel m peer i =
    acquire fuel m peer >>= λ a. some (destroy_ep (release (take_off a.1 peer i)) i)

-- GetConnection
unfoldable pub get_connection : ℕ → Manager → ℕ → Option (Status × Option Connection × Manager)
get_connection zero m peer = none
get_connection (suc fuel) m peer =
    let again = get_connection fuel m peer in
    acquire (suc fuel) m m.my_id >>= λ a.
    if a.0
    then (elim (a.1.established peer) [
      | none ↦ some (not_found, none, release a.1)
      | some c ↦ some (ok, some c, release a.1)
    ])
    else again

pub data CmEvent : Type 0 where
  event_established event_addr_resolved event_rejected event_other : CmEvent

-- What rdma_get_cm_event gives: EAGAIN, another failure, or an event; then whether rdma_ack_cm_event
-- succeeds.
pub data Polled : Type 0 where
  retry broken : Polled
  event : CmEvent → Bool → Polled

-- The results of the calls in Connect: rdma_getaddrinfo, rdma_create_ep with the endpoint; the calls up to
-- rdma_connect; the three calls of fcntl on an established endpoint; rdma_disconnect; the events; and, for
-- the connection of a machine to itself, the calls of ConnectLoopback.
pub record Calls : Type 0 where
  pub resolved : Bool
  pub created : Bool
  pub endpoint : ℕ
  pub connecting : Bool
  pub configured : Bool
  pub disconnected : Bool
  pub looped : Bool
  pub events : List Polled

-- ConnectLoopback
unfoldable pub connect_loopback : Manager → Calls → Option (Status × Option Connection × Manager)
connect_loopback m a =
    let m' = release (emplace m m.my_id a.endpoint) in
    if a.looped
    then (if is_some (m.established m.my_id) then none else some (ok, m'.established m.my_id, m'))
    else some (internal_error, none, m)

-- The wait for the event that follows a disconnection: whether it is acknowledged.
unfoldable pub drain : List Polled → Option Bool
drain [] = none
drain (retry ∷ ps) = drain ps
drain (broken ∷ ps) = none
drain (event e acked ∷ ps) = some acked

-- `backoff_us_` in uint32_t, after a connection that failed.
unfoldable pub next_backoff : ℕ → ℕ → ℕ
next_backoff my_id b =
    if ltb 0 b
    then min ((b + 100 * my_id % 2 ^ 32) % 2 ^ 32 * 2 % 2 ^ 32) max_backoff_us
    else min_backoff_us

-- The connection is established: another one may be there already.
unfoldable pub on_established :
    Manager → ℕ → Calls → List Polled → Option (Status × Option Connection × Manager)
on_established m peer a ps = elim (m.established peer) [
  | some c ↦
      (if a.disconnected
        then (drain ps >>= λ acked.
            if acked
            then some (ok, some c, destroy_ep (release m) a.endpoint)
            else some (internal_error, none, release m))
        else some (internal_error, none, release m))
  | none ↦
      (if a.configured
        then some
            (ok, (emplace m peer a.endpoint).established peer, release (emplace m peer a.endpoint))
        else some (internal_error, none, m))
]

-- The connection failed.
unfoldable pub on_failed : Manager → ℕ → Status → Status × Option Connection × Manager
on_failed m i s =
    (s, none, destroy_ep (release (record m { backoff_us = next_backoff m.my_id m.backoff_us })) i)

-- The loop of Connect over the events. The peer is another machine here. An event that is not
-- acknowledged ends it.
unfoldable pub connect_events :
    Manager → ℕ → Calls → List Polled → Option (Status × Option Connection × Manager)
connect_events m peer a [] = none
connect_events m peer a (retry ∷ ps) = connect_events m peer a ps
connect_events m peer a (broken ∷ ps) = none
connect_events m peer a (event e false ∷ ps) = some (internal_error, none, m)
connect_events m peer a (event event_established true ∷ ps) = on_established m peer a ps
connect_events m peer a (event event_addr_resolved true ∷ ps) = connect_events m peer a ps
connect_events m peer a (event event_rejected true ∷ ps) = some (on_failed m a.endpoint unavailable)
connect_events m peer a (event event_other true ∷ ps) = some (on_failed m a.endpoint internal_error)

-- Connect, with the lock held and no connection to the peer.
unfoldable pub connect_to : Manager → ℕ → Calls → Option (Status × Option Connection × Manager)
connect_to m peer a =
    if a.resolved
    then (if a.created
        then (if peer == m.my_id
            then connect_loopback m a
            else (if a.connecting
                then connect_events m peer a a.events
                else some (internal_error, none, m)))
        else some (internal_error, none, release m))
    else some (internal_error, none, m)

-- Connect, from where it has the lock on.
abbrev pub connect_locked : Manager → ℕ → Calls → Option (Status × Option Connection × Manager)
connect_locked m peer a = elim (m.established peer) [
  | some c ↦ some (ok, some c, release m)
  | none ↦ connect_to m peer a
]

-- Connect
unfoldable pub connect : ℕ → Manager → ℕ → Calls → Option (Status × Option Connection × Manager)
connect fuel m peer a = acquire fuel m m.my_id >>= λ l.
    if l.0 then connect_locked l.1 peer a else some (unavailable, none, m)
