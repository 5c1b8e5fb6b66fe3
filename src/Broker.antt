-- ===== src/Broker.antt =====
-- RdmaBroker of oldAPIHelpMark/rdma/broker.h: the ports of the devices, the endpoint that a machine listens
-- on, and the loop that hands the events of the connections to the ConnectionManager. The results of the
-- calls of ibverbs and librdmacm are arguments. `none` is an abort.
pub mod Devices
pub mod Requests
pub mod Shutdown
mod Tests
use rabia_sandbox.Base.{
  ℕ, zero, suc, ◌+◌, ◌-◌, ◌%◌, ◌^◌, List, [], ◌∷◌, ◌++◌, map, Option, none, some, Bool, true, false,
  if◌then◌else◌, ◌>>=◌,
}
use rabia_sandbox.Status.{
  Status, ok, internal_error, unavailable, not_found, aborted, resource_exhausted,
  failed_precondition, stream_terminated, already_exists,
}
use rabia_sandbox.Manager.{Manager, on_connect_request, on_disconnect}

-- An ibv_context: its name, phys_port_cnt, and the ports whose state is IBV_PORT_ACTIVE.
pub record RdmaDevice : Type 0 where
  pub name : ℕ
  pub phys_port_cnt : ℕ
  pub active : ℕ → Bool

-- FindActivePorts, from port `i` on, with `n` ports to go.
unfoldable pub ports_from : (ℕ → Bool) → ℕ → ℕ → List ℕ
ports_from active i zero = []
ports_from active i (suc n) =
    let rest = ports_from active (i + 1) n in if active i then i ∷ rest else rest

-- FindActivePorts
unfoldable pub find_active_ports : RdmaDevice → Status × List ℕ
unfolding ports_from
find_active_ports d = elim (ports_from d.active 1 d.phys_port_cnt) [
  | [] ↦ (unavailable, [])
  | p ∷ ps ↦ (ok, p ∷ ps)
]

-- GetAvailableDevices: the ports of one device, if there are any.
unfoldable pub add_ports : ℕ → Status × List ℕ → List (ℕ × ℕ) → List (ℕ × ℕ)
add_ports name r rest = elim r.0 [
  | ok ↦ map (λ (p : ℕ). (name, p)) r.1 ++ rest
  | internal_error ↦ rest
  | unavailable ↦ rest
  | not_found ↦ rest
  | aborted ↦ rest
  | resource_exhausted ↦ rest
  | failed_precondition ↦ rest
  | stream_terminated ↦ rest
  | already_exists ↦ rest
]

-- GetAvailableDevices: the loop over the devices. One that cannot be opened is `none`.
unfoldable pub devices_from : List (Option RdmaDevice) → List (ℕ × ℕ)
unfolding find_active_ports add_ports
devices_from [] = []
devices_from (none ∷ ds) = devices_from ds
devices_from (some d ∷ ds) =
    let rest = devices_from ds in add_ports d.name (find_active_ports d) rest

-- GetAvailableDevices
unfoldable pub get_available_devices : List (Option RdmaDevice) → Status × List (ℕ × ℕ)
get_available_devices [] = (not_found, [])
get_available_devices (d ∷ ds) = (ok, devices_from (d ∷ ds))

-- `listening` stands for the endpoint, `running` for the thread of the event loop.
pub record Broker : Type 0 where
  pub terminate : Bool
  pub status : Status
  pub num_connections : ℕ
  pub listening : Bool
  pub running : Bool

-- RdmaBroker(receiver)
abbrev pub fresh_broker : Broker
fresh_broker = record {
  terminate = false;
  status = ok;
  num_connections = 0;
  listening = false;
  running = false;
}

-- The results of the calls in Init: the devices, rdma_getaddrinfo, rdma_create_ep, rdma_migrate_id, fcntl
-- and rdma_listen.
pub record InitCalls : Type 0 where
  pub devices : List (Option RdmaDevice)
  pub resolved : Bool
  pub created : Bool
  pub migrated : Bool
  pub nonblocking : Bool
  pub bound : Bool

-- RDMA_CM_CHECK
abbrev pub check : Bool → Status × Broker → Status × Broker → Status × Broker
check call failed next = if call then next else failed

-- Init
unfoldable pub init : Broker → InitCalls → Status × Broker
init b a =
    let opened = record b { listening = true } in
    elim (get_available_devices a.devices).0 [
      | ok ↦
          check a.resolved (internal_error, b)
            (check a.created (internal_error, b)
              (check a.migrated (internal_error, opened)
                (check a.nonblocking (internal_error, opened)
                  (check a.bound (internal_error, opened) (ok, record opened { running = true })))))
      | internal_error ↦ (internal_error, b)
      | unavailable ↦ (unavailable, b)
      | not_found ↦ (not_found, b)
      | aborted ↦ (aborted, b)
      | resource_exhausted ↦ (resource_exhausted, b)
      | failed_precondition ↦ (failed_precondition, b)
      | stream_terminated ↦ (stream_terminated, b)
      | already_exists ↦ (already_exists, b)
    ]

-- Create: nothing for nullptr. A broker whose Init failed is not deleted.
unfoldable pub create : InitCalls → Option Broker
unfolding init
create a = elim (init fresh_broker a).0 [
  | ok ↦ some (init fresh_broker a).1
  | internal_error ↦ none
  | unavailable ↦ none
  | not_found ↦ none
  | aborted ↦ none
  | resource_exhausted ↦ none
  | failed_precondition ↦ none
  | stream_terminated ↦ none
  | already_exists ↦ none
]

-- Stop, once the thread has ended: it is joined.
unfoldable pub stop : Broker → Status × Broker
stop b = (b.status, record b { terminate = true; running = false })

-- The event of a connection: for a request the peer in its private data, the endpoint, and whether the
-- calls that answer it succeed; for a disconnection the peer in its context and the endpoint.
pub data BrokerEvent : Type 0 where
  timewait_exit established device_removal unexpected : BrokerEvent
  connect_request : ℕ → ℕ → Bool → BrokerEvent
  disconnected : ℕ → ℕ → BrokerEvent

-- A round of the inner loop: `terminate_` is set, there is no event yet (EAGAIN), the call fails, or there
-- is one.
pub data Round : Type 0 where
  stopped again failed : Round
  got : BrokerEvent → Round

-- HandleConnectionRequests: the switch. `fuel` is for the lock of the manager.
unfoldable pub handle_event : ℕ → Broker → Manager → BrokerEvent → Option (Broker × Manager)
handle_event fuel b m timewait_exit = some (b, m)
handle_event fuel b m (connect_request peer i calls) =
    on_connect_request fuel m peer i calls >>= λ r. some (b, r.1)
handle_event fuel b m established =
    some (record b { num_connections = (b.num_connections + 1) % 2 ^ 32 }, m)
handle_event fuel b m (disconnected peer i) = on_disconnect fuel m peer i >>= λ m'.
    some (record b { num_connections = (b.num_connections + (2 ^ 32 - 1)) % 2 ^ 32 }, m')
handle_event fuel b m device_removal = some (b, m)
handle_event fuel b m unexpected = none

-- HandleConnectionRequests, for the rounds that are given: whether it has returned, and the state.
unfoldable pub handle_connection_requests :
    ℕ → Broker → Manager → List Round → Option (Bool × Broker × Manager)
unfolding handle_event
handle_connection_requests fuel b m [] = some (false, b, m)
handle_connection_requests fuel b m (stopped ∷ rs) = some (true, b, m)
handle_connection_requests fuel b m (again ∷ rs) = handle_connection_requests fuel b m rs
handle_connection_requests fuel b m (failed ∷ rs) =
    some (true, record b { status = internal_error }, m)
handle_connection_requests fuel b m (got e ∷ rs) =
    handle_event fuel b m e >>= λ s. handle_connection_requests fuel s.0 s.1 rs
