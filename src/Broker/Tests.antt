-- ===== src/Broker/Tests.antt =====
-- A machine with two devices, and a run of the event loop in which one peer connects twice.
use rabia_sandbox.Base.{
  ◌==◌, update, Bool-cases, ==_iff, inl, inr, ◌≢◌, ℕ, List, [], ◌∷◌, none, some, Bool, true, false,
  ◌≡◌, refl, arith, ltb, ◌↔◌,
}
use rabia_sandbox.Status.{ok}
use rabia_sandbox.Manager.{Connection, Polled, event, event_other, retry, Manager, fresh}
use rabia_sandbox.Broker.{
  Broker, RdmaDevice, Round, fresh_broker, stopped, again, got, established, connect_request,
  disconnected, handle_connection_requests, get_available_devices, devices_from,
}
use rabia_sandbox.Broker.Shutdown.{drains, halted, shut_down, shut_down_closes}
use rabia_sandbox.Broker.Devices.{IsIn, here, Offers, available-Offers}
use rabia_sandbox.Broker.Requests.{
  Table, Orderly, Counted, endpoints, replay, request, up, waits, away, ends,
  handle_connection_requests-replay,
}

abbrev serving : Manager
serving = record (fresh 1) { accepting = true }

-- Every endpoint is of the peer 2.
serving-Table : Table (λ i. 2) 30 serving
serving-Table = record {
  good = record { own = λ p c e. cc; single = λ p q c d e f same. cc };
  own = λ p c e. cc;
  live = λ i le. refl;
  serving = refl;
  free = refl;
  idle = λ p. refl;
}

abbrev rounds : List Round
rounds =
    again
    ∷ got (connect_request 2 30 true)
    ∷ got established
    ∷ got (connect_request 2 31 true)
    ∷ got (disconnected 2 30)
    ∷ stopped
    ∷ []

rounds-Orderly : Orderly (λ i. 2) 1 30 rounds
rounds-Orderly = waits (
    request (omega arith) refl (λ e. omega arith)
      (up (request (omega arith) refl (λ e. omega arith) (away (omega arith) refl ends))))

handle_connection_requests-replay_example :
    (done : Bool) × (b' : Broker) × (m' : Manager) × (bound' : ℕ) × (handle_connection_requests 1
        fresh_broker serving rounds
      ≡ some (done, b', m'))
    × Table (λ i. 2) bound' m'
    × (endpoints m' ≡ replay (endpoints serving) rounds)
    × Counted fresh_broker rounds b'
handle_connection_requests-replay_example =
    handle_connection_requests-replay 0 (λ i. 2) 30 fresh_broker serving rounds serving-Table
      rounds-Orderly

-- The peer is gone in the end, though its second request was answered while the first was there.
nobody : replay (endpoints serving) rounds 2 ≡ none
unfolding replay
nobody = refl

abbrev dark : RdmaDevice
dark = record { name = 5; phys_port_cnt = 2; active = λ i. false }

abbrev lit : RdmaDevice
lit = record { name = 6; phys_port_cnt = 3; active = λ i. ltb 1 i }

available-Offers_example :
    ((get_available_devices (some dark ∷ some lit ∷ [])).0 ≡ ok)
    × (IsIn (6, 2) (get_available_devices (some dark ∷ some lit ∷ [])).1
        ↔ Offers (some dark ∷ some lit ∷ []) 6 2)
available-Offers_example = available-Offers (some dark) (some lit ∷ []) 6 2

two_ports : get_available_devices (some dark ∷ none ∷ some lit ∷ []) ≡ (ok, (6, 2) ∷ (6, 3) ∷ [])
unfolding get_available_devices devices_from
two_ports = refl

abbrev linked : Manager
linked = record serving {
  mu = some 1;
  established = update (λ p. none) 2 (some (record { src_id = 1; dst_id = 2; endpoint = 30 }));
}

abbrev no_more : ℕ → List Polled
no_more p = event event_other true ∷ retry ∷ []

linked-peers : (p : ℕ) (c : Connection) → linked.established p ≡ some c → IsIn p (2 ∷ [])
linked-peers p c e = elim (Bool-cases (p == 2)) [
  | inl second ↦ here ((==_iff p 2).0 second)
  | inr other ↦ let gone : linked.established p ≡ none = rw other refl in absurd cc
]

-- A `Connect` holds the lock.
shut_down_closes_example :
    (m' : Manager) × (shut_down 1 (some fresh_broker) linked no_more (2 ∷ [])
      ≡ some (halted (some fresh_broker), m'))
    × (m'.accepting ≡ false)
    × (m'.mu ≡ none)
    × ((p : ℕ) (c : Connection) → linked.established p ≡ some c → m'.destroyed c.endpoint ≡ true)
    × ((i : ℕ)
        → ((p : ℕ) (c : Connection) → linked.established p ≡ some c → c.endpoint ≢ i)
        → m'.destroyed i ≡ linked.destroyed i)
unfolding drains
shut_down_closes_example =
    shut_down_closes 0 (some fresh_broker) linked no_more (2 ∷ []) (inr refl) (λ p. refl)
      linked-peers
