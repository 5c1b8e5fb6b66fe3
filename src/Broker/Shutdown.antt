-- ===== src/Broker/Shutdown.antt =====
-- The destructor of ConnectionManager in oldAPIHelpMark/rdma/connection_manager.h, which stops the broker
-- and closes the connections. What rdma_get_cm_event gives is an argument; `none` is an abort, or a loop
-- that does not end with the results given.
use rabia_sandbox.Base.{
  ℕ, suc, List, [], ◌∷◌, Option, none, some, Bool, true, false, ◌==◌, if◌then◌else◌, ◌>>=◌, ◌≡◌,
  ◌≢◌, ◌⊎◌, inl, inr, refl, ap, ◌∙◌, arith, Option-cases,
}
use rabia_sandbox.Manager.{
  Manager, Connection, Polled, retry, broken, event, acquire, release, destroy_ep,
}
use rabia_sandbox.Manager.Requests.{acquire_free, acquire_own}
use rabia_sandbox.Broker.{Broker, stop}
use rabia_sandbox.Broker.Devices.{IsIn, IsIn-cons}

-- The events after rdma_disconnect are acknowledged, until there is none.
unfoldable pub drains : List Polled → Bool
drains [] = false
drains (retry ∷ ps) = true
drains (broken ∷ ps) = true
drains (event e true ∷ ps) = drains ps
drains (event e false ∷ ps) = false

-- The cleanup of one connection. The loopback connection was made by hand.
unfoldable pub cleanup : Manager → ℕ → Connection → List Polled → Option Manager
cleanup m p c events =
    if p == m.my_id
    then some (destroy_ep m c.endpoint)
    else (if drains events then some (destroy_ep m c.endpoint) else none)

-- std::for_each over the table, in the order of `peers`.
unfoldable pub cleanup_each : Manager → (ℕ → List Polled) → List ℕ → Option Manager
unfolding cleanup drains
cleanup_each m events [] = some m
cleanup_each m events (p ∷ peers) =
    let rest = cleanup_each m events peers in
    elim (m.established p) [
      | none ↦ rest
      | some c ↦ cleanup m p c (events p) >>= λ m'. cleanup_each m' events peers
    ]

-- `broker_` after Stop, if it is not a null pointer.
abbrev pub halted : Option Broker → Option Broker
halted none = none
halted (some b) = some (stop b).1

-- ~ConnectionManager. What Acquire returns is not looked at.
unfoldable pub shut_down :
    ℕ → Option Broker → Manager → (ℕ → List Polled) → List ℕ → Option (Option Broker × Manager)
unfolding cleanup_each stop
shut_down fuel b m events peers = acquire fuel m m.my_id >>= λ l.
    cleanup_each (record l.1 { accepting = false }) events peers >>= λ m'.
    some (halted b, release m')

-- Some of the endpoints are destroyed by now, and nothing else has changed.
pub record Shut (m : Manager) (peers : List ℕ) (m' : Manager) : Type 0 where
  pub same : m' ≡ record m { destroyed = m'.destroyed }
  pub gone :
      (p : ℕ) (c : Connection)
      → IsIn p peers
      → m.established p ≡ some c
      → m'.destroyed c.endpoint ≡ true
  pub grows : (i : ℕ) → m.destroyed i ≡ true → m'.destroyed i ≡ true
  pub others :
      (i : ℕ)
      → ((p : ℕ) (c : Connection) → m.established p ≡ some c → c.endpoint ≢ i)
      → m'.destroyed i ≡ m.destroyed i

cleanup_run :
    (m : Manager) (p : ℕ) (c : Connection) (events : List Polled)
    → drains events ≡ true
    → cleanup m p c events ≡ some (destroy_ep m c.endpoint)
unfolding cleanup
cleanup_run m p c events ends = ground arith

each_closes :
    (m : Manager) (events : ℕ → List Polled) (peers : List ℕ)
    → ((p : ℕ) → drains (events p) ≡ true)
    → (m' : Manager) × (cleanup_each m events peers ≡ some m') × Shut m peers m'
unfolding cleanup_each
each_closes m events [] ends = (
  m,
  refl,
  record { same = refl; gone = λ p c h e. elim h [ ]; grows = λ i e. e; others = λ i h. refl },
)
each_closes m events (p ∷ peers) ends = elim (Option-cases (m.established p)) [
  | inl absent ↦
      let (m', run, closes) = each_closes m events peers ends in
      (
        m',
        rw (cleanup_each, absent) run,
        record {
          same = closes.same;
          gone = λ q c h e. elim (IsIn-cons q p peers h) [
            | inl first ↦
                let at : m.established q ≡ none = ap m.established first ∙ absent in absurd cc
            | inr later ↦ closes.gone q c later e
          ];
          grows = closes.grows;
          others = closes.others;
        },
      )
  | inr (d, known) ↦
      let (m', run, closes) = each_closes (destroy_ep m d.endpoint) events peers ends in
      (
        m',
        rw (cleanup_each, known) (rw (cleanup_run m p d (events p) (ends p)) run),
        record {
          same = closes.same;
          gone = λ q c h e. elim (IsIn-cons q p peers h) [
            | inl first ↦
                let at : m.established q ≡ some d = ap m.established first ∙ known in
                let same_one : c ≡ d = cc in
                closes.grows c.endpoint
                  (ground (arith, ap (λ (x : Connection). x.endpoint) same_one))
            | inr later ↦ closes.gone q c later e
          ];
          grows = λ i e. closes.grows i (ground (arith, e));
          others = λ i h. closes.others i h ∙ ground (arith, h p d known);
        },
      )
]

-- The destructor, where the lock is free or a `Connect` of this machine holds it, the events after each
-- disconnection come to an end, and `peers` names every peer of the table: it returns, one try to get the
-- lock is enough, and it destroys the endpoint of every connection of the table and no other. The manager
-- does not accept any more, and its lock is free, also where the `Connect` still holds it.
pub shut_down_closes :
    (fuel : ℕ) (b : Option Broker) (m : Manager) (events : ℕ → List Polled) (peers : List ℕ)
    → (m.mu ≡ none) ⊎ (m.mu ≡ some m.my_id)
    → ((p : ℕ) → drains (events p) ≡ true)
    → ((p : ℕ) (c : Connection) → m.established p ≡ some c → IsIn p peers)
    → (m' : Manager) × (shut_down (suc fuel) b m events peers ≡ some (halted b, m'))
      × (m'.accepting ≡ false)
      × (m'.mu ≡ none)
      × ((p : ℕ) (c : Connection) → m.established p ≡ some c → m'.destroyed c.endpoint ≡ true)
      × ((i : ℕ)
          → ((p : ℕ) (c : Connection) → m.established p ≡ some c → c.endpoint ≢ i)
          → m'.destroyed i ≡ m.destroyed i)
unfolding shut_down
shut_down_closes fuel b m events peers (inl free) ends all =
    let m₁ = record m { mu = some m.my_id; accepting = false } in
    let (m', run, closes) = each_closes m₁ events peers ends in
    (
      release m',
      rw (acquire_free fuel m m.my_id free) (rw run refl),
      ap (λ (x : Manager). x.accepting) closes.same,
      refl,
      (λ p c e. closes.gone p c (all p c e) e),
      closes.others,
    )
shut_down_closes fuel b m events peers (inr own) ends all =
    let m₁ = record m { accepting = false } in
    let (m', run, closes) = each_closes m₁ events peers ends in
    (
      release m',
      rw (acquire_own fuel m m.my_id own) (rw run refl),
      ap (λ (x : Manager). x.accepting) closes.same,
      refl,
      (λ p c e. closes.gone p c (all p c e) e),
      closes.others,
    )
