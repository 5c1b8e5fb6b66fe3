-- ===== src/Broker/Requests.antt =====
-- The event loop of the broker and the table of connections that it keeps up with OnConnectRequest and
-- OnDisconnect of the ConnectionManager.
use mathlib.Core.Path.{fun_ext}
use rabia_sandbox.Base.{
  ℕ, suc, ◌+◌, ◌-◌, ◌%◌, ◌^◌, ◌≤◌, ◌<◌, List, [], ◌∷◌, Option, none, some, Bool, true, false, ◌≡◌,
  ◌≢◌, refl, sym, ap, subst, arith, update, if◌then◌else◌, ◌==◌, ==_iff, inl, inr, Option-cases,
  Bool-cases, ◌∙◌,
}
use rabia_sandbox.Status.{internal_error}
use rabia_sandbox.Manager.{
  Manager, Connection, Verdict, is_some, destroy_ep, on_connect_request, on_disconnect,
}
use rabia_sandbox.Manager.Invariant.{IsManager}
use rabia_sandbox.Manager.Requests.{
  with_peer, Rejects, unless, on_connect_request-IsManager, on_disconnect-IsManager,
}
use rabia_sandbox.Broker.{
  Broker, BrokerEvent, Round, stopped, again, failed, got, timewait_exit, established,
  device_removal, unexpected, connect_request, disconnected, handle_event,
  handle_connection_requests,
}

-- The endpoints of the table.
abbrev pub endpoint_of : Option Connection → Option ℕ
endpoint_of none = none
endpoint_of (some c) = some c.endpoint

abbrev pub endpoints : Manager → ℕ → Option ℕ
endpoints m p = endpoint_of (m.established p)

-- A table that the loop works on. `owner` is the peer of an endpoint, and the endpoints below `bound` have
-- been seen.
pub record Table (owner : ℕ → ℕ) (bound : ℕ) (m : Manager) : Type 0 where
  pub good : IsManager m
  pub own :
      (p : ℕ) (c : Connection)
      → m.established p ≡ some c
      → (c.endpoint < bound) × (owner c.endpoint ≡ p)
  pub live : (i : ℕ) → bound ≤ i → m.destroyed i ≡ false
  pub serving : m.accepting ≡ true
  pub free : m.mu ≡ none
  pub idle : (p : ℕ) → m.requested p ≡ false

-- Rounds as librdmacm gives them to machine `me`: a request comes with an endpoint that is new, from
-- another machine, the calls that answer it succeed, and a disconnection is of an
-- endpoint that has been seen, and names its peer.
pub data Orderly (owner : ℕ → ℕ) (me : ℕ) : ℕ → List Round → Type 0 where
  pending : {bound : ℕ} → Orderly owner me bound []
  ends : {bound : ℕ} {rs : List Round} → Orderly owner me bound (stopped ∷ rs)
  breaks : {bound : ℕ} {rs : List Round} → Orderly owner me bound (failed ∷ rs)
  waits :
      {bound : ℕ} {rs : List Round}
      → Orderly owner me bound rs
      → Orderly owner me bound (again ∷ rs)
  timewait :
      {bound : ℕ} {rs : List Round}
      → Orderly owner me bound rs
      → Orderly owner me bound (got timewait_exit ∷ rs)
  removal :
      {bound : ℕ} {rs : List Round}
      → Orderly owner me bound rs
      → Orderly owner me bound (got device_removal ∷ rs)
  up :
      {bound : ℕ} {rs : List Round}
      → Orderly owner me bound rs
      → Orderly owner me bound (got established ∷ rs)
  request :
      {bound peer i : ℕ} {rs : List Round}
      → bound ≤ i
      → owner i ≡ peer
      → peer ≢ me
      → Orderly owner me (i + 1) rs
      → Orderly owner me bound (got (connect_request peer i true) ∷ rs)
  away :
      {bound peer i : ℕ} {rs : List Round}
      → i < bound
      → owner i ≡ peer
      → Orderly owner me bound rs
      → Orderly owner me bound (got (disconnected peer i) ∷ rs)

-- What an event does to the endpoints of the table: the first request of a peer counts, until its endpoint
-- is disconnected.
unfoldable pub replay_event : (ℕ → Option ℕ) → BrokerEvent → ℕ → Option ℕ
replay_event f (connect_request peer i calls) = elim (f peer) [
  | none ↦ update f peer (some i)
  | some j ↦ f
]
replay_event f (disconnected peer i) = elim (f peer) [
  | none ↦ f
  | some j ↦ if j == i then update f peer none else f
]
replay_event f _ = f

-- The events up to the end of the loop.
unfoldable pub replay : (ℕ → Option ℕ) → List Round → ℕ → Option ℕ
unfolding replay_event
replay f [] = f
replay f (stopped ∷ rs) = f
replay f (failed ∷ rs) = f
replay f (again ∷ rs) = replay f rs
replay f (got e ∷ rs) = replay (replay_event f e) rs

-- The connections that are established, and those that are disconnected, up to the end of the loop.
unfoldable pub openings : List Round → ℕ
openings [] = 0
openings (stopped ∷ rs) = 0
openings (failed ∷ rs) = 0
openings (got established ∷ rs) = openings rs + 1
openings (_ ∷ rs) = openings rs

unfoldable pub closings : List Round → ℕ
closings [] = 0
closings (stopped ∷ rs) = 0
closings (failed ∷ rs) = 0
closings (got (disconnected p i) ∷ rs) = closings rs + 1
closings (_ ∷ rs) = closings rs

joined-Table :
    (owner : ℕ → ℕ) (bound peer i : ℕ) (m : Manager)
    → Table owner bound m
    → bound ≤ i
    → owner i ≡ peer
    → IsManager (with_peer m peer i)
    → Table owner (i + 1) (with_peer m peer i)
joined-Table owner bound peer i m table new is good = record {
  good = good;
  own = λ p c e. ground (arith, table.own p c);
  live = λ j le. table.live j (omega arith);
  serving = table.serving;
  free = table.free;
  idle = table.idle;
}

destroyed-Table :
    (owner : ℕ → ℕ) (bound i : ℕ) (m : Manager)
    → Table owner bound m
    → bound ≤ i
    → IsManager (destroy_ep m i)
    → Table owner (i + 1) (destroy_ep m i)
destroyed-Table owner bound i m table new good = record {
  good = good;
  own = λ p c e. ground (arith, table.own p c);
  live = λ j le. ground (arith, table.live j);
  serving = table.serving;
  free = table.free;
  idle = table.idle;
}

-- What one event does to such a table.
abbrev Kept : (ℕ → ℕ) → ℕ → Manager → BrokerEvent → Manager → Type 0
Kept owner bound m e m' =
    Table owner bound m' × (m'.my_id ≡ m.my_id) × (endpoints m' ≡ replay_event (endpoints m) e)

accepted-Kept :
    (owner : ℕ → ℕ) (bound peer i : ℕ) (m : Manager)
    → Table owner bound m
    → bound ≤ i
    → owner i ≡ peer
    → m.established peer ≡ none
    → IsManager (with_peer m peer i)
    → Kept owner (i + 1) m (connect_request peer i true) (with_peer m peer i)
unfolding replay_event
accepted-Kept owner bound peer i m table new is absent good = (
  joined-Table owner bound peer i m table new is good,
  refl,
  rw (replay_event, absent) (fun_ext (λ p. ground arith)),
)

rejected-Kept :
    (owner : ℕ → ℕ) (bound peer i : ℕ) (m : Manager)
    → Table owner bound m
    → bound ≤ i
    → Rejects m peer i (destroy_ep m i)
    → IsManager (destroy_ep m i)
    → Kept owner (i + 1) m (connect_request peer i true) (destroy_ep m i)
unfolding replay_event
rejected-Kept owner bound peer i m table new (why, _) good =
    let known : (c : Connection) × (m.established peer ≡ some c) = elim why [
      | inl busy ↦ let free = table.free in absurd cc
      | inr (inl there) ↦ elim (Option-cases (m.established peer)) [
        | inl absent ↦
            let none_there : is_some (m.established peer) ≡ false = rw absent refl in absurd cc
        | inr here ↦ here
      ]
      | inr (inr asked) ↦ let not_asked = table.idle peer in absurd cc
    ] in
    let (c, there) = known in
    (destroyed-Table owner bound i m table new good, refl, rw (replay_event, there) refl)

-- A request leaves such a table.
request-Table :
    (fuel : ℕ) (owner : ℕ → ℕ) (bound peer i : ℕ) (m : Manager)
    → Table owner bound m
    → bound ≤ i
    → owner i ≡ peer
    → peer ≢ m.my_id
    → (v : Verdict) × (m' : Manager) × (on_connect_request (suc fuel) m peer i true ≡ some (v, m'))
      × Kept owner (i + 1) m (connect_request peer i true) m'
request-Table fuel owner bound peer i m table new is other =
    let unused = λ (p : ℕ) (c : Connection) (e : m.established p ≡ some c) (same : c.endpoint ≡ i).
      absurd (omega (arith, (table.own p c e).0)) in
    let (v, m', run, good, what) =
      on_connect_request-IsManager fuel m peer i table.good unused (table.live i new) table.serving
        other (inl table.free) in
    let kept = Kept owner (i + 1) m (connect_request peer i true) in
    (
      v,
      m',
      run,
      elim what [
        | inl (_, (_, absent, _, there)) ↦
            subst kept (sym there)
              (accepted-Kept owner bound peer i m table new is absent (subst IsManager there good))
        | inr (_, (why, there)) ↦
            subst kept (sym there) (
              rejected-Kept owner bound peer i m table new (why, refl) (subst IsManager there good))
      ],
    )

unless_endpoint :
    (i : ℕ) (o : Option Connection)
    → endpoint_of (unless i o)
      ≡ elim (endpoint_of o) [ none ↦ none | some j ↦ if j == i then none else some j ]
unless_endpoint i none = refl
unless_endpoint i (some c) = ground arith

taken :
    (f : ℕ → Option ℕ) (peer i p : ℕ)
    → ((q j : ℕ) → f q ≡ some j → j ≡ i → q ≡ peer)
    → elim (f p) [ none ↦ none | some j ↦ if j == i then none else some j ]
      ≡ replay_event f (disconnected peer i) p
unfolding replay_event
taken f peer i p own = elim (Bool-cases (p == peer)) [
  | inl here ↦
      let same : p ≡ peer = (==_iff p peer).0 here in
      elim (Option-cases (f peer)) [
        | inl absent ↦
            let gone : f p ≡ none = ap f same ∙ absent in rw (replay_event, absent, gone) refl
        | inr (j, there) ↦
            let at : f p ≡ some j = ap f same ∙ there in
            rw (replay_event, there, at) (ground (arith, at))
      ]
  | inr other ↦ elim (Option-cases (f p)) [
    | inl absent ↦ rw absent (ground (arith, absent))
    | inr (j, there) ↦
        let differ : (j == i) ≡ false = ground (arith, own p j there) in
        rw there (rw differ (ground (arith, there)))
  ]
]

endpoint_of-some :
    (o : Option Connection) (j : ℕ)
    → endpoint_of o ≡ some j
    → (c : Connection) × (o ≡ some c) × (c.endpoint ≡ j)
endpoint_of-some none j e = cc
endpoint_of-some (some c) j e = (c, refl, ground (arith, e))

unless-some : (i : ℕ) (o : Option Connection) (c : Connection) → unless i o ≡ some c → o ≡ some c
unless-some i none c e = e
unless-some i (some d) c e = ground (arith, e)

-- A disconnection leaves such a table.
away-Table :
    (fuel : ℕ) (owner : ℕ → ℕ) (bound peer i : ℕ) (m : Manager)
    → Table owner bound m
    → i < bound
    → owner i ≡ peer
    → (m' : Manager) × (on_disconnect (suc fuel) m peer i ≡ some m')
      × Kept owner bound m (disconnected peer i) m'
unfolding replay_event
away-Table fuel owner bound peer i m table seen is =
    let (m', run, good, free, gone, left, same) =
      on_disconnect-IsManager fuel m peer i table.good
        (λ p c e here. sym (table.own p c e).1 ∙ ap owner here ∙ is) table.free in
    (
      m',
      run,
      (
        record {
          good = good;
          own = λ p c e. table.own p c (unless-some i (m.established p) c (sym (left p) ∙ e));
          live = λ j le. ap (λ (x : Manager). x.destroyed j) same ∙ ground (arith, table.live j le);
          serving = ap (λ (x : Manager). x.accepting) same ∙ table.serving;
          free = free;
          idle = λ p. ap (λ (x : Manager). x.requested p) same ∙ table.idle p;
        },
        ap (λ (x : Manager). x.my_id) same,
        fun_ext (λ p.
            ap endpoint_of (left p)
            ∙ unless_endpoint i (m.established p)
            ∙ taken (endpoints m) peer i p (λ q j at e.
              let (c, there, here) = endpoint_of-some (m.established q) j at in
              sym (table.own q c there).1 ∙ ap owner (here ∙ e) ∙ is)),
      ),
    )

-- The rounds of the loop keep the count of connections, up to the wrap-around.
abbrev pub Counted : Broker → List Round → Broker → Type 0
Counted b rs b' =
    (b'.num_connections + closings rs) % 2 ^ 32 ≡ (b.num_connections + openings rs) % 2 ^ 32

-- On orderly rounds the loop of the broker does not abort, and with a lock that is free one try to get it
-- is enough. The table of the ConnectionManager stays well-formed, with its lock free, and has for every
-- peer the endpoint of the first request that was not disconnected since. The number of connections has
-- gone up by those that were established and down by those that were disconnected, modulo 2 ^ 32.
pub handle_connection_requests-replay :
    (fuel : ℕ) (owner : ℕ → ℕ) (bound : ℕ) (b : Broker) (m : Manager) (rs : List Round)
    → Table owner bound m
    → Orderly owner m.my_id bound rs
    → (done : Bool) × (b' : Broker) × (m' : Manager) × (bound' : ℕ) × (handle_connection_requests
          (suc fuel)
          b
          m
          rs
        ≡ some (done, b', m'))
      × Table owner bound' m'
      × (endpoints m' ≡ replay (endpoints m) rs)
      × Counted b rs b'
unfolding replay replay_event openings closings handle_connection_requests handle_event
handle_connection_requests-replay fuel owner bound b m [] table pending =
    (false, b, m, bound, refl, table, refl, refl)
handle_connection_requests-replay fuel owner bound b m (stopped ∷ rs) table ends =
    (true, b, m, bound, refl, table, refl, refl)
handle_connection_requests-replay fuel owner bound b m (failed ∷ rs) table breaks =
    (true, record b { status = internal_error }, m, bound, refl, table, refl, refl)
handle_connection_requests-replay fuel owner bound b m (again ∷ rs) table (waits more) =
    handle_connection_requests-replay fuel owner bound b m rs table more
handle_connection_requests-replay fuel owner bound b m (got timewait_exit ∷ rs) table
      (timewait more) =
    handle_connection_requests-replay fuel owner bound b m rs table more
handle_connection_requests-replay fuel owner bound b m (got device_removal ∷ rs) table
      (removal more) =
    handle_connection_requests-replay fuel owner bound b m rs table more
handle_connection_requests-replay fuel owner bound b m (got established ∷ rs) table (up more) =
    let b₁ = record b { num_connections = (b.num_connections + 1) % 2 ^ 32 } in
    let (done, b', m', bound', run, kept, is, count) =
      handle_connection_requests-replay fuel owner bound b₁ m rs table more in
    (done, b', m', bound', run, kept, is, omega (arith, count))
handle_connection_requests-replay fuel owner bound b m (got (connect_request peer i true) ∷ rs)
      table (request new is other more) =
    let (v, m₁, step, (table₁, me, moved)) =
      request-Table fuel owner bound peer i m table new is other in
    let (done, b', m', bound', run, kept, same, count) =
      handle_connection_requests-replay fuel owner (i + 1) b m₁ rs table₁
        (subst (λ (x : ℕ). Orderly owner x (i + 1) rs) (sym me) more) in
    (
      done,
      b',
      m',
      bound',
      rw step run,
      kept,
      same ∙ ap (λ (f : ℕ → Option ℕ). replay f rs) moved,
      count,
    )
handle_connection_requests-replay fuel owner bound b m (got unexpected ∷ rs) table orderly =
    elim orderly [ ]
handle_connection_requests-replay fuel owner bound b m (got (connect_request peer i false) ∷ rs)
      table orderly =
    elim orderly [ ]
handle_connection_requests-replay fuel owner bound b m (got (disconnected peer i) ∷ rs) table
      (away seen is more) =
    let b₁ = record b { num_connections = (b.num_connections + (2 ^ 32 - 1)) % 2 ^ 32 } in
    let (m₁, step, (table₁, me, moved)) = away-Table fuel owner bound peer i m table seen is in
    let (done, b', m', bound', run, kept, same, count) =
      handle_connection_requests-replay fuel owner bound b₁ m₁ rs table₁
        (subst (λ (x : ℕ). Orderly owner x bound rs) (sym me) more) in
    (
      done,
      b',
      m',
      bound',
      rw step run,
      kept,
      same ∙ ap (λ (f : ℕ → Option ℕ). replay f rs) moved,
      omega (arith, count),
    )
