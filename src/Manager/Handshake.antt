-- ===== src/Manager/Handshake.antt =====
-- Two machines that connect to each other: the Connect of one with the OnConnectRequest of the other.
use rabia_sandbox.Base.{
  ℕ, suc, List, [], ◌∷◌, Option, none, some, true, false, ◌≡◌, ◌≢◌, refl, sym, ap, arith,
  update_hit, ◌==◌, ◌>>=◌, ◌∙◌,
}
use rabia_sandbox.Status.{Status, ok, unavailable}
use rabia_sandbox.Manager.{
  Manager, Connection, Calls, Verdict, ignored, accepted, rejected, event_established,
  event_rejected, Polled, event, acquire, release, destroy_ep, connect, connect_locked, connect_to,
  connect_events, on_established, on_failed, on_connect_request, next_backoff,
}
use rabia_sandbox.Manager.Invariant.{joined, emplace_absent}
use rabia_sandbox.Manager.Requests.{
  acquire_free, acquire_own, request_run, answer_accepts, with_peer, unlocked,
}

-- The events that a verdict of the other machine brings to the one that connects.
abbrev pub events_of : Verdict → List Polled
events_of accepted = event event_established true ∷ []
events_of rejected = event event_rejected true ∷ []
events_of ignored = []

-- All calls succeed, and the events come from the verdict.
abbrev pub calls_of : ℕ → Verdict → Calls
calls_of i v = record {
  resolved = true;
  created = true;
  endpoint = i;
  connecting = true;
  configured = true;
  disconnected = true;
  looped = true;
  events = events_of v;
}

-- The first machine connects to the second, which answers with the endpoint `j`.
unfoldable pub handshake :
    ℕ → Manager → Manager → ℕ → ℕ → Option ((Status × Option Connection × Manager) × Manager)
handshake fuel m n i j = on_connect_request fuel n m.my_id j true >>= λ v.
    connect fuel m n.my_id (calls_of i v.0) >>= λ r. some (r, v.1)

-- Both connect to each other, and have their locks when the requests arrive.
unfoldable pub crossing :
    ℕ
    → Manager
    → Manager
    → ℕ
    → ℕ
    → ℕ
    → ℕ
    → Option ((Status × Option Connection × Manager) × (Status × Option Connection × Manager))
crossing fuel m n i j k l = acquire fuel m m.my_id >>= λ a. acquire fuel n n.my_id >>= λ b.
    on_connect_request fuel a.1 n.my_id k true >>= λ v.
    on_connect_request fuel b.1 m.my_id l true >>= λ u.
    connect_locked v.1 n.my_id (calls_of i u.0) >>= λ r.
    connect_locked u.1 m.my_id (calls_of j v.0) >>= λ s. some (r, s)

accepts :
    (fuel : ℕ) (n : Manager) (peer j : ℕ)
    → n.accepting ≡ true
    → peer ≢ n.my_id
    → n.mu ≡ none
    → n.established peer ≡ none
    → n.requested peer ≡ false
    → on_connect_request (suc fuel) n peer j true ≡ some (accepted, with_peer n peer j)
accepts fuel n peer j serving other free absent idle =
    request_run fuel n peer j (true, record n { mu = some peer }) serving other
      (acquire_free fuel n peer free)
    ∙ answer_accepts n peer j free absent idle

joins :
    (fuel : ℕ) (m : Manager) (peer i : ℕ)
    → peer ≢ m.my_id
    → m.mu ≡ none
    → m.established peer ≡ none
    → connect (suc fuel) m peer (calls_of i accepted)
      ≡ some (ok, some (joined m peer i), with_peer m peer i)
unfolding connect connect_to connect_events on_established
joins fuel m peer i other free absent =
    let distinct : (peer == m.my_id) ≡ false = ground (arith, other) in
    let m₁ = record m { mu = some m.my_id } in
    rw (acquire_free fuel m m.my_id free) (
      rw absent (
        rw distinct (
          rw (on_established, absent)
            (ap (λ (x : Manager). some (ok, x.established peer, release x))
                (emplace_absent m₁ peer i absent)
              ∙ ap (λ (x : Option Connection). some (ok, x, release (with_peer m₁ peer i)))
                  (update_hit m.established peer peer (some (joined m peer i)) refl)
              ∙ ap (λ (x : Manager). some (ok, some (joined m peer i), x))
                  (unlocked (with_peer m peer i) m.my_id free)))))

backs_off :
    (m : Manager) (peer i : ℕ)
    → peer ≢ m.my_id
    → m.established peer ≡ none
    → connect_locked m peer (calls_of i rejected)
      ≡ some (
        unavailable,
        none,
        destroy_ep (record m { mu = none; backoff_us = next_backoff m.my_id m.backoff_us }) i,
      )
unfolding connect_to connect_events on_failed
backs_off m peer i other absent =
    let distinct : (peer == m.my_id) ≡ false = ground (arith, other) in
    rw (connect_locked, absent) (rw distinct refl)

again :
    (fuel : ℕ) (m : Manager) (peer : ℕ) (a : Calls) (c : Connection)
    → m.mu ≡ none
    → m.established peer ≡ some c
    → connect (suc fuel) m peer a ≡ some (ok, some c, m)
unfolding connect
again fuel m peer a c free there =
    rw (acquire_free fuel m m.my_id free)
      (rw there (ap (λ (x : Manager). some (ok, some c, x)) (unlocked m m.my_id free)))

-- Where two machines have no connection to each other, their locks are free, and the calls of librdmacm
-- succeed, a `Connect` of the first makes both of them have it, and leaves both locks free. A further
-- `Connect` of either one, whatever the calls return, gives the connection that is there.
pub handshake-joined :
    (fuel : ℕ) (m n : Manager) (i j : ℕ)
    → m.my_id ≢ n.my_id
    → n.accepting ≡ true
    → m.mu ≡ none
    → n.mu ≡ none
    → m.established n.my_id ≡ none
    → n.established m.my_id ≡ none
    → n.requested m.my_id ≡ false
    → let m' = with_peer m n.my_id i in
      let n' = with_peer n m.my_id j in
      (handshake (suc fuel) m n i j ≡ some ((ok, some (joined m n.my_id i), m'), n'))
      × ((a : Calls) → connect (suc fuel) m' n.my_id a ≡ some (ok, some (joined m n.my_id i), m'))
      × ((a : Calls) → connect (suc fuel) n' m.my_id a ≡ some (ok, some (joined n m.my_id j), n'))
unfolding handshake
handshake-joined fuel m n i j other serving free free' absent absent' idle = (
  rw (accepts fuel n m.my_id j serving other free' absent' idle)
      (rw (joins fuel m n.my_id i (λ e. other (sym e)) free absent) refl),
  (λ a.
      again fuel (with_peer m n.my_id i) n.my_id a (joined m n.my_id i) free
        (update_hit m.established n.my_id n.my_id (some (joined m n.my_id i)) refl)),
  λ a.
      again fuel (with_peer n m.my_id j) m.my_id a (joined n m.my_id j) free'
        (update_hit n.established m.my_id m.my_id (some (joined n m.my_id j)) refl),
)

-- A machine after a `Connect` that was rejected while it rejected a request itself.
abbrev pub backed_off : Manager → ℕ → ℕ → Manager
backed_off m k i =
    destroy_ep
      (record (destroy_ep m k) { mu = none; backoff_us = next_backoff m.my_id m.backoff_us }) i

-- Where two machines without a connection to each other connect at once, each rejects the other. Nobody waits for anybody:
-- both return Unavailable with the lock free and the next backoff, and their tables are as they were.
pub crossing-backed_off :
    (fuel : ℕ) (m n : Manager) (i j k l : ℕ)
    → m.my_id ≢ n.my_id
    → m.accepting ≡ true
    → n.accepting ≡ true
    → m.mu ≡ none
    → n.mu ≡ none
    → m.established n.my_id ≡ none
    → n.established m.my_id ≡ none
    → crossing (suc fuel) m n i j k l
      ≡ some ((unavailable, none, backed_off m k i), (unavailable, none, backed_off n l j))
unfolding crossing
crossing-backed_off fuel m n i j k l other serving serving' free free' absent absent' =
    let m₁ = record m { mu = some m.my_id } in
    let n₁ = record n { mu = some n.my_id } in
    rw (acquire_free fuel m m.my_id free, acquire_free fuel n n.my_id free')
      (rw
        (request_run fuel m₁ n.my_id k (false, m₁) serving (λ e. other (sym e))
          (acquire_own fuel m₁ n.my_id refl))
        (rw
          (request_run fuel n₁ m.my_id l (false, n₁) serving' other
            (acquire_own fuel n₁ m.my_id refl))
          (rw (backs_off (destroy_ep m₁ k) n.my_id i (λ e. other (sym e)) absent)
            (rw (backs_off (destroy_ep n₁ l) m.my_id j other absent') refl))))
