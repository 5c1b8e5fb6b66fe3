-- ===== src/Manager/Locked.antt =====
-- A lock that is not given back, and how long a machine waits.
use rabia_sandbox.Base.{
  ℕ, zero, suc, ◌+◌, ◌*◌, ◌^◌, ◌≤◌, ◌<◌, ◌⊎◌, none, some, true, false, ◌≡◌, ◌≢◌, refl, arith, ltb,
  inl, inr, Bool-cases, leb, ◌%◌,
}
use rabia_sandbox.Status.{internal_error, unavailable}
use rabia_sandbox.Manager.{
  Manager, Calls, rejected, destroy_ep, connect, connect_to, on_connect_request, get_connection,
  next_backoff,
}
use rabia_sandbox.Manager.Requests.{acquire_free, acquire_own, request_run}

leaves_locked :
    (fuel : ℕ) (m : Manager) (peer : ℕ) (a : Calls)
    → m.mu ≡ none
    → m.established peer ≡ none
    → a.resolved ≡ false
    → connect (suc fuel) m peer a ≡ some (internal_error, none, record m { mu = some m.my_id })
unfolding connect connect_to
leaves_locked fuel m peer a free absent bad =
    rw (acquire_free fuel m m.my_id free) (rw absent (rw (connect_to, bad) refl))

gives_up :
    (fuel : ℕ) (m : Manager) (peer : ℕ) (a : Calls)
    → m.mu ≡ some m.my_id
    → connect (suc fuel) m peer a ≡ some (unavailable, none, m)
unfolding connect
gives_up fuel m peer a own = rw (acquire_own fuel m m.my_id own) refl

waits_forever :
    (fuel : ℕ) (m : Manager) (peer : ℕ) → m.mu ≡ some m.my_id → get_connection fuel m peer ≡ none
unfolding get_connection
waits_forever zero m peer own = refl
waits_forever (suc fuel) m peer own =
    rw (acquire_own fuel m m.my_id own) (waits_forever fuel m peer own)

-- Where rdma_getaddrinfo fails for a peer that is not connected, `Connect` returns an internal error with
-- the lock still held. From then on, whatever the calls of librdmacm return, each `Connect` to any peer
-- gives up with Unavailable, each request of the other machine is rejected, and GetConnection does not
-- return, however long it tries.
pub lock_leaks :
    (fuel : ℕ) (m : Manager) (peer other : ℕ) (a : Calls)
    → m.mu ≡ none
    → m.accepting ≡ true
    → m.established peer ≡ none
    → a.resolved ≡ false
    → other ≢ m.my_id
    → (m' : Manager) × (connect (suc fuel) m peer a ≡ some (internal_error, none, m'))
      × ((fuel' p : ℕ) (b : Calls) → connect (suc fuel') m' p b ≡ some (unavailable, none, m'))
      × ((fuel' i : ℕ)
          → on_connect_request (suc fuel') m' other i true ≡ some (rejected, destroy_ep m' i))
      × ((fuel' p : ℕ) → get_connection fuel' m' p ≡ none)
lock_leaks fuel m peer other a free serving absent bad differs =
    let m' = record m { mu = some m.my_id } in
    (
      m',
      leaves_locked fuel m peer a free absent bad,
      (λ fuel' p b. gives_up fuel' m' p b refl),
      (λ fuel' i.
          request_run fuel' m' other i (false, m') serving differs
            (acquire_own fuel' m' other refl)),
      λ fuel' p. waits_forever fuel' m' p refl,
    )

-- For ids of 16 bits, and no backoff yet or one between 100 microseconds and five seconds, the arithmetic
-- does not wrap around: the next backoff is between 100 microseconds and five seconds, and at least twice
-- the last one or five seconds.
pub next_backoff_bounds :
    (my_id b : ℕ)
    → my_id < 2 ^ 16
    → (b ≡ 0) ⊎ ((100 ≤ b) × (b ≤ 5000000))
    → (100 ≤ next_backoff my_id b)
      × (next_backoff my_id b ≤ 5000000)
      × ((2 * b ≤ next_backoff my_id b) ⊎ (next_backoff my_id b ≡ 5000000))
unfolding next_backoff
next_backoff_bounds my_id b small (inl none_yet) = (ground arith, ground arith, inl (ground arith))
next_backoff_bounds my_id b small (inr (low, high)) =
    let whole : (b + 100 * my_id % 2 ^ 32) % 2 ^ 32 * 2 % 2 ^ 32 ≡ (b + 100 * my_id) * 2 =
      omega arith in
    let some_yet : ltb 0 b ≡ true = ground arith in
    rw (some_yet, whole)
      (
        omega arith,
        omega arith,
        elim (Bool-cases (leb 2500000 (b + 100 * my_id))) [
          | inl cut ↦ inr (ground arith)
          | inr room ↦ inl (ground arith)
        ],
      )
