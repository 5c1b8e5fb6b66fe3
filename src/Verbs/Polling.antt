-- ===== src/Verbs/Polling.antt =====
-- The threads of one MemoryPool that share a completion queue: each sets its counter in
-- `reordering_counters`, posts its request and polls until the counter is 0. A thread may poll the
-- completion of another one, and then takes one off the counter of that one.
use rabia_sandbox.Base.{
  ℕ, ◌+◌, ◌-◌, ◌≤◌, ◌<◌, ◌≡◌, ◌≢◌, ◌⊎◌, inl, inr, refl, ap, arith, update, weigh, weigh-update,
  weigh-none, weigh-place, weigh-some, ◌==◌, ==_iff, if◌then◌else◌, Bool-cases, ltb,
}

-- Where a thread stands: between two operations, between the store to its counter and the post, before the
-- test of its counter, between the test and the poll, and between a poll that gave the `wr_id` of some
-- thread and its `fetch_sub`. The first number is what the operation has stored in its counter, 1 or, for
-- ReadInternal, `num_chunks`.
pub data Pc : Type 0 where
  idle : Pc
  armed waiting polling : ℕ → Pc
  polled : ℕ → ℕ → Pc

-- `in_flight w` are the completions with `wr_id` `w` that are posted and not yet polled.
pub record System : Type 0 where
  pub counters : ℕ → ℕ
  pub in_flight : ℕ → ℕ
  pub pc : ℕ → Pc

-- One step of thread `i`, at its place `p`. Of the requests that are posted together one is signaled. A poll
-- that finds nothing goes back to the test, also where the queue is not empty.
pub data Move (i : ℕ) (c f : ℕ → ℕ) : Pc → (ℕ → ℕ) → (ℕ → ℕ) → Pc → Type 0 where
  arm : (k : ℕ) → 1 ≤ k → Move i c f idle (update c i k) f (armed k)
  post : {k : ℕ} → Move i c f (armed k) c (update f i (f i + 1)) (waiting k)
  test : {k : ℕ} → c i ≢ 0 → Move i c f (waiting k) c f (polling k)
  poll_empty : {k : ℕ} → Move i c f (polling k) c f (waiting k)
  poll : {k : ℕ} (w : ℕ) → 1 ≤ f w → Move i c f (polling k) c (update f w (f w - 1)) (polled k w)
  take_off : {k w : ℕ} → Move i c f (polled k w) (update c w (c w - 1)) f (waiting k)
  leave : {k : ℕ} → c i ≡ 0 → Move i c f (waiting k) c f idle

-- Any of `n` threads moves.
pub data Step (n : ℕ) (s : System) : System → Type 0 where
  pick :
      (i : ℕ) {c f : ℕ → ℕ} {p : Pc}
      → i < n
      → Move i s.counters s.in_flight (s.pc i) c f p
      → Step n s (record { counters = c; in_flight = f; pc = update s.pc i p })

abbrev pub init : System
init = record { counters = λ i. 0; in_flight = λ i. 0; pc = λ i. idle }

pub data Reach (n : ℕ) : System → Type 0 where
  start : Reach n init
  later : {s t : System} → Reach n s → Step n s t → Reach n t

-- A thread that has polled a completion of `w` and not yet taken it off.
abbrev holds : ℕ → Pc → ℕ
holds w (polled k v) = if v == w then 1 else 0
holds w _ = 0

-- What the counter of a thread holds for completions that are still to be posted, or that will never be.
abbrev due : Pc → ℕ
due idle = 0
due (armed k) = k
due (waiting k) = k - 1
due (polling k) = k - 1
due (polled k w) = k - 1

-- What a thread has stored in its counter, 1 where it has no operation.
abbrev pub asked : Pc → ℕ
asked idle = 1
asked (armed k) = k
asked (waiting k) = k
asked (polling k) = k
asked (polled k w) = k

-- The counter of a thread tells its completions that nobody has taken off.
pub record Counts (n : ℕ) (s : System) : Type 0 where
  pub exact : (w : ℕ) → w < n → s.counters w ≡ s.in_flight w + weigh (holds w) s.pc n + due (s.pc w)
  pub resting : (w : ℕ) → s.pc w ≡ idle → s.counters w ≡ 0
  pub known : (i k w : ℕ) → s.pc i ≡ polled k w → w < n
  pub mine : (w : ℕ) → 1 ≤ s.in_flight w → w < n
  pub asks : (w : ℕ) → 1 ≤ asked (s.pc w)

init-Counts : (n : ℕ) → Counts n init
init-Counts n = record {
  exact = λ w lt. omega (arith, weigh-none (holds w) idle n refl);
  resting = λ w e. refl;
  known = λ i k w e. cc;
  mine = λ w h. absurd (omega arith);
  asks = λ w. omega arith;
}

Move-Counts :
    (n : ℕ) (s : System) (i : ℕ) {p p' : Pc} {c f : ℕ → ℕ}
    → i < n
    → s.pc i ≡ p
    → Move i s.counters s.in_flight p c f p'
    → Counts n s
    → Counts n (record { counters = c; in_flight = f; pc = update s.pc i p' })
Move-Counts n s i lt at (arm k some) ok = record {
  exact =
      λ w l. ground (arith, ok.exact w l, ok.resting w, weigh-update (holds w) s.pc i (armed k) n);
  resting = λ w e. ground (arith, ok.resting w);
  known = λ j l w e. ground (arith, ok.known j l w);
  mine = ok.mine;
  asks = λ w. ground (arith, ok.asks w);
}
Move-Counts n s i lt at (post {k = k}) ok = record {
  exact =
      λ w l. ground (arith, ok.exact w l, ok.asks w, weigh-update (holds w) s.pc i (waiting k) n);
  resting = λ w e. ground (arith, ok.resting w);
  known = λ j l w e. ground (arith, ok.known j l w);
  mine = λ w h. ground (arith, ok.mine w);
  asks = λ w. ground (arith, ok.asks w);
}
Move-Counts n s i lt at (test {k = k} busy) ok = record {
  exact = λ w l. ground (arith, ok.exact w l, weigh-update (holds w) s.pc i (polling k) n);
  resting = λ w e. ground (arith, ok.resting w);
  known = λ j l w e. ground (arith, ok.known j l w);
  mine = ok.mine;
  asks = λ w. ground (arith, ok.asks w);
}
Move-Counts n s i lt at (poll_empty {k = k}) ok = record {
  exact = λ w l. ground (arith, ok.exact w l, weigh-update (holds w) s.pc i (waiting k) n);
  resting = λ w e. ground (arith, ok.resting w);
  known = λ j l w e. ground (arith, ok.known j l w);
  mine = ok.mine;
  asks = λ w. ground (arith, ok.asks w);
}
Move-Counts n s i lt at (poll {k = k} v some_done) ok = record {
  exact = λ w l. ground (arith, ok.exact w l, weigh-update (holds w) s.pc i (polled k v) n);
  resting = λ w e. ground (arith, ok.resting w);
  known = λ j l w e. ground (arith, ok.known j l w, ok.mine v);
  mine = λ w h. ground (arith, ok.mine w);
  asks = λ w. ground (arith, ok.asks w);
}
Move-Counts n s i lt at (take_off {k = k} {w = v}) ok = record {
  exact = λ w l. ground (
    arith,
    ok.exact w l,
    weigh-update (holds w) s.pc i (waiting k) n,
    weigh-place (holds w) s.pc i n lt,
  );
  resting = λ w e. ground (arith, ok.resting w);
  known = λ j l w e. ground (arith, ok.known j l w);
  mine = ok.mine;
  asks = λ w. ground (arith, ok.asks w);
}
Move-Counts n s i lt at (leave {k = k} done) ok = record {
  exact = λ w l. ground (arith, ok.exact w l, weigh-update (holds w) s.pc i idle n);
  resting = λ w e. ground (arith, ok.resting w);
  known = λ j l w e. ground (arith, ok.known j l w);
  mine = ok.mine;
  asks = λ w. ground (arith, ok.asks w);
}

pub Reach-Counts : {n : ℕ} {s : System} → Reach n s → Counts n s
Reach-Counts {n} start = init-Counts n
Reach-Counts {n} (later {s = s} r (pick i lt mv)) = Move-Counts n s i lt refl mv (Reach-Counts r)

-- In every reachable state a thread that takes a completion off a counter finds it at 1 or more: the
-- assertion on the synchronization does not fail, whichever thread polls whose completion, also where the
-- counter of the thread that polls has become 0 since it was tested.
pub take_off_safe :
    (n : ℕ) (s : System) (i k w : ℕ) → Reach n s → i < n → s.pc i ≡ polled k w → 1 ≤ s.counters w
take_off_safe n s i k w r lt at =
    let ok = Reach-Counts r in
    ground (arith, ok.exact w (ok.known i k w at), weigh-place (holds w) s.pc i n lt)

-- A thread that counts as one that has polled a completion of `i`.
holder : (i : ℕ) (p : Pc) → 1 ≤ holds i p → (l : ℕ) × (p ≡ polled l i)
holder i idle pos = absurd (omega arith)
holder i (armed k) pos = absurd (omega arith)
holder i (waiting k) pos = absurd (omega arith)
holder i (polling k) pos = absurd (omega arith)
holder i (polled k v) pos = elim (Bool-cases (v == i)) [
  | inl same ↦ (k, ap (polled k) ((==_iff v i).0 same))
  | inr other ↦ absurd (ground arith)
]

-- The counter of a thread that has stored 1 and is at its test or its poll.
one_asked :
    (n : ℕ) (s : System) (i : ℕ)
    → i < n
    → s.counters i ≡ s.in_flight i + weigh (holds i) s.pc n
    → ((s.counters i ≡ 0) × (s.in_flight i ≡ 0) × ((j l : ℕ) → j < n → s.pc j ≢ polled l i))
      ⊎ ((s.counters i ≢ 0)
          × ((1 ≤ s.in_flight i) ⊎ ((j : ℕ) × (l : ℕ) × (j < n) × (s.pc j ≡ polled l i))))
one_asked n s i lt exact = elim (Bool-cases (s.counters i == 0)) [
  | inl none_left ↦ inl (
    ground arith,
    ground arith,
    λ j l lt' here. absurd (ground (arith, weigh-place (holds i) s.pc j n lt')),
  )
  | inr more ↦ inr (
    ground arith,
    elim (Bool-cases (ltb 0 (s.in_flight i))) [
      | inl queued ↦ inl (ground arith)
      | inr taken ↦
          let (j, lt', pos) = weigh-some (holds i) s.pc n (ground arith) in
          let (l, there) = holder i (s.pc j) pos in inr (j, l, lt', there)
    ],
  )
]

-- In every reachable state, for a thread in its loop, before the test of its counter or between the test and
-- the poll. Where it has stored 1: if its counter is 0 it has no completion outstanding, neither in the
-- queue nor with another thread; if not, its completion is in the queue, or a thread has polled it and is
-- about to take it off. Where it has stored more, as ReadInternal does for several chunks, its counter is
-- not 0, so that it cannot leave the loop.
pub waiting_progress :
    (n : ℕ) (s : System) (i k : ℕ)
    → Reach n s
    → i < n
    → (s.pc i ≡ waiting k) ⊎ (s.pc i ≡ polling k)
    → ((k ≡ 1)
        × (((s.counters i ≡ 0) × (s.in_flight i ≡ 0) × ((j l : ℕ) → j < n → s.pc j ≢ polled l i))
            ⊎ ((s.counters i ≢ 0)
                × ((1 ≤ s.in_flight i) ⊎ ((j : ℕ) × (l : ℕ) × (j < n) × (s.pc j ≡ polled l i))))))
      ⊎ ((2 ≤ k) × (s.counters i ≢ 0))
waiting_progress n s i k r lt at =
    let ok = Reach-Counts r in
    let left : due (s.pc i) ≡ k - 1 = elim at [ inl e ↦ ap due e | inr e ↦ ap due e ] in
    let stored : asked (s.pc i) ≡ k = elim at [ inl e ↦ ap asked e | inr e ↦ ap asked e ] in
    let exact = ok.exact i lt in
    let asks = ok.asks i in
    elim (Bool-cases (ltb 1 k)) [
      | inl several ↦ inr (ground arith, λ z. ground (arith, z))
      | inr single ↦ inl (ground arith, one_asked n s i lt (ground arith))
    ]
