-- ===== src/Manager/Requests.antt =====
-- The handlers that the broker calls, OnConnectRequest and OnDisconnect.
use rabia_sandbox.Base.{
  ℕ, suc, Option, none, some, Bool, true, false, ◌≡◌, ◌≢◌, ◌⊎◌, refl, sym, ap, subst, arith, update,
  if◌then◌else◌, ◌==◌, ==_iff, inl, inr, Option-cases, Bool-cases, ◌∙◌,
}
use rabia_sandbox.Manager.{
  Manager, Connection, Verdict, accepted, rejected, acquire, release, destroy_ep, is_some, admit,
  answer, on_connect_request, on_disconnect, take_off,
}
use rabia_sandbox.Manager.Invariant.{
  IsManager, Unused, joined, emplace_absent, emplace-IsManager, destroy_ep-IsManager,
  erase-IsManager,
}

pub acquire_free :
    (fuel : ℕ) (m : Manager) (peer : ℕ)
    → m.mu ≡ none
    → acquire (suc fuel) m peer ≡ some (true, record m { mu = some peer })
unfolding acquire
acquire_free fuel m peer free = rw free refl

pub acquire_own :
    (fuel : ℕ) (m : Manager) (peer : ℕ)
    → m.mu ≡ some m.my_id
    → acquire (suc fuel) m peer ≡ some (false, m)
unfolding acquire
acquire_own fuel m peer own =
    let same : (m.my_id == m.my_id) ≡ true = ground arith in rw own (rw same refl)

-- The table of a machine with a new connection.
abbrev pub with_peer : Manager → ℕ → ℕ → Manager
with_peer m peer i = record m { established = update m.established peer (some (joined m peer i)) }

-- What the machine has afterwards where it takes the connection on, and where it does not.
abbrev pub Accepts : Manager → ℕ → ℕ → Manager → Type 0
Accepts m peer i m' =
    (m.mu ≡ none)
    × (m.established peer ≡ none)
    × (m.requested peer ≡ false)
    × (m' ≡ with_peer m peer i)

abbrev pub Rejects : Manager → ℕ → ℕ → Manager → Type 0
Rejects m peer i m' =
    ((m.mu ≡ some m.my_id) ⊎ (is_some (m.established peer) ≡ true) ⊎ (m.requested peer ≡ true))
    × (m' ≡ destroy_ep m i)

pub unlocked : (m : Manager) (peer : ℕ) → m.mu ≡ none → release (record m { mu = some peer }) ≡ m
unlocked m peer free = ap (λ (l : Option ℕ). record m { mu = l }) (sym free)

pub answer_accepts :
    (m : Manager) (peer i : ℕ)
    → m.mu ≡ none
    → m.established peer ≡ none
    → m.requested peer ≡ false
    → answer (record m { mu = some peer }) peer i true ≡ some (accepted, with_peer m peer i)
unfolding answer admit
answer_accepts m peer i free absent idle =
    rw (absent, idle)
      (ap (λ (x : Manager). some (accepted, release x))
          (emplace_absent (record m { mu = some peer }) peer i absent)
        ∙ ap (λ (x : Manager). some (accepted, x)) (unlocked (with_peer m peer i) peer free))

answer_free :
    (m : Manager) (peer i : ℕ)
    → m.mu ≡ none
    → (v : Verdict) × (m' : Manager) × (answer (record m { mu = some peer }) peer i true
        ≡ some (v, m'))
      × (((v ≡ accepted) × Accepts m peer i m') ⊎ ((v ≡ rejected) × Rejects m peer i m'))
unfolding answer admit
answer_free m peer i free =
    let m₁ = record m { mu = some peer } in
    let refused : some (rejected, release (destroy_ep m₁ i)) ≡ some (rejected, destroy_ep m i) =
      ap (λ (x : Manager). some (rejected, destroy_ep x i)) (unlocked m peer free) in
    elim (Option-cases (m.established peer)) [
      | inr (c, e) ↦
          (rejected, destroy_ep m i, rw e refused, inr (refl, (inr (inl (rw e refl)), refl)))
      | inl e ↦ elim (Bool-cases (m.requested peer)) [
        | inl asked ↦
            (rejected, destroy_ep m i, rw (e, asked) refused, inr (refl, (inr (inr asked), refl)))
        | inr idle ↦ (
          accepted,
          with_peer m peer i,
          answer_accepts m peer i free e idle,
          inl (refl, (free, e, idle, refl)),
        )
      ]
    ]

pub request_run :
    (fuel : ℕ) (m : Manager) (peer i : ℕ) (a : Bool × Manager)
    → m.accepting ≡ true
    → peer ≢ m.my_id
    → acquire (suc fuel) m peer ≡ some a
    → on_connect_request (suc fuel) m peer i true
      ≡ (if a.0 then answer a.1 peer i true else some (rejected, destroy_ep a.1 i))
unfolding on_connect_request
request_run fuel m peer i a serving other lock = ground (arith, serving, other, lock)

-- A request of another machine, where the lock is free or a `Connect` of this machine has it, and the calls
-- of librdmacm succeed, is answered with the lock left as it was. It is accepted, and the connection put
-- into the table, exactly where the lock is free and no connection to the peer is there or asked for;
-- otherwise it is rejected, its endpoint destroyed and nothing else changed. The table stays well-formed.
pub on_connect_request-IsManager :
    (fuel : ℕ) (m : Manager) (peer i : ℕ)
    → IsManager m
    → Unused m i
    → m.destroyed i ≡ false
    → m.accepting ≡ true
    → peer ≢ m.my_id
    → (m.mu ≡ none) ⊎ (m.mu ≡ some m.my_id)
    → (v : Verdict) × (m' : Manager) × (on_connect_request (suc fuel) m peer i true ≡ some (v, m'))
      × IsManager m'
      × (((v ≡ accepted) × Accepts m peer i m') ⊎ ((v ≡ rejected) × Rejects m peer i m'))
on_connect_request-IsManager fuel m peer i ok unused live serving other (inl free) =
    let (v, m', run, what) = answer_free m peer i free in
    (
      v,
      m',
      request_run fuel m peer i (true, record m { mu = some peer }) serving other
            (acquire_free fuel m peer free)
          ∙ run,
      elim what [
        | inl (e, (free', absent, idle, there)) ↦
            subst IsManager (emplace_absent m peer i absent ∙ sym there)
              (emplace-IsManager m peer i ok unused live)
        | inr (e, (why, there)) ↦ subst IsManager (sym there) (destroy_ep-IsManager m i ok unused)
      ],
      what,
    )
on_connect_request-IsManager fuel m peer i ok unused live serving other (inr own) = (
  rejected,
  destroy_ep m i,
  request_run fuel m peer i (false, m) serving other (acquire_own fuel m peer own),
  destroy_ep-IsManager m i ok unused,
  inr (refl, (inl own, refl)),
)

-- The endpoint is the one of the connection to the peer, if any has it.
abbrev pub HasContext : Manager → ℕ → ℕ → Type 0
HasContext m peer i =
    (p : ℕ) (c : Connection) → m.established p ≡ some c → c.endpoint ≡ i → p ≡ peer

take_off_cases :
    (m : Manager) (peer i : ℕ)
    → ((c : Connection) × (m.established peer ≡ some c)
        × (c.endpoint ≡ i)
        × (take_off m peer i ≡ record m { established = update m.established peer none }))
      ⊎ (((c : Connection) → m.established peer ≡ some c → c.endpoint ≢ i)
          × (take_off m peer i ≡ m))
unfolding take_off
take_off_cases m peer i = elim (Option-cases (m.established peer)) [
  | inl e ↦ inr ((λ c there. cc), rw (take_off, e) refl)
  | inr (c, e) ↦ elim (Bool-cases (c.endpoint == i)) [
    | inl same ↦ inl (c, e, (==_iff c.endpoint i).0 same, rw (take_off, e) (rw same refl))
    | inr other ↦
        inr ((λ d there. ground (arith, e, there, other)), rw (take_off, e) (rw other refl))
  ]
]

-- A connection, if its endpoint is another one.
abbrev pub unless : ℕ → Option Connection → Option Connection
unless i none = none
unless i (some c) = if c.endpoint == i then none else some c

unless_other :
    (i : ℕ) (o : Option Connection)
    → ((c : Connection) → o ≡ some c → c.endpoint ≢ i)
    → unless i o ≡ o
unless_other i none other = refl
unless_other i (some c) other = ground (arith, other c refl)

-- With the lock free, a disconnection of an endpoint takes the connection that has it off the table, if
-- there is one, and no other. The endpoint is destroyed, the lock free again, and the table well-formed.
pub on_disconnect-IsManager :
    (fuel : ℕ) (m : Manager) (peer i : ℕ)
    → IsManager m
    → HasContext m peer i
    → m.mu ≡ none
    → (m' : Manager) × (on_disconnect (suc fuel) m peer i ≡ some m')
      × IsManager m'
      × (m'.mu ≡ none)
      × (m'.destroyed i ≡ true)
      × ((p : ℕ) → m'.established p ≡ unless i (m.established p))
      × (m' ≡ record m { established = m'.established; destroyed = update m.destroyed i true })
unfolding on_disconnect
on_disconnect-IsManager fuel m peer i ok own free =
    let m₁ = record m { mu = some peer } in
    elim (take_off_cases m₁ peer i) [
      | inl (c, there, same, e) ↦
          let left : (p : ℕ) → update m.established peer none p ≡ unless i (m.established p) = λ p.
            elim (Bool-cases (p == peer)) [
              | inl here ↦ ground (arith, here, there, same)
              | inr away ↦ rw away (
                  sym
                    (unless_other i (m.established p) (λ d h gone. ground (arith, own p d h gone))))
            ] in
          let m' = record m {
            established = update m.established peer none;
            destroyed = update m.destroyed i true;
          } in
          (
            m',
            rw (acquire_free fuel m peer free)
                (rw e (ap (λ (l : Option ℕ). some (record m' { mu = l })) (sym free))),
            destroy_ep-IsManager _ i (erase-IsManager m peer ok) (λ p d h. ground (arith, own p d)),
            free,
            ground arith,
            left,
            refl,
          )
      | inr (absent, e) ↦
          let unused : Unused m i = λ p d h here. ground (arith, own p d h here, absent d) in
          (
            destroy_ep m i,
            rw (acquire_free fuel m peer free) (
                rw e (ap (λ (l : Option ℕ). some (record (destroy_ep m i) { mu = l })) (sym free))),
            destroy_ep-IsManager m i ok unused,
            free,
            ground arith,
            (λ p. sym (unless_other i (m.established p) (λ d h. unused p d h))),
            refl,
          )
    ]

-- While a `Connect` of this machine holds the lock, a disconnection does not get it, but goes on: it works
-- on the table all the same, and then it unlocks the lock of the `Connect`.
pub on_disconnect_unlocks :
    (fuel : ℕ) (m : Manager) (peer i : ℕ) (c : Connection)
    → m.mu ≡ some m.my_id
    → m.established peer ≡ some c
    → c.endpoint ≡ i
    → (m' : Manager) × (on_disconnect (suc fuel) m peer i ≡ some m')
      × (m'.mu ≡ none)
      × (m'.established peer ≡ none)
unfolding on_disconnect take_off
on_disconnect_unlocks fuel m peer i c own there same =
    let here : (c.endpoint == i) ≡ true = ground (arith, same) in
    let gone = record m { established = update m.established peer none } in
    (
      destroy_ep (release gone) i,
      rw (acquire_own fuel m peer own) (rw (take_off, there) (rw here refl)),
      refl,
      ground arith,
    )
