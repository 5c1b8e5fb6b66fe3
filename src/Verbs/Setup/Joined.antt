-- ===== src/Verbs/Setup/Joined.antt =====
-- Init of MemoryPool where every peer answers.
use rabia_sandbox.Base.{
  ℕ, suc, List, [], ◌∷◌, Option, none, some, true, false, ◌==◌, update, update_hit, ◌≡◌, ◌≢◌, inl,
  inr, refl, sym, ap, subst, ◌∙◌, arith, Option-cases,
}
use rabia_sandbox.Status.{ok, unavailable}
use rabia_sandbox.Manager.{
  Manager, Connection, Calls, event, event_established, event_rejected, Polled, connect, connect_to,
  connect_events, on_established, on_failed, get_connection, release, emplace, destroy_ep,
  next_backoff,
}
use rabia_sandbox.Manager.Invariant.{joined, emplace_absent}
use rabia_sandbox.Manager.Requests.{acquire_free, unlocked}
use rabia_sandbox.Verbs.Setup.{SetupCalls, connect_tries, connect_all}

-- The peer takes the connection on.
pub record Succeeds (a : Calls) : Type 0 where
  pub resolved : a.resolved ≡ true
  pub created : a.created ≡ true
  pub connecting : a.connecting ≡ true
  pub configured : a.configured ≡ true
  pub rest : List Polled
  pub events : a.events ≡ event event_established true ∷ rest

-- The peer rejects it, as one does that connects at the same time.
pub record Turned (a : Calls) : Type 0 where
  pub resolved : a.resolved ≡ true
  pub created : a.created ≡ true
  pub connecting : a.connecting ≡ true
  pub rest : List Polled
  pub events : a.events ≡ event event_rejected true ∷ rest

-- Some attempts are rejected, and then one succeeds.
pub data Attempts : List Calls → Type 0 where
  accepted : {a : Calls} {more : List Calls} → Succeeds a → Attempts (a ∷ more)
  turned : {a : Calls} {more : List Calls} → Turned a → Attempts more → Attempts (a ∷ more)

-- What a `Connect` leaves of the manager.
pub record Goes (m m' : Manager) : Type 0 where
  pub free : m'.mu ≡ none
  pub same_id : m'.my_id ≡ m.my_id
  pub same_accepting : m'.accepting ≡ m.accepting
  pub keeps : (q : ℕ) (c : Connection) → m.established q ≡ some c → m'.established q ≡ some c

connected :
    (m : Manager) (p : ℕ) (a : Calls)
    → (p == m.my_id) ≡ false
    → m.established p ≡ none
    → Succeeds a
    → connect_to m p a
      ≡ some (ok, (emplace m p a.endpoint).established p, release (emplace m p a.endpoint))
unfolding connect_to connect_events on_established
connected m p a away absent good =
    let settled : connect_events m p a (event event_established true ∷ good.rest)
        ≡ some (ok, (emplace m p a.endpoint).established p, release (emplace m p a.endpoint)) =
      rw (on_established, absent) (rw good.configured refl) in
    rw (connect_to, good.resolved)
      (rw good.created (rw away (rw good.connecting (rw good.events settled))))

rejected :
    (m : Manager) (p : ℕ) (a : Calls)
    → (p == m.my_id) ≡ false
    → Turned a
    → connect_to m p a ≡ some (on_failed m a.endpoint unavailable)
unfolding connect_to connect_events
rejected m p a away good =
    rw (connect_to, good.resolved)
      (rw good.created (rw away (rw good.connecting (rw good.events refl))))

connect-Succeeds :
    (fuel : ℕ) (m : Manager) (p : ℕ) (a : Calls)
    → m.mu ≡ none
    → p ≢ m.my_id
    → Succeeds a
    → (c : Connection) × (m' : Manager) × (connect (suc fuel) m p a ≡ some (ok, some c, m'))
      × Goes m m'
      × (m'.established p ≡ some c)
unfolding connect connect_to connect_events on_established
connect-Succeeds fuel m p a free other good =
    let m₁ = record m { mu = some m.my_id } in
    let away : (p == m.my_id) ≡ false = ground arith in
    elim (Option-cases (m.established p)) [
      | inr (c, there) ↦ (
        c,
        release m₁,
        rw (acquire_free fuel m m.my_id free) (rw there refl),
        record { free = refl; same_id = refl; same_accepting = refl; keeps = λ q d e. e },
        there,
      )
      | inl absent ↦
          let c = joined m p a.endpoint in
          let m' = record m { mu = none; established = update m.established p (some c) } in
          (
            c,
            m',
            rw (acquire_free fuel m m.my_id free) (
                rw absent (
                  connected m₁ p a away absent good
                  ∙ ap (λ (x : Manager). some (ok, x.established p, release x))
                      (emplace_absent m₁ p a.endpoint absent)
                  ∙ ap (λ (x : Option Connection). some (ok, x, m'))
                      (update_hit m.established p p (some c) refl))),
            record {
              free = refl;
              same_id = refl;
              same_accepting = refl;
              keeps = λ q d e. ground arith;
            },
            update_hit m.established p p (some c) refl,
          )
    ]

connect-Turned :
    (fuel : ℕ) (m : Manager) (p : ℕ) (a : Calls)
    → m.mu ≡ none
    → p ≢ m.my_id
    → m.established p ≡ none
    → Turned a
    → (m' : Manager) × (connect (suc fuel) m p a ≡ some (unavailable, none, m'))
      × Goes m m'
      × (m'.established p ≡ none)
unfolding connect connect_to connect_events on_failed
connect-Turned fuel m p a free other absent good =
    let away : (p == m.my_id) ≡ false = ground arith in
    (
      destroy_ep (record m { mu = none; backoff_us = next_backoff m.my_id m.backoff_us })
          a.endpoint,
      rw (acquire_free fuel m m.my_id free) (
          rw absent
            (rejected (record m { mu = some m.my_id }) p a away good ∙ unfold on_failed in refl)),
      record { free = refl; same_id = refl; same_accepting = refl; keeps = λ q d e. e },
      absent,
    )

pub get_connection_there :
    (fuel : ℕ) (m : Manager) (p : ℕ) (c : Connection)
    → m.mu ≡ none
    → m.established p ≡ some c
    → get_connection (suc fuel) m p ≡ some (ok, some c, m)
unfolding get_connection
get_connection_there fuel m p c free there =
    rw (acquire_free fuel m m.my_id free)
      (rw there (ap (λ (x : Manager). some (ok, some c, x)) (unlocked m m.my_id free)))

-- A `Connect` to a peer that is in the table gives what is there.
connect_there :
    (fuel : ℕ) (m : Manager) (p : ℕ) (a : Calls) (c : Connection)
    → m.mu ≡ none
    → m.established p ≡ some c
    → (m' : Manager) × (connect (suc fuel) m p a ≡ some (ok, some c, m'))
      × Goes m m'
      × (m'.established p ≡ some c)
unfolding connect
connect_there fuel m p a c free there = (
  release (record m { mu = some m.my_id }),
  rw (acquire_free fuel m m.my_id free) (rw there refl),
  record { free = refl; same_id = refl; same_accepting = refl; keeps = λ q d e. e },
  there,
)

Goes-trans : (m m' m'' : Manager) → Goes m m' → Goes m' m'' → Goes m m''
Goes-trans m m' m'' first second = record {
  free = second.free;
  same_id = second.same_id ∙ first.same_id;
  same_accepting = second.same_accepting ∙ first.same_accepting;
  keeps = λ q c e. second.keeps q c (first.keeps q c e);
}

tries_joined :
    (fuel : ℕ) (m : Manager) (p : ℕ) (l : List Calls)
    → m.mu ≡ none
    → p ≢ m.my_id
    → Attempts l
    → (c : Connection) × (m' : Manager) × (connect_tries (suc fuel) m p l ≡ some (ok, some c, m'))
      × Goes m m'
      × (m'.established p ≡ some c)
unfolding connect_tries
tries_joined fuel m p [] free other none_tried = elim none_tried [ ]
tries_joined fuel m p (a ∷ more) free other (accepted good) =
    let (c, m', run, goes, there) = connect-Succeeds fuel m p a free other good in
    (c, m', rw run refl, goes, there)
tries_joined fuel m p (a ∷ more) free other (turned bad next) =
    elim (Option-cases (m.established p)) [
      | inr (c, known) ↦
          let (m', run, goes, there) = connect_there fuel m p a c free known in
          (c, m', rw run refl, goes, there)
      | inl absent ↦
          let (m', run, goes, _) = connect-Turned fuel m p a free other absent bad in
          let (c, m'', rest, goes', there) =
            tries_joined fuel m' p more goes.free (λ e. other (e ∙ goes.same_id)) next in
          (c, m'', rw run rest, Goes-trans m m' m'' goes goes', there)
    ]

-- Something holds of every peer.
pub data Every (P : ℕ → Type 0) : List ℕ → Type 0 where
  none_left : Every P []
  also : {p : ℕ} {ps : List ℕ} → P p → Every P ps → Every P (p ∷ ps)

-- There is a connection to the peer.
abbrev pub HasPeer : Manager → ℕ → Type 0
HasPeer m p = (c : Connection) × (m.established p ≡ some c)

Every-map : (P Q : ℕ → Type 0) (ps : List ℕ) → ((p : ℕ) → P p → Q p) → Every P ps → Every Q ps
Every-map P Q [] f none_left = none_left
Every-map P Q (p ∷ ps) f (also h more) = also (f p h) (Every-map P Q ps f more)

-- A peer that is another machine, and takes the connection on in the end.
abbrev pub Answers : ℕ → SetupCalls → ℕ → Type 0
Answers me a p = (p ≢ me) × Attempts (a.attempts p)

pub all_joined :
    (fuel : ℕ) (m : Manager) (a : SetupCalls) (peers : List ℕ)
    → m.mu ≡ none
    → Every (Answers m.my_id a) peers
    → (m' : Manager) × (connect_all (suc fuel) m a peers ≡ some (ok, m'))
      × Goes m m'
      × Every (HasPeer m') peers
unfolding connect_all
all_joined fuel m a [] free none_left = (
  m,
  refl,
  record { free = free; same_id = refl; same_accepting = refl; keeps = λ q c e. e },
  none_left,
)
all_joined fuel m a (p ∷ peers) free (also (other, tries) more) =
    let (c, m', run, goes, there) = tries_joined fuel m p (a.attempts p) free other tries in
    let (m'', rest, goes', joined_rest) =
      all_joined fuel m' a peers goes.free
        (subst (λ (me : ℕ). Every (Answers me a) peers) (sym goes.same_id) more) in
    (m'', rw run rest, Goes-trans m m' m'' goes goes', also (c, goes'.keeps p c there) joined_rest)
