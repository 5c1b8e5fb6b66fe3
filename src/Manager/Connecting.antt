-- ===== src/Manager/Connecting.antt =====
-- Connect.
use rabia_sandbox.Base.{
  ℕ, suc, List, [], ◌∷◌, Option, none, some, Bool, true, false, ◌≡◌, ◌≢◌, ◌⊎◌, refl, sym, ap, subst,
  update, update_hit, ◌==◌, ==_iff, inl, inr, Option-cases, Bool-cases, ◌∙◌,
}
use rabia_sandbox.Status.{Status, ok, internal_error, unavailable}
use rabia_sandbox.Manager.{
  Manager, Connection, Calls, Polled, retry, broken, event, event_established, event_addr_resolved,
  event_rejected, event_other, release, emplace, on_established, on_failed, connect_events,
  connect_loopback, connect_to, connect, next_backoff,
}
use rabia_sandbox.Manager.Invariant.{
  IsManager, Unused, joined, emplace_absent, emplace-IsManager, destroy_ep-IsManager,
}
use rabia_sandbox.Manager.Requests.{acquire_free, acquire_own}

-- The events come to an end of the loop: one of them is not an address that is resolved, or is not
-- acknowledged.
unfoldable pub settles : List Polled → Bool
settles [] = false
settles (retry ∷ ps) = settles ps
settles (broken ∷ ps) = false
settles (event e false ∷ ps) = true
settles (event event_addr_resolved true ∷ ps) = settles ps
settles (event e true ∷ ps) = true

-- What a `Connect` to a peer leaves: the connection in the table, the lock free; or an error, and the
-- table as it was.
abbrev pub Ends : Manager → ℕ → Status → Option Connection → Manager → Type 0
Ends m peer s c m' =
    IsManager m'
    × (((s ≡ ok)
          × (m'.mu ≡ none)
          × ((d : Connection) × (c ≡ some d) × (m'.established peer ≡ some d)))
        ⊎ ((s ≢ ok) × (c ≡ none) × (m'.established ≡ m.established)))

abbrev pub Returns : Manager → ℕ → Option (Status × Option Connection × Manager) → Type 0
Returns m peer r =
    (s : Status) × (c : Option Connection) × (m' : Manager) × (r ≡ some (s, c, m'))
    × Ends m peer s c m'

-- The lock and the backoff are no part of what is well-formed.
relock :
    (m : Manager) (l : Option ℕ) (b : ℕ)
    → IsManager m
    → IsManager (record m { mu = l; backoff_us = b })
relock m l b good = record { own = good.own; single = good.single }

fails : (m : Manager) (peer : ℕ) → IsManager m → Returns m peer (some (internal_error, none, m))
fails m peer good = (internal_error, none, m, refl, (good, inr ((λ e. cc), refl, refl)))

on_failed-Ends :
    (m : Manager) (peer i : ℕ) (s : Status)
    → IsManager m
    → Unused m i
    → s ≢ ok
    → Returns m peer (some (on_failed m i s))
unfolding on_failed
on_failed-Ends m peer i s good unused wrong =
    let b = next_backoff m.my_id m.backoff_us in
    (
      s,
      none,
      _,
      refl,
      (destroy_ep-IsManager _ i (relock m none b good) unused, inr (wrong, refl, refl)),
    )

-- A new connection, and the lock given back.
joins :
    (m : Manager) (peer i : ℕ)
    → IsManager m
    → Unused m i
    → m.destroyed i ≡ false
    → m.established peer ≡ none
    → Returns m peer (some (ok, (emplace m peer i).established peer, release (emplace m peer i)))
joins m peer i good unused live absent =
    let m' = record m { established = update m.established peer (some (joined m peer i)) } in
    let e = emplace_absent m peer i absent in
    (
      ok,
      some (joined m peer i),
      release m',
      ap (λ (x : Manager). some (ok, x.established peer, release x)) e
          ∙ ap (λ (x : Option Connection). some (ok, x, release m'))
              (update_hit m.established peer peer (some (joined m peer i)) refl),
      (
        relock m' none m.backoff_us
            (subst IsManager e (emplace-IsManager m peer i good unused live)),
        inl (
          refl,
          refl,
          (joined m peer i, refl, update_hit m.established peer peer (some (joined m peer i)) refl),
        ),
      ),
    )

on_established-Ends :
    (m : Manager) (peer : ℕ) (a : Calls) (ps : List Polled)
    → IsManager m
    → Unused m a.endpoint
    → m.destroyed a.endpoint ≡ false
    → m.established peer ≡ none
    → Returns m peer (on_established m peer a ps)
unfolding on_established
on_established-Ends m peer a ps good unused live absent = elim (Bool-cases a.configured) [
  | inl fine ↦
      rw (on_established, absent) (rw fine (joins m peer a.endpoint good unused live absent))
  | inr bad ↦ rw (on_established, absent) (rw bad (fails m peer good))
]

connect_events-Ends :
    (m : Manager) (peer : ℕ) (a : Calls) (ps : List Polled)
    → IsManager m
    → Unused m a.endpoint
    → m.destroyed a.endpoint ≡ false
    → m.established peer ≡ none
    → settles ps ≡ true
    → Returns m peer (connect_events m peer a ps)
unfolding connect_events settles
connect_events-Ends m peer a [] good unused live absent ends = cc
connect_events-Ends m peer a (retry ∷ ps) good unused live absent ends =
    connect_events-Ends m peer a ps good unused live absent ends
connect_events-Ends m peer a (broken ∷ ps) good unused live absent ends = cc
connect_events-Ends m peer a (event e false ∷ ps) good unused live absent ends = fails m peer good
connect_events-Ends m peer a (event event_established true ∷ ps) good unused live absent ends =
    on_established-Ends m peer a ps good unused live absent
connect_events-Ends m peer a (event event_addr_resolved true ∷ ps) good unused live absent ends =
    connect_events-Ends m peer a ps good unused live absent ends
connect_events-Ends m peer a (event event_rejected true ∷ ps) good unused live absent ends =
    on_failed-Ends m peer a.endpoint unavailable good unused (λ e. cc)
connect_events-Ends m peer a (event event_other true ∷ ps) good unused live absent ends =
    on_failed-Ends m peer a.endpoint internal_error good unused (λ e. cc)

connect_loopback-Ends :
    (m : Manager) (a : Calls)
    → IsManager m
    → Unused m a.endpoint
    → m.destroyed a.endpoint ≡ false
    → m.established m.my_id ≡ none
    → Returns m m.my_id (connect_loopback m a)
unfolding connect_loopback
connect_loopback-Ends m a good unused live absent = elim (Bool-cases a.looped) [
  | inl fine ↦
      rw (connect_loopback, fine) (rw absent (joins m m.my_id a.endpoint good unused live absent))
  | inr bad ↦ rw (connect_loopback, bad) (fails m m.my_id good)
]

connect_to-Ends :
    (m : Manager) (peer : ℕ) (a : Calls)
    → IsManager m
    → Unused m a.endpoint
    → m.destroyed a.endpoint ≡ false
    → m.established peer ≡ none
    → settles a.events ≡ true
    → Returns m peer (connect_to m peer a)
unfolding connect_to connect_loopback connect_events on_established
connect_to-Ends m peer a good unused live absent ends = elim (Bool-cases a.resolved) [
  | inr bad ↦ rw (connect_to, bad) (fails m peer good)
  | inl fine₁ ↦ elim (Bool-cases a.created) [
    | inr bad ↦
        rw (connect_to, fine₁)
          (rw bad (
            internal_error,
            none,
            release m,
            refl,
            (relock m none m.backoff_us good, inr ((λ e. cc), refl, refl)),
          ))
    | inl fine₂ ↦ elim (Bool-cases (peer == m.my_id)) [
      | inl self ↦
          let e = (==_iff peer m.my_id).0 self in
          rw (connect_to, fine₁)
            (rw (fine₂, self)
              (subst (λ (p : ℕ). Returns m p (connect_loopback m a)) (sym e)
                (connect_loopback-Ends m a good unused live
                  (subst (λ (p : ℕ). m.established p ≡ none) e absent))))
      | inr other ↦ elim (Bool-cases a.connecting) [
        | inl fine₃ ↦
            rw (connect_to, fine₁)
              (rw (fine₂, other)
                (rw fine₃ (connect_events-Ends m peer a a.events good unused live absent ends)))
        | inr bad ↦ rw (connect_to, fine₁) (rw (fine₂, other) (rw bad (fails m peer good)))
      ]
    ]
  ]
]

-- `Connect` to any peer, where the lock is free or another `Connect` of this machine has it, and the
-- events come to an end, returns. Either it returns Ok with the connection that is in the table, and the
-- lock is free, or it returns an error and no connection, and the table is as it was. The table stays
-- well-formed.
pub connect-Ends :
    (fuel : ℕ) (m : Manager) (peer : ℕ) (a : Calls)
    → IsManager m
    → Unused m a.endpoint
    → m.destroyed a.endpoint ≡ false
    → settles a.events ≡ true
    → (m.mu ≡ none) ⊎ (m.mu ≡ some m.my_id)
    → (s : Status) × (c : Option Connection) × (m' : Manager) × (connect (suc fuel) m peer a
        ≡ some (s, c, m'))
      × Ends m peer s c m'
unfolding connect
connect-Ends fuel m peer a good unused live ends (inl free) =
    let m₁ = record m { mu = some m.my_id } in
    elim (Option-cases (m.established peer)) [
      | inr (c, there) ↦ (
        ok,
        some c,
        release m₁,
        rw (acquire_free fuel m m.my_id free) (rw there refl),
        (relock m none m.backoff_us good, inl (refl, refl, (c, refl, there))),
      )
      | inl absent ↦
          let (s, c, m', run, done) =
            connect_to-Ends m₁ peer a (relock m (some m.my_id) m.backoff_us good) unused live absent
              ends in
          (s, c, m', rw (acquire_free fuel m m.my_id free) (rw absent run), done)
    ]
connect-Ends fuel m peer a good unused live ends (inr own) = (
  unavailable,
  none,
  m,
  rw (acquire_own fuel m m.my_id own) refl,
  (good, inr ((λ e. cc), refl, refl)),
)
