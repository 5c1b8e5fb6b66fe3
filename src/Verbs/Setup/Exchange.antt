-- ===== src/Verbs/Setup/Exchange.antt =====
-- Init of MemoryPool: the keys that the machines exchange once they are connected.
use rabia_sandbox.Base.{
  ℕ, suc, ◌+◌, ◌^◌, ◌<◌, List, [], ◌∷◌, none, some, Bool, true, false, length, ◌==◌, ==_iff,
  if◌then◌else◌, update, ◌≡◌, inl, inr, refl, sym, ap, subst, ◌∙◌, arith, Bool-cases, Option-cases,
}
use rabia_sandbox.Status.{ok, internal_error}
use rabia_sandbox.Manager.{Manager, start}
use rabia_sandbox.Messenger.{Messenger, success, wait}
use rabia_sandbox.Channel.{Proto, send, deliver}
use rabia_sandbox.Channel.Delivery.{sent, sends}
use rabia_sandbox.Pool.Regions.{RdmaMemory, find_region, default_id}
use rabia_sandbox.Pool.Regions.Laws.{rdma_memory-IsMemory}
use rabia_sandbox.Pool.Resource.{Resource}
use rabia_sandbox.Verbs.{ConnInfo, at}
use rabia_sandbox.Verbs.Setup.{
  RemoteObject, SetupCalls, Setup, send_all, emplace_info, collect_all, fresh_resource,
  rdma_memory_resource, exchange, after_start, setup,
}
use rabia_sandbox.Verbs.Setup.Joined.{
  Every, none_left, also, HasPeer, Answers, all_joined, get_connection_there,
}

started_lem :
    (m : Manager) → m.accepting ≡ false → start m true ≡ (ok, record m { accepting = true })
unfolding start
started_lem m stopped =
    ap (λ (b : Bool). if b then (internal_error, m) else (ok, record m { accepting = true }))
      stopped

-- The memory of a capacity that is small enough.
made_resource :
    (a : SetupCalls) (capacity raw : ℕ)
    → capacity + 8 < 2 ^ 31
    → a.allocation ≡ some raw
    → a.registered ≡ true
    → (m : RdmaMemory) × (r : Resource) × (rdma_memory_resource (capacity + 8) a ≡ some (m, r))
      × (find_region default_id m.memory_regions
          ≡ some (record { base = raw; length = capacity + 8 }))
unfolding rdma_memory_resource
made_resource a capacity raw small allocated registered =
    elim (rdma_memory-IsMemory (capacity + 8) raw a.found (omega arith)) [
      | inl (_, m, run, good, region) ↦ (
        m,
        fresh_resource (capacity + 8) a.contents m,
        rw allocated (rw registered (rw run refl)),
        region,
      )
      | inr (large, _) ↦ absurd (omega (arith, small, large))
    ]

module _ ⦃proto : Proto RemoteObject⦄ (a : SetupCalls) (theirs : ℕ → RemoteObject) where
  -- What is to be known of a peer.
  abbrev pub info : ℕ → ConnInfo
  info p = record { rkey = (theirs p).rkey; lkey = a.lkey }

  -- The message of every peer is delivered, whatever the messenger is like before.
  abbrev pub Delivers : Type 0
  Delivers =
      (p : ℕ) (x : Messenger)
      → (x' : Messenger) × (deliver (a.arrive p x) (a.completions p)
          ≡ some (ok, some (theirs p), x'))

  -- The calls of Send succeed for every peer.
  abbrev pub Sends : Type 0
  Sends = (p : ℕ) → (a.posted p ≡ true) × (wait (a.polls p) ≡ some success)

  sent_all :
      (fuel : ℕ) (s : Setup) (rm : RemoteObject) (peers : List ℕ)
      → s.manager.mu ≡ none
      → length (proto.serialize rm) < 256
      → Sends
      → Every (HasPeer s.manager) peers
      → (channels : ℕ → Messenger) × (send_all (suc fuel) s rm a peers
          ≡ some (ok, record s { channels = channels }))
  unfolding send_all
  sent_all fuel s rm [] free short posts none_left = (s.channels, refl)
  sent_all fuel s rm (p ∷ peers) free short posts (also (c, there) more) =
      let (posted, done) = posts p in
      let x' = sent (s.channels c.endpoint) (proto.serialize rm) in
      let step : send (s.channels c.endpoint) rm (a.posted p) (a.polls p) ≡ some (ok, x') =
        rw posted (sends (s.channels c.endpoint) rm (a.polls p) short done) in
      let (channels, rest) =
        sent_all fuel (record s { channels = update s.channels c.endpoint x' }) rm peers free short
          posts more in
      (channels, rw (get_connection_there fuel s.manager p c free there) (rw step rest))

  -- The keys that are known are those that the peers sent.
  abbrev pub Right : List (ℕ × ConnInfo) → Type 0
  Right l = (q : ℕ) (i : ConnInfo) → at q l ≡ some i → i ≡ info q

  added-Right :
      (p : ℕ) (l : List (ℕ × ConnInfo))
      → Right l
      → at p l ≡ none
      → Right ((p, info p) ∷ l)
        × (at p ((p, info p) ∷ l) ≡ some (info p))
        × ((q : ℕ) → at q l ≡ some (info q) → at q ((p, info p) ∷ l) ≡ some (info q))
  unfolding at
  added-Right p l right absent = (
    (λ q i e. elim (Bool-cases (p == q)) [
      | inl same ↦
          let at_q : some (info p) ≡ some i = sym (rw same refl) ∙ e in
          let here : i ≡ info p = cc in here ∙ ap info ((==_iff p q).0 same)
      | inr other ↦ right q i (sym (rw other refl) ∙ e)
    ]),
    ground arith,
    λ q e. elim (Bool-cases (p == q)) [
      | inl same ↦ let there : p ≡ q = (==_iff p q).0 same in rw same (ap some (ap info there))
      | inr other ↦ rw other e
    ],
  )

  emplace-Right :
      (p : ℕ) (l : List (ℕ × ConnInfo))
      → Right l
      → Right (emplace_info p (info p) l)
        × (at p (emplace_info p (info p) l) ≡ some (info p))
        × ((q : ℕ) → at q l ≡ some (info q) → at q (emplace_info p (info p) l) ≡ some (info q))
  unfolding emplace_info
  emplace-Right p l right = elim (Option-cases (at p l)) [
    | inr (i, there) ↦
        let stays : emplace_info p (info p) l ≡ l = rw (emplace_info, there) refl in
        subst
          (λ (x : List (ℕ × ConnInfo)).
            Right x
            × (at p x ≡ some (info p))
            × ((q : ℕ) → at q l ≡ some (info q) → at q x ≡ some (info q)))
          (sym stays) (right, there ∙ ap some (right p i there), λ q e. e)
    | inl absent ↦
        let new : emplace_info p (info p) l ≡ (p, info p) ∷ l = rw (emplace_info, absent) refl in
        subst
          (λ (x : List (ℕ × ConnInfo)).
            Right x
            × (at p x ≡ some (info p))
            × ((q : ℕ) → at q l ≡ some (info q) → at q x ≡ some (info q)))
          (sym new) (added-Right p l right absent)
  ]

  nothing-Right : (l : List (ℕ × ConnInfo)) → l ≡ [] → Right l
  unfolding at
  nothing-Right l e = subst Right (sym e) (λ q i absurd_there. cc)

  collected :
      (fuel : ℕ) (s : Setup) (peers : List ℕ)
      → s.manager.mu ≡ none
      → Delivers
      → Right s.conn_info
      → Every (HasPeer s.manager) peers
      → (channels : ℕ → Messenger) × (l : List (ℕ × ConnInfo)) × (collect_all (suc fuel) s a peers
          ≡ some (ok, record s { channels = channels; conn_info = l }))
        × ((q : ℕ) → at q s.conn_info ≡ some (info q) → at q l ≡ some (info q))
        × Every (λ p. at p l ≡ some (info p)) peers
  unfolding collect_all
  collected fuel s [] free arrives right none_left =
      (s.channels, s.conn_info, refl, (λ q e. e), none_left)
  collected fuel s (p ∷ peers) free arrives right (also (c, there) more) =
      let (x', step) = arrives p (s.channels c.endpoint) in
      let (right', here, kept) = emplace-Right p s.conn_info right in
      let s' : Setup = record s {
        channels = update s.channels c.endpoint x';
        conn_info = emplace_info p (info p) s.conn_info;
      } in
      let (channels, l, rest, keeps, known) = collected fuel s' peers free arrives right' more in
      (
        channels,
        l,
        rw (get_connection_there fuel s.manager p c free there) (rw step rest),
        (λ q e. keeps q (kept q e)),
        also (keeps p here) known,
      )

  -- Init of a machine that has not started yet, with the lock free and no keys known, where the capacity and
  -- the 8 bytes that are added to it stay below 2 ^ 31, the memory can be allocated and registered, the broker
  -- can be created, every peer is another machine and takes the connection on after some attempts that it
  -- rejects, the calls of Send succeed with a message of less than 256 bytes, and the message of every peer
  -- is delivered: Init returns Ok, and one try to get the lock is enough each time. Then the default region is
  -- the whole memory, there is a connection to every peer, and the keys that are known for it are the remote
  -- key that it sent and the local one.
  pub setup-Every :
      (fuel : ℕ) (s : Setup) (capacity raw : ℕ) (peers : List ℕ)
      → s.manager.accepting ≡ false
      → s.manager.mu ≡ none
      → s.conn_info ≡ []
      → capacity + 8 < 2 ^ 31
      → a.allocation ≡ some raw
      → a.registered ≡ true
      → a.created ≡ true
      → Every (Answers s.manager.my_id a) peers
      → length (proto.serialize (record { rkey = a.rkey; raddr = raw })) < 256
      → Sends
      → Delivers
      → (s' : Setup) × (m : RdmaMemory) × (r : Resource) × (setup (suc fuel) s capacity a peers
          ≡ some (ok, s'))
        × (s'.resource ≡ some (m, r))
        × (find_region default_id m.memory_regions
            ≡ some (record { base = raw; length = capacity + 8 }))
        × Every (HasPeer s'.manager) peers
        × Every (λ p. at p s'.conn_info ≡ some (info p)) peers
        × (s'.manager.mu ≡ none)
  unfolding setup after_start
  setup-Every fuel s capacity raw peers stopped free unknown small allocated registered created
        answers short posts arrives =
      let (m', r, makes, region) = made_resource a capacity raw small allocated registered in
      let m₀ = record s.manager { accepting = true } in
      let (m, joins, goes, there) = all_joined fuel m₀ a peers free answers in
      let rm : RemoteObject = record { rkey = a.rkey; raddr = raw } in
      let joined = record s { manager = m; resource = some (m', r) } in
      let (channels, sends_run) = sent_all fuel joined rm peers goes.free short posts there in
      let (channels', l, gets, _, known) =
        collected fuel (record joined { channels = channels }) peers goes.free arrives
          (nothing-Right s.conn_info unknown) there in
      (
        record joined { channels = channels'; conn_info = l },
        m',
        r,
        ap (after_start (suc fuel) s capacity a peers)
              (ap (start s.manager) created ∙ started_lem s.manager stopped)
            ∙ rw makes (rw region (unfold exchange in rw joins (rw sends_run gets))),
        refl,
        region,
        there,
        known,
        goes.free,
      )
