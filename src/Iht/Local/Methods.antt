-- ===== src/Iht/Local/Methods.antt =====
-- `get` and `remove` of iht_carumap against the map.
use rabia_sandbox.Base.{
  ℕ, ◌+◌, ◌*◌, Option, none, some, ◌≡◌, refl, ◌∙◌, update_back, update_at, ◌>>=◌, update,
  update_self, arith, inl, inr, Option-cases, Bool-cases, subst, update_all, if◌then◌else◌,
}
use rabia_sandbox.Iht.Key.{Key}
use rabia_sandbox.Iht.Elist.{edge_swap}
use rabia_sandbox.Iht.Elist.Laws.{lookup, search_from-none, search_from-some, edge_swap-removes}
use rabia_sandbox.Iht.Local.{
  LockState, e_locked, e_unlocked, p_unlocked, Node, null, elist, plist, level_hash, get,
  get_bucket, remove, remove_bucket, acquire,
}
use rabia_sandbox.Iht.Local.Invariant.{view, IsBucket, IsBucket-cases, IsTable}

module _ {κ} {K : Type 0} {V : Type κ} ⦃key : Key K⦄ where
  get_bucket-view :
      (size : ℕ) (k : K) (n : Node K V) (depth count : ℕ)
      → IsBucket size e_unlocked n
      → get_bucket k n ≡ some (view n k depth count)
  unfolding get_bucket IsBucket view
  get_bucket-view size k null depth count h = refl
  get_bucket-view size k (plist bases locks) depth count h = absurd h
  get_bucket-view size k (elist e) depth count h = elim (Option-cases (lookup k e)) [
    | inl absent ↦ ground (arith, search_from-none 0 k e absent)
    | inr (v, there) ↦
        let (j, found, _, _) = search_from-some 0 k e v there in ground (arith, found)
  ]

  module _ (bases : ℕ → Node K V) (locks : ℕ → LockState) (k : K) (depth count : ℕ) where
    abbrev at : ℕ
    at = level_hash k (depth + 1) count

    get_free :
        locks at ≡ e_unlocked
        → get (plist bases locks) k depth count
          ≡ (get_bucket k (bases at) >>= λ found. some (plist bases locks, found))
    unfolding get acquire
    get_free l = ground (arith, update_back locks at e_locked e_unlocked l)

    get_down :
        locks at ≡ p_unlocked
        → get (plist bases locks) k depth count ≡ (
            get (bases at) k (depth + 1) (count * 2) >>= λ r.
            some (plist (update bases at r.0) locks, r.1))
    unfolding get acquire
    get_down l = ground (arith, update_at locks at p_unlocked l)

  -- `get` returns on every well-formed table, leaves it as it was, and gives the value of the map.
  pub get-view :
      (size : ℕ) (t : Node K V) (k : K) (depth count : ℕ)
      → IsTable size t
      → get t k depth count ≡ some (t, view t k depth count)
  unfolding view IsBucket
  get-view size null k depth count h = absurd h
  get-view size (elist e) k depth count h = absurd h
  get-view size (plist bases locks) k depth count h =
      let b = level_hash k (depth + 1) count in
      elim (IsBucket-cases size (locks b) (bases b) (h b)) [
        | inl l ↦
            get_free bases locks k depth count l
            ∙ rw (
                get_bucket-view size k (bases b) (depth + 1) (count * 2)
                  (subst (λ (x : LockState). IsBucket size x (bases b)) l (h b)))
        | inr (l, below) ↦
            get_down bases locks k depth count l
            ∙ rw (get-view size (bases b) k (depth + 1) (count * 2) below, update_self bases b)
      ]

  -- What a method that writes one bucket does to the map: `k` gets the value `w`, if any, and every
  -- other key keeps its own.
  abbrev pub Becomes : Node K V → Node K V → K → Option V → ℕ → ℕ → Type κ
  Becomes t t' k w depth count =
      (q : K) → view t' q depth count ≡ (if key.equal k q then w else view t q depth count)

  pub Becomes-plist :
      (bases : ℕ → Node K V) (locks locks' : ℕ → LockState) (n : Node K V) (k : K) (w : Option V)
      (depth count : ℕ)
      → Becomes (bases (level_hash k (depth + 1) count)) n k w (depth + 1) (count * 2)
      → Becomes
          (plist bases locks)
          (plist (update bases (level_hash k (depth + 1) count) n) locks')
          k
          w
          depth
          count
  unfolding view
  Becomes-plist bases locks locks' n k w depth count h q = elim (Bool-cases (key.equal k q)) [
    | inl same ↦ ground (arith, h q, (key.equal_iff k q).0 same)
    | inr other ↦ ground (arith, h q)
  ]

  pub IsTable-update :
      (size : ℕ) (bases : ℕ → Node K V) (locks : ℕ → LockState) (b : ℕ) (n : Node K V)
      → IsTable size (plist bases locks)
      → IsBucket size (locks b) n
      → IsTable size (plist (update bases b n) locks)
  unfolding IsBucket
  IsTable-update size bases locks b n h here =
      update_all (λ i m. IsBucket size (locks i) m) bases b n h here

  remove_bucket-view :
      (size : ℕ) (k : K) (n : Node K V) (depth count : ℕ)
      → IsBucket size e_unlocked n
      → (n' : Node K V) × (remove_bucket k n ≡ some (n', view n k depth count))
        × IsBucket size e_unlocked n'
        × Becomes n n' k none depth count
  unfolding remove_bucket IsBucket view
  remove_bucket-view size k (plist bases locks) depth count h = absurd h
  remove_bucket-view size k null depth count h = (null, refl, tt, λ q. ground arith)
  remove_bucket-view size k (elist e) depth count (u, few) = elim (Option-cases (lookup k e)) [
    | inl absent ↦ (
      elist e,
      ground (arith, search_from-none 0 k e absent),
      (u, few),
      λ q. ground (arith, key.equal_iff k q),
    )
    | inr (v, there) ↦
        let (j, found, _, slot) = search_from-some 0 k e v there in
        let (unique, shorter, gone) = edge_swap-removes k v e j slot u in
        (elist (edge_swap e j), ground (arith, found), (unique, omega arith), gone)
  ]

  module _ (bases : ℕ → Node K V) (locks : ℕ → LockState) (k : K) (depth count : ℕ) where
    remove_free :
        locks (at bases locks k depth count) ≡ e_unlocked
        → remove (plist bases locks) k depth count ≡ (
            remove_bucket k (bases (at bases locks k depth count)) >>= λ r.
            some (plist (update bases (at bases locks k depth count) r.0) locks, r.1))
    unfolding remove acquire
    remove_free l =
        ground (arith, update_back locks (at bases locks k depth count) e_locked e_unlocked l)

    remove_down :
        locks (at bases locks k depth count) ≡ p_unlocked
        → remove (plist bases locks) k depth count ≡ (
            remove (bases (at bases locks k depth count)) k (depth + 1) (count * 2) >>= λ r.
            some (plist (update bases (at bases locks k depth count) r.0) locks, r.1))
    unfolding remove acquire
    remove_down l = ground (arith, update_at locks (at bases locks k depth count) p_unlocked l)

  -- `remove` returns on every well-formed table, gives the value that the key had, keeps the invariant, and takes
  -- just that key out of the map.
  pub remove-view :
      (size : ℕ) (t : Node K V) (k : K) (depth count : ℕ)
      → IsTable size t
      → (t' : Node K V) × (remove t k depth count ≡ some (t', view t k depth count))
        × IsTable size t'
        × Becomes t t' k none depth count
  unfolding view IsBucket
  remove-view size null k depth count h = absurd h
  remove-view size (elist e) k depth count h = absurd h
  remove-view size (plist bases locks) k depth count h =
      let b = level_hash k (depth + 1) count in
      elim (IsBucket-cases size (locks b) (bases b) (h b)) [
        | inl l ↦
            let (n, runs, kept, change) =
              remove_bucket-view size k (bases b) (depth + 1) (count * 2)
                (subst (λ (x : LockState). IsBucket size x (bases b)) l (h b)) in
            (
              plist (update bases b n) locks,
              remove_free bases locks k depth count l ∙ rw runs,
              IsTable-update size bases locks b n h (rw l kept),
              Becomes-plist bases locks locks n k none depth count change,
            )
        | inr (l, below) ↦
            let (t', runs, kept, change) =
              remove-view size (bases b) k (depth + 1) (count * 2) below in
            (
              plist (update bases b t') locks,
              remove_down bases locks k depth count l ∙ rw runs,
              IsTable-update size bases locks b t' h (rw l kept),
              Becomes-plist bases locks locks t' k none depth count change,
            )
      ]
