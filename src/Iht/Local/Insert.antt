-- ===== src/Iht/Local/Insert.antt =====
-- `insert` of iht_carumap against the map, as long as no list has to be rehashed.
use rabia_sandbox.Base.{
  ℕ, zero, suc, ◌+◌, ◌*◌, ◌≤◌, ◌<◌, Option, none, some, length, ◌≡◌, ◌≢◌, ◌⊎◌, refl, ◌∙◌, update,
  update_back, update_at, ◌>>=◌, arith, inl, inr, Option-cases, subst, length-append, [], ◌∷◌,
}
use rabia_sandbox.Iht.Key.{Key}
use rabia_sandbox.Iht.Elist.{elist_insert}
use rabia_sandbox.Iht.Elist.Laws.{
  lookup, search_from-none, search_from-some, lookup-insert, insert-IsUnique, count_key,
}
use rabia_sandbox.Iht.Local.{
  LockState, e_locked, e_unlocked, p_unlocked, Node, null, elist, plist, level_hash, insert,
  insert_bucket, acquire, done,
}
use rabia_sandbox.Iht.Local.Invariant.{view, IsBucket, IsBucket-cases, IsTable}
use rabia_sandbox.Iht.Local.Methods.{Becomes, Becomes-plist, IsTable-update}

-- The value of the key afterwards: an old value stays.
abbrev pub kept {κ} : {V : Type κ} → Option V → V → V
kept none v = v
kept (some old) v = old

module _ {κ} {K : Type 0} {V : Type κ} ⦃key : Key K⦄ where
  -- The number of pairs in the list where the key belongs.
  unfoldable pub load : Node K V → K → ℕ → ℕ → ℕ
  load null k depth count = 0
  load (elist e) k depth count = length e
  load (plist bases locks) k depth count =
      load (bases (level_hash k (depth + 1) count)) k (depth + 1) (count * 2)

  -- The number of PLists on the way of a key.
  unfoldable pub levels : Node K V → K → ℕ → ℕ → ℕ
  levels null k depth count = 0
  levels (elist e) k depth count = 0
  levels (plist bases locks) k depth count =
      suc (levels (bases (level_hash k (depth + 1) count)) k (depth + 1) (count * 2))

  insert_bucket-view :
      (size : ℕ) (k : K) (v : V) (n : Node K V) (depth count : ℕ)
      → 1 ≤ size
      → IsBucket size e_unlocked n
      → (view n k depth count ≢ none) ⊎ (load n k depth count < size)
      → (n' : Node K V) × (insert_bucket size k v n ≡ some (done n' (view n k depth count)))
        × IsBucket size e_unlocked n'
        × Becomes n n' k (some (kept (view n k depth count) v)) depth count
  unfolding insert_bucket IsBucket view load elist_insert lookup
  insert_bucket-view size k v (plist bases locks) depth count pos h room = absurd h
  insert_bucket-view size k v null depth count pos h room = (
    elist ((k, v) ∷ []),
    refl,
    (insert-IsUnique k v [] refl (λ q. unfold count_key in omega arith), omega arith),
    λ q. refl,
  )
  insert_bucket-view size k v (elist e) depth count pos (u, few) room =
      elim (Option-cases (lookup k e)) [
        | inl absent ↦
            let fits : length e < size = elim room [ inl p ↦ absurd (p absent) | inr lt ↦ lt ] in
            (
              elist (elist_insert k v e),
              ground (arith, search_from-none 0 k e absent),
              (insert-IsUnique k v e absent u, omega (arith, length-append e ((k, v) ∷ []))),
              λ q. rw (lookup-insert k v e q absent, absent),
            )
        | inr (old, there) ↦
            let (j, found, _, _) = search_from-some 0 k e old there in
            (elist e, ground (arith, found), (u, few), λ q. ground (arith, key.equal_iff k q))
      ]

  module _ (fuel size : ℕ) (bases : ℕ → Node K V) (locks : ℕ → LockState) (k : K) (v : V)
      (depth count : ℕ) where
    abbrev at : ℕ
    at = level_hash k (depth + 1) count

    insert_free :
        (n : Node K V) (r : Option V)
        → locks at ≡ e_unlocked
        → insert_bucket size k v (bases at) ≡ some (done n r)
        → insert (suc fuel) size (plist bases locks) k v depth count
          ≡ some (plist (update bases at n) locks, r)
    unfolding insert acquire
    insert_free n r l e = ground (arith, update_back locks at e_locked e_unlocked l)

    insert_down :
        locks at ≡ p_unlocked
        → insert (suc fuel) size (plist bases locks) k v depth count ≡ (
            insert fuel size (bases at) k v (depth + 1) (count * 2) >>= λ r.
            some (plist (update bases at r.0) locks, r.1))
    unfolding insert acquire
    insert_down l = ground (arith, update_at locks at p_unlocked l)

  -- Where the key is present, or its list has room, `insert` returns with fuel for the PLists on the
  -- way. It gives the value that the key had, keeps the invariant, and maps the key to that value or,
  -- if there was none, to the new one; every other key keeps its value.
  pub insert-view :
      (fuel size : ℕ) (t : Node K V) (k : K) (v : V) (depth count : ℕ)
      → 1 ≤ size
      → levels t k depth count ≤ fuel
      → IsTable size t
      → (view t k depth count ≢ none) ⊎ (load t k depth count < size)
      → (t' : Node K V) × (insert fuel size t k v depth count ≡ some (t', view t k depth count))
        × IsTable size t'
        × Becomes t t' k (some (kept (view t k depth count) v)) depth count
  unfolding view IsBucket levels load
  insert-view fuel size null k v depth count pos enough h room = absurd h
  insert-view fuel size (elist e) k v depth count pos enough h room = absurd h
  insert-view zero size (plist bases locks) k v depth count pos enough h room = absurd (omega arith)
  insert-view (suc fuel) size (plist bases locks) k v depth count pos enough h room =
      let b = level_hash k (depth + 1) count in
      elim (IsBucket-cases size (locks b) (bases b) (h b)) [
        | inl l ↦
            let (n, runs, good, change) =
              insert_bucket-view size k v (bases b) (depth + 1) (count * 2) pos
                (subst (λ (x : LockState). IsBucket size x (bases b)) l (h b)) room in
            (
              plist (update bases b n) locks,
              insert_free fuel size bases locks k v depth count n _ l runs,
              IsTable-update size bases locks b n h (rw l good),
              Becomes-plist bases locks locks n k _ depth count change,
            )
        | inr (l, below) ↦
            let (t', runs, good, change) =
              insert-view fuel size (bases b) k v (depth + 1) (count * 2) pos (omega arith) below
                room in
            (
              plist (update bases b t') locks,
              insert_down fuel size bases locks k v depth count l ∙ rw runs,
              IsTable-update size bases locks b t' h (rw l good),
              Becomes-plist bases locks locks t' k _ depth count change,
            )
      ]
