-- ===== src/Iht/Local/Rehash.antt =====
-- What `rehash` of iht_carumap does to the map: it hashes with the level and the bucket count of the
-- parent, and the methods look in the child with the next level and twice the count.
use rabia_sandbox.Base.{
  ℕ, suc, ◌≤◌, ◌+◌, ◌*◌, length, update_twice, [], ◌∷◌, ◌++◌, none, false, ◌≡◌, ◌≢◌, refl, update,
  arith, if◌then◌else◌, inl, inr, ◌==◌, ==_iff, Bool-cases, ◌∙◌, ap,
}
use mathlib.Core.List.{append_assoc, append-nil}
use rabia_sandbox.Iht.Key.{Key}
use rabia_sandbox.Iht.Elist.{EList, elist_insert}
use rabia_sandbox.Iht.Elist.Laws.{lookup, search_from-none}
use rabia_sandbox.Iht.Local.{
  Node, null, elist, plist, level_hash, rehash, rehash_loop, place, LockState, e_locked, e_unlocked,
  p_unlocked, insert, insert_bucket, acquire,
}
use rabia_sandbox.Iht.Local.Invariant.{view}

module _ {κ} {K : Type 0} {V : Type κ} ⦃key : Key K⦄ where
  -- Every key of the list hashes to bucket `b`, as the keys of one bucket do.
  abbrev pub AllHash : (K → ℕ) → ℕ → EList K V → Type 0
  AllHash f b [] = Unit
  AllHash f b (p ∷ e) = (f p.0 ≡ b) × AllHash f b e

  abbrev contents : Node K V → EList K V
  contents null = []
  contents (elist e) = e
  contents (plist bases locks) = []

  loop_other :
      (source : EList K V) (pcount pdepth : ℕ) (bases : ℕ → Node K V) (b i : ℕ)
      → AllHash (λ k. level_hash k (pdepth + 1) pcount) b source
      → (i == b) ≡ false
      → rehash_loop source pcount pdepth bases i ≡ bases i
  unfolding rehash_loop
  loop_other [] pcount pdepth bases b i h ne = refl
  loop_other (p ∷ source) pcount pdepth bases b i h ne =
      loop_other source pcount pdepth _ b i h.1 ne ∙ ground arith

  -- The bucket that all keys hash to collects them in order.
  loop_home :
      (source acc : EList K V) (pcount pdepth : ℕ) (bases : ℕ → Node K V) (b : ℕ)
      → AllHash (λ k. level_hash k (pdepth + 1) pcount) b source
      → bases b ≡ elist acc
      → rehash_loop source pcount pdepth bases b ≡ elist (acc ++ source)
  unfolding rehash_loop place elist_insert
  loop_home [] acc pcount pdepth bases b h e = rw append-nil e
  loop_home (p ∷ source) acc pcount pdepth bases b h e =
      loop_home source (acc ++ p ∷ []) pcount pdepth _ b h.1 (ground (arith, h.0))
      ∙ rw (append_assoc acc (p ∷ []) source)

  -- Started on empty buckets, it holds the list itself.
  loop_fresh :
      (source : EList K V) (pcount pdepth b : ℕ)
      → AllHash (λ k. level_hash k (pdepth + 1) pcount) b source
      → (q : K) (depth count : ℕ)
      → view (rehash_loop source pcount pdepth (λ i. null) b) q depth count ≡ lookup q source
  unfolding rehash_loop place elist_insert view lookup
  loop_fresh [] pcount pdepth b h q depth count = refl
  loop_fresh (p ∷ source) pcount pdepth b h q depth count =
      ap (λ (n : Node K V). view n q depth count)
        (loop_home source (p ∷ []) pcount pdepth
          (update (λ i. null) (level_hash p.0 (pdepth + 1) pcount) (elist (p ∷ []))) b h.1
          (ground (arith, h.0)))

  -- A list whose keys hash to one bucket `b` of the parent all goes to bucket `b` of the new PList. So
  -- a key keeps its value exactly if the methods look for it in bucket `b` of the new PList too, and
  -- has none otherwise.
  pub view-rehash :
      (source : EList K V) (pcount pdepth b : ℕ)
      → AllHash (λ k. level_hash k (pdepth + 1) pcount) b source
      → (q : K)
      → view (rehash source pcount pdepth) q (pdepth + 1) (pcount * 2)
        ≡ (if level_hash q (pdepth + 1 + 1) (pcount * 2) == b then lookup q source else none)
  unfolding rehash view
  view-rehash source pcount pdepth b h q =
      let j = level_hash q (pdepth + 1 + 1) (pcount * 2) in
      let down = λ (n : Node K V). view n q (pdepth + 1 + 1) (pcount * 2 * 2) in
      elim (Bool-cases (j == b)) [
        | inl same ↦ rw same (
            ap (λ (m : ℕ). down (rehash_loop source pcount pdepth (λ i. null) m))
              ((==_iff j b).0 same)
            ∙ loop_fresh source pcount pdepth b h q _ _)
        | inr other ↦ rw other (ap down (loop_other source pcount pdepth (λ i. null) b j h other))
      ]

  -- `insert` goes on in a table `t'` that has no value for the keys of bucket `b` that hash to another
  -- bucket at the next level.
  abbrev pub Rehashes : ℕ → ℕ → (ℕ → Node K V) → (ℕ → LockState) → K → V → ℕ → ℕ → ℕ → Type κ
  Rehashes fuel size bases locks k v depth count b =
      (t' : Node K V) × (insert (suc fuel) size (plist bases locks) k v depth count
        ≡ insert fuel size t' k v depth count)
      × ((q : K)
          → level_hash q (depth + 1) count ≡ b
          → level_hash q (depth + 1 + 1) (count * 2) ≢ b
          → view t' q depth count ≡ none)

  -- `insert` of a new key at a full list, whose keys all hash to its bucket, rehashes and goes on; from
  -- then on the keys of that bucket that hash to another one at the next level have no value.
  pub insert-rehash :
      (fuel size : ℕ) (bases : ℕ → Node K V) (locks : ℕ → LockState) (k : K) (v : V)
      (depth count b : ℕ) (e : EList K V)
      → level_hash k (depth + 1) count ≡ b
      → locks b ≡ e_unlocked
      → bases b ≡ elist e
      → lookup k e ≡ none
      → size ≤ length e
      → AllHash (λ q. level_hash q (depth + 1) count) b e
      → Rehashes fuel size bases locks k v depth count b
  insert-rehash fuel size bases locks k v depth count b e at l n absent full h = (
    plist (update bases b (rehash e count depth)) (update locks b p_unlocked),
    unfold insert acquire insert_bucket in
        ground (arith, search_from-none 0 k e absent, update_twice locks b e_locked p_unlocked),
    λ q home away. unfold view in ground (arith, view-rehash e count depth b h q),
  )
