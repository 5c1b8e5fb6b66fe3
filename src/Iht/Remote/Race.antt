-- ===== src/Iht/Remote/Race.antt =====
-- Two clients in `insert` of RdmaIHT at one null bucket of the root. `do_with` takes the pointer of the
-- bucket from the copy of the PList that it read before it had the lock.
use rabia_sandbox.Base.{
  ℕ, suc, ◌≤◌, Bool, none, some, false, ◌≡◌, refl, ◌∙◌, arith, update, update_hit, sym, subst,
  if◌then◌else◌,
}
use rabia_sandbox.Iht.Key.{Key}
use rabia_sandbox.Iht.Remote.{level_hash, descend, insert, insert_apply, contains, do_with}
use rabia_sandbox.Iht.Remote.Store.{Bucket, Memory, e_unlocked}
use rabia_sandbox.Iht.Remote.Reads.{Holds, context, End}
use rabia_sandbox.Iht.Remote.Grow.{grown, null_stale, grown_here}
use rabia_sandbox.Iht.Remote.Methods.{contains_at}

module _ {κ} {K : Type 0} {V : Type κ} ⦃key : Key K⦄ where
  -- Behind the bucket that was filled last stands one key.
  filled-contains :
      (esize : ℕ) (m : Memory K V) (root size : ℕ) (t : ℕ → Bucket) (k : K) (v : V) (x : K)
      (spare : ℕ)
      → 1 ≤ esize
      → 1 ≤ m.fresh
      → level_hash x 1 size ≡ level_hash k 1 size
      → let m' = grown m root (level_hash k 1 size) t k v in
        contains (suc (suc spare)) root size x m'
        ≡ some (m', if key.equal k x then some v else none)
  unfolding contains do_with
  filled-contains esize m root size t k v x spare pos one meet =
      let b = level_hash k 1 size in
      let m' = grown m root b t k v in
      let t' = update t b (record { base = m.fresh; lock = e_unlocked }) in
      let r = if key.equal k x then some v else none in
      let there : t' (level_hash x 1 size) ≡ record { base = m.fresh; lock = e_unlocked } =
        update_hit t b _ _ meet in
      let holds : Holds esize m' x (t' (level_hash x 1 size)).base r =
        subst (λ (s : Bucket). Holds esize m' x s.base r) (sym there)
          (grown_here esize m root b t k v x r pos one refl) in
      let mem : m'.plists root ≡ some t' = ground arith in
      let end : End esize m' x r _ (context none 0 0 root 1 size t') = record {
        mem = mem;
        free = rw there refl;
        holds = holds;
        pairs = λ j. refl;
      } in
      rw mem (contains_at esize m' x r (context none 0 0 root 1 size t') spare end)

  -- Two clients insert keys that meet in a bucket of the root that is null, where `curr` is the PList at
  -- the root. The second starts on the same memory, and has read the root when the first runs;
  -- it takes the lock after that. Both return with no old value, as for a new key, with any fuel from two on; the second has put
  -- a list of its own in the place of the first one's, and from then on `contains` finds the key of the
  -- second and not the key of the first.
  pub lost_update :
      (is_local : ℕ → Bool) (esize root size : ℕ) (m : Memory K V) (curr : ℕ → Bucket) (k₁ k₂ : K)
      (v₁ v₂ : V) (spare : ℕ)
      → 1 ≤ esize
      → 1 ≤ m.fresh
      → m.plists root ≡ some curr
      → curr (level_hash k₁ 1 size) ≡ record { base = 0; lock = e_unlocked }
      → level_hash k₂ 1 size ≡ level_hash k₁ 1 size
      → key.equal k₂ k₁ ≡ false
      → (m₁ m₂ : Memory K V) × (insert is_local (suc (suc spare)) root size esize k₁ v₁ m
          ≡ some (m₁, none))
        × (insert is_local (suc (suc spare)) root size esize k₂ v₂ m
            ≡ descend
                (suc (suc spare))
                k₂
                (insert_apply is_local esize k₂ v₂)
                m
                (context none 0 0 root 1 size curr))
        × (descend
              (suc (suc spare))
              k₂
              (insert_apply is_local esize k₂ v₂)
              m₁
              (context none 0 0 root 1 size curr)
            ≡ some (m₂, none))
        × (contains (suc (suc spare)) root size k₁ m₂ ≡ some (m₂, none))
        × (contains (suc (suc spare)) root size k₂ m₂ ≡ some (m₂, some v₂))
  unfolding insert do_with
  lost_update is_local esize root size m curr k₁ k₂ v₁ v₂ spare pos one mem null meet differ =
      let b = level_hash k₁ 1 size in
      let c = context none 0 0 root 1 size curr in
      let t = update curr b (record { base = m.fresh; lock = e_unlocked }) in
      let m₁ = grown m root b curr k₁ v₁ in
      let m₂ = grown m₁ root (level_hash k₂ 1 size) t k₂ v₂ in
      (
        m₁,
        m₂,
        rw mem (
            null_stale is_local esize m k₁ v₁ c curr spare mem (rw null refl) (rw null refl)
              (rw null refl)),
        rw mem refl,
        null_stale is_local esize m₁ k₂ v₂ c t spare (ground arith) (rw meet (ground arith))
            (rw (meet, null) refl) (rw (meet, null) refl),
        filled-contains esize m₁ root size t k₂ v₂ k₁ spare pos (omega arith) (sym meet)
            ∙ rw differ refl,
        filled-contains esize m₁ root size t k₂ v₂ k₂ spare pos (omega arith) refl
            ∙ rw ((key.equal_iff k₂ k₂).1 refl) refl,
      )
