-- ===== src/Iht/Remote/Steps.antt =====
-- Single rounds of `do_with`.
use rabia_sandbox.Base.{
  ℕ, suc, ◌+◌, ◌*◌, Option, some, true, false, ◌≡◌, ◌∙◌, ap, arith, update, update_at, ◌>>=◌, ◌==◌,
  ==_iff, if◌then◌else◌,
}
use rabia_sandbox.Iht.Key.{Key}
use rabia_sandbox.Iht.Elist.{EList}
use rabia_sandbox.Iht.Remote.{level_hash, Context, Outcome, acquire, descend, fetch_elist}
use rabia_sandbox.Iht.Remote.Store.{Bucket, Memory, e_locked, e_unlocked, p_unlocked, write_lock}

module _ {κ} {K : Type 0} {V : Type κ} where
  -- The memory with one bucket of the PList `t` at `p` replaced.
  abbrev pub with_bucket : Memory K V → ℕ → (ℕ → Bucket) → ℕ → Bucket → Memory K V
  with_bucket m p t b s = record m { plists = update m.plists p (some (update t b s)) }

  pub with_bucket_same :
      (m : Memory K V) (p : ℕ) (t : ℕ → Bucket) (b : ℕ) (s : Bucket)
      → m.plists p ≡ some t
      → t b ≡ s
      → with_bucket m p t b s ≡ m
  with_bucket_same m p t b s mem e =
      ap (λ (f : ℕ → Option (ℕ → Bucket)). record m { plists = f })
        (ap (λ (u : ℕ → Bucket). update m.plists p (some u)) (update_at t b s e)
          ∙ update_at m.plists p (some t) mem)

  pub acquire_free :
      (fuel : ℕ) (m : Memory K V) (p b : ℕ) (t : ℕ → Bucket)
      → m.plists p ≡ some t
      → (t b).lock ≡ e_unlocked
      → acquire (suc fuel) m p b
        ≡ some (true, with_bucket m p t b (record (t b) { lock = e_locked }))
  unfolding acquire write_lock
  acquire_free fuel m p b t mem free = ground arith

module _ {κ} {K : Type 0} {V : Type κ} ⦃key : Key K⦄ where
  pub descend_down :
      (fuel : ℕ) (k : K) (apply : Context K V → Memory K V → Option (Outcome K V)) (m : Memory K V)
      (c : Context K V) (red : ℕ → Bucket)
      → let b = level_hash k c.depth c.count in
        (c.curr b).lock ≡ p_unlocked
        → m.plists (c.curr b).base ≡ some red
        → descend (suc fuel) k apply m c
          ≡ descend fuel k apply m (record c {
            bucket = b;
            curr = red;
            parent_ptr = (c.curr b).base;
            depth = c.depth + 1;
            count = c.count * 2;
          })
  unfolding descend
  descend_down fuel k apply m c red calc mem = rw ((==_iff _ _).1 calc, mem)

  -- The context that `apply` is given at an unlocked bucket.
  abbrev pub arrive : K → Context K V → Option (EList K V) → Context K V
  arrive k c e =
      let b = level_hash k c.depth c.count in
      record c { e = e; bucket_base = (c.curr b).base; bucket = b }

  -- The memory that `apply` is given: the bucket is locked.
  abbrev pub locked : K → Context K V → Memory K V → Memory K V
  locked k c m =
      let b = level_hash k c.depth c.count in
      with_bucket m c.parent_ptr c.curr b (record (c.curr b) { lock = e_locked })

  -- A round at a bucket that is free in memory, where `t` is the PList, and in the copy that was read
  -- before: the pointer is taken from the copy.
  pub descend_stale :
      (fuel : ℕ) (k : K) (apply : Context K V → Memory K V → Option (Outcome K V)) (m : Memory K V)
      (t : ℕ → Bucket) (c : Context K V) (e : Option (EList K V)) (o : Outcome K V)
      → let b = level_hash k c.depth c.count in
        m.plists c.parent_ptr ≡ some t
        → (t b).lock ≡ e_unlocked
        → (c.curr b).lock ≡ e_unlocked
        → fetch_elist m (c.curr b).base ≡ some e
        → apply (arrive k c e) (with_bucket m c.parent_ptr t b (record (t b) { lock = e_locked }))
          ≡ some o
        → descend (suc (suc fuel)) k apply m c ≡ (
            if o.finished
            then (write_lock o.memory c.parent_ptr b e_unlocked >>= λ m'. some (m', o.result))
            else (write_lock o.memory c.parent_ptr b p_unlocked >>= λ m'.
                descend (suc fuel) k apply m' o.context))
  unfolding descend fetch_elist
  descend_stale fuel k apply m t c e o mem free copied list run =
      let b = level_hash k c.depth c.count in
      let not_calc : ((c.curr b).lock == p_unlocked) ≡ false = ground arith in
      rw (not_calc, acquire_free fuel m c.parent_ptr b t mem free, list, run)

  pub descend_free :
      (fuel : ℕ) (k : K) (apply : Context K V → Memory K V → Option (Outcome K V)) (m : Memory K V)
      (c : Context K V) (e : Option (EList K V)) (o : Outcome K V)
      → let b = level_hash k c.depth c.count in
        m.plists c.parent_ptr ≡ some c.curr
        → (c.curr b).lock ≡ e_unlocked
        → fetch_elist m (c.curr b).base ≡ some e
        → apply (arrive k c e) (locked k c m) ≡ some o
        → descend (suc (suc fuel)) k apply m c ≡ (
            if o.finished
            then (write_lock o.memory c.parent_ptr b e_unlocked >>= λ m'. some (m', o.result))
            else (write_lock o.memory c.parent_ptr b p_unlocked >>= λ m'.
                descend (suc fuel) k apply m' o.context))
  descend_free fuel k apply m c e o mem free list run =
      descend_stale fuel k apply m c.curr c e o mem free free list run
