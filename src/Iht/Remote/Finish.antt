-- ===== src/Iht/Remote/Finish.antt =====
-- The last round of `do_with`: the `apply` is finished, and the bucket is unlocked.
use mathlib.Core.Path.{fun_ext}
use rabia_sandbox.Base.{
  ℕ, suc, Option, none, some, true, ◌≡◌, ◌≢◌, ap, ◌∙◌, arith, update, update_at, update_twice,
}
use rabia_sandbox.Iht.Key.{Key}
use rabia_sandbox.Iht.Elist.{EList}
use rabia_sandbox.Iht.Remote.{level_hash, Context, Outcome, descend, fetch_elist}
use rabia_sandbox.Iht.Remote.Store.{Bucket, Memory, e_locked, e_unlocked, write_lock, write_base}
use rabia_sandbox.Iht.Remote.Steps.{with_bucket, locked, arrive, descend_free}
use rabia_sandbox.Iht.Remote.Reads.{End}

relocked :
    (t : ℕ → Bucket) (b : ℕ)
    → (t b).lock ≡ e_unlocked
    → let u = update t b (record (t b) { lock = e_locked }) in
      update u b (record (u b) { lock = e_unlocked }) ≡ t
relocked t b free = fun_ext (λ j. ground arith)

module _ {κ} {K : Type 0} {V : Type κ} ⦃key : Key K⦄ where
  write_lock_at :
      (m : Memory K V) (p b l : ℕ) (t : ℕ → Bucket)
      → m.plists p ≡ some t
      → write_lock m p b l ≡ some (with_bucket m p t b (record (t b) { lock = l }))
  unfolding write_lock
  write_lock_at m p b l t mem = rw mem

  -- Locking and unlocking a bucket leaves the PLists as they were.
  pub unlock_lem :
      (m : Memory K V) (p b : ℕ) (t : ℕ → Bucket) (elists : ℕ → Option (EList K V)) (fresh : ℕ)
      → m.plists p ≡ some t
      → (t b).lock ≡ e_unlocked
      → write_lock
          (record {
            plists = update m.plists p (some (update t b (record (t b) { lock = e_locked })));
            elists = elists;
            fresh = fresh;
          })
          p
          b
          e_unlocked
        ≡ some (record m { elists = elists; fresh = fresh })
  unlock_lem m p b t elists fresh mem free =
      let u = update t b (record (t b) { lock = e_locked }) in
      write_lock_at (record { plists = update m.plists p (some u); elists = elists; fresh = fresh })
        p b e_unlocked u (ground arith)
      ∙ ap
          (λ (f : ℕ → Option (ℕ → Bucket)).
            some (record m { plists = f; elists = elists; fresh = fresh }))
          (update_twice m.plists p (some u) (some (update u b (record (u b) { lock = e_unlocked })))
            ∙ ap (λ (w : ℕ → Bucket). update m.plists p (some w)) (relocked t b free)
            ∙ update_at m.plists p (some t) mem)

  pub write_base_at :
      (m : Memory K V) (p b q : ℕ) (t : ℕ → Bucket)
      → m.plists p ≡ some t
      → write_base m p b q ≡ some (with_bucket m p t b (record (t b) { base = q }))
  unfolding write_base
  write_base_at m p b q t mem = rw mem

  -- Two writes to one bucket of one PList.
  rewritten :
      (m : Memory K V) (p b : ℕ) (t : ℕ → Bucket) (x y z : Bucket)
      → (elists : ℕ → Option (EList K V)) (fresh : ℕ) → y ≡ z
      → ◌≡◌ {A = Option (Memory K V)}
          (some (record {
            plists =
                update
                  (update m.plists p (some (update t b x)))
                  p
                  (some (update (update t b x) b y));
            elists = elists;
            fresh = fresh;
          }))
          (some (record {
            plists = update m.plists p (some (update t b z));
            elists = elists;
            fresh = fresh;
          }))
  rewritten m p b t x y z elists fresh e =
      ap
        (λ (f : ℕ → Option (ℕ → Bucket)).
          some (record { plists = f; elists = elists; fresh = fresh }))
        (update_twice m.plists p (some (update t b x)) (some (update (update t b x) b y))
          ∙ ap (λ (w : ℕ → Bucket). update m.plists p (some w))
              (update_twice t b x y ∙ ap (update t b) e))

  module _ (m : Memory K V) (p b : ℕ) (t : ℕ → Bucket) (elists : ℕ → Option (EList K V))
      (fresh : ℕ) where
    abbrev at_bucket : Bucket → Memory K V
    at_bucket x = record {
      plists = update m.plists p (some (update t b x));
      elists = elists;
      fresh = fresh;
    }

    -- The pointer of a bucket is written, and then its lock.
    pub base_lem :
        (x : Bucket) (q : ℕ)
        → write_base (at_bucket x) p b q ≡ some (at_bucket (record { base = q; lock = x.lock }))
    base_lem x q =
        write_base_at (at_bucket x) p b q (update t b x) (ground arith)
        ∙ rewritten m p b t x (record (update t b x b) { base = q })
            (record { base = q; lock = x.lock }) elists fresh (ground arith)

    pub lock_lem :
        (x : Bucket) (l : ℕ)
        → write_lock (at_bucket x) p b l ≡ some (at_bucket (record { base = x.base; lock = l }))
    lock_lem x l =
        write_lock_at (at_bucket x) p b l (update t b x) (ground arith)
        ∙ rewritten m p b t x (record (update t b x b) { lock = l })
            (record { base = x.base; lock = l }) elists fresh (ground arith)

  pub fetch_null : (m : Memory K V) (base : ℕ) → base ≡ 0 → fetch_elist m base ≡ some none
  unfolding fetch_elist
  fetch_null m base e = ground arith

  pub fetch_some :
      (m : Memory K V) (base : ℕ) (e : EList K V)
      → base ≢ 0
      → m.elists base ≡ some e
      → fetch_elist m base ≡ some (some e)
  unfolding fetch_elist
  fetch_some m base e ne list = ground arith

  abbrev pub finishes : Memory K V → Context K V → Option V → Outcome K V
  finishes m c r = record { memory = m; context = c; finished = true; result = r }

  -- An `apply` that writes lists alone leaves the PLists as they were.
  pub finish_at :
      (esize : ℕ) (m : Memory K V) (k : K) (r : Option V) {n : ℕ → ℕ} (c : Context K V) (spare : ℕ)
      (apply : Context K V → Memory K V → Option (Outcome K V)) (e : Option (EList K V))
      (elists : ℕ → Option (EList K V)) (w : Option V)
      → End esize m k r n c
      → fetch_elist m (c.curr (level_hash k c.depth c.count)).base ≡ some e
      → apply (arrive k c e) (locked k c m)
        ≡ some (finishes (record (locked k c m) { elists = elists }) (arrive k c e) w)
      → descend (suc (suc spare)) k apply m c ≡ some (record m { elists = elists }, w)
  finish_at esize m k r c spare apply e elists w end list run =
      descend_free spare k apply m c e
        (finishes (record (locked k c m) { elists = elists }) (arrive k c e) w) end.mem end.free
        list run
      ∙ rw (
          unlock_lem m c.parent_ptr (level_hash k c.depth c.count) c.curr elists m.fresh end.mem
            end.free)
