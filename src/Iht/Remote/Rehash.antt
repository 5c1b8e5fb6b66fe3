-- ===== src/Iht/Remote/Rehash.antt =====
-- The loop of `rehash` of RdmaIHT: every pair of the full list goes to the bucket of the new PList that
-- its hash chooses.
use mathlib.Core.List.{append-nil, append_assoc}
use rabia_sandbox.Base.{
  ℕ, ◌+◌, ◌*◌, Bool, ◌≤◌, ◌<◌, false, Option, none, some, [], ◌∷◌, ◌++◌, ◌≡◌, ◌≢◌, ◌⊎◌, true, inl,
  inr, refl, sym, ap, subst, ◌∙◌, arith, update, update_twice, update_hit, ◌==◌, ==_iff,
  if◌then◌else◌, Bool-cases,
}
use rabia_sandbox.Iht.Key.{Key}
use rabia_sandbox.Iht.Elist.{EList, elist_insert}
use rabia_sandbox.Iht.Elist.Parts.{part, part-insert}
use rabia_sandbox.Iht.Remote.{level_hash, rehash_loop, rehash}
use rabia_sandbox.Iht.Remote.Store.{
  Bucket, Memory, e_unlocked, write_elist, allocate_plist, deallocate_elist,
}
use rabia_sandbox.Iht.Remote.Finish.{write_base_at, lock_lem}
use rabia_sandbox.Iht.Remote.Grow.{grown}

module _ {κ} {K : Type 0} {V : Type κ} ⦃key : Key K⦄ where
  -- What stands behind a bucket when the pairs `done` have been moved.
  abbrev pub Sorted : (K → ℕ) → EList K V → Memory K V → ℕ → ℕ → Type κ
  Sorted h done m b base =
      ((base ≡ 0) × (part h b done ≡ [])) ⊎ ((base ≢ 0) × (m.elists base ≡ some (part h b done)))

  -- The new PList `t` at `new_p` when the pairs `done` have been moved. `m₀` is the memory at the start
  -- of the loop, and what was allocated then stays as it was.
  pub record Filled (h : K → ℕ) (new_p : ℕ) (m₀ m : Memory K V) (t : ℕ → Bucket) (done : EList K V)
      : Type κ where
    pub mem : m.plists ≡ update m₀.plists new_p (some t)
    pub free : (b : ℕ) → (t b).lock ≡ e_unlocked
    pub range : (b : ℕ) → ((t b).base ≡ 0) ⊎ ((m₀.fresh ≤ (t b).base) × ((t b).base < m.fresh))
    pub apart : (b c : ℕ) → (t b).base ≢ 0 → (t b).base ≡ (t c).base → b ≡ c
    pub same : (q : ℕ) → q < m₀.fresh → m.elists q ≡ m₀.elists q
    pub vacant : (q : ℕ) → m.fresh ≤ q → m.elists q ≡ none
    pub more : m₀.fresh ≤ m.fresh
    pub sorted : (b : ℕ) → Sorted h done m b (t b).base

  -- The loop on a pair whose bucket is null.
  loop_null :
      (k : K) (v : V) (source : EList K V) (pcount pdepth new_p : ℕ) (m : Memory K V)
      (t : ℕ → Bucket)
      → let b = level_hash k (pdepth + 1) pcount in
        m.plists new_p ≡ some t
        → (t b).base ≡ 0
        → rehash_loop ((k, v) ∷ source) pcount pdepth new_p m
          ≡ rehash_loop source pcount pdepth new_p (grown m new_p b t k v)
  unfolding rehash_loop elist_insert
  loop_null k v source pcount pdepth new_p m t mem null =
      let b = level_hash k (pdepth + 1) pcount in
      let elists = update m.elists m.fresh (some []) in
      let made : Memory K V = record m { elists = elists; fresh = m.fresh + 1 } in
      let zero_base : ((t b).base == 0) ≡ true = ground arith in
      rw
        (
          mem,
          zero_base,
          write_base_at made new_p b m.fresh t mem,
          lock_lem m new_p b t elists (m.fresh + 1) (record (t b) { base = m.fresh }) e_unlocked,
          update_hit m.plists new_p new_p
              (some (update t b (record { base = m.fresh; lock = e_unlocked }))) refl,
          update_hit t b b (record { base = m.fresh; lock = e_unlocked }) refl,
          update_hit m.elists m.fresh m.fresh (some []) refl,
          update_twice m.elists m.fresh (some []) (some ((k, v) ∷ [])),
        )
        refl

  -- The loop on a pair whose bucket has a list.
  loop_there :
      (k : K) (v : V) (source : EList K V) (pcount pdepth new_p : ℕ) (m : Memory K V)
      (t : ℕ → Bucket) (e : EList K V)
      → let b = level_hash k (pdepth + 1) pcount in
        m.plists new_p ≡ some t
        → (t b).base ≢ 0
        → m.elists (t b).base ≡ some e
        → rehash_loop ((k, v) ∷ source) pcount pdepth new_p m
          ≡ rehash_loop source pcount pdepth new_p (write_elist m (t b).base (elist_insert k v e))
  unfolding rehash_loop
  loop_there k v source pcount pdepth new_p m t e mem nz list =
      let b = level_hash k (pdepth + 1) pcount in
      let full : ((t b).base == 0) ≡ false = ground arith in rw (mem, full, mem, list) refl

  Sorted-away :
      (h : K → ℕ) (done : EList K V) (m m' : Memory K V) (b base : ℕ) (k : K) (v : V)
      → (h k == b) ≡ false
      → (base ≢ 0 → m'.elists base ≡ m.elists base)
      → Sorted h done m b base
      → Sorted h (elist_insert k v done) m' b base
  Sorted-away h done m m' b base k v away same (inl (null, empty)) =
      inl (null, part-insert h b k v done ∙ rw away empty)
  Sorted-away h done m m' b base k v away same (inr (nz, list)) =
      inr (nz, same nz ∙ list ∙ ap some (sym (part-insert h b k v done ∙ rw away refl)))

  Sorted-here :
      (h : K → ℕ) (done : EList K V) (m' : Memory K V) (b base : ℕ) (k : K) (v : V)
      → (h k == b) ≡ true
      → base ≢ 0
      → m'.elists base ≡ some (elist_insert k v (part h b done))
      → Sorted h (elist_insert k v done) m' b base
  Sorted-here h done m' b base k v here nz list =
      inr (nz, list ∙ ap some (sym (part-insert h b k v done ∙ rw here refl)))

  Filled-there :
      (h : K → ℕ) (new_p : ℕ) (m₀ m : Memory K V) (t : ℕ → Bucket) (done : EList K V) (k : K)
      (v : V)
      → (t (h k)).base ≢ 0
      → Filled h new_p m₀ m t done
      → Filled h new_p m₀
          (write_elist m (t (h k)).base (elist_insert k v (part h (h k) done)))
          t
          (elist_insert k v done)
  Filled-there h new_p m₀ m t done k v nz ok =
      let m' = write_elist m (t (h k)).base (elist_insert k v (part h (h k) done)) in
      record {
        mem = ok.mem;
        free = ok.free;
        range = ok.range;
        apart = ok.apart;
        same = λ q lt. ground (arith, ok.same q lt, ok.range (h k));
        vacant = λ q le. ground (arith, ok.vacant q le, ok.range (h k));
        more = ok.more;
        sorted = λ b. elim (Bool-cases (h k == b)) [
          | inl here ↦
              let at : h k ≡ b = (==_iff (h k) b).0 here in
              Sorted-here h done m' b (t b).base k v here (ground arith) (ground arith)
          | inr away ↦
              Sorted-away h done m m' b (t b).base k v away
                (λ ne. ground (arith, ok.apart (h k) b nz)) (ok.sorted b)
        ];
      }

  Filled-null :
      (h : K → ℕ) (new_p : ℕ) (m₀ m : Memory K V) (t : ℕ → Bucket) (done : EList K V) (k : K)
      (v : V)
      → 1 ≤ m₀.fresh
      → part h (h k) done ≡ []
      → Filled h new_p m₀ m t done
      → Filled h new_p m₀
          (grown m new_p (h k) t k v)
          (update t (h k) (record { base = m.fresh; lock = e_unlocked }))
          (elist_insert k v done)
  Filled-null h new_p m₀ m t done k v pos empty ok =
      let s : Bucket = record { base = m.fresh; lock = e_unlocked } in
      let m' = grown m new_p (h k) t k v in
      record {
        mem =
            ap (λ (f : ℕ → Option (ℕ → Bucket)). update f new_p (some (update t (h k) s))) ok.mem
            ∙ update_twice m₀.plists new_p (some t) (some (update t (h k) s));
        free = λ b. ground (arith, ok.free b);
        range = λ b. ground (arith, ok.range b, ok.more);
        apart = λ b c. ground (arith, ok.apart b c, ok.range b, ok.range c);
        same = λ q lt. ground (arith, ok.same q lt, ok.more);
        vacant = λ q le. ground (arith, ok.vacant q);
        more = omega (arith, ok.more);
        sorted = λ b. elim (Bool-cases (h k == b)) [
          | inl here ↦
              let at : h k ≡ b = (==_iff (h k) b).0 here in
              let new : update t (h k) s b ≡ s = update_hit t (h k) b s (sym at) in
              let none_yet : part h b done ≡ [] = subst (λ (c : ℕ). part h c done ≡ []) at empty in
              subst (λ (x : Bucket). Sorted h (elist_insert k v done) m' b x.base) (sym new)
                (Sorted-here h done m' b m.fresh k v here (omega (arith, ok.more))
                  (unfold elist_insert in rw none_yet (ground arith)))
          | inr away ↦
              let old : update t (h k) s b ≡ t b = ground arith in
              subst (λ (x : Bucket). Sorted h (elist_insert k v done) m' b x.base) (sym old)
                (Sorted-away h done m m' b (t b).base k v away (λ ne. ground (arith, ok.range b))
                  (ok.sorted b))
        ];
      }

  -- The loop ends, with the pairs of the full list moved in their order.
  pub loop-Filled :
      (source : EList K V) (pcount pdepth new_p : ℕ) (m₀ m : Memory K V) (t : ℕ → Bucket)
      (done : EList K V)
      → let h = λ (q : K). level_hash q (pdepth + 1) pcount in
        1 ≤ m₀.fresh
        → Filled h new_p m₀ m t done
        → (m' : Memory K V) × (t' : ℕ → Bucket) × (rehash_loop source pcount pdepth new_p m
            ≡ some m')
          × Filled h new_p m₀ m' t' (done ++ source)
  loop-Filled [] pcount pdepth new_p m₀ m t done pos ok =
      (m, t, unfold rehash_loop in refl, subst (Filled _ new_p m₀ m t) (sym (append-nil done)) ok)
  loop-Filled ((k, v) ∷ source) pcount pdepth new_p m₀ m t done pos ok =
      let h = λ (q : K). level_hash q (pdepth + 1) pcount in
      let mem : m.plists new_p ≡ some t =
        ap (λ (f : ℕ → Option (ℕ → Bucket)). f new_p) ok.mem
        ∙ update_hit m₀.plists new_p new_p (some t) refl in
      let moved : elist_insert k v done ++ source ≡ done ++ (k, v) ∷ source =
        unfold elist_insert in append_assoc done ((k, v) ∷ []) source in
      elim (ok.sorted (h k)) [
        | inl (null, empty) ↦
            let (m', t', run, end) =
              loop-Filled source pcount pdepth new_p m₀ (grown m new_p (h k) t k v)
                (update t (h k) (record { base = m.fresh; lock = e_unlocked }))
                (elist_insert k v done) pos (Filled-null h new_p m₀ m t done k v pos empty ok) in
            (
              m',
              t',
              loop_null k v source pcount pdepth new_p m t mem null ∙ run,
              subst (Filled h new_p m₀ m' t') moved end,
            )
        | inr (nz, list) ↦
            let (m', t', run, end) =
              loop-Filled source pcount pdepth new_p m₀
                (write_elist m (t (h k)).base (elist_insert k v (part h (h k) done))) t
                (elist_insert k v done) pos (Filled-there h new_p m₀ m t done k v nz ok) in
            (
              m',
              t',
              loop_there k v source pcount pdepth new_p m t (part h (h k) done) mem nz list ∙ run,
              subst (Filled h new_p m₀ m' t') moved end,
            )
      ]

  -- `rehash` of the list behind a bucket: the new PList stands at a new pointer, and every bucket of it
  -- has the pairs of the list that hash to it.
  pub rehash-Filled :
      (is_local : ℕ → Bool) (m : Memory K V) (parent : ℕ → Bucket) (pcount pdepth pidx : ℕ)
      (e : EList K V)
      → let h = λ (q : K). level_hash q (pdepth + 1) (pcount * 2) in
        let base = (parent pidx).base in
        let start = (allocate_plist m (λ i. record { base = 0; lock = e_unlocked })).1 in
        m.elists base ≡ some e
        → ((q : ℕ) → m.fresh ≤ q → m.elists q ≡ none)
        → (m' : Memory K V) × (t : ℕ → Bucket) × (rehash is_local m parent pcount pdepth pidx
            ≡ some (m.fresh, if is_local base then deallocate_elist m' base else m'))
          × Filled h m.fresh start m' t e
  unfolding rehash part
  rehash-Filled is_local m parent pcount pdepth pidx e list vacant =
      let empty : ℕ → Bucket = λ i. record { base = 0; lock = e_unlocked } in
      let start = (allocate_plist m empty).1 in
      let (m', t, run, end) =
        loop-Filled e (pcount * 2) pdepth m.fresh start start empty [] (omega arith) (record {
          mem = sym (update_twice m.plists m.fresh (some empty) (some empty));
          free = λ b. refl;
          range = λ b. inl refl;
          apart = λ b c nz same. absurd (nz refl);
          same = λ q lt. refl;
          vacant = λ q le. vacant q (omega arith);
          more = omega arith;
          sorted = λ b. inl (refl, refl);
        }) in
      (m', t, rw (list, run) refl, end)
