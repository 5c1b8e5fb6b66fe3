-- ===== src/Iht/Remote/Calcify.antt =====
-- `insert` of RdmaIHT on a full list: the bucket gets a PList with the pairs of the list, and is
-- calcified.
use rabia_sandbox.Base.{
  ℕ, suc, ◌+◌, ◌*◌, ◌≤◌, Bool, true, false, Option, none, some, length, ltb, ◌≡◌, ◌≢◌, refl, ap,
  ◌∙◌, arith, update, update_twice, update_swap, update_hit, ◌==◌, if◌then◌else◌,
}
use rabia_sandbox.Iht.Key.{Key}
use rabia_sandbox.Iht.Elist.{EList}
use rabia_sandbox.Iht.Elist.Laws.{lookup, search_from-none}
use rabia_sandbox.Iht.Remote.{level_hash, Context, Outcome, descend, insert_apply}
use rabia_sandbox.Iht.Remote.Store.{
  Bucket, Memory, e_locked, e_unlocked, p_unlocked, allocate_plist, deallocate_elist,
}
use rabia_sandbox.Iht.Remote.Steps.{locked, arrive, descend_free, descend_down}
use rabia_sandbox.Iht.Remote.Reads.{End}
use rabia_sandbox.Iht.Remote.Finish.{fetch_some, base_lem, lock_lem}
use rabia_sandbox.Iht.Remote.Rehash.{Filled, rehash-Filled}

module _ {κ} {K : Type 0} {V : Type κ} ⦃key : Key K⦄ where
  -- The memory with the PList `t` at a new pointer, and behind the bucket `b` of the PList `curr` at `p`
  -- with the lock `lock`. The list that stood there is gone if it was local. `m₂` has the new lists.
  abbrev pub replanted :
      (ℕ → Bool) → Memory K V → ℕ → ℕ → (ℕ → Bucket) → Memory K V → (ℕ → Bucket) → ℕ → Memory K V
  replanted is_local m p b curr m₂ t lock = record {
    plists =
        update (update m.plists m.fresh (some t)) p
          (some (update curr b (record { base = m.fresh; lock = lock })));
    elists = if is_local (curr b).base then update m₂.elists (curr b).base none else m₂.elists;
    fresh = m₂.fresh;
  }

  -- The memory in which `rehash` starts its loop.
  abbrev pub opened : K → Context K V → Memory K V → Memory K V
  opened k c m = (allocate_plist (locked k c m) (λ i. record { base = 0; lock = e_unlocked })).1

  deallocated :
      (local : Bool) (m : Memory K V) (q : ℕ)
      → (if local then deallocate_elist m q else m)
        ≡ record m { elists = if local then update m.elists q none else m.elists }
  deallocated true m q = refl
  deallocated false m q = refl

  opened_lem :
      (k : K) (c : Context K V) (m m₂ : Memory K V) (h : K → ℕ) (t : ℕ → Bucket) (e : EList K V)
      → let b = level_hash k c.depth c.count in
        c.parent_ptr ≢ m.fresh
        → Filled h m.fresh (opened k c m) m₂ t e
        → m₂.plists
          ≡ update
              (update m.plists m.fresh (some t))
              c.parent_ptr
              (some (update c.curr b (record (c.curr b) { lock = e_locked })))
  opened_lem k c m m₂ h t e away ok =
      let b = level_hash k c.depth c.count in
      let held = some (update c.curr b (record (c.curr b) { lock = e_locked })) in
      ok.mem
      ∙ update_twice (update m.plists c.parent_ptr held) m.fresh
          (some (λ i. record { base = 0; lock = e_unlocked })) (some t)
      ∙ update_swap m.plists c.parent_ptr m.fresh held (some t) away

  -- What `apply` leaves, and the context in which the loop of `do_with` goes on.
  abbrev pub onward : K → Context K V → EList K V → ℕ → Context K V
  onward k c e new_p =
      let b = level_hash k c.depth c.count in
      record (arrive k c (some e)) {
        curr = update c.curr b (record { base = new_p; lock = p_unlocked });
      }

  apply_full :
      (is_local : ℕ → Bool) (esize : ℕ) (k : K) (v : V) (c : Context K V) (m : Memory K V)
      (e : EList K V)
      → let b = level_hash k c.depth c.count in
        let h = λ (q : K). level_hash q (c.depth + 1) (c.count * 2) in
        c.parent_ptr ≢ m.fresh
        → m.elists (c.curr b).base ≡ some e
        → ((q : ℕ) → m.fresh ≤ q → m.elists q ≡ none)
        → lookup k e ≡ none
        → esize ≤ length e
        → (m₂ : Memory K V) × (t : ℕ → Bucket) × (insert_apply is_local esize k v
              (arrive k c (some e))
              (locked k c m)
            ≡ some (record {
              memory = replanted is_local m c.parent_ptr b c.curr m₂ t e_locked;
              context = onward k c e m.fresh;
              finished = false;
              result = none;
            }))
          × Filled h m.fresh (opened k c m) m₂ t e
  unfolding insert_apply
  apply_full is_local esize k v c m e away list vacant absent full =
      let b = level_hash k c.depth c.count in
      let p = c.parent_ptr in
      let (m₂, t, run, ok) =
        rehash-Filled is_local (locked k c m) c.curr c.count c.depth b e list vacant in
      let elists =
        if is_local (c.curr b).base then update m₂.elists (c.curr b).base none else m₂.elists in
      let no_room : ltb (length e) esize ≡ false = ground arith in
      let plists = opened_lem k c m m₂ _ t e away ok in
      (
        m₂,
        t,
        rw
            (
              insert_apply,
              search_from-none 0 k e absent,
              no_room,
              run,
              deallocated (is_local (c.curr b).base) m₂ (c.curr b).base,
              plists,
              base_lem (record m { plists = update m.plists m.fresh (some t) }) p b c.curr elists
                  m₂.fresh (record (c.curr b) { lock = e_locked }) m.fresh,
            )
            refl,
        ok,
      )

  -- The round after: down to the new PList.
  down_new :
      (f : ℕ) (k : K) (apply : Context K V → Memory K V → Option (Outcome K V)) (m : Memory K V)
      (c : Context K V) (e : EList K V) (new_p : ℕ) (t : ℕ → Bucket)
      → m.plists new_p ≡ some t
      → descend (suc f) k apply m (onward k c e new_p)
        ≡ descend f k apply m (record (arrive k c (some e)) {
          curr = t;
          parent_ptr = new_p;
          depth = c.depth + 1;
          count = c.count * 2;
        })
  down_new f k apply m c e new_p t mem =
      let b = level_hash k c.depth c.count in
      let s : Bucket = record { base = new_p; lock = p_unlocked } in
      let hit = update_hit c.curr b b s refl in
      descend_down f k apply m (onward k c e new_p) t (ap (λ (x : Bucket). x.lock) hit)
        (ap (λ (x : Bucket). m.plists x.base) hit ∙ mem)
      ∙ ap
          (λ (x : Bucket). descend f k apply m (record (arrive k c (some e)) {
            curr = t;
            parent_ptr = x.base;
            depth = c.depth + 1;
            count = c.count * 2;
          }))
          hit

  -- The rounds of `do_with` on a full list: one that rehashes it, and one that goes down to the new
  -- PList.
  pub full_at :
      (is_local : ℕ → Bool) (esize : ℕ) (m : Memory K V) (k : K) (v : V) (r : Option V) {n : ℕ → ℕ}
      (c : Context K V) (f : ℕ) (e : EList K V)
      → let b = level_hash k c.depth c.count in
        let h = λ (q : K). level_hash q (c.depth + 1) (c.count * 2) in
        End esize m k r n c
        → c.parent_ptr ≢ m.fresh
        → (c.curr b).base ≢ 0
        → m.elists (c.curr b).base ≡ some e
        → ((q : ℕ) → m.fresh ≤ q → m.elists q ≡ none)
        → lookup k e ≡ none
        → esize ≤ length e
        → (m₂ : Memory K V) × (t : ℕ → Bucket) × (descend
              (suc (suc f))
              k
              (insert_apply is_local esize k v)
              m
              c
            ≡ descend f k
                (insert_apply is_local esize k v)
                (replanted is_local m c.parent_ptr b c.curr m₂ t p_unlocked)
                (record (arrive k c (some e)) {
                  curr = t;
                  parent_ptr = m.fresh;
                  depth = c.depth + 1;
                  count = c.count * 2;
                }))
          × Filled h m.fresh (opened k c m) m₂ t e
  full_at is_local esize m k v r c f e end away nz list vacant absent full =
      let b = level_hash k c.depth c.count in
      let p = c.parent_ptr in
      let (m₂, t, run, ok) = apply_full is_local esize k v c m e away list vacant absent full in
      let elists =
        if is_local (c.curr b).base then update m₂.elists (c.curr b).base none else m₂.elists in
      let other : (m.fresh == p) ≡ false = ground arith in
      (
        m₂,
        t,
        descend_free f k (insert_apply is_local esize k v) m c (some e)
              (record {
                memory = replanted is_local m p b c.curr m₂ t e_locked;
                context = onward k c e m.fresh;
                finished = false;
                result = none;
              })
              end.mem end.free (fetch_some m _ e nz list) run
            ∙ rw
                (lock_lem (record m { plists = update m.plists m.fresh (some t) }) p b c.curr elists
                  m₂.fresh (record { base = m.fresh; lock = e_locked }) p_unlocked)
                (down_new f k (insert_apply is_local esize k v)
                  (replanted is_local m p b c.curr m₂ t p_unlocked) c e m.fresh t
                  (rw other (update_hit m.plists m.fresh m.fresh (some t) refl))),
        ok,
      )
