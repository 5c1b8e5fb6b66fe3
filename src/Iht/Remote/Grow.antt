-- ===== src/Iht/Remote/Grow.antt =====
-- `insert` of RdmaIHT at a null pointer: a list of one pair is allocated behind the bucket.
use rabia_sandbox.Base.{
  ℕ, suc, ◌+◌, ◌≤◌, Bool, Option, none, some, false, [], ◌∷◌, ◌≡◌, ◌≢◌, ◌⊎◌, inl, inr, refl, sym,
  ap, subst, ◌∙◌, arith, update, update_hit, ◌==◌, ==_iff, if◌then◌else◌, Bool-cases,
}
use rabia_sandbox.Iht.Key.{Key}
use rabia_sandbox.Iht.Elist.{EList, elist_insert}
use rabia_sandbox.Iht.Elist.Laws.{lookup, IsUnique, count_key, insert-IsUnique}
use rabia_sandbox.Iht.Remote.{level_hash, Context, descend, insert_apply}
use rabia_sandbox.Iht.Remote.Store.{Bucket, Memory, e_locked, e_unlocked}
use rabia_sandbox.Iht.Remote.Steps.{arrive, descend_stale}
use rabia_sandbox.Iht.Remote.Reads.{Holds, Reads, stop, Keeps, End, Reads-carry}
use rabia_sandbox.Iht.Remote.Finish.{fetch_null, finishes, base_lem, lock_lem}
use rabia_sandbox.Iht.Remote.Writes.{IsMap}

-- The bucket `b` of the PList `curr` at `p` is replaced. A bucket is that one, or is read as before.
pub replaced :
    (plists : ℕ → Option (ℕ → Bucket)) (p : ℕ) (curr : ℕ → Bucket) (b : ℕ) (s : Bucket) (q : ℕ)
    (t : ℕ → Bucket) (j : ℕ)
    → plists p ≡ some curr
    → plists q ≡ some t
    → (t' : ℕ → Bucket) × (update plists p (some (update curr b s)) q ≡ some t')
      × (((q ≡ p) × (t ≡ curr) × (j ≡ b) × (t' j ≡ s)) ⊎ (t' j ≡ t j))
replaced plists p curr b s q t j mem at = elim (Bool-cases (q == p)) [
  | inr away ↦ (t, rw away at, inr refl)
  | inl here ↦
      let same : q ≡ p = (==_iff q p).0 here in
      let table : t ≡ curr = cc in
      (
        update curr b s,
        rw here refl,
        elim (Bool-cases (j == b)) [
          | inl hit ↦ inl (same, table, (==_iff j b).0 hit, rw hit refl)
          | inr miss ↦ inr (rw miss (ap (λ (f : ℕ → Bucket). f j) (sym table)))
        ],
      )
]

module _ {κ} {K : Type 0} {V : Type κ} ⦃key : Key K⦄ where
  -- The memory after `insert` at a null pointer.
  abbrev pub grown : Memory K V → ℕ → ℕ → (ℕ → Bucket) → K → V → Memory K V
  grown m p b curr k v = record {
    plists =
        update m.plists p (some (update curr b (record { base = m.fresh; lock = e_unlocked })));
    elists = update m.elists m.fresh (some ((k, v) ∷ []));
    fresh = m.fresh + 1;
  }

  -- The bucket is null in the copy that was read; in memory, where `t` is the PList, it may have a
  -- pointer by now.
  pub null_stale :
      (is_local : ℕ → Bool) (esize : ℕ) (m : Memory K V) (k : K) (v : V) (c : Context K V)
      (t : ℕ → Bucket) (spare : ℕ)
      → let b = level_hash k c.depth c.count in
        m.plists c.parent_ptr ≡ some t
        → (t b).lock ≡ e_unlocked
        → (c.curr b).lock ≡ e_unlocked
        → (c.curr b).base ≡ 0
        → descend (suc (suc spare)) k (insert_apply is_local esize k v) m c
          ≡ some (grown m c.parent_ptr b t k v, none)
  null_stale is_local esize m k v c t spare mem free copied null =
      let b = level_hash k c.depth c.count in
      let p = c.parent_ptr in
      let elists = update m.elists m.fresh (some ((k, v) ∷ [])) in
      let base = λ (x : Bucket) (q : ℕ). base_lem m p b t elists (m.fresh + 1) x q in
      descend_stale spare k (insert_apply is_local esize k v) m t c none
        (finishes
          (record {
            plists =
                update m.plists p (some (update t b (record { base = m.fresh; lock = e_locked })));
            elists = elists;
            fresh = m.fresh + 1;
          })
          (arrive k c none) none)
        mem free copied (fetch_null m _ null)
        (unfold insert_apply elist_insert in rw (base (record (t b) { lock = e_locked }) m.fresh))
      ∙ rw (
          lock_lem m p b t elists (m.fresh + 1) (record { base = m.fresh; lock = e_locked })
            e_unlocked)

  pub null_at :
      (is_local : ℕ → Bool) (esize : ℕ) (m : Memory K V) (k : K) (v : V) (r : Option V) {n : ℕ → ℕ}
      (c : Context K V) (spare : ℕ)
      → End esize m k r n c
      → (c.curr (level_hash k c.depth c.count)).base ≡ 0
      → descend (suc (suc spare)) k (insert_apply is_local esize k v) m c
        ≡ some (grown m c.parent_ptr (level_hash k c.depth c.count) c.curr k v, none)
  null_at is_local esize m k v r c spare end null =
      null_stale is_local esize m k v c c.curr spare end.mem end.free end.free null

  -- A list that is there is still there after an allocation.
  pub Holds-allocate :
      (esize : ℕ) (m : Memory K V) (m' : Memory K V) (e : EList K V) (x : K) (base : ℕ)
      (r : Option V)
      → m'.elists ≡ update m.elists m.fresh (some e)
      → m.elists m.fresh ≡ none
      → Holds esize m x base r
      → Holds esize m' x base r
  Holds-allocate esize m m' e x base r new vacant (inl h) = inl h
  Holds-allocate esize m m' e x base r new vacant (inr (d, nz, list, u, few, is)) =
      elim (Bool-cases (base == m.fresh)) [
        | inl same ↦ let at : base ≡ m.fresh = (==_iff base m.fresh).0 same in cc
        | inr other ↦
            inr (d, nz, ap (λ (f : ℕ → Option (EList K V)). f base) new ∙ rw other list, u, few, is)
      ]

  single-IsUnique : (k : K) (v : V) → IsUnique ((k, v) ∷ [])
  single-IsUnique k v =
      unfold elist_insert in
      insert-IsUnique k v [] (unfold lookup in refl) (λ q. unfold count_key in omega arith)

  -- Behind the bucket that `insert` filled stands a list of one pair.
  pub grown_here :
      (esize : ℕ) (m : Memory K V) (p b : ℕ) (curr : ℕ → Bucket) (k : K) (v : V) (x : K)
      (r : Option V)
      → 1 ≤ esize
      → 1 ≤ m.fresh
      → r ≡ (if key.equal k x then some v else none)
      → Holds esize (grown m p b curr k v) x m.fresh r
  grown_here esize m p b curr k v x r pos one is = inr (
    (k, v) ∷ [],
    omega arith,
    ground arith,
    single-IsUnique k v,
    omega arith,
    is ∙ unfold lookup in refl,
  )

  grown-ends :
      (esize : ℕ) (m : Memory K V) (p b : ℕ) (curr : ℕ → Bucket) (k : K) (v : V) (x : K)
      (r : Option V)
      → 1 ≤ esize
      → 1 ≤ m.fresh
      → m.elists m.fresh ≡ none
      → m.plists p ≡ some curr
      → (curr b).base ≡ 0
      → key.equal k x ≡ false
      → (q : ℕ) (t : ℕ → Bucket) (j : ℕ) → m.plists q ≡ some t
      → (t j).lock ≡ e_unlocked
      → Holds esize m x (t j).base r
      → (t' : ℕ → Bucket) × ((grown m p b curr k v).plists q ≡ some t')
        × ((t' j).lock ≡ e_unlocked)
        × Holds esize (grown m p b curr k v) x (t' j).base r
  grown-ends esize m p b curr k v x r pos one vacant mem null ne q t j at free h =
      let s : Bucket = record { base = m.fresh; lock = e_unlocked } in
      let m' = grown m p b curr k v in
      let (t', at', what) = replaced m.plists p curr b s q t j mem at in
      elim what [
        | inl (_, table, here, is) ↦
            let zero_base : (t j).base ≡ 0 =
              ap (λ (f : ℕ → Bucket). (f j).base) table
              ∙ ap (λ (i : ℕ). (curr i).base) here
              ∙ null in
            let absent : r ≡ none = elim h [ inl a ↦ a.1 | inr a ↦ absurd (a.1 zero_base) ] in
            (
              t',
              at',
              rw is refl,
              subst (λ (z : Bucket). Holds esize m' x z.base r) (sym is)
                  (grown_here esize m p b curr k v x r pos one (rw ne absent)),
            )
        | inr is ↦ (
          t',
          at',
          rw is free,
          subst (λ (z : Bucket). Holds esize m' x z.base r) (sym is)
              (Holds-allocate esize m m' ((k, v) ∷ []) x (t j).base r refl vacant h),
        )
      ]

  -- Calcified buckets stay where a free bucket is replaced.
  pub replaced-Keeps :
      (m m' : Memory K V) (p b : ℕ) (curr : ℕ → Bucket) (s : Bucket)
      → m.plists p ≡ some curr
      → (curr b).lock ≡ e_unlocked
      → m'.plists ≡ update m.plists p (some (update curr b s))
      → Keeps m m'
  replaced-Keeps m m' p b curr s mem free new q t j at calc =
      let (t', at', what) = replaced m.plists p curr b s q t j mem at in
      (
        t',
        ap (λ (f : ℕ → Option (ℕ → Bucket)). f q) new ∙ at',
        elim what [
          | inl (_, table, here, is) ↦
              let lock : (t j).lock ≡ e_unlocked =
                ap (λ (f : ℕ → Bucket). (f j).lock) table
                ∙ ap (λ (i : ℕ). (curr i).lock) here
                ∙ free in
              absurd (omega arith)
          | inr is ↦ is
        ],
      )

  vacant_after :
      (m : Memory K V) (p q : ℕ) {curr : ℕ → Bucket} (curr' : ℕ → Bucket) (k : K) (v : V)
      → m.plists p ≡ some curr
      → m.fresh + 1 ≤ q
      → ((x : ℕ) → m.fresh ≤ x → (m.plists x ≡ none) × (m.elists x ≡ none))
      → (update m.plists p (some curr') q ≡ none)
        × (update m.elists m.fresh (some ((k, v) ∷ [])) q ≡ none)
  vacant_after m p q curr' k v mem le free =
      let (no_plist, no_elist) = free q (omega arith) in
      let other : q ≢ p = λ same. let at : m.plists q ≡ m.plists p = ap m.plists same in cc in
      let away : q ≢ m.fresh = λ same. omega arith in (ground arith, ground arith)

  pub grown-IsMap :
      (esize root size : ℕ) (m : Memory K V) (f : K → Option V) (k : K) (v : V) {n : ℕ → ℕ}
      (c : Context K V)
      → 1 ≤ esize
      → IsMap esize root size m f
      → End esize m k (f k) n c
      → let b = level_hash k c.depth c.count in
        let m' = grown m c.parent_ptr b c.curr k v in
        (c.curr b).base ≡ 0
        → (Reads esize m' k (some v) c.parent_ptr c.depth c.count
            → Reads esize m' k (some v) root 1 size)
        → IsMap esize root size m' (λ q. if key.equal k q then some v else f q)
  grown-IsMap esize root size m f k v c pos table end null back =
      let b = level_hash k c.depth c.count in
      let p = c.parent_ptr in
      let m' = grown m p b c.curr k v in
      let s : Bucket = record { base = m.fresh; lock = e_unlocked } in
      let (no_plist, no_elist) = table.fresh m.fresh (omega arith) in
      let keeps = replaced-Keeps m m' p b c.curr s end.mem end.free refl in
      let own = back (
        stop (update c.curr b s) (ground arith) (ground arith) (
          rw (update_hit c.curr b b s refl) (
            grown_here esize m p b c.curr k v k (some v) pos table.null
              (rw ((key.equal_iff k k).1 refl) refl)))) in
      record {
        reads = λ q. elim (Bool-cases (key.equal k q)) [
          | inl same ↦ rw same (
              subst (λ (x : K). Reads esize m' x (some v) root 1 size) ((key.equal_iff k q).0 same)
                own)
          | inr other ↦ rw other (
              Reads-carry m' keeps
                (grown-ends esize m p b c.curr k v q (f q) pos table.null no_elist end.mem null
                  other)
                (table.reads q))
        ];
        fresh = λ q le. vacant_after m p q (update c.curr b s) k v end.mem le table.fresh;
        null = omega arith;
      }
