-- ===== src/Iht/Remote/Replant.antt =====
-- The memory after `insert` of RdmaIHT has put a PList in the place of a full list: the table of the same
-- map, with the shape of a tree.
pub mod Shape
use rabia_sandbox.Base.{
  ℕ, suc, ◌+◌, ◌*◌, ◌≤◌, ◌<◌, Bool, true, false, Option, none, some, [], ◌∷◌, length, ◌≡◌, ◌≢◌, ◌⊎◌,
  inl, inr, refl, sym, ap, subst, ◌∙◌, arith, update, update_miss, update_hit, ◌==◌, ==_iff,
  if◌then◌else◌, Bool-cases,
}
use rabia_sandbox.Iht.Key.{Key}
use rabia_sandbox.Iht.Elist.{EList}
use rabia_sandbox.Iht.Elist.Laws.{lookup, IsUnique}
use rabia_sandbox.Iht.Elist.Parts.{part, lookup-part, part-IsUnique, length-part}
use rabia_sandbox.Iht.Remote.{level_hash}
use rabia_sandbox.Iht.Remote.Store.{Bucket, Memory, e_unlocked, p_unlocked}
use rabia_sandbox.Iht.Remote.Reads.{Holds, Reads, stop, down, sift, load_of, Keeps, Reads-graft}
use rabia_sandbox.Iht.Remote.Grow.{replaced, replaced-Keeps}
use rabia_sandbox.Iht.Remote.Writes.{IsMap}
use rabia_sandbox.Iht.Remote.Tree.{IsTree, replaced_view}
use rabia_sandbox.Iht.Remote.Rehash.{Filled}
use rabia_sandbox.Iht.Remote.Calcify.{replanted}

module _ {κ} {K : Type 0} {V : Type κ} ⦃key : Key K⦄ where
  -- The list `e` stands behind the bucket `b` of `curr` at `p`, and `t` has its pairs.
  pub record Ready (m : Memory K V) (p b depth count : ℕ) (curr : ℕ → Bucket) (e : EList K V)
      (m₀ m₂ : Memory K V) (t : ℕ → Bucket) : Type κ where
    pub mem : m.plists p ≡ some curr
    pub free : (curr b).lock ≡ e_unlocked
    pub nz : (curr b).base ≢ 0
    pub list : m.elists (curr b).base ≡ some e
    pub vacant : (q : ℕ) → m.fresh ≤ q → (m.plists q ≡ none) × (m.elists q ≡ none)
    pub null : 1 ≤ m.fresh
    pub later : m₀.fresh ≡ m.fresh + 1
    pub lists : m₀.elists ≡ m.elists
    pub filled : Filled (λ q. level_hash q (depth + 1) (count * 2)) m.fresh m₀ m₂ t e

  module _ (is_local : ℕ → Bool) (m : Memory K V) (p b depth count : ℕ) (curr : ℕ → Bucket)
      (e : EList K V) (m₀ m₂ : Memory K V) (t : ℕ → Bucket)
      (ok : Ready m p b depth count curr e m₀ m₂ t) where
    abbrev pub after : Memory K V
    after = replanted is_local m p b curr m₂ t p_unlocked

    abbrev pub gate : Bucket
    gate = record { base = m.fresh; lock = p_unlocked }

    pub apart_new : (q : ℕ) (u : ℕ → Bucket) → m.plists q ≡ some u → q ≢ m.fresh
    apart_new q u at same =
        let gone : m.plists m.fresh ≡ none = (ok.vacant m.fresh (omega arith)).0 in
        let there : m.plists m.fresh ≡ some u = subst (λ (x : ℕ). m.plists x ≡ some u) same at in cc

    planted : (q : ℕ) → q ≢ m.fresh → update m.plists m.fresh (some t) q ≡ m.plists q
    planted q ne = update_miss m.plists m.fresh q (some t) (ground arith)

    -- What a bucket was before.
    abbrev pub Before : ℕ → (ℕ → Bucket) → ℕ → Type 0
    Before q t' j =
        ((q ≡ m.fresh) × (t' j ≡ t j))
        ⊎ ((q ≢ m.fresh)
            × (u : ℕ → Bucket) × (m.plists q ≡ some u)
            × (((q ≡ p) × (j ≡ b) × (t' j ≡ gate)) ⊎ ((t' j ≡ u j) × (q ≡ p → j ≢ b))))

    pub view : (q : ℕ) (t' : ℕ → Bucket) (j : ℕ) → after.plists q ≡ some t' → Before q t' j
    view q t' j at =
        let (u, old, what) =
          replaced_view (update m.plists m.fresh (some t)) p curr b gate q t' j
            (planted p (apart_new p curr ok.mem) ∙ ok.mem) at in
        elim (Bool-cases (q == m.fresh)) [
          | inl new ↦
              let same : q ≡ m.fresh = (==_iff q m.fresh).0 new in
              let hit = update_hit m.plists m.fresh q (some t) same in
              let table : u ≡ t = cc in
              inl (
                same,
                elim what [
                  | inl (here, _, _) ↦ absurd (apart_new p curr ok.mem (sym here ∙ same))
                  | inr (is, _) ↦ is ∙ ap (λ (f : ℕ → Bucket). f j) table
                ],
              )
          | inr away ↦
              let ne : q ≢ m.fresh = ground arith in inr (ne, u, sym (planted q ne) ∙ old, what)
        ]

    pub after-Keeps : Keeps m after
    after-Keeps q u j at calc =
        let middle : Memory K V = record m { plists = update m.plists m.fresh (some t) } in
        replaced-Keeps middle after p b curr gate (planted p (apart_new p curr ok.mem) ∙ ok.mem)
          ok.free refl q u j (planted q (apart_new q u at) ∙ at) calc

    -- A list behind another bucket is still there.
    kept_list : (x : ℕ) → x < m.fresh → x ≢ (curr b).base → after.elists x ≡ m.elists x
    kept_list x lt ne =
        let old : m₂.elists x ≡ m.elists x =
          ok.filled.same x (omega (arith, ok.later))
          ∙ ap (λ (g : ℕ → Option (EList K V)). g x) ok.lists in
        elim (Bool-cases (is_local (curr b).base)) [
          | inl here ↦ rw here (update_miss m₂.elists (curr b).base x none (ground arith) ∙ old)
          | inr there ↦ rw there old
        ]

    new_list : (x : ℕ) → m.fresh + 1 ≤ x → (curr b).base < m.fresh → after.elists x ≡ m₂.elists x
    new_list x le lt = elim (Bool-cases (is_local (curr b).base)) [
      | inl here ↦ rw here (update_miss m₂.elists (curr b).base x none (ground arith))
      | inr there ↦ rw there refl
    ]

    -- A key that was looked up in the full list is looked up in the new PList, and the pairs that go its
    -- way there are those that did in the list.
    pub part-Holds :
        (esize : ℕ) (x : K) (r : Option V)
        → let h = λ (q : K). level_hash q (depth + 1) (count * 2) in
          IsUnique e
          → length e ≤ esize
          → (curr b).base < m.fresh
          → r ≡ lookup x e
          → (hd : Holds esize after x (t (h x)).base r) × ((j : ℕ)
              → load_of esize after x (t (h x)).base r hd (depth + 1) (count * 2) j
                ≤ length (sift (suc j) x e depth count))
    unfolding sift
    part-Holds esize x r u few lt is =
        let h = λ (q : K). level_hash q (depth + 1) (count * 2) in
        let base = (t (h x)).base in
        let value = lookup-part h (h x) x e refl in
        elim (ok.filled.sorted (h x)) [
          | inl (null, empty) ↦ (
            inl (null, is ∙ sym value ∙ ap (lookup x) empty ∙ unfold lookup in refl),
            λ j. omega arith,
          )
          | inr (nz, here) ↦
              let high : m.fresh + 1 ≤ base = ground (arith, ok.filled.range (h x), ok.later) in
              (
                inr (
                  part h (h x) e,
                  nz,
                  new_list base high lt ∙ here,
                  part-IsUnique h (h x) e u,
                  omega (arith, length-part h (h x) e),
                  is ∙ sym value,
                ),
                λ j. omega arith,
              )
        ]

    pub new_at : after.plists m.fresh ≡ some t
    new_at =
        update_miss (update m.plists m.fresh (some t)) p m.fresh (some (update curr b gate))
          (ground (arith, apart_new p curr ok.mem))
        ∙ update_hit m.plists m.fresh m.fresh (some t) refl

    -- The bucket leads to the new PList, and still does after a change that keeps calcified buckets.
    pub gate_at :
        (m' : Memory K V)
        → Keeps after m'
        → (t' : ℕ → Bucket) × (m'.plists p ≡ some t') × (t' b ≡ gate)
    gate_at m' keeps =
        let hit = update_hit curr b b gate refl in
        let (t', mem', same) =
          keeps p (update curr b gate) b (update_hit (update m.plists m.fresh (some t)) p p _ refl)
            (ap (λ (s : Bucket). s.lock) hit) in
        (t', mem', same ∙ hit)

    gate-Reads :
        (esize : ℕ) (x : K)
        → IsUnique e
        → length e ≤ esize
        → (curr b).base < m.fresh
        → Reads esize after x (lookup x e) m.fresh (depth + 1) (count * 2)
    gate-Reads esize x u few lt =
        stop t new_at (ok.filled.free (level_hash x (depth + 1) (count * 2)))
          (part-Holds esize x (lookup x e) u few lt refl).0

    value_lem :
        (esize : ℕ) (x : K) (r : Option V) → Holds esize m x (curr b).base r → r ≡ lookup x e
    value_lem esize x r (inl (null, _)) = absurd (ok.nz null)
    value_lem esize x r (inr (d, _, list, _, _, is)) =
        let there = ok.list in let same : d ≡ e = cc in is ∙ ap (lookup x) same

    -- What stands behind another free bucket.
    other-Holds :
        (esize root size : ℕ) (x : K) (r : Option V) (tree : IsTree root size m) (q : ℕ)
        (s : ℕ → Bucket) (j : ℕ)
        → m.plists q ≡ some s
        → (s j).lock ≡ e_unlocked
        → (q ≡ p → j ≢ b)
        → Holds esize m x (s j).base r
        → Holds esize after x (s j).base r
    other-Holds esize root size x r tree q s j at free ne (inl h) = inl h
    other-Holds esize root size x r tree q s j at free ne (inr (d, nz, list, u, few, is)) =
        let differ : (s j).base ≢ (curr b).base = λ same.
          let (qp, jb) = tree.single q p s curr j b at ok.mem free ok.free nz same in ne qp jb in
        inr (d, nz, kept_list (s j).base (tree.known q s j at) differ ∙ list, u, few, is)

    same_plist : (q : ℕ) (s : ℕ → Bucket) → m.plists q ≡ some s → q ≡ p → s ≡ curr
    same_plist q s at same = let here = ok.mem in cc

    -- Every key reads what it read.
    after-Reads :
        (esize root size : ℕ) (x : K) (r : Option V) (tree : IsTree root size m)
        → IsUnique e
        → length e ≤ esize
        → tree.depths p ≡ depth
        → tree.counts p ≡ count
        → Reads esize m x r root 1 size
        → Reads esize after x r root 1 size
    after-Reads esize root size x r tree u few deep wide rd =
        Reads-graft after tree.depths tree.counts tree.deepens after-Keeps
          (λ q d n s here around at free holds.
            let j = level_hash x d n in
            let middle : update m.plists m.fresh (some t) p ≡ some curr =
              planted p (apart_new p curr ok.mem) ∙ ok.mem in
            let at_q = planted q (apart_new q s at) ∙ at in
            let (s', at', _) =
              replaced (update m.plists m.fresh (some t)) p curr b gate q s j middle at_q in
            let (s'', at'', what) =
              replaced_view (update m.plists m.fresh (some t)) p curr b gate q s' j middle at' in
            let table : s'' ≡ s = cc in
            elim what [
              | inl (same, slot, is) ↦
                  let curr_is = same_plist q s at same in
                  let bucket : s j ≡ curr b = ap (λ (f : ℕ → Bucket). f j) curr_is ∙ ap curr slot in
                  let value : r ≡ lookup x e =
                    value_lem esize x r
                      (subst (λ (z : Bucket). Holds esize m x z.base r) bucket holds) in
                  let d_is : depth ≡ d = sym deep ∙ ap tree.depths (sym same) ∙ here in
                  let n_is : count ≡ n = sym wide ∙ ap tree.counts (sym same) ∙ around in
                  down s' at' (rw is refl) (
                    subst (λ (z : Bucket). Reads esize after x r z.base (d + 1) (n * 2)) (sym is)
                      (subst (λ (z : ℕ). Reads esize after x r m.fresh (z + 1) (n * 2)) d_is
                        (subst (λ (z : ℕ). Reads esize after x r m.fresh (depth + 1) (z * 2)) n_is
                          (subst
                            (λ (w : Option V).
                              Reads esize after x w m.fresh (depth + 1) (count * 2))
                            (sym value) (gate-Reads esize x u few (tree.known p curr b ok.mem))))))
              | inr (is, ne) ↦
                  let is_s : s' j ≡ s j = is ∙ ap (λ (f : ℕ → Bucket). f j) table in
                  stop s' at' (rw is_s free) (
                    subst (λ (z : Bucket). Holds esize after x z.base r) (sym is_s)
                      (other-Holds esize root size x r tree q s j at free ne holds))
            ])
          tree.top.0 tree.top.1 rd

    pub after-IsMap :
        (esize root size : ℕ) (f : K → Option V) (tree : IsTree root size m)
        → IsMap esize root size m f
        → IsUnique e
        → length e ≤ esize
        → tree.depths p ≡ depth
        → tree.counts p ≡ count
        → IsMap esize root size after f
    after-IsMap esize root size f tree table u few deep wide = record {
      reads = λ k. after-Reads esize root size k (f k) tree u few deep wide (table.reads k);
      fresh = λ q le.
          let high : m.fresh + 1 ≤ q = omega (arith, le, ok.later, ok.filled.more) in
          let (no_plist, _) = ok.vacant q (omega arith) in
          let not_p : q ≢ p = λ same.
            let there = ok.mem in let at : m.plists q ≡ m.plists p = ap m.plists same in cc in
          (ground arith, new_list q high (tree.known p curr b ok.mem) ∙ ok.filled.vacant q le);
      null = omega (arith, ok.later, ok.filled.more);
    }
