-- ===== src/Iht/Remote/Tree.antt =====
-- The shape of the table of RdmaIHT in memory: the PLists are a tree, and no list stands behind two
-- buckets.
use rabia_sandbox.Base.{
  ℕ, ◌+◌, ◌<◌, Option, some, false, ◌≡◌, ◌≢◌, ◌⊎◌, inl, inr, refl, sym, ap, ◌∙◌, arith, update,
  update_miss, ◌==◌, ==_iff, Bool-cases,
}
use rabia_sandbox.Iht.Remote.Store.{Bucket, Memory, e_unlocked}
use rabia_sandbox.Iht.Remote.Reads.{Deepens}

apart : (x y : ℕ) → (x == y) ≡ false → x ≢ y
apart x y e = ground arith

-- The bucket `b` of the PList `curr` at `p` is replaced: what a bucket read afterwards was before.
pub replaced_view :
    (plists : ℕ → Option (ℕ → Bucket)) (p : ℕ) (curr : ℕ → Bucket) (b : ℕ) (s : Bucket) (q : ℕ)
    (t' : ℕ → Bucket) (j : ℕ)
    → plists p ≡ some curr
    → update plists p (some (update curr b s)) q ≡ some t'
    → (t : ℕ → Bucket) × (plists q ≡ some t)
      × (((q ≡ p) × (j ≡ b) × (t' j ≡ s)) ⊎ ((t' j ≡ t j) × (q ≡ p → j ≢ b)))
replaced_view plists p curr b s q t' j mem at = elim (Bool-cases (q == p)) [
  | inr away ↦
      let here : plists q ≡ some t' =
        sym (update_miss plists p q (some (update curr b s)) away) ∙ at in
      (t', here, inr (refl, λ same. absurd (apart q p away same)))
  | inl here ↦
      let same : q ≡ p = (==_iff q p).0 here in
      let now : update plists p (some (update curr b s)) q ≡ some (update curr b s) =
        rw here refl in
      let table : t' ≡ update curr b s = cc in
      (
        curr,
        rw same mem,
        elim (Bool-cases (j == b)) [
          | inl hit ↦
              inl (same, (==_iff j b).0 hit, ap (λ (f : ℕ → Bucket). f j) table ∙ rw hit refl)
          | inr miss ↦ inr (
            ap (λ (f : ℕ → Bucket). f j) table ∙ rw miss refl,
            λ same_place e. absurd (apart j b miss e),
          )
        ],
      )
]

module _ {κ} {K : Type 0} {V : Type κ} where
  pub record IsTree (root size : ℕ) (m : Memory K V) : Type κ where
    pub depths : ℕ → ℕ
    pub counts : ℕ → ℕ
    pub top : (depths root ≡ 1) × (counts root ≡ size)
    pub rooted : root < m.fresh
    pub deepens : Deepens m depths counts
    pub single :
        (p q : ℕ) (t u : ℕ → Bucket) (b c : ℕ)
        → m.plists p ≡ some t
        → m.plists q ≡ some u
        → (t b).lock ≡ e_unlocked
        → (u c).lock ≡ e_unlocked
        → (t b).base ≢ 0
        → (t b).base ≡ (u c).base
        → (p ≡ q) × (b ≡ c)
    pub known : (p : ℕ) (t : ℕ → Bucket) (b : ℕ) → m.plists p ≡ some t → (t b).base < m.fresh

  -- Only the PLists count.
  pub IsTree-same :
      (root size : ℕ) (m m' : Memory K V)
      → m'.plists ≡ m.plists
      → m'.fresh ≡ m.fresh
      → IsTree root size m
      → IsTree root size m'
  IsTree-same root size m m' same fresh tree =
      let at = λ (p : ℕ). ap (λ (f : ℕ → Option (ℕ → Bucket)). f p) same in
      record {
        depths = tree.depths;
        counts = tree.counts;
        top = tree.top;
        rooted = rw fresh tree.rooted;
        deepens = λ p t b mem. tree.deepens p t b (sym (at p) ∙ mem);
        single =
            λ p q t u b c mem mem'. tree.single p q t u b c (sym (at p) ∙ mem) (sym (at q) ∙ mem');
        known = λ p t b mem. rw fresh (tree.known p t b (sym (at p) ∙ mem));
      }

  -- A new list behind a free bucket.
  pub IsTree-grown :
      (root size : ℕ) (m m' : Memory K V) (p : ℕ) (curr : ℕ → Bucket) (b : ℕ)
      → IsTree root size m
      → m.plists p ≡ some curr
      → m'.plists
        ≡ update m.plists p (some (update curr b (record { base = m.fresh; lock = e_unlocked })))
      → m'.fresh ≡ m.fresh + 1
      → IsTree root size m'
  IsTree-grown root size m m' p curr b tree mem new fresh =
      let s : Bucket = record { base = m.fresh; lock = e_unlocked } in
      let view = λ (q : ℕ) (t : ℕ → Bucket) (j : ℕ) (at : m'.plists q ≡ some t).
        replaced_view m.plists p curr b s q t j mem
          (sym (ap (λ (f : ℕ → Option (ℕ → Bucket)). f q) new) ∙ at) in
      record {
        depths = tree.depths;
        counts = tree.counts;
        top = tree.top;
        rooted = omega (arith, fresh, tree.rooted);
        deepens = λ q t j at calc.
            let (u, old, what) = view q t j at in
            elim what [
              | inl (_, _, is) ↦ absurd (ground arith)
              | inr (is, _) ↦ rw is (tree.deepens q u j old (ground arith))
            ];
        single = λ q q' t t' j j' at at' free free' nz same.
            let (u, old, what) = view q t j at in
            let (u', old', what') = view q' t' j' at' in
            elim what [
              | inl (qp, jb, is) ↦ elim what' [
                | inl (qp', jb', is') ↦ (qp ∙ sym qp', jb ∙ sym jb')
                | inr (is', _) ↦ absurd (ground (arith, tree.known q' u' j' old'))
              ]
              | inr (is, _) ↦ elim what' [
                | inl (qp', jb', is') ↦ absurd (ground (arith, tree.known q u j old))
                | inr (is', _) ↦
                    tree.single q q' u u' j j' old old' (ground arith) (ground arith) (ground arith)
                      (ground arith)
              ]
            ];
        known = λ q t j at.
            let (u, old, what) = view q t j at in
            elim what [
              | inl (_, _, is) ↦ ground arith
              | inr (is, _) ↦ ground (arith, tree.known q u j old)
            ];
      }
