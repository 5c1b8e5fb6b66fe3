-- ===== src/Iht/Remote/Replant/Shape.antt =====
-- The PLists are a tree again after a full list has been replaced by a PList.
use rabia_sandbox.Base.{
  ℕ, ◌+◌, ◌*◌, ◌<◌, Bool, some, ◌≡◌, ◌≢◌, inl, inr, refl, sym, ap, ◌∙◌, arith, update, update_hit,
}
use rabia_sandbox.Iht.Key.{Key}
use rabia_sandbox.Iht.Elist.{EList}
use rabia_sandbox.Iht.Remote.Store.{Bucket, Memory, e_unlocked}
use rabia_sandbox.Iht.Remote.Reads.{Deepens}
use rabia_sandbox.Iht.Remote.Tree.{IsTree}
use rabia_sandbox.Iht.Remote.Replant.{Ready, after, Before, view}

module _ {κ} {K : Type 0} {V : Type κ} ⦃key : Key K⦄ (is_local : ℕ → Bool) (m : Memory K V)
    (p b depth count : ℕ) (curr : ℕ → Bucket) (e : EList K V) (m₀ m₂ : Memory K V) (t : ℕ → Bucket)
    (ok : Ready m p b depth count curr e m₀ m₂ t) where
  abbrev new : Memory K V
  new = after is_local m p b depth count curr e m₀ m₂ t ok

  seen :
      (q : ℕ) (t' : ℕ → Bucket) (j : ℕ)
      → new.plists q ≡ some t'
      → Before is_local m p b depth count curr e m₀ m₂ t ok q t' j
  seen q t' j at = view is_local m p b depth count curr e m₀ m₂ t ok q t' j at

  module _ (root size : ℕ) (tree : IsTree root size m) where
    new-known : (q : ℕ) (t' : ℕ → Bucket) (j : ℕ) → new.plists q ≡ some t' → (t' j).base < m₂.fresh
    new-known q t' j at = elim (seen q t' j at) [
      | inl (_, is) ↦ ground (arith, ok.filled.range j, ok.filled.more, ok.later)
      | inr (_, u, old, what) ↦ elim what [
        | inl (_, _, is) ↦ ground (arith, ok.filled.more, ok.later)
        | inr (is, _) ↦ ground (arith, tree.known q u j old, ok.filled.more, ok.later)
      ]
    ]

    new-Deepens :
        tree.depths p ≡ depth
        → tree.counts p ≡ count
        → Deepens new
            (update tree.depths m.fresh (depth + 1))
            (update tree.counts m.fresh (count * 2))
    new-Deepens deep wide q t' j at calc = elim (seen q t' j at) [
      | inl (_, is) ↦ absurd (ground (arith, ok.filled.free j))
      | inr (ne, u, old, what) ↦ elim what [
        | inl (same, _, is) ↦
            let d : tree.depths q ≡ depth = ap tree.depths same ∙ deep in
            let n : tree.counts q ≡ count = ap tree.counts same ∙ wide in rw is (ground arith)
        | inr (is, _) ↦
            let (deeper, wider) = tree.deepens q u j old (ground arith) in
            rw is (ground (arith, tree.known q u j old))
      ]
    ]

    -- A list of the new PList stands behind no bucket that was there before.
    lists_apart :
        (q : ℕ) (u : ℕ → Bucket) (j c : ℕ)
        → m.plists q ≡ some u
        → (t c).base ≢ 0
        → (t c).base ≢ (u j).base
    lists_apart q u j c old nz same =
        absurd (ground (arith, ok.filled.range c, ok.later, tree.known q u j old))

    new-single :
        (q q' : ℕ) (s s' : ℕ → Bucket) (j j' : ℕ)
        → new.plists q ≡ some s
        → new.plists q' ≡ some s'
        → (s j).lock ≡ e_unlocked
        → (s' j').lock ≡ e_unlocked
        → (s j).base ≢ 0
        → (s j).base ≡ (s' j').base
        → (q ≡ q') × (j ≡ j')
    new-single q q' s s' j j' at at' free free' nz same = elim (seen q s j at) [
      | inl (qn, is) ↦ elim (seen q' s' j' at') [
        | inl (qn', is') ↦ (qn ∙ sym qn', ok.filled.apart j j' (ground arith) (ground arith))
        | inr (_, u', old', what') ↦ elim what' [
          | inl (_, _, is') ↦ absurd (ground arith)
          | inr (is', _) ↦ absurd (lists_apart q' u' j' j old' (ground arith) (ground arith))
        ]
      ]
      | inr (_, u, old, what) ↦ elim what [
        | inl (_, _, is) ↦ absurd (ground arith)
        | inr (is, _) ↦ elim (seen q' s' j' at') [
          | inl (qn', is') ↦ absurd (lists_apart q u j j' old (ground arith) (ground arith))
          | inr (_, u', old', what') ↦ elim what' [
            | inl (_, _, is') ↦ absurd (ground arith)
            | inr (is', _) ↦
                tree.single q q' u u' j j' old old' (ground arith) (ground arith) (ground arith)
                  (ground arith)
          ]
        ]
      ]
    ]

    pub after-IsTree :
        tree.depths p ≡ depth
        → tree.counts p ≡ count
        → (tree' : IsTree root size new) × (tree'.depths m.fresh ≡ depth + 1)
          × (tree'.counts m.fresh ≡ count * 2)
    after-IsTree deep wide =
        let tree' : IsTree root size new = record {
          depths = update tree.depths m.fresh (depth + 1);
          counts = update tree.counts m.fresh (count * 2);
          top = (ground (arith, tree.rooted, tree.top), ground (arith, tree.rooted, tree.top));
          rooted = omega (arith, tree.rooted, ok.later, ok.filled.more);
          deepens = new-Deepens deep wide;
          single = new-single;
          known = new-known;
        } in
        (
          tree',
          update_hit tree.depths m.fresh m.fresh (depth + 1) refl,
          update_hit tree.counts m.fresh m.fresh (count * 2) refl,
        )
