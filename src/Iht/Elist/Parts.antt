-- ===== src/Iht/Elist/Parts.antt =====
-- The pairs of an EList that go to one bucket of a PList.
use rabia_sandbox.Base.{ℕ, ◌≤◌, [], ◌∷◌, length, ◌==◌, if◌then◌else◌, ◌≡◌, refl, ap, arith}
use rabia_sandbox.Iht.Key.{Key}
use rabia_sandbox.Iht.Elist.{EList, elist_insert}
use rabia_sandbox.Iht.Elist.Laws.{lookup, count_key, IsUnique}

module _ {ℓ κ} {K : Type ℓ} {V : Type κ} (h : K → ℕ) (b : ℕ) where
  unfoldable pub part : EList K V → EList K V
  part [] = []
  part (p ∷ e) = if h p.0 == b then p ∷ part e else part e

  pub part-insert :
      (k : K) (v : V) (e : EList K V)
      → part (elist_insert k v e) ≡ (if h k == b then elist_insert k v (part e) else part e)
  unfolding part elist_insert
  part-insert k v [] = ground arith
  part-insert k v (p ∷ e) = ground (arith, part-insert k v e)

  pub length-part : (e : EList K V) → length (part e) ≤ length e
  unfolding part
  length-part [] = omega arith
  length-part (p ∷ e) = ground (arith, length-part e)

module _ {ℓ κ} {K : Type ℓ} {V : Type κ} ⦃key : Key K⦄ (h : K → ℕ) (b : ℕ) where
  count_key-part : (q : K) (e : EList K V) → count_key q (part h b e) ≤ count_key q e
  unfolding part count_key
  count_key-part q [] = omega arith
  count_key-part q (p ∷ e) = ground (arith, count_key-part q e)

  pub part-IsUnique : (e : EList K V) → IsUnique e → IsUnique (part h b e)
  part-IsUnique e u q = omega (arith, u q, count_key-part q e)

  -- The keys of the bucket are looked up there as in the whole list.
  pub lookup-part : (q : K) (e : EList K V) → h q ≡ b → lookup q (part h b e) ≡ lookup q e
  unfolding part lookup
  lookup-part q [] at = refl
  lookup-part q (p ∷ e) at = ground (arith, lookup-part q e, key.equal_iff p.0 q, ap h)
