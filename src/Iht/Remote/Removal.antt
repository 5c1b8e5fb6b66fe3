-- ===== src/Iht/Remote/Removal.antt =====
-- The loop of `remove` of RdmaIHT.
use rabia_sandbox.Base.{
  ℕ, zero, suc, ◌+◌, ◌≤◌, ◌<◌, Option, none, some, true, false, get_elem?, get_elem?-beyond, ◌≡◌,
  refl, arith, Bool-cases, Option-cases, ◌==◌, ==_iff, ◌∙◌, inl, inr,
}
use rabia_sandbox.Iht.Key.{Key}
use rabia_sandbox.Iht.Elist.{EList, edge_swap}
use rabia_sandbox.Iht.Elist.Laws.{
  lookup, IsUnique, count_key-at, count_key-eq_zero, edge_swap-removes, slots-IsUnique,
}
use rabia_sandbox.Iht.Remote.{remove_loop}
use rabia_sandbox.Iht.Remote.Store.{Memory, write_elist}

module _ {κ} {K : Type 0} {V : Type κ} ⦃key : Key K⦄ where
  module _ (fuel i : ℕ) (k : K) (base : ℕ) (m : Memory K V) (e : EList K V) (r : Option V) where
    loop_out : get_elem? e i ≡ none → remove_loop (suc fuel) i k base m e r ≡ (m, r)
    unfolding remove_loop
    loop_out out = ground arith

    loop_hit :
        (p : K × V)
        → get_elem? e i ≡ some p
        → key.equal p.0 k ≡ true
        → remove_loop (suc fuel) i k base m e r
          ≡ remove_loop fuel
              (i + 1)
              k
              base
              (write_elist m base (edge_swap e i))
              (edge_swap e i)
              (some p.1)
    unfolding remove_loop
    loop_hit p at same = ground arith

    loop_miss :
        (p : K × V)
        → get_elem? e i ≡ some p
        → key.equal p.0 k ≡ false
        → remove_loop (suc fuel) i k base m e r ≡ remove_loop fuel (i + 1) k base m e r
    unfolding remove_loop
    loop_miss p at other = ground arith

  -- Without the key in the list, the loop changes nothing.
  pub remove_loop-absent :
      (fuel i : ℕ) (k : K) (base : ℕ) (m : Memory K V) (e : EList K V) (r : Option V)
      → lookup k e ≡ none
      → remove_loop fuel i k base m e r ≡ (m, r)
  unfolding remove_loop
  remove_loop-absent zero i k base m e r absent = refl
  remove_loop-absent (suc fuel) i k base m e r absent = elim (Option-cases (get_elem? e i)) [
    | inl out ↦ loop_out fuel i k base m e r out
    | inr (p, at) ↦
        let other : key.equal p.0 k ≡ false =
          ground
            (arith, count_key-at e i p at, count_key-eq_zero k e absent, key.equal_iff p.0 k) in
        loop_miss fuel i k base m e r p at other
        ∙ remove_loop-absent fuel (i + 1) k base m e r absent
  ]

  -- With the key in slot `j`, the loop takes that pair out.
  pub remove_loop-present :
      (fuel i : ℕ) (k : K) (v : V) (base : ℕ) (m : Memory K V) (e : EList K V) (r : Option V)
      (j : ℕ)
      → IsUnique e
      → get_elem? e j ≡ some (k, v)
      → i ≤ j
      → j < i + fuel
      → remove_loop fuel i k base m e r ≡ (write_elist m base (edge_swap e j), some v)
  unfolding remove_loop
  remove_loop-present zero i k v base m e r j u slot le lt = absurd (omega arith)
  remove_loop-present (suc fuel) i k v base m e r j u slot le lt = elim (Bool-cases (i == j)) [
    | inl here ↦
        let at : i ≡ j = (==_iff i j).0 here in
        let gone = (edge_swap-removes k v e j slot u).2 in
        rw at (
          loop_hit fuel j k base m e r (k, v) slot ((key.equal_iff k k).1 refl)
          ∙ remove_loop-absent fuel (j + 1) k base (write_elist m base (edge_swap e j))
              (edge_swap e j) (some v) (gone k ∙ rw ((key.equal_iff k k).1 refl) refl))
    | inr away ↦ elim (Option-cases (get_elem? e i)) [
      | inl out ↦ let none_there = get_elem?-beyond e i j out le in absurd cc
      | inr (p, at) ↦
          let other : key.equal p.0 k ≡ false = elim (Bool-cases (key.equal p.0 k)) [
            | inl same ↦
                absurd (ground (arith, ==_iff i j, slots-IsUnique k v e i j p u at slot same))
            | inr is ↦ is
          ] in
          loop_miss fuel i k base m e r p at other
          ∙ remove_loop-present fuel (i + 1) k v base m e r j u slot (ground (arith, ==_iff i j))
              (omega arith)
    ]
  ]
