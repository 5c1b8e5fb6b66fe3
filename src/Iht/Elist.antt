-- ===== src/Iht/Elist.antt =====
-- EList of oldAPIHelpMark/iht/iht_ds.h and oldAPIHelpMark/iht/iht_local.h: an array of pairs.
-- The model is the live prefix `pairs[0 .. count)`, so `count` is its length.
pub mod Laws
pub mod Parts
use rabia_sandbox.Base.{
  ℕ, zero, suc, ◌+◌, ◌-◌, List, [], ◌∷◌, ◌++◌, Option, none, some, Bool, length, set, take, ltb,
  if◌then◌else◌, get_elem?,
}
use rabia_sandbox.Iht.Key.{Key}

abbrev pub EList {ℓ κ} : Type ℓ → Type κ → Type (ℓ ⊔ κ)
EList K V = List (K × V)

module _ {ℓ κ} {K : Type ℓ} {V : Type κ} where
  -- elist_insert, unchecked_insert: `pairs[count] = {key, val}; count++`, with no test for room.
  unfoldable pub elist_insert : K → V → EList K V → EList K V
  elist_insert k v e = e ++ (k, v) ∷ []

  -- `if (count > 1) pairs[i] = pairs[count - 1]; count -= 1`
  unfoldable pub edge_swap : EList K V → ℕ → EList K V
  edge_swap e i = elim (get_elem? e (length e - 1)) [
    | none ↦ e
    | some last ↦ take (length e - 1) (if ltb 1 (length e) then set e i last else e)
  ]

module _ {ℓ κ} {K : Type ℓ} {V : Type κ} ⦃key : Key K⦄ where
  -- The linear search from slot `i` on: the slot of the first pair with this key, and its value.
  unfoldable pub search_from : ℕ → K → EList K V → Option (ℕ × V)
  search_from i k [] = none
  search_from i k (p ∷ e) = if key.equal p.0 k then some (i, p.1) else search_from (i + 1) k e

  unfoldable pub search_key : K → EList K V → Option (ℕ × V)
  unfolding search_from
  search_key k e = search_from 0 k e
