-- ===== src/Rpc/Methods.antt =====
-- A method gives the same whichever machine calls it.
use rabia_sandbox.Base.{
  ℕ, some, ◌≡◌, inl, inr, refl, sym, ap, arith, ◌==◌, ==_iff, Bool-cases, Option-cases,
}
use rabia_sandbox.Iht.Key.{Key}
use rabia_sandbox.Iht.Local.{Node, get, insert, remove}
use rabia_sandbox.Rpc.{
  Keyspace, to_id, get_req, ins_req, rmv_req, handle, get_result, insert_result, remove_result, ask,
  own, rpc_get, rpc_insert, rpc_remove, plist_size, elist_size,
}

module _ ⦃key : Key ℕ⦄ where
  get_asked :
      (fuel answer k i : ℕ) (tables : ℕ → Node ℕ ℕ)
      → ask fuel answer (record { op_type = get_req; key = k; value = 0 }) get_result i tables
        ≡ own i (get (tables i) k 1 plist_size) tables
  unfolding ask handle get_result own
  get_asked fuel answer k i tables = elim (Option-cases (get (tables i) k 1 plist_size)) [
    | inl stuck ↦ rw stuck refl
    | inr (r, runs) ↦ elim (Option-cases r.1) [
      | inl absent ↦ ground (arith, runs, absent)
      | inr (v, there) ↦ ground (arith, runs, there)
    ]
  ]

  -- `get` on any machine `self` does what the iht_carumap of the machine that owns the key does.
  pub rpc_get-own :
      (s : Keyspace) (self fuel answer k i : ℕ) (tables : ℕ → Node ℕ ℕ)
      → to_id s k ≡ some i
      → rpc_get s self fuel answer k tables ≡ own i (get (tables i) k 1 plist_size) tables
  unfolding rpc_get
  rpc_get-own s self fuel answer k i tables owner = elim (Bool-cases (i == self)) [
    | inl here ↦
        rw (owner, here)
          (ap (λ (j : ℕ). own j (get (tables j) k 1 plist_size) tables)
            (sym ((==_iff i self).0 here)))
    | inr away ↦ rw (owner, away) (get_asked fuel answer k i tables)
  ]

  insert_asked :
      (fuel answer k v i : ℕ) (tables : ℕ → Node ℕ ℕ)
      → ask fuel answer (record { op_type = ins_req; key = k; value = v }) insert_result i tables
        ≡ own i (insert fuel elist_size (tables i) k v 1 plist_size) tables
  unfolding ask handle insert_result own
  insert_asked fuel answer k v i tables =
      elim (Option-cases (insert fuel elist_size (tables i) k v 1 plist_size)) [
        | inl stuck ↦ rw stuck refl
        | inr (r, runs) ↦ elim (Option-cases r.1) [
          | inl absent ↦ ground (arith, runs, absent)
          | inr (w, there) ↦ ground (arith, runs, there)
        ]
      ]

  -- So does `insert`.
  pub rpc_insert-own :
      (s : Keyspace) (self fuel answer k v i : ℕ) (tables : ℕ → Node ℕ ℕ)
      → to_id s k ≡ some i
      → rpc_insert s self fuel answer k v tables
        ≡ own i (insert fuel elist_size (tables i) k v 1 plist_size) tables
  unfolding rpc_insert
  rpc_insert-own s self fuel answer k v i tables owner = elim (Bool-cases (i == self)) [
    | inl here ↦
        rw (owner, here)
          (ap (λ (j : ℕ). own j (insert fuel elist_size (tables j) k v 1 plist_size) tables)
            (sym ((==_iff i self).0 here)))
    | inr away ↦ rw (owner, away) (insert_asked fuel answer k v i tables)
  ]

  remove_asked :
      (fuel answer k i : ℕ) (tables : ℕ → Node ℕ ℕ)
      → ask fuel answer (record { op_type = rmv_req; key = k; value = 0 }) remove_result i tables
        ≡ own i (remove (tables i) k 1 plist_size) tables
  unfolding ask handle remove_result own
  remove_asked fuel answer k i tables = elim (Option-cases (remove (tables i) k 1 plist_size)) [
    | inl stuck ↦ rw stuck refl
    | inr (r, runs) ↦ elim (Option-cases r.1) [
      | inl absent ↦ ground (arith, runs, absent)
      | inr (v, there) ↦ ground (arith, runs, there)
    ]
  ]

  -- So does `remove`.
  pub rpc_remove-own :
      (s : Keyspace) (self fuel answer k i : ℕ) (tables : ℕ → Node ℕ ℕ)
      → to_id s k ≡ some i
      → rpc_remove s self fuel answer k tables ≡ own i (remove (tables i) k 1 plist_size) tables
  unfolding rpc_remove
  rpc_remove-own s self fuel answer k i tables owner = elim (Bool-cases (i == self)) [
    | inl here ↦
        rw (owner, here)
          (ap (λ (j : ℕ). own j (remove (tables j) k 1 plist_size) tables)
            (sym ((==_iff i self).0 here)))
    | inr away ↦ rw (owner, away) (remove_asked fuel answer k i tables)
  ]
