-- ===== src/Rpc/Map.antt =====
-- The tables of all machines as one map.
use rabia_sandbox.Base.{
  ℕ, ◌≤◌, ◌<◌, Option, none, some, ◌≡◌, ◌≢◌, ◌⊎◌, inl, inr, refl, sym, ap, subst, arith, ◌∙◌, ◌==◌,
  ==_iff, if◌then◌else◌, update, update_at, ◌>>=◌, Bool-cases, Option-cases,
}
use rabia_sandbox.Iht.Key.{Key}
use rabia_sandbox.Iht.Local.{Node}
use rabia_sandbox.Iht.Local.Invariant.{view, IsTable}
use rabia_sandbox.Iht.Local.Methods.{Becomes, get-view, remove-view}
use rabia_sandbox.Iht.Local.Insert.{kept, load, levels, insert-view}
use rabia_sandbox.Rpc.{
  Keyspace, to_id, own, rpc_get, rpc_insert, rpc_remove, plist_size, elist_size,
}
use rabia_sandbox.Rpc.Methods.{rpc_get-own, rpc_insert-own, rpc_remove-own}

module _ ⦃key : Key ℕ⦄ where
  -- The value of a key: what the table of its owner has.
  unfoldable pub shared_view : Keyspace → (ℕ → Node ℕ ℕ) → ℕ → Option ℕ
  shared_view s tables k = to_id s k >>= λ i. view (tables i) k 1 plist_size

  -- One key changes to `w`, on whichever machine it is.
  abbrev pub SharedBecomes : Keyspace → (ℕ → Node ℕ ℕ) → (ℕ → Node ℕ ℕ) → ℕ → Option ℕ → Type 0
  SharedBecomes s tables tables' k w =
      (q : ℕ) → shared_view s tables' q ≡ (if key.equal k q then w else shared_view s tables q)

  view_owner :
      (s : Keyspace) (tables : ℕ → Node ℕ ℕ) (k i : ℕ)
      → to_id s k ≡ some i
      → shared_view s tables k ≡ view (tables i) k 1 plist_size
  unfolding shared_view
  view_owner s tables k i owner = rw owner refl

  shared :
      (s : Keyspace) (tables : ℕ → Node ℕ ℕ) (k i : ℕ) (t' : Node ℕ ℕ) (w : Option ℕ)
      → to_id s k ≡ some i
      → Becomes (tables i) t' k w 1 plist_size
      → SharedBecomes s tables (update tables i t') k w
  unfolding shared_view
  shared s tables k i t' w owner change q = elim (Option-cases (to_id s q)) [
    | inl out ↦ elim (Bool-cases (key.equal k q)) [
      | inl same ↦ let e : k ≡ q = (key.equal_iff k q).0 same in absurd cc
      | inr other ↦ rw (out, other) refl
    ]
    | inr (j, at) ↦ elim (Bool-cases (j == i)) [
      | inl here ↦
          let e : j ≡ i = (==_iff j i).0 here in
          rw (at, here, change q)
            (ap (λ (x : ℕ). if key.equal k q then w else view (tables x) q 1 plist_size) (sym e))
      | inr away ↦ elim (Bool-cases (key.equal k q)) [
        | inl same ↦
            let e : k ≡ q = (key.equal_iff k q).0 same in
            let both : some i ≡ some j = sym owner ∙ ap (to_id s) e ∙ at in
            let ids : j ≡ i = cc in let yes = (==_iff j i).1 ids in absurd cc
        | inr other ↦ rw (at, away, other) refl
      ]
    ]
  ]

  all_tables :
      (tables : ℕ → Node ℕ ℕ) (i : ℕ) (t' : Node ℕ ℕ)
      → ((j : ℕ) → IsTable elist_size (tables j))
      → IsTable elist_size t'
      → (j : ℕ) → IsTable elist_size (update tables i t' j)
  all_tables tables i t' h h' j = elim (Bool-cases (j == i)) [
    | inl here ↦ rw here h'
    | inr away ↦ rw away (h j)
  ]

  -- `get` of a key of the range, on any machine, gives the value of the key and leaves all tables.
  pub rpc_get-view :
      (s : Keyspace) (self fuel answer k i : ℕ) (tables : ℕ → Node ℕ ℕ)
      → ((j : ℕ) → IsTable elist_size (tables j))
      → to_id s k ≡ some i
      → rpc_get s self fuel answer k tables ≡ some (tables, shared_view s tables k)
  rpc_get-view s self fuel answer k i tables ok owner =
      rpc_get-own s self fuel answer k i tables owner
      ∙ unfold own in
        rw (get-view elist_size (tables i) k 1 plist_size (ok i)) (
          ap (λ (f : ℕ → Node ℕ ℕ). some (f, view (tables i) k 1 plist_size))
            (update_at tables i (tables i) refl)
          ∙ ap (λ (w : Option ℕ). some (tables, w)) (sym (view_owner s tables k i owner)))

  -- `remove` of a key of the range, on any machine, gives the value that the key had, keeps all tables
  -- well formed, and takes just that key out of the map.
  pub rpc_remove-view :
      (s : Keyspace) (self fuel answer k i : ℕ) (tables : ℕ → Node ℕ ℕ)
      → ((j : ℕ) → IsTable elist_size (tables j))
      → to_id s k ≡ some i
      → (tables' : ℕ → Node ℕ ℕ) × (rpc_remove s self fuel answer k tables
          ≡ some (tables', shared_view s tables k))
        × ((j : ℕ) → IsTable elist_size (tables' j))
        × SharedBecomes s tables tables' k none
  rpc_remove-view s self fuel answer k i tables ok owner =
      let (t', run, table, change) = remove-view elist_size (tables i) k 1 plist_size (ok i) in
      (
        update tables i t',
        rpc_remove-own s self fuel answer k i tables owner
            ∙ unfold own in rw (run, view_owner s tables k i owner) refl,
        all_tables tables i t' ok table,
        shared s tables k i t' none owner change,
      )

  -- `insert` of a key of the range, on any machine, where the key is present or its list has room, and
  -- with fuel for the PLists on the way: it gives the value that the key had, keeps all tables well
  -- formed, and maps the key to that value or, if there was none, to the new one.
  pub rpc_insert-view :
      (s : Keyspace) (self fuel answer k v i : ℕ) (tables : ℕ → Node ℕ ℕ)
      → ((j : ℕ) → IsTable elist_size (tables j))
      → to_id s k ≡ some i
      → levels (tables i) k 1 plist_size ≤ fuel
      → (view (tables i) k 1 plist_size ≢ none) ⊎ (load (tables i) k 1 plist_size < elist_size)
      → (tables' : ℕ → Node ℕ ℕ) × (rpc_insert s self fuel answer k v tables
          ≡ some (tables', shared_view s tables k))
        × ((j : ℕ) → IsTable elist_size (tables' j))
        × SharedBecomes s tables tables' k (some (kept (shared_view s tables k) v))
  rpc_insert-view s self fuel answer k v i tables ok owner enough room =
      let (t', run, table, change) =
        insert-view fuel elist_size (tables i) k v 1 plist_size (omega arith) enough (ok i) room in
      let value = view_owner s tables k i owner in
      (
        update tables i t',
        rpc_insert-own s self fuel answer k v i tables owner ∙ unfold own in rw (run, value) refl,
        all_tables tables i t' ok table,
        subst (λ (w : Option ℕ). SharedBecomes s tables (update tables i t') k (some (kept w v)))
            (sym value)
            (shared s tables k i t' (some (kept (view (tables i) k 1 plist_size) v)) owner change),
      )
