-- ===== src/Atree/Insertion.antt =====
-- Insert, against the tree as a map.
use rabia_sandbox.Base.{
  ℕ, ◌+◌, ◌≤◌, Option, none, some, false, ltb, ◌==◌, if◌then◌else◌, update, ◌≡◌, ◌≢◌, refl, sym, ap,
  arith, ◌∙◌, inl, inr, Bool-cases, ◌⊎◌, subst, ◌>>=◌,
}
use rabia_sandbox.Atree.{
  Node, Tree, Found, find_internal, root, insert_internal, set_left, set_right,
}
use rabia_sandbox.Atree.Search.{way}
use rabia_sandbox.Atree.Growth.{Unrooted, Grows}

-- Every search comes to an end at a depth, the root is no child, and the addresses from `next` on are free.
pub record IsTree (depth : ℕ) (t : Tree) : Type 0 where
  pub top : Node
  pub rooted : t.nodes root ≡ some top
  pub free : (x : ℕ) → t.next ≤ x → t.nodes x ≡ none
  pub low : 2 ≤ t.next
  pub apart : Unrooted t.nodes
  pub ends : (q : ℕ) → (f : Found) × (find_internal depth t q ≡ some f)

-- What a search for the key finds: the value.
abbrev pub entry : (ℕ → Option Node) → Found → Option (Option ℕ)
entry nodes f = if f.curr == 0 then some none else (nodes f.curr >>= λ n. some (some n.value))

abbrev pub view : ℕ → Tree → ℕ → Option (Option ℕ)
view depth t q = find_internal depth t q >>= entry t.nodes

unfoldable pub leaf_of : ℕ → ℕ → ℕ → Node
leaf_of key value metadata = record {
  key = key;
  value = value;
  metadata = metadata;
  left = 0;
  right = 0;
}

-- The node above the new leaf.
unfoldable pub above : ℕ → ℕ → ℕ → Node → Node
above key p a n =
    if p == root
    then record n { left = a }
    else (if ltb key n.key then record n { left = a } else record n { right = a })

abbrev pub grown : Tree → ℕ → ℕ → ℕ → ℕ → Node → Tree
grown t key value metadata p n = record t {
  nodes =
      update (update t.nodes t.next (some (leaf_of key value metadata))) p
        (some (above key p t.next n));
  next = t.next + 1;
  size = t.size + 1;
}

pub insert_internal-grown :
    (t : Tree) (key value metadata p : ℕ) (n : Node)
    → t.nodes p ≡ some n
    → (p == t.next) ≡ false
    → insert_internal t key value metadata p ≡ some (t.next, grown t key value metadata p n)
unfolding insert_internal set_left set_right leaf_of above
insert_internal-grown t key value metadata p n here old = elim (Bool-cases (p == root)) [
  | inl top ↦ rw (old, here) (rw top refl)
  | inr below ↦ elim (Bool-cases (ltb key n.key)) [
    | inl less ↦ rw (old, here) (rw (below, less) refl)
    | inr more ↦ rw (old, here) (rw (below, more) refl)
  ]
]

-- A node whose null pointer on the way of the key gets the leaf.
above_ways :
    (key p a : ℕ) (n : Node)
    → (n.key == key) ≡ false
    → way n key ≡ 0
    → p ≢ root
    → (q : ℕ)
    → ((way (above key p a n) q ≡ way n q) × (q ≢ key))
      ⊎ ((way n q ≡ 0) × (way (above key p a n) q ≡ a))
unfolding above
above_ways key p a n miss null below q = elim (Bool-cases (ltb key n.key)) [
  | inl less ↦ elim (Bool-cases (ltb n.key q)) [
    | inl right ↦ inl (ground (arith, less, right, below), ground (arith, less, right))
    | inr left ↦ inr (ground (arith, less, left, null), ground (arith, less, left, below))
  ]
  | inr more ↦ elim (Bool-cases (ltb n.key q)) [
    | inl right ↦ inr (ground (arith, more, right, null, miss), ground (arith, more, right, below))
    | inr left ↦ inl (ground (arith, more, left, below), ground (arith, more, left, miss))
  ]
]

above_same :
    (key p a : ℕ) (n : Node)
    → ((above key p a n).key ≡ n.key)
      × ((above key p a n).value ≡ n.value)
      × ((above key p a n).metadata ≡ n.metadata)
unfolding above
above_same key p a n = (ground arith, ground arith, ground arith)

pub grown-Grows :
    (t : Tree) (depth key value metadata p : ℕ) (n : Node)
    → IsTree depth t
    → t.nodes p ≡ some n
    → (p == t.next) ≡ false
    → (p ≢ root → ((n.key == key) ≡ false) × (way n key ≡ 0))
    → Grows t.nodes (grown t key value metadata p n).nodes key p t.next (leaf_of key value metadata)
unfolding leaf_of
grown-Grows t depth key value metadata p n good here old turn = record {
  fresh = good.free t.next (omega arith);
  placed = ground (arith, old);
  real = ground (arith, good.low);
  mine = refl;
  bare = (refl, refl);
  other = λ x away_p away_a. ground (arith, away_p, away_a);
  link = λ m there.
      let same : m ≡ n = (let e = sym there ∙ here in cc) in
      let (k, v, d) = above_same key p t.next n in
      (
        above key p t.next n,
        ground arith,
        k ∙ ap (λ (x : Node). x.key) (sym same),
        v ∙ ap (λ (x : Node). x.value) (sym same),
        d ∙ ap (λ (x : Node). x.metadata) (sym same),
        λ below q.
            let (miss, null) = turn below in
            subst
              (λ (x : Node).
                ((way (above key p t.next n) q ≡ way x q) × (q ≢ key))
                ⊎ ((way x q ≡ 0) × (way (above key p t.next n) q ≡ t.next)))
              (sym same) (above_ways key p t.next n miss null below q),
      );
}
