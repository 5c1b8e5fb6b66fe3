-- ===== src/Atree/Removal.antt =====
-- What Remove does to the node at the top of a tree.
use rabia_sandbox.Base.{
  ℕ, zero, suc, ◌-◌, ◌<◌, List, [], ◌∷◌, Option, none, some, true, false, ltb, ◌==◌, update, ◌≡◌,
  ◌≢◌, refl, ap, arith, ◌∙◌,
}
use rabia_sandbox.Atree.{
  Node, Tree, Visitor, visit_all, find_from, find_internal, find, root, set_left, set_right,
  replace_child, leftmost, find_successors, unlink, remove,
}
use rabia_sandbox.Atree.Search.{step}

-- The node `c` is the top of the tree.
pub record Top (t : Tree) (c : ℕ) (r n : Node) : Type 0 where
  pub rooted : t.nodes root ≡ some r
  pub child : r.left ≡ c
  pub real : (c == 0) ≡ false
  pub below : (c == root) ≡ false
  pub here : t.nodes c ≡ some n

find-Top :
    (fuel : ℕ) (t : Tree) (c : ℕ) (r n : Node)
    → Top t c r n
    → find_internal (suc fuel) t n.key ≡ some (record { parent = root; curr = c; stack = [] })
unfolding find_internal
find-Top fuel t c r n top =
    let same : (n.key == n.key) ≡ true = ground arith in
    rw (top.rooted, top.child)
      (step fuel t.nodes n.key root c [] n top.real top.here ∙ rw same refl)

removed :
    (v : Visitor) (fuel : ℕ) (t : Tree) (c : ℕ) (r n : Node) (nodes : ℕ → Option Node)
    → Top t c r n
    → unlink (suc fuel) t.nodes root c ≡ some nodes
    → remove v (suc fuel) t n.key
      ≡ some (true, record t { nodes = update nodes c none; size = t.size - 1 })
unfolding remove visit_all
removed v fuel t c r n nodes top run = rw (find-Top fuel t c r n top) (rw (top.real, run) refl)

-- The pointers after the top `c` is replaced with its right child `s`.
abbrev looped : Tree → ℕ → ℕ → Node → Node → Node → ℕ → Option Node
looped t c s r n m =
    update
      (update (update t.nodes s (some (record m { left = n.left }))) s
        (some (record m { left = n.left; right = s })))
      root (some (record r { left = s }))

leftmost_here :
    (fuel : ℕ) (nodes : ℕ → Option Node) (s : ℕ) (m : Node)
    → nodes s ≡ some m
    → m.left ≡ 0
    → leftmost (suc fuel) nodes s ≡ some s
unfolding leftmost
leftmost_here fuel nodes s m there bare = ground (arith, there, bare)

successors_here :
    (fuel : ℕ) (nodes : ℕ → Option Node) (c s : ℕ) (n m : Node)
    → (c == 0) ≡ false
    → nodes c ≡ some n
    → n.right ≡ s
    → (s == 0) ≡ false
    → nodes s ≡ some m
    → m.left ≡ 0
    → find_successors (suc fuel) nodes c ≡ some (c, s)
unfolding find_successors
successors_here fuel nodes c s n m real here right real' there bare =
    rw (real, here) (rw (right, real') (rw (leftmost_here fuel nodes s m there bare) refl))

linked_left :
    (nodes : ℕ → Option Node) (p x : ℕ) (n : Node)
    → nodes p ≡ some n
    → set_left nodes p x ≡ some (update nodes p (some (record n { left = x })))
unfolding set_left
linked_left nodes p x n here = rw here refl

linked_right :
    (nodes : ℕ → Option Node) (p x : ℕ) (n : Node)
    → nodes p ≡ some n
    → set_right nodes p x ≡ some (update nodes p (some (record n { right = x })))
unfolding set_right
linked_right nodes p x n here = rw here refl

replaced_left :
    (nodes : ℕ → Option Node) (p c x : ℕ) (n : Node)
    → nodes p ≡ some n
    → n.left ≡ c
    → replace_child nodes p c x ≡ some (update nodes p (some (record n { left = x })))
unfolding replace_child
replaced_left nodes p c x n here left =
    let same : (n.left == c) ≡ true = ground (arith, left) in
    rw (here, same) (linked_left nodes p x n here)

replaces :
    (fuel : ℕ) (t : Tree) (c s : ℕ) (r n m : Node)
    → Top t c r n
    → n.right ≡ s
    → (s == 0) ≡ false
    → s ≢ c
    → s ≢ root
    → t.nodes s ≡ some m
    → m.left ≡ 0
    → unlink (suc fuel) t.nodes root c ≡ some (looped t c s r n m)
unfolding unlink
replaces fuel t c s r n m top right real other below there bare =
    let itself : (c == c) ≡ true = ground arith in
    let first = update t.nodes s (some (record m { left = n.left })) in
    let second = update first s (some (record m { left = n.left; right = n.right })) in
    let here₁ : first c ≡ some n = ground (arith, other, top.here) in
    let there₁ : first s ≡ some (record m { left = n.left }) = ground arith in
    let root₂ : second root ≡ some r = ground (arith, below, top.rooted) in
    rw (successors_here fuel t.nodes c s n m top.real top.here right real there bare) (
      rw (real, top.here)
        (rw (there, itself)
          (rw top.here (
            rw (linked_left t.nodes s n.left m there) (
              rw here₁ (
                rw (linked_right first s n.right (record m { left = n.left }) there₁) (
                  replaced_left second root c s r root₂ top.child
                  ∙ ap
                      (λ (x : ℕ). some (
                        update (update first s (some (record m { left = n.left; right = x }))) root
                          (some (record r { left = s }))))
                      right)))))))

spins :
    (fuel : ℕ) (nodes : ℕ → Option Node) (q parent s : ℕ) (stack : List ℕ) (m : Node)
    → (s == 0) ≡ false
    → nodes s ≡ some m
    → m.right ≡ s
    → m.key < q
    → find_from fuel nodes q parent s stack ≡ none
unfolding find_from
spins zero nodes q parent s stack m real there loop less = refl
spins (suc fuel) nodes q parent s stack m real there loop less =
    let miss : (m.key == q) ≡ false = ground (arith, less) in
    let up : ltb m.key q ≡ true = ground (arith, less) in
    rw (real, there)
      (rw (miss, up) (rw loop (spins fuel nodes q s s (s ∷ stack) m real there loop less)))

-- Where the right child of the top has no left child, `Remove` of the top's key puts that child in its
-- place, and makes it its own right child: from then on `Find` of any greater key does not return.
pub remove_loops :
    (v : Visitor) (fuel : ℕ) (t : Tree) (c s q : ℕ) (r n m : Node)
    → Top t c r n
    → n.right ≡ s
    → (s == 0) ≡ false
    → s ≢ c
    → s ≢ root
    → t.nodes s ≡ some m
    → m.left ≡ 0
    → m.key < q
    → (t' : Tree) × (remove v (suc fuel) t n.key ≡ some (true, t'))
      × ((fuel' : ℕ) → find fuel' t' q ≡ none)
unfolding find find_internal
remove_loops v fuel t c s q r n m top right real other below there bare less =
    let nodes = update (looped t c s r n m) c none in
    let top_left : nodes root ≡ some (record r { left = s }) = ground (arith, top.below) in
    let loop : nodes s ≡ some (record m { left = n.left; right = s }) =
      ground (arith, other, below) in
    (
      record t { nodes = nodes; size = t.size - 1 },
      removed v fuel t c r n _ top
          (replaces fuel t c s r n m top right real other below there bare),
      λ fuel'. rw top_left (rw (spins fuel' nodes q root s [] _ real loop refl less) refl),
    )
