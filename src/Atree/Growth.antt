-- ===== src/Atree/Growth.antt =====
-- The searches of a tree before and after a node is linked in.
use rabia_sandbox.Base.{
  ℕ, zero, suc, List, ◌∷◌, Option, none, some, false, ◌==◌, ==_iff, ◌≡◌, ◌≢◌, refl, sym, ap, arith,
  ◌∙◌, inl, inr, Bool-cases, ◌⊎◌, subst,
}
use rabia_sandbox.Atree.{Node, Found, find_from, root}
use rabia_sandbox.Atree.Search.{way, step, at_null, search_cases}

-- No child is the root.
abbrev pub Unrooted : (ℕ → Option Node) → Type 0
Unrooted nodes = (x : ℕ) (n : Node) → nodes x ≡ some n → (n.left ≢ root) × (n.right ≢ root)

-- How a search that ends at a null pointer gets there: at once, or from the node that it stops below.
pub last_node :
    (fuel : ℕ) (nodes : ℕ → Option Node) (key x c : ℕ) (stack : List ℕ) (f : Found)
    → Unrooted nodes
    → c ≢ root
    → find_from fuel nodes key x c stack ≡ some f
    → f.curr ≡ 0
    → ((f.parent ≡ x) × (c ≡ 0))
      ⊎ ((n : Node) × (nodes f.parent ≡ some n)
          × ((n.key == key) ≡ false)
          × (way n key ≡ 0)
          × (f.parent ≢ root))
unfolding find_from
last_node zero nodes key x c stack f apart away run null = cc
last_node (suc fuel) nodes key x c stack f apart away run null =
    elim (search_cases fuel nodes key x c stack f run) [
      | inl (z, e) ↦ inl (ap (λ (g : Found). g.parent) e, z)
      | inr (n, real, here, how) ↦ elim how [
        | inl (hit, e) ↦
            let same : f.curr ≡ c = ap (λ (g : Found). g.curr) e in
            absurd (ground (arith, real, null, same))
        | inr (miss, on) ↦
            let off = apart c n here in
            elim (last_node fuel nodes key c (way n key) (c ∷ stack) f apart (ground (arith, off))
              on null) [
                | inl (there, z) ↦ inr (
                  n,
                  (subst (λ (y : ℕ). nodes y ≡ some n) (sym there) here),
                  miss,
                  z,
                  λ e. away (sym there ∙ e),
                )
                | inr below ↦ inr below
              ]
      ]
    ]

no_fuel :
    (nodes : ℕ → Option Node) (key x c : ℕ) (stack : List ℕ) (f : Found)
    → ¬ (find_from zero nodes key x c stack ≡ some f)
unfolding find_from
no_fuel nodes key x c stack f run = cc

-- `after` is `before` with a new leaf at `a`, linked to a null pointer of the node `p`, the one that a
-- search for the key runs into.
pub record Grows (before after : ℕ → Option Node) (key p a : ℕ) (leaf : Node) : Type 0 where
  pub fresh : before a ≡ none
  pub placed : after a ≡ some leaf
  pub real : (a == 0) ≡ false
  pub mine : leaf.key ≡ key
  pub bare : (leaf.left ≡ 0) × (leaf.right ≡ 0)
  pub other : (x : ℕ) → x ≢ p → x ≢ a → after x ≡ before x
  pub link :
      (n : Node)
      → before p ≡ some n
      → (n' : Node) × (after p ≡ some n')
        × (n'.key ≡ n.key)
        × (n'.value ≡ n.value)
        × (n'.metadata ≡ n.metadata)
        × (p ≢ root
            → (q : ℕ) → ((way n' q ≡ way n q) × (q ≢ key)) ⊎ ((way n q ≡ 0) × (way n' q ≡ a)))

-- Where the two searches stand: at the same pointer, or the new one at the leaf.
abbrev pub Cursor : ℕ → ℕ → ℕ → ℕ → ℕ → ℕ → ℕ → Type 0
Cursor key p a q x c c' = ((c' ≡ c) × (q ≡ key → c ≡ 0 → x ≢ p)) ⊎ ((c ≡ 0) × (c' ≡ a))

-- What the search finds afterwards: the same node, still none, or the leaf.
abbrev pub Follows : ℕ → ℕ → ℕ → ℕ → Found → Found → Type 0
Follows key p a q f f' =
    ((f.curr ≢ 0) × (f'.curr ≡ f.curr))
    ⊎ ((f.curr ≡ 0) × (f'.curr ≡ 0) × (q ≡ key → f.parent ≢ p))
    ⊎ ((f.curr ≡ 0) × (f'.curr ≡ a) × (q ≡ key))

module _ {before after : ℕ → Option Node} {key p a : ℕ} {leaf : Node}
    (g : Grows before after key p a leaf) where
  leaf_way : (q : ℕ) → way leaf q ≡ 0
  leaf_way q = ground (arith, g.bare)

  -- The node at the cursor, afterwards.
  turned :
      (q c : ℕ) (n : Node)
      → before c ≡ some n
      → c ≢ root
      → (n' : Node) × (after c ≡ some n')
        × (n'.key ≡ n.key)
        × Cursor key p a q c (way n q) (way n' q)
  turned q c n here away = elim (Bool-cases (c == p)) [
    | inl same ↦
        let e = (==_iff c p).0 same in
        let (n', there, k, v, d, ways) = g.link n (subst (λ (y : ℕ). before y ≡ some n) e here) in
        (
          n',
          subst (λ (y : ℕ). after y ≡ some n') (sym e) there,
          k,
          elim (ways (λ r. away (e ∙ r)) q) [
            | inl (w, differs) ↦ inl (w, λ s z. absurd (differs s))
            | inr both ↦ inr both
          ],
        )
    | inr differs ↦
        let away_p : c ≢ p = ground (arith, differs) in
        let away_a : c ≢ a =
          λ e. let f = g.fresh in let h = subst (λ (y : ℕ). before y ≡ some n) e here in cc in
        (n, g.other c away_p away_a ∙ here, refl, inl (refl, λ s z. away_p))
  ]

  -- The new search at the leaf.
  at_leaf :
      (fuel q x c' : ℕ) (stack : List ℕ) (f : Found)
      → c' ≡ a
      → f.curr ≡ 0
      → (f' : Found) × (find_from (suc (suc fuel)) after q x c' stack ≡ some f')
        × Follows key p a q f f'
  at_leaf fuel q x c' stack f e null =
      let there = subst (λ (y : ℕ). after y ≡ some leaf) (sym e) g.placed in
      let mine = g.mine in
      let go =
        step (suc fuel) after q x c' stack leaf (subst (λ (y : ℕ). (y == 0) ≡ false) (sym e) g.real)
          there in
      elim (Bool-cases (leaf.key == q)) [
        | inl hit ↦ (
          record { parent = x; curr = c'; stack = stack },
          go ∙ rw hit refl,
          inr (inr (null, e, ground (arith, hit, mine))),
        )
        | inr miss ↦ (
          record { parent = c'; curr = way leaf q; stack = c' ∷ stack },
          go ∙ rw miss (at_null fuel after q c' (way leaf q) (c' ∷ stack) (leaf_way q)),
          inr (inl (null, leaf_way q, λ same. absurd (ground (arith, miss, mine, same)))),
        )
      ]

  pub follow :
      (fuel q x c c' : ℕ) (stack : List ℕ) (f : Found)
      → Unrooted before
      → c ≢ root
      → Cursor key p a q x c c'
      → find_from fuel before q x c stack ≡ some f
      → (f' : Found) × (find_from (suc fuel) after q x c' stack ≡ some f') × Follows key p a q f f'
  follow zero q x c c' stack f apart away cursor run = absurd (no_fuel before q x c stack f run)
  follow (suc fuel) q x c c' stack f apart away cursor run =
      elim (search_cases fuel before q x c stack f run) [
        | inl (z, e) ↦
            let null : f.curr ≡ 0 = ap (λ (h : Found). h.curr) e ∙ z in
            elim cursor [
              | inr (z', leads) ↦ at_leaf fuel q x c' stack f leads null
              | inl (same, still) ↦ (
                record { parent = x; curr = c'; stack = stack },
                at_null (suc fuel) after q x c' stack (same ∙ z),
                inr (
                    inl (
                      null,
                      same ∙ z,
                      λ s up. still s z (sym (ap (λ (h : Found). h.parent) e) ∙ up),
                    )),
              )
            ]
        | inr (n, real, here, how) ↦
            let same : c' ≡ c = elim cursor [
              | inl (s, still) ↦ s
              | inr (z, leads) ↦ absurd (ground (arith, real, z))
            ] in
            let (n', there, k, next) = turned q c n here away in
            let go =
              step (suc fuel) after q x c' stack n'
                (subst (λ (y : ℕ). (y == 0) ≡ false) (sym same) real)
                (subst (λ (y : ℕ). after y ≡ some n') (sym same) there) in
            elim how [
              | inl (hit, e) ↦ (
                record { parent = x; curr = c'; stack = stack },
                go ∙ rw (ap (λ (y : ℕ). y == q) k ∙ hit) refl,
                inl ((λ z. ground (arith, real, e, z)), same ∙ sym (ap (λ (h : Found). h.curr) e)),
              )
              | inr (miss, on) ↦
                  let off = apart c n here in
                  let (f', run', out) =
                    follow fuel q c (way n q) (way n' q) (c ∷ stack) f apart (ground (arith, off))
                      next on in
                  (f', go ∙ rw (ap (λ (y : ℕ). y == q) k ∙ miss) (rw same run'), out)
            ]
      ]
