-- ===== src/Atree/Visits.antt =====
-- What the calls of the visitor leave as it is: the metadata is no part of the map.
use mathlib.Core.Path.{fun_ext}
use rabia_sandbox.Base.{
  ℕ, zero, suc, List, [], ◌∷◌, Option, none, some, ltb, ◌==◌, ==_iff, if◌then◌else◌, ◌≡◌, refl, sym,
  ap, arith, ◌∙◌, inl, inr, Bool-cases, Option-cases, ◌>>=◌,
}
use rabia_sandbox.Atree.{Node, Tree, Found, find_from, find_internal, root, set_metadata, visit_all}
use rabia_sandbox.Atree.Insertion.{IsTree, entry, view}

-- A node, and all nodes, without the metadata.
abbrev bare_node : Option Node → Option Node
bare_node none = none
bare_node (some n) = some (record n { metadata = 0 })

abbrev bare : (ℕ → Option Node) → ℕ → Option Node
bare nodes x = bare_node (nodes x)

-- The same node but for the metadata.
bare_back :
    (o : Option Node) (n : Node)
    → bare_node o ≡ bare_node (some n)
    → (m : Node) × (o ≡ some m) × (m.value ≡ n.value) × (m.left ≡ n.left) × (m.right ≡ n.right)
bare_back none n e = cc
bare_back (some m) n e =
    let same : record m { metadata = 0 } ≡ record n { metadata = 0 } = cc in
    (
      m,
      refl,
      ap (λ (x : Node). x.value) same,
      ap (λ (x : Node). x.left) same,
      ap (λ (x : Node). x.right) same,
    )

set_metadata-bare : (nodes : ℕ → Option Node) (p x : ℕ) → bare (set_metadata nodes p x) ≡ bare nodes
set_metadata-bare nodes p x = fun_ext (λ y. elim (Bool-cases (y == p)) [
  | inr away ↦ rw away refl
  | inl here ↦ elim (Option-cases (nodes p)) [
    | inl gone ↦ rw (here, gone) (let e = (==_iff y p).0 here in rw e (rw gone refl))
    | inr (n, there) ↦ rw (here, there) (let e = (==_iff y p).0 here in rw e (rw there refl))
  ]
])

pub visit_all-bare :
    (call : (ℕ → Option Node) → ℕ → ℕ) (stack : List ℕ) (nodes : ℕ → Option Node)
    → bare (visit_all call stack nodes) ≡ bare nodes
unfolding visit_all
visit_all-bare call [] nodes = refl
visit_all-bare call (p ∷ stack) nodes =
    visit_all-bare call stack (set_metadata nodes p (call nodes p))
    ∙ set_metadata-bare nodes p (call nodes p)

-- A search does not read the metadata.
find_from-bare :
    (fuel : ℕ) (nodes : ℕ → Option Node) (key parent curr : ℕ) (stack : List ℕ)
    → find_from fuel nodes key parent curr stack ≡ find_from fuel (bare nodes) key parent curr stack
unfolding find_from
find_from-bare zero nodes key parent curr stack = refl
find_from-bare (suc fuel) nodes key parent curr stack = elim (Option-cases (nodes curr)) [
  | inl gone ↦ rw gone refl
  | inr (n, here) ↦ rw here (
      rw
        (find_from-bare fuel nodes key curr (if ltb n.key key then n.right else n.left)
          (curr ∷ stack))
        refl)
]

find_internal-bare :
    (fuel : ℕ) (t : Tree) (key : ℕ)
    → find_internal fuel t key ≡ find_internal fuel (record t { nodes = bare t.nodes }) key
unfolding find_internal
find_internal-bare fuel t key = elim (Option-cases (t.nodes root)) [
  | inl gone ↦ rw gone refl
  | inr (r, here) ↦ rw here (find_from-bare fuel t.nodes key root r.left [])
]

entry-bare : (nodes : ℕ → Option Node) (f : Found) → entry nodes f ≡ entry (bare nodes) f
entry-bare nodes f = elim (Option-cases (nodes f.curr)) [
  | inl gone ↦ rw gone refl
  | inr (n, here) ↦ rw here refl
]

module _ (t : Tree) (nodes : ℕ → Option Node) (same : bare nodes ≡ bare t.nodes) where
  -- The tree with other metadata.
  abbrev marked : Tree
  marked = record t { nodes = nodes }

  find_internal-marked : (fuel key : ℕ) → find_internal fuel marked key ≡ find_internal fuel t key
  find_internal-marked fuel key =
      find_internal-bare fuel marked key
      ∙ ap (λ (x : ℕ → Option Node). find_internal fuel (record t { nodes = x }) key) same
      ∙ sym (find_internal-bare fuel t key)

  at_bare : (x : ℕ) → bare_node (nodes x) ≡ bare_node (t.nodes x)
  at_bare x = ap (λ (f : ℕ → Option Node). f x) same

  pub marked-view : (depth q : ℕ) → view depth marked q ≡ view depth t q
  marked-view depth q =
      ap (λ (o : Option Found). o >>= entry nodes) (find_internal-marked depth q)
      ∙ ap (λ (e : Found → Option (Option ℕ)). find_internal depth t q >>= e)
          (fun_ext (λ f.
            entry-bare nodes f
            ∙ ap (λ (x : ℕ → Option Node). entry x f) same
            ∙ sym (entry-bare t.nodes f)))

  pub marked-IsTree : (depth : ℕ) → IsTree depth t → IsTree depth marked
  marked-IsTree depth good =
      let (top, rooted, _, _, _) =
        bare_back (nodes root) good.top (at_bare root ∙ ap bare_node good.rooted) in
      record {
        top = top;
        rooted = rooted;
        free = λ x le. elim (Option-cases (nodes x)) [
          | inl gone ↦ gone
          | inr (n, here) ↦
              let e = sym (ap bare_node here) ∙ at_bare x ∙ ap bare_node (good.free x le) in cc
        ];
        low = good.low;
        apart = λ x n here.
            let (m, there, v, l, r) =
              bare_back (t.nodes x) n (sym (at_bare x) ∙ ap bare_node here) in
            let off = good.apart x m there in ground (arith, off, l, r);
        ends = λ q. let (f, run) = good.ends q in (f, find_internal-marked depth q ∙ run);
      }
