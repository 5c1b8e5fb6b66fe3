-- ===== src/Atree/Mapping.antt =====
-- Insert puts one entry into the map that the tree is.
use rabia_sandbox.Base.{
  ℕ, suc, ◌+◌, ◌≤◌, [], ◌∷◌, Option, none, some, Bool, true, false, ◌==◌, ==_iff, if◌then◌else◌,
  ◌≡◌, ◌≢◌, refl, sym, ap, arith, ◌∙◌, inl, inr, Bool-cases, ◌⊎◌, subst, ◌>>=◌,
}
use rabia_sandbox.Atree.{
  Node, Tree, Found, find_from, find_internal, root, insert_new, insert, visit_all, Visitor,
}
use rabia_sandbox.Atree.Search.{way, find_from_more, found_node}
use rabia_sandbox.Atree.Growth.{Unrooted, Grows, Cursor, Follows, last_node, follow}
use rabia_sandbox.Atree.Visits.{visit_all-bare, marked-view, marked-IsTree}
use rabia_sandbox.Atree.Insertion.{
  IsTree, entry, view, leaf_of, above, grown, insert_internal-grown, grown-Grows,
}

-- A search from the root.
from_root :
    (depth : ℕ) (t : Tree) (q : ℕ) (top : Node)
    → t.nodes root ≡ some top
    → find_internal depth t q ≡ find_from depth t.nodes q root top.left []
unfolding find_internal
from_root depth t q top rooted = rw rooted refl

view-none :
    (depth : ℕ) (t : Tree) (q : ℕ) (f : Found)
    → find_internal depth t q ≡ some f
    → f.curr ≡ 0
    → view depth t q ≡ some none
view-none depth t q f run null =
    ap (λ (o : Option Found). o >>= entry t.nodes) run ∙ ground (arith, null)

view-some :
    (depth : ℕ) (t : Tree) (q : ℕ) (f : Found) (n : Node)
    → find_internal depth t q ≡ some f
    → f.curr ≢ 0
    → t.nodes f.curr ≡ some n
    → view depth t q ≡ some (some n.value)
view-some depth t q f n run real here =
    ap (λ (o : Option Found). o >>= entry t.nodes) run ∙ ground (arith, real, here)

-- An insertion at the place where the search for the key ends.
record Place (depth : ℕ) (t : Tree) (key : ℕ) (f : Found) (n : Node) : Type 0 where
  good : IsTree depth t
  run : find_internal depth t key ≡ some f
  null : f.curr ≡ 0
  here : t.nodes f.parent ≡ some n
  old : (f.parent == t.next) ≡ false
  turn : f.parent ≢ root → ((n.key == key) ≡ false) × (way n key ≡ 0)
  topmost : f.parent ≡ root → n.left ≡ 0

placed :
    (depth : ℕ) (t : Tree) (key : ℕ) (f : Found)
    → IsTree depth t
    → find_internal depth t key ≡ some f
    → f.curr ≡ 0
    → (n : Node) × Place depth t key f n
placed depth t key f good run null =
    let go = sym (from_root depth t key good.top good.rooted) ∙ run in
    let off = good.apart root good.top good.rooted in
    let old_of : (n : Node) → t.nodes f.parent ≡ some n → (f.parent == t.next) ≡ false = λ n here.
      elim (Bool-cases (f.parent == t.next)) [
        | inl same ↦ let gone = good.free f.parent (ground (arith, same)) in let h = here in cc
        | inr differs ↦ differs
      ] in
    elim (last_node depth t.nodes key root good.top.left [] f good.apart off.0 go null) [
      | inl (at_root, z) ↦
          let here = ap t.nodes at_root ∙ good.rooted in
          (
            good.top,
            record {
              good = good;
              run = run;
              null = null;
              here = here;
              old = old_of good.top here;
              turn = λ below. absurd (below at_root);
              topmost = λ e. z;
            },
          )
      | inr (n, here, miss, z, below) ↦ (
        n,
        record {
          good = good;
          run = run;
          null = null;
          here = here;
          old = old_of n here;
          turn = λ e. (miss, z);
          topmost = λ e. absurd (below e);
        },
      )
    ]

module _ {depth : ℕ} {t : Tree} {key : ℕ} {f : Found} {n : Node} (pl : Place depth t key f n)
    (value metadata : ℕ) where
  abbrev next_tree : Tree
  next_tree = grown t key value metadata f.parent n

  grows : Grows t.nodes next_tree.nodes key f.parent t.next (leaf_of key value metadata)
  grows = grown-Grows t depth key value metadata f.parent n pl.good pl.here pl.old pl.turn

  -- The root afterwards, with what is below it.
  new_root :
      (top' : Node) × (next_tree.nodes root ≡ some top')
      × ((q : ℕ) → Cursor key f.parent t.next q root pl.good.top.left top'.left)
  unfolding above
  new_root = elim (Bool-cases (f.parent == root)) [
    | inl at_root ↦
        let e = (==_iff f.parent root).0 at_root in
        let same : pl.good.top ≡ n =
          (let a = pl.good.rooted in let b = ap t.nodes (sym e) ∙ pl.here in cc) in
        (
          above key f.parent t.next n,
          ground (arith, at_root),
          λ q. inr (ap (λ (x : Node). x.left) same ∙ pl.topmost e, rw at_root refl),
        )
    | inr below ↦
        let low = pl.good.low in
        (
          pl.good.top,
          grows.other root (λ e. ground (arith, below, e)) (λ e. omega (arith, low, e))
              ∙ pl.good.rooted,
          λ q. inl (refl, λ s z e. ground (arith, below, e)),
        )
  ]

  -- A search afterwards.
  search :
      (q : ℕ)
      → (h h' : Found) × (find_internal depth t q ≡ some h)
        × (find_internal (suc depth) next_tree q ≡ some h')
        × Follows key f.parent t.next q h h'
  search q =
      let (h, run) = pl.good.ends q in
      let (top', rooted', cursor) = new_root in
      let off = pl.good.apart root pl.good.top pl.good.rooted in
      let (h', run', out) =
        follow grows depth q root pl.good.top.left top'.left [] h pl.good.apart off.0 (cursor q)
          (sym (from_root depth t q pl.good.top pl.good.rooted) ∙ run) in
      (h, h', run, from_root (suc depth) next_tree q top' rooted' ∙ run', out)

  new_free : (x : ℕ) → t.next + 1 ≤ x → next_tree.nodes x ≡ none
  new_free x le =
      let gone = pl.good.free x (omega (arith, le)) in
      grows.other x (λ e. let here = subst (λ (y : ℕ). t.nodes y ≡ some n) (sym e) pl.here in cc)
        (λ e. omega (arith, le, e))
      ∙ gone

  new_apart : Unrooted next_tree.nodes
  unfolding above leaf_of
  new_apart x m here =
      let low = pl.good.low in
      let at_parent = pl.good.apart f.parent n pl.here in
      let elsewhere = pl.good.apart x m in ground (arith, here, low, at_parent, elsewhere)

  new_IsTree : IsTree (suc depth) next_tree
  new_IsTree =
      let (top', rooted', cursor) = new_root in
      record {
        top = top';
        rooted = rooted';
        free = new_free;
        low = omega (arith, pl.good.low);
        apart = new_apart;
        ends = λ q. let (h, h', run, run', out) = search q in (h', run');
      }

  -- The entry of a node that was there.
  kept :
      (x : ℕ) (m : Node)
      → t.nodes x ≡ some m
      → (m' : Node) × (next_tree.nodes x ≡ some m')
        × (m'.value ≡ m.value)
        × (m'.metadata ≡ m.metadata)
  kept x m here = elim (Bool-cases (x == f.parent)) [
    | inl same ↦
        let e = (==_iff x f.parent).0 same in
        let (m', there, k, v, d, ways) =
          grows.link m (subst (λ (y : ℕ). t.nodes y ≡ some m) e here) in
        (m', subst (λ (y : ℕ). next_tree.nodes y ≡ some m') (sym e) there, v, d)
    | inr differs ↦ (
      m,
      grows.other x (λ e. ground (arith, differs, e))
            (λ e. let gone = pl.good.free x (omega (arith, e)) in let h = here in cc)
          ∙ here,
      refl,
      refl,
    )
  ]

  same_search : (q : ℕ) (h : Found) → find_internal depth t q ≡ some h → q ≡ key → h ≡ f
  same_search q h run e =
      let a = subst (λ (y : ℕ). find_internal depth t y ≡ some h) e run in let b = pl.run in cc

  differs_from_key : (q : ℕ) → q ≢ key → (q == key) ≡ false
  differs_from_key q off = ground (arith, off)

  new_view :
      (q : ℕ)
      → view (suc depth) next_tree q ≡ (if q == key then some (some value) else view depth t q)
  unfolding leaf_of
  new_view q =
      let (h, h', run, run', out) = search q in
      elim out [
        | inl (real, same) ↦
            let differs =
              differs_from_key q
                (λ e. real (ap (λ (x : Found). x.curr) (same_search q h run e) ∙ pl.null)) in
            let (m, here, k) =
              found_node depth t.nodes q root pl.good.top.left [] h
                (sym (from_root depth t q pl.good.top pl.good.rooted) ∙ run) real in
            let (m', there, v, d) = kept h.curr m here in
            rw differs (
              view-some (suc depth) next_tree q h' m' run' (λ e. real (sym same ∙ e))
                (ap next_tree.nodes same ∙ there)
              ∙ ap (λ (x : ℕ). some (some x)) v
              ∙ sym (view-some depth t q h m run real here))
        | inr (inl (null, null', off)) ↦
            let differs =
              differs_from_key q
                (λ e. off e (ap (λ (x : Found). x.parent) (same_search q h run e))) in
            rw differs (
              view-none (suc depth) next_tree q h' run' null'
              ∙ sym (view-none depth t q h run null))
        | inr (inr (null, leaf, e)) ↦
            let hit : (q == key) ≡ true = ground (arith, e) in
            rw hit (
              view-some (suc depth) next_tree q h' (leaf_of key value metadata) run'
                (λ z. let low = pl.good.low in omega (arith, z, leaf, low))
                (ap next_tree.nodes leaf ∙ grows.placed))
      ]

-- More depth than is needed.
deeper : (depth : ℕ) (t : Tree) → IsTree depth t → IsTree (suc depth) t
deeper depth t good = record {
  top = good.top;
  rooted = good.rooted;
  free = good.free;
  low = good.low;
  apart = good.apart;
  ends = λ q.
      let (f, run) = good.ends q in
      (
        f,
        from_root (suc depth) t q good.top good.rooted
            ∙ find_from_more depth t.nodes q root good.top.left [] f
                (sym (from_root depth t q good.top good.rooted) ∙ run),
      );
}

-- On a tree where each search ends within a depth, with addresses that are free from `next` on, `Insert`
-- returns with that depth, and afterwards each search ends within one more. Where the key is absent it
-- returns true, the size is one more, and the tree as a map from keys to values has the new value at the key
-- and is the same at every other key, whatever metadata the visitor sets on the way. Where the key is there it returns false and changes nothing.
pub insert-entry :
    (v : Visitor) (depth : ℕ) (t : Tree) (key value metadata : ℕ)
    → IsTree depth t
    → (b : Bool) × (t' : Tree) × (insert v depth t key value metadata ≡ some (b, t'))
      × IsTree (suc depth) t'
      × (((view depth t key ≡ some none)
            × (b ≡ true)
            × (t'.size ≡ t.size + 1)
            × ((q : ℕ)
                → view (suc depth) t' q ≡ (if q == key then some (some value) else view depth t q)))
          ⊎ ((view depth t key ≢ some none) × (b ≡ false) × (t' ≡ t)))
unfolding insert insert_new find_internal
insert-entry v depth t key value metadata good =
    let (f, run) = good.ends key in
    elim (Bool-cases (f.curr == 0)) [
      | inl null ↦
          let z = (==_iff f.curr 0).0 null in
          let (n, pl) = placed depth t key f good run z in
          let t' = grown t key value metadata f.parent n in
          let nodes = visit_all v.on_insert (t.next ∷ f.stack) t'.nodes in
          let same = visit_all-bare v.on_insert (t.next ∷ f.stack) t'.nodes in
          (
            true,
            record t' { nodes = nodes },
            rw run (
                rw null
                  (rw (insert_internal-grown t key value metadata f.parent n pl.here pl.old) refl)),
            marked-IsTree t' nodes same (suc depth) (new_IsTree pl value metadata),
            inl (
              view-none depth t key f run z,
              refl,
              refl,
              λ q. marked-view t' nodes same (suc depth) q ∙ new_view pl value metadata q,
            ),
          )
      | inr real ↦
          let (m, here, k) =
            found_node depth t.nodes key root good.top.left [] f
              (sym (from_root depth t key good.top good.rooted) ∙ run)
              (λ e. ground (arith, real, e)) in
          (
            false,
            t,
            rw run (rw real refl),
            deeper depth t good,
            inr (
              (λ e.
                  let v =
                    sym (view-some depth t key f m run (λ z. ground (arith, real, z)) here) ∙ e in
                  cc),
              refl,
              refl,
            ),
          )
    ]
