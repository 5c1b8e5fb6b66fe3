-- ===== src/Atree.antt =====
-- ATree of oldAPIHelpMark/metrics/atree/atree.h: an unbalanced binary search tree of nodes behind
-- pointers. A pointer is a number, 0 for nullptr and 1 for `root_`, whose left child is the tree; keys,
-- values and metadata are numbers. `none` is a read behind a pointer to no node, a failed assert, or a
-- loop whose fuel is used up.
pub mod Search
pub mod Growth
pub mod Insertion
pub mod Visits
pub mod Mapping
pub mod Removal
mod Tests
use rabia_sandbox.Base.{
  ℕ, zero, suc, ◌+◌, ◌-◌, List, [], ◌∷◌, ◌++◌, Option, none, some, Bool, true, false, ltb, ◌==◌,
  if◌then◌else◌, update, ◌>>=◌,
}

-- ATreeNode
pub record Node : Type 0 where
  pub key : ℕ
  pub value : ℕ
  pub metadata : ℕ
  pub left : ℕ
  pub right : ℕ

-- A visitor, from the nodes and a pointer: OnInsert, OnUpdate and OnRemove set the metadata of the node
-- that they are called on, and Update, which also gets a value and metadata, its value and its metadata.
pub record Visitor : Type 0 where
  pub on_insert : (ℕ → Option Node) → ℕ → ℕ
  pub on_update : (ℕ → Option Node) → ℕ → ℕ
  pub on_remove : (ℕ → Option Node) → ℕ → ℕ
  pub change : (ℕ → Option Node) → ℕ → ℕ → ℕ → ℕ × ℕ

-- `next` is where the next node is allocated.
pub record Tree : Type 0 where
  pub nodes : ℕ → Option Node
  pub next : ℕ
  pub size : ℕ
  pub cleared : List ℕ

abbrev pub root : ℕ
root = 1

-- What FindInternal returns, with the stack, its back first.
pub record Found : Type 0 where
  pub parent : ℕ
  pub curr : ℕ
  pub stack : List ℕ

-- The loop of FindInternal.
unfoldable pub find_from : ℕ → (ℕ → Option Node) → ℕ → ℕ → ℕ → List ℕ → Option Found
find_from zero nodes key parent curr stack = none
find_from (suc fuel) nodes key parent curr stack =
    if curr == 0
    then some (record { parent = parent; curr = curr; stack = stack })
    else elim (nodes curr) [
      | none ↦ none
      | some n ↦
          let rest =
            find_from fuel nodes key curr (if ltb n.key key then n.right else n.left)
              (curr ∷ stack) in
          if n.key == key
          then some (record { parent = parent; curr = curr; stack = stack })
          else rest
    ]

-- FindInternal
unfoldable pub find_internal : ℕ → Tree → ℕ → Option Found
find_internal fuel t key = t.nodes root >>= λ r. find_from fuel t.nodes key root r.left []

-- Find
unfoldable pub find : ℕ → Tree → ℕ → Option (Option ℕ)
find fuel t key = find_internal fuel t key >>= λ f. some (if f.curr == 0 then none else some f.curr)

unfoldable pub set_left : (ℕ → Option Node) → ℕ → ℕ → Option (ℕ → Option Node)
set_left nodes p child = nodes p >>= λ n. some (update nodes p (some (record n { left = child })))

unfoldable pub set_right : (ℕ → Option Node) → ℕ → ℕ → Option (ℕ → Option Node)
set_right nodes p child = nodes p >>= λ n. some (update nodes p (some (record n { right = child })))

-- InsertInternal, with the pointer to the new node.
unfoldable pub insert_internal : Tree → ℕ → ℕ → ℕ → ℕ → Option (ℕ × Tree)
insert_internal t key value metadata parent =
    let fresh : Node = record {
      key = key;
      value = value;
      metadata = metadata;
      left = 0;
      right = 0;
    } in
    let nodes = update t.nodes t.next (some fresh) in
    nodes parent >>= λ p.
    (if parent == root
      then set_left nodes parent t.next
      else (if ltb key p.key then set_left nodes parent t.next else set_right nodes parent t.next))
    >>= λ linked. some (t.next, record t { nodes = linked; next = t.next + 1; size = t.size + 1 })

-- set_metadata of the node at a pointer.
abbrev pub set_metadata : (ℕ → Option Node) → ℕ → ℕ → ℕ → Option Node
set_metadata nodes p x =
    update nodes p (elim (nodes p) [ none ↦ none | some n ↦ some (record n { metadata = x }) ])

-- The loops that call the visitor on the nodes of the stack, one after the other.
unfoldable pub visit_all :
    ((ℕ → Option Node) → ℕ → ℕ) → List ℕ → (ℕ → Option Node) → ℕ → Option Node
visit_all call [] nodes = nodes
visit_all call (p ∷ stack) nodes = visit_all call stack (set_metadata nodes p (call nodes p))

-- Where the key is absent: the insertion of Insert and of InsertOrUpdate.
unfoldable pub insert_new : Visitor → Tree → ℕ → ℕ → ℕ → Found → Option Tree
insert_new v t key value metadata f = insert_internal t key value metadata f.parent >>= λ r.
    some (record r.1 { nodes = visit_all v.on_insert (r.0 ∷ f.stack) r.1.nodes })

-- Insert
unfoldable pub insert : Visitor → ℕ → Tree → ℕ → ℕ → ℕ → Option (Bool × Tree)
insert v fuel t key value metadata = find_internal fuel t key >>= λ f.
    if f.curr == 0
    then (insert_new v t key value metadata f >>= λ t'. some (true, t'))
    else some (false, t)

-- InsertOrUpdate
unfoldable pub insert_or_update : Visitor → ℕ → Tree → ℕ → ℕ → ℕ → Option Tree
insert_or_update v fuel t key value metadata = find_internal fuel t key >>= λ f.
    if f.curr == 0
    then insert_new v t key value metadata f
    else (t.nodes f.curr >>= λ n.
        let (x, d) = v.change t.nodes f.curr value metadata in
        let changed = update t.nodes f.curr (some (record n { value = x; metadata = d })) in
        some (record t { nodes = visit_all v.on_update f.stack changed }))

-- ReplaceChild
unfoldable pub replace_child : (ℕ → Option Node) → ℕ → ℕ → ℕ → Option (ℕ → Option Node)
replace_child nodes parent child new_node = nodes parent >>= λ p.
    if p.left == child
    then set_left nodes parent new_node
    else (if p.right == child then set_right nodes parent new_node else none)

-- The loop of FindSuccessors.
unfoldable pub leftmost : ℕ → (ℕ → Option Node) → ℕ → Option ℕ
leftmost zero nodes curr = none
leftmost (suc fuel) nodes curr = elim (nodes curr) [
  | none ↦ none
  | some n ↦ let rest = leftmost fuel nodes n.left in if n.left == 0 then some curr else rest
]

-- FindSuccessors. The parent stays where the search starts.
unfoldable pub find_successors : ℕ → (ℕ → Option Node) → ℕ → Option (ℕ × ℕ)
find_successors fuel nodes curr =
    if curr == 0
    then some (0, 0)
    else (nodes curr >>= λ n.
        if n.right == 0
        then some (curr, 0)
        else (leftmost fuel nodes n.right >>= λ s. some (curr, s)))

-- Remove, on the pointers: the node `f` is unlinked from its parent.
unfoldable pub unlink : ℕ → (ℕ → Option Node) → ℕ → ℕ → Option (ℕ → Option Node)
unlink fuel nodes parent f = find_successors fuel nodes f >>= λ s.
    if s.1 == 0
    then replace_child nodes parent f 0
    else (nodes f >>= λ n. nodes s.1 >>= λ c.
        (if s.0 == f then some nodes else set_left nodes s.0 c.right) >>= λ nodes₁.
        nodes₁ f >>= λ n₁. set_left nodes₁ s.1 n₁.left >>= λ nodes₂. nodes₂ f >>= λ n₂.
        set_right nodes₂ s.1 n₂.right >>= λ nodes₃. replace_child nodes₃ parent f s.1)

-- Remove. The node is freed at the end.
unfoldable pub remove : Visitor → ℕ → Tree → ℕ → Option (Bool × Tree)
remove v fuel t key = find_internal fuel t key >>= λ f.
    if f.curr == 0
    then some (false, t)
    else (unlink fuel t.nodes f.parent f.curr >>= λ nodes. some (
      true,
      record t {
        nodes = update (visit_all v.on_remove f.stack nodes) f.curr none;
        size = t.size - 1;
      },
    ))

-- Clear
unfoldable pub clear : Tree → Option Tree
clear t = t.nodes root >>= λ r. set_left t.nodes root 0 >>= λ nodes.
    some (record t { nodes = nodes; size = 0; cleared = t.cleared ++ r.left ∷ [] })
