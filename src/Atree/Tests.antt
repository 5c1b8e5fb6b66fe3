-- ===== src/Atree/Tests.antt =====
-- A tree that is empty, and two of two nodes.
use rabia_sandbox.Base.{
  ℕ, ◌+◌, [], Option, none, some, Bool, true, false, ◌==◌, if◌then◌else◌, update, ◌≡◌, ◌≢◌, ◌⊎◌,
  refl, arith,
}
use rabia_sandbox.Atree.{Node, Tree, Visitor, find_from, find_internal, find, insert, remove, root}
use rabia_sandbox.Atree.Insertion.{IsTree, view}
use rabia_sandbox.Atree.Mapping.{insert-entry}
use rabia_sandbox.Atree.Removal.{remove_loops}

abbrev top : Node
top = record { key = 0; value = 0; metadata = 0; left = 0; right = 0 }

abbrev empty : Tree
empty = record { nodes = update (λ x. none) 1 (some top); next = 2; size = 0; cleared = [] }

empty-IsTree : IsTree 1 empty
unfolding find_internal find_from
empty-IsTree = record {
  top = top;
  rooted = refl;
  free = λ x le. ground (arith, le);
  low = omega arith;
  apart = λ x n here. ground (arith, here);
  ends = λ q. (record { parent = root; curr = 0; stack = [] }, refl);
}

-- CountTraversalsVisitor
abbrev count : (ℕ → Option Node) → ℕ → ℕ
count nodes p = elim (nodes p) [ none ↦ 0 | some n ↦ n.metadata + 1 ]

abbrev counting : Visitor
counting = record {
  on_insert = count;
  on_update = count;
  on_remove = count;
  change = λ nodes p value metadata. (value, metadata);
}

insert-entry_example :
    (b : Bool) × (t' : Tree) × (insert counting 1 empty 5 50 7 ≡ some (b, t'))
    × IsTree 2 t'
    × (((view 1 empty 5 ≡ some none)
          × (b ≡ true)
          × (t'.size ≡ empty.size + 1)
          × ((q : ℕ) → view 2 t' q ≡ (if q == 5 then some (some 50) else view 1 empty q)))
        ⊎ ((view 1 empty 5 ≢ some none) × (b ≡ false) × (t' ≡ empty)))
insert-entry_example = insert-entry counting 1 empty 5 50 7 empty-IsTree

abbrev five : Node
five = record { key = 5; value = 50; metadata = 0; left = 3; right = 0 }

-- 8 is the right child of 5.
abbrev eight : Node
eight = record { key = 8; value = 80; metadata = 0; left = 0; right = 0 }

abbrev other_way : Tree
other_way = record empty {
  nodes =
      update
        (update (update (λ x. none) 1 (some (record top { left = 2 }))) 2
          (some (record five { left = 0; right = 3 })))
        3 (some eight);
  next = 4;
  size = 2;
}

remove_loops_example :
    (t' : Tree) × (remove counting 4 other_way 5 ≡ some (true, t'))
    × ((fuel' : ℕ) → find fuel' t' 9 ≡ none)
remove_loops_example =
    remove_loops counting 3 other_way 2 3 9 (record top { left = 2 })
      (record five { left = 0; right = 3 }) eight
      (record { rooted = refl; child = refl; real = refl; below = refl; here = refl }) refl refl
      (λ e. omega arith) (λ e. omega arith) refl refl (omega arith)
