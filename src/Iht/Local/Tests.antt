-- ===== src/Iht/Local/Tests.antt =====
-- Tables with lists of two pairs and four buckets at the root, the keys their own hashes.
use rabia_sandbox.Base.{
  ℕ, ◌≡◌, refl, Option, none, some, [], ◌∷◌, ◌==◌, ==_iff, arith, ◌>>=◌, update, inr, if◌then◌else◌,
}
use rabia_sandbox.Iht.Key.{Key}
use rabia_sandbox.Iht.Elist.{EList}
use rabia_sandbox.Iht.Elist.Laws.{IsUnique, count_key, lookup}
use rabia_sandbox.Iht.Local.{
  Node, null, elist, plist, e_unlocked, make, get, remove, insert, level_hash,
}
use rabia_sandbox.Iht.Local.Invariant.{view, IsBucket, IsTable}
use rabia_sandbox.Iht.Local.Methods.{Becomes, IsTable-update, get-view, remove-view}
use rabia_sandbox.Iht.Local.Insert.{kept, load, levels, insert-view}
use rabia_sandbox.Iht.Local.Rehash.{Rehashes, insert-rehash}

instance abbrev nat_key : Key ℕ
nat_key = record { equal = ◌==◌; equal_iff = ==_iff; hash = λ k. k }

-- The keys 0, 4 and 10 share bucket 3 of the root; the third insert rehashes, and 0 is lost.
abbrev session : Option (Option ℕ × Option ℕ)
session = do
  a ← insert {K = ℕ} {V = ℕ} 9 2 make 0 5 1 4
  b ← insert 9 2 a.0 4 6 1 4
  c ← insert 9 2 b.0 10 7 1 4
  first ← get c.0 0 1 4
  third ← get c.0 10 1 4
  some (first.1, third.1)

insert_loses : session ≡ some (none, some 7)
unfolding insert make get
insert_loses = refl

insert_twice :
    (insert {K = ℕ} {V = ℕ} 9 2 make 0 5 1 4 >>= λ r. insert 9 2 r.0 0 6 1 4 >>= λ s. some s.1)
    ≡ some (some 5)
unfolding insert make
insert_twice = refl

abbrev pair_list : EList ℕ ℕ
pair_list = (0, 5) ∷ (4, 6) ∷ []

abbrev pairs_table : Node ℕ ℕ
pairs_table = plist (update (λ i. null) 3 (elist pair_list)) (λ i. e_unlocked)

pair_list-IsUnique : IsUnique pair_list
unfolding count_key
pair_list-IsUnique q = ground arith

pairs_table-IsTable : IsTable 2 pairs_table
unfolding IsBucket
pairs_table-IsTable =
    IsTable-update 2 (λ i. null) (λ i. e_unlocked) 3 (elist pair_list) (λ i. tt)
      (pair_list-IsUnique, omega arith)

get-view_example : get pairs_table 4 1 4 ≡ some (pairs_table, view pairs_table 4 1 4)
get-view_example = get-view 2 pairs_table 4 1 4 pairs_table-IsTable

remove-view_example :
    (t' : Node ℕ ℕ) × (remove pairs_table 4 1 4 ≡ some (t', view pairs_table 4 1 4))
    × IsTable 2 t'
    × Becomes pairs_table t' 4 none 1 4
remove-view_example = remove-view 2 pairs_table 4 1 4 pairs_table-IsTable

insert-view_example :
    (t' : Node ℕ ℕ) × (insert 1 2 pairs_table 2 8 1 4 ≡ some (t', view pairs_table 2 1 4))
    × IsTable 2 t'
    × Becomes pairs_table t' 2 (some (kept (view pairs_table 2 1 4) 8)) 1 4
unfolding load levels level_hash
insert-view_example =
    insert-view 1 2 pairs_table 2 8 1 4 (omega arith) (omega arith) pairs_table-IsTable
      (inr (omega arith))

insert-rehash_example :
    Rehashes 1 2 (λ i. if i == 3 then elist pair_list else null) (λ i. e_unlocked) 10 7 1 4 3
unfolding level_hash lookup
insert-rehash_example =
    insert-rehash 1 2 (λ i. if i == 3 then elist pair_list else null) (λ i. e_unlocked) 10 7 1 4 3
      pair_list refl refl refl refl (omega arith) (refl, (refl, tt))
