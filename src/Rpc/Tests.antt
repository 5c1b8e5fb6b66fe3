-- ===== src/Rpc/Tests.antt =====
-- Two machines that share the keys from 0 to 100, with empty tables.
use rabia_sandbox.Base.{ℕ, none, some, ◌≡◌, inr, refl, arith, ◌==◌, ==_iff, ◌>>=◌}
use rabia_sandbox.Iht.Key.{Key}
use rabia_sandbox.Iht.Local.{Node, null, plist, e_unlocked, get, insert}
use rabia_sandbox.Iht.Local.Invariant.{IsTable, IsBucket}
use rabia_sandbox.Iht.Local.Insert.{kept, load, levels}
use rabia_sandbox.Rpc.{
  Keyspace, to_id, own, rpc_get, rpc_insert, rpc_remove, elist_size, ask, handle, insert_result,
}
use rabia_sandbox.Rpc.Map.{shared_view, SharedBecomes, rpc_insert-view, rpc_remove-view}

instance abbrev nat_key : Key ℕ
nat_key = record { equal = ◌==◌; equal_iff = ==_iff; hash = λ k. k }

abbrev pair : Keyspace
pair = record { count = 2; keyspace_lb = 0; keyspace_len = 100 }

abbrev empty : ℕ → Node ℕ ℕ
empty i = plist (λ j. null) (λ j. e_unlocked)

empty-IsTable : (j : ℕ) → IsTable elist_size (empty j)
unfolding IsBucket
empty-IsTable j i = tt

owner_runs : to_id pair 70 ≡ some 1
unfolding to_id
owner_runs = refl

-- The first machine inserts a key of the second, which then reads it.
travels :
    (rpc_insert pair 0 3 0 70 5 empty >>= λ r. rpc_get pair 1 3 0 70 r.0 >>= λ s. some s.1)
    ≡ some (some 5)
unfolding rpc_insert rpc_get to_id ask own insert get handle insert_result
travels = refl

rpc_remove-view_example :
    (tables' : ℕ → Node ℕ ℕ) × (rpc_remove pair 0 3 0 70 empty
      ≡ some (tables', shared_view pair empty 70))
    × ((j : ℕ) → IsTable elist_size (tables' j))
    × SharedBecomes pair empty tables' 70 none
rpc_remove-view_example = rpc_remove-view pair 0 3 0 70 1 empty empty-IsTable owner_runs

rpc_insert-view_example :
    (tables' : ℕ → Node ℕ ℕ) × (rpc_insert pair 0 3 0 70 5 empty
      ≡ some (tables', shared_view pair empty 70))
    × ((j : ℕ) → IsTable elist_size (tables' j))
    × SharedBecomes pair empty tables' 70 (some (kept (shared_view pair empty 70) 5))
unfolding levels load
rpc_insert-view_example =
    rpc_insert-view pair 0 3 0 70 5 1 empty empty-IsTable owner_runs (omega arith)
      (inr (omega arith))
