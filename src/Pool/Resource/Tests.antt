-- ===== src/Pool/Resource/Tests.antt =====
-- An allocator of 4096 bytes, fresh, and with one slab cut from its top and freed.
use rabia_sandbox.Base.{ℕ, ◌+◌, ◌*◌, ◌/◌, ◌^◌, [], some, ◌≡◌, ◌⊎◌, ◌>>=◌, inl, refl, arith}
use rabia_sandbox.Pool.Log.{log_table, lower_log2, upper_log2}
use rabia_sandbox.Pool.Resource.{
  Resource, slab_class, slab_index, allocate, allocate_slab, bump, do_allocate, deallocate,
}
use rabia_sandbox.Pool.Resource.Laws.{IsResource, slab_size}
use rabia_sandbox.Pool.Resource.Methods.{FromTop, NoRoom, Again, allocate-IsResource}
use rabia_sandbox.Pool.Resource.Reuse.{reuse_overwrites}

abbrev small : Resource
small = record {
  raw = 2 ^ 21;
  head = 2 ^ 21 + 4096;
  alignments = λ i. 0;
  freelists = λ i. [];
  memory = λ i. 7;
}

small-IsResource : IsResource small
small-IsResource = record {
  aligned = λ i. tt;
  marked = λ i. inl (refl, refl);
  head_word = omega arith;
  low = omega arith;
  room = omega arith;
}

allocate_runs : (do r ← allocate small 192 1; some r.0) ≡ some (2 ^ 21 + 3904)
unfolding allocate do_allocate allocate_slab bump slab_index slab_class upper_log2 lower_log2
    log_table
allocate_runs = refl

allocate-IsResource_example :
    (p : ℕ) × (r' : Resource) × (allocate small 192 2 ≡ some (p, r'))
    × IsResource r'
    × (Again small (slab_size 192 2) p r'
        ⊎ FromTop small (slab_size 192 2) p r'
        ⊎ NoRoom small (slab_size 192 2) p r')
allocate-IsResource_example = allocate-IsResource small 192 2 small-IsResource (omega arith)

reuse_overwrites_example :
    (p : ℕ) × (r₁ : Resource) × (r₂ : Resource) × (allocate small 192 1 ≡ some (p, r₁))
    × (p + 192 * 1 ≡ small.head / 64 * 64)
    × (allocate (deallocate r₁ p 192 1) 192 1 ≡ some (p, r₂))
    × (r₂.memory (p + 192 * 1) ≡ 0)
unfolding slab_class upper_log2 lower_log2 log_table
reuse_overwrites_example =
    reuse_overwrites small 192 1 small-IsResource (omega arith) (omega arith) (omega arith) refl
      (omega arith)
