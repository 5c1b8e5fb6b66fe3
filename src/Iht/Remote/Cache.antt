-- ===== src/Iht/Remote/Cache.antt =====
-- The PList cache of RdmaIHT. A path is the buckets on the way from the root, before the first -1.
use rabia_sandbox.Base.{
  ℕ, zero, suc, ◌+◌, ◌-◌, ◌*◌, ◌≤◌, List, [], ◌∷◌, Option, none, some, Bool, true, false, ◌==◌,
  if◌then◌else◌, update, ◌≡◌, refl, ap, arith, ◌∙◌,
}
use rabia_sandbox.Iht.Remote.Store.{Bucket, p_unlocked}

-- `cache_depth` is the first layer that is not cached; `layers` are the cached PLists of each layer.
pub record Caches : Type 0 where
  pub cache_depth : ℕ
  pub is_cached : ℕ → ℕ → Bool
  pub layers : ℕ → ℕ → ℕ → Bucket

-- `sizes`, for PLists of `size` buckets at the root.
abbrev pub sizes : ℕ → ℕ → ℕ
sizes size zero = 1
sizes size (suc zero) = size
sizes size (suc (suc i)) = 2 * size * size

-- The loop of fetch_cache and try_cache from layer `i` on: the layer, the slot in it, and the count of
-- buckets, or nothing beyond the layers that are cached.
unfoldable pub cache_slot : ℕ → Caches → ℕ → ℕ → ℕ → List ℕ → Option (ℕ × ℕ × ℕ)
cache_slot size c i slot count [] = if i == c.cache_depth then none else some (i, slot, count)
cache_slot size c i slot count (b ∷ path) =
    let rest = cache_slot size c (i + 1) (slot * sizes size i + b) (count * 2) path in
    if i == c.cache_depth then none else rest

unfoldable pub fetch_cache : ℕ → Caches → List ℕ → Option (ℕ → Bucket)
fetch_cache size c path = elim (cache_slot size c 0 0 size path) [
  | none ↦ none
  | some (i, slot, count) ↦ if c.is_cached i slot then some (c.layers i slot) else none
]

-- The loop that tests whether the first `n` buckets are calcified.
unfoldable pub all_calcified : (ℕ → Bucket) → ℕ → Bool
all_calcified t zero = true
all_calcified t (suc n) = if all_calcified t n then (t n).lock == p_unlocked else false

-- try_cache: whether it was cached, and the cache afterwards.
unfoldable pub try_cache : ℕ → Caches → (ℕ → Bucket) → List ℕ → Bool × Caches
try_cache size c t path = elim (cache_slot size c 0 0 size path) [
  | none ↦ (false, c)
  | some (i, slot, count) ↦
      if c.is_cached i slot
      then (false, c)
      else (if all_calcified t (count - 1)
          then (
            true,
            record c {
              layers = update c.layers i (update (c.layers i) slot t);
              is_cached = update c.is_cached i (update (c.is_cached i) slot true);
            },
          )
          else (false, c))
]

two_layers :
    (size : ℕ) (c : Caches) (b₀ b₁ : ℕ)
    → 3 ≤ c.cache_depth
    → cache_slot size c 0 0 size (b₀ ∷ b₁ ∷ []) ≡ some (2, b₀ * size + b₁, size * 2 * 2)
unfolding cache_slot
two_layers size c b₀ b₁ deep =
    let first : (0 == c.cache_depth) ≡ false = ground arith in
    let second : (1 == c.cache_depth) ≡ false = ground arith in
    let third : (2 == c.cache_depth) ≡ false = ground arith in
    let slot : (0 * 1 + b₀) * size + b₁ ≡ b₀ * size + b₁ = omega arith in
    rw (first, second, third, slot) refl

abbrev with_cached : Caches → (ℕ → Bucket) → ℕ → ℕ → Caches
with_cached c t i slot = record c {
  layers = update c.layers i (update (c.layers i) slot t);
  is_cached = update c.is_cached i (update (c.is_cached i) slot true);
}

try_cache_runs :
    (size : ℕ) (c : Caches) (t : ℕ → Bucket) (path : List ℕ) (i slot count : ℕ)
    → cache_slot size c 0 0 size path ≡ some (i, slot, count)
    → c.is_cached i slot ≡ false
    → all_calcified t (count - 1) ≡ true
    → try_cache size c t path ≡ (true, with_cached c t i slot)
unfolding try_cache
try_cache_runs size c t path i slot count at empty calc = ground (arith, at, empty, calc)

fetch_cached :
    (size : ℕ) (c : Caches) (t : ℕ → Bucket) (path : List ℕ) (i slot count : ℕ)
    → cache_slot size (with_cached c t i slot) 0 0 size path ≡ some (i, slot, count)
    → fetch_cache size (with_cached c t i slot) path ≡ some t
unfolding fetch_cache
fetch_cached size c t path i slot count at = ground (arith, at)

-- The slot of the path `n₁`, `n₂` has no room for the buckets of the second layer, which are twice as
-- many as those of the first. With three layers cached, a calcified PList that is cached at `n₁`,
-- `size + n₂` where nothing is cached yet is what is found at the path `n₁ + 1`, `n₂`.
pub try_cache_collides :
    (size : ℕ) (c : Caches) (t : ℕ → Bucket) (n₁ n₂ : ℕ)
    → 3 ≤ c.cache_depth
    → c.is_cached 2 (n₁ * size + (size + n₂)) ≡ false
    → all_calcified t (size * 2 * 2 - 1) ≡ true
    → ((try_cache size c t (n₁ ∷ (size + n₂) ∷ [])).0 ≡ true)
      × (fetch_cache size (try_cache size c t (n₁ ∷ (size + n₂) ∷ [])).1 ((n₁ + 1) ∷ n₂ ∷ [])
          ≡ some t)
try_cache_collides size c t n₁ n₂ deep empty calc =
    let slot = n₁ * size + (size + n₂) in
    let same : (n₁ + 1) * size + n₂ ≡ slot = ground arith in
    let path : List ℕ = (n₁ + 1) ∷ n₂ ∷ [] in
    let runs =
      try_cache_runs size c t (n₁ ∷ (size + n₂) ∷ []) 2 slot (size * 2 * 2)
        (two_layers size c n₁ (size + n₂) deep) empty calc in
    let found = fetch_cached size c t path 2 slot (size * 2 * 2) (
      two_layers size (with_cached c t 2 slot) (n₁ + 1) n₂ deep
      ∙ ap (λ (x : ℕ). some (2, x, size * 2 * 2)) same) in
    (
      ap (λ (r : Bool × Caches). r.0) runs,
      ap (λ (r : Bool × Caches). fetch_cache size r.1 path) runs ∙ found,
    )
