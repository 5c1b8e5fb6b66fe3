-- ===== src/Iht/Remote/Tests.antt =====
-- A table of four buckets at the root, in memory. Bucket 0 leads to a PList of eight, where the list of
-- the key 7 stands. The keys are their own hashes.
use rabia_sandbox.Base.{
  sym, ap, ◌∙◌, ◌<◌, ◌≢◌, ◌*◌, ℕ, ◌+◌, ◌≡◌, refl, Option, none, some, Bool, true, false, [], ◌∷◌,
  ◌==◌, ==_iff, arith, update, inl, inr, if◌then◌else◌, ◌⊎◌, ltb,
}
use rabia_sandbox.Iht.Key.{Key}
use rabia_sandbox.Iht.Elist.Laws.{lookup, count_key, IsUnique}
use rabia_sandbox.Iht.Remote.{level_hash, contains, remove, insert, insert_apply, descend}
use rabia_sandbox.Iht.Remote.Store.{Bucket, Memory, e_locked, e_unlocked, p_unlocked}
use rabia_sandbox.Iht.Remote.Cache.{Caches}
use rabia_sandbox.Iht.Remote.Reads.{Reads, stop, down, rounds, load, sift, context}
use rabia_sandbox.Iht.Remote.Writes.{IsMap}
use rabia_sandbox.Iht.Remote.Methods.{contains-IsMap, remove-IsMap}
use rabia_sandbox.Iht.Remote.Insert.{kept}
use rabia_sandbox.Iht.Remote.Tree.{IsTree}
use rabia_sandbox.Iht.Elist.Parts.{part}
use rabia_sandbox.Iht.Remote.Init.{unused, init_as_first, init_as_first-IsMap}
use rabia_sandbox.Iht.Remote.Race.{lost_update}
use rabia_sandbox.Iht.Remote.Locks.{
  win, begin, walking, spinning, holding, pick, Locking, start, turn, holding_exclusive,
  never_abandoned, calcified_forever,
}
use rabia_sandbox.Iht.Remote.Total.{insert-IsMap}

instance abbrev nat_key : Key ℕ
nat_key = record { equal = ◌==◌; equal_iff = ==_iff; hash = λ k. k }

abbrev null_bucket : Bucket
null_bucket = record { base = 0; lock = e_unlocked }

abbrev root_plist : ℕ → Bucket
root_plist = update (λ i. null_bucket) 0 (record { base = 2; lock = p_unlocked })

abbrev lower_plist : ℕ → Bucket
lower_plist = update (λ i. null_bucket) 5 (record { base = 3; lock = e_unlocked })

abbrev small : Memory ℕ ℕ
small = record {
  plists = update (update (λ q. none) 2 (some lower_plist)) 1 (some root_plist);
  elists = update (λ q. none) 3 (some ((7, 70) ∷ []));
  fresh = 4;
}

abbrev small_map : ℕ → Option ℕ
small_map k =
    if level_hash k 1 4 == 0
    then (if level_hash k 2 8 == 5 then lookup k ((7, 70) ∷ []) else none)
    else none

either : (b : Bool) → (b ≡ true) ⊎ (b ≡ false)
either true = inl refl
either false = inr refl

one-IsUnique : IsUnique {K = ℕ} {V = ℕ} ((7, 70) ∷ [])
unfolding count_key
one-IsUnique q = ground arith

small-reads : (k : ℕ) → Reads 1 small k (small_map k) 1 1 4
small-reads k = elim (either (level_hash k 1 4 == 0)) [
  | inr away ↦ stop root_plist refl (rw away refl) (inl (rw away refl, rw away refl))
  | inl here ↦ elim (either (level_hash k 2 8 == 5)) [
    | inl hit ↦ down root_plist refl (rw here refl) (
        stop lower_plist (rw here refl) (rw hit refl) (
          inr (
            (7, 70) ∷ [],
            rw hit (omega arith),
            rw hit refl,
            one-IsUnique,
            omega arith,
            rw (here, hit) refl,
          )))
    | inr miss ↦
        down root_plist refl (rw here refl) (
          stop lower_plist (rw here refl) (rw miss refl) (inl (rw miss refl, rw (here, miss) refl)))
  ]
]

small-IsMap : IsMap 1 1 4 small small_map
small-IsMap = record {
  reads = small-reads;
  fresh = λ q le. (ground arith, ground arith);
  null = omega arith;
}

plist_view :
    (p : ℕ) (t : ℕ → Bucket)
    → small.plists p ≡ some t
    → ((p ≡ 1) × (t ≡ root_plist)) ⊎ ((p ≡ 2) × (t ≡ lower_plist))
plist_view p t mem = elim (either (p == 1)) [
  | inl first ↦
      let at : p ≡ 1 = (==_iff p 1).0 first in
      let there : small.plists p ≡ some root_plist = rw first refl in inl (at, cc)
  | inr other ↦ elim (either (p == 2)) [
    | inl second ↦
        let at : p ≡ 2 = (==_iff p 2).0 second in
        let there : small.plists p ≡ some lower_plist = rw (other, second) refl in inr (at, cc)
    | inr neither ↦ let gone : small.plists p ≡ none = rw (other, neither) refl in cc
  ]
]

-- A bucket is null, or one of the two that are not.
bucket_view :
    (p : ℕ) (t : ℕ → Bucket) (b : ℕ)
    → small.plists p ≡ some t
    → (t b ≡ null_bucket)
      ⊎ (((p ≡ 1) × (b ≡ 0) × (t b ≡ record { base = 2; lock = p_unlocked }))
          ⊎ ((p ≡ 2) × (b ≡ 5) × (t b ≡ record { base = 3; lock = e_unlocked })))
bucket_view p t b mem = elim (plist_view p t mem) [
  | inl (at, is) ↦
      let bucket : t b ≡ root_plist b = ap (λ (f : ℕ → Bucket). f b) is in
      elim (either (b == 0)) [
        | inl hit ↦ inr (inl (at, (==_iff b 0).0 hit, bucket ∙ rw hit refl))
        | inr miss ↦ inl (bucket ∙ rw miss refl)
      ]
  | inr (at, is) ↦
      let bucket : t b ≡ lower_plist b = ap (λ (f : ℕ → Bucket). f b) is in
      elim (either (b == 5)) [
        | inl hit ↦ inr (inr (at, (==_iff b 5).0 hit, bucket ∙ rw hit refl))
        | inr miss ↦ inl (bucket ∙ rw miss refl)
      ]
]

small-IsTree : IsTree 1 4 small
small-IsTree = record {
  depths = update (λ q. 1) 2 2;
  counts = update (λ q. 4) 2 8;
  top = (refl, refl);
  rooted = omega arith;
  deepens = λ p t b mem calc. elim (bucket_view p t b mem) [
    | inl null ↦ absurd (ground arith)
    | inr (inl (at, _, is)) ↦ rw (is, at) (refl, refl)
    | inr (inr (_, _, is)) ↦ absurd (ground arith)
  ];
  single = λ p q t u b c mem mem' free free' nz same. elim (bucket_view p t b mem) [
    | inl null ↦ absurd (ground arith)
    | inr (inl (_, _, is)) ↦ absurd (ground arith)
    | inr (inr (at, slot, is)) ↦ elim (bucket_view q u c mem') [
      | inl null ↦ absurd (ground arith)
      | inr (inl (_, _, is')) ↦ absurd (ground arith)
      | inr (inr (at', slot', is')) ↦ (at ∙ sym at', slot ∙ sym slot')
    ]
  ];
  known = λ p t b mem. elim (bucket_view p t b mem) [
    | inl null ↦ ground arith
    | inr (inl (_, _, is)) ↦ ground arith
    | inr (inr (_, _, is)) ↦ ground arith
  ];
}

contains-IsMap_example :
    contains (rounds (small-IsMap.reads 7) 2) 1 4 7 small ≡ some (small, small_map 7)
contains-IsMap_example = contains-IsMap 1 1 4 small small_map small-IsMap 7 0

found : small_map 7 ≡ some 70
unfolding level_hash lookup
found = refl

remove-IsMap_example :
    (m' : Memory ℕ ℕ) × (remove (rounds (small-IsMap.reads 7) 2) 1 4 7 small
      ≡ some (m', small_map 7))
    × IsMap 1 1 4 m' (λ q. if 7 == q then none else small_map q)
    × IsTree 1 4 m'
remove-IsMap_example = remove-IsMap 1 1 4 small small_map small-IsMap 7 0 small-IsTree

-- The list of the key 7 is full with lists of one pair. The key 50 goes its way once more, and not through
-- the PList that the list becomes.
insert-IsMap_example :
    (m' : Memory ℕ ℕ) × (insert
        (λ q. true)
        (rounds (small-IsMap.reads 50) (1 + 1 + (1 * 2 + 0)))
        1
        4
        1
        50
        9
        small
      ≡ some (m', small_map 50))
    × IsMap 1 1 4 m' (λ q. if 50 == q then some (kept (small_map 50) 9) else small_map q)
    × IsTree 1 4 m'
unfolding level_hash load sift part small-IsMap small-reads either
insert-IsMap_example =
    insert-IsMap (λ q. true) 1 1 4 small small_map small-IsMap 50 9 1 0 small-IsTree (omega arith)
      (inr (omega arith))

-- The keys 4 and 6 meet in a null bucket of the root.
lost_update_example :
    (m₁ m₂ : Memory ℕ ℕ) × (insert (λ q. true) 2 1 4 2 4 80 small ≡ some (m₁, none))
    × (insert (λ q. true) 2 1 4 2 6 90 small
        ≡ descend 2 6 (insert_apply (λ q. true) 2 6 90) small (context none 0 0 1 1 4 root_plist))
    × (descend 2 6 (insert_apply (λ q. true) 2 6 90) m₁ (context none 0 0 1 1 4 root_plist)
        ≡ some (m₂, none))
    × (contains 2 1 4 4 m₂ ≡ some (m₂, none))
    × (contains 2 1 4 6 m₂ ≡ some (m₂, some 90))
unfolding level_hash
lost_update_example =
    lost_update (λ q. true) 2 1 4 small root_plist 4 6 80 90 0 (omega arith) (omega arith) refl refl
      refl refl

-- Two clients at the bucket 2: the first holds its lock, and the second spins.
abbrev all_free : ℕ → ℕ
all_free a = e_unlocked

one_holder : Locking 2 (record {
  locks = update all_free 2 e_locked;
  pc = update (update (update (λ i. walking) 0 (spinning 2)) 0 (holding 2)) 1 (spinning 2);
})
one_holder =
    turn
      (turn (turn (start all_free (λ a. inl refl)) (pick 0 (omega arith) (begin 2)))
        (pick 0 (omega arith) (win refl)))
      (pick 1 (omega arith) (begin 2))

holding_exclusive_example : (◌≡◌ {A = ℕ} 0 0) × (update all_free 2 e_locked 2 ≡ e_locked)
holding_exclusive_example =
    holding_exclusive 2 _ 0 0 2 one_holder (omega arith) (omega arith) refl refl

never_abandoned_example :
    ((update all_free 2 e_locked 2 ≡ e_unlocked) ⊎ (update all_free 2 e_locked 2 ≡ p_unlocked))
    ⊎ ((j : ℕ) × (j < 2)
        × (update (update (update (λ i. walking) 0 (spinning 2)) 0 (holding 2)) 1 (spinning 2) j
            ≡ holding 2))
never_abandoned_example = never_abandoned 2 _ 2 one_holder

abbrev below_locks : ℕ → ℕ
below_locks a = p_unlocked

calcified_forever_example : (below_locks 2 ≡ p_unlocked) × ((i : ℕ) → i < 2 → walking ≢ holding 2)
calcified_forever_example =
    calcified_forever 2 _ _ 2 (start below_locks (λ a. inr refl)) (pick 0 (omega arith) (begin 2))
      refl

abbrev nothing : Memory ℕ ℕ
nothing = record { plists = λ q. none; elists = λ q. none; fresh = 1 }

-- Memory with something in it, for a PList of four pairs.
abbrev used_before : ℕ → Bucket
used_before i = if ltb i 4 then record { base = 7; lock = p_unlocked } else unused

init_as_first-IsMap_example :
    IsMap 2
      (init_as_first 4 used_before nothing).0
      4
      (init_as_first 4 used_before nothing).1
      (λ k. none)
    × IsTree (init_as_first 4 used_before nothing).0 4 (init_as_first 4 used_before nothing).1
init_as_first-IsMap_example =
    init_as_first-IsMap 2 4 used_before nothing (λ i le. ground arith) (λ q. refl) (λ q le. refl)
      (omega arith)

abbrev no_caches : Caches
no_caches = record { cache_depth = 3; is_cached = λ i j. false; layers = λ i j k. null_bucket }

abbrev calcified : ℕ → Bucket
calcified i = record { base = 9; lock = p_unlocked }
